-- ===== src/Connections/Steps.antt =====
-- Runs of the manager: any sequence of its locked sections. What each section keeps, every run keeps.
use samsarix_chat_engine.Base.{
  ℕ, Bool, true, false, not, ◌≡◌, Option, none, some, List, [], ◌∷◌, ◌++◌, Bool-cases, Option-cases,
  inl, inr, if◌then◌else◌,
}
use samsarix_chat_engine.Store.Tables.{Text}
use samsarix_chat_engine.Connections.{
  PendingEvent, ConnectionMetadata, ManagerLimits, ConnectionManager, initial, find_connection,
  Registration, register, detach_connection, Broadcast, overflows, Round, buffer_event,
  is_addressed, offer, broadcast, begin_send, finish_send, detach_all, detach_room_connections,
  close_all, queue_event,
}

abbrev pub start_of_round : ConnectionManager → Round
start_of_round m = record { recipients = []; overflow = []; manager = m }

-- One locked section of some coroutine.
pub data Step (l : ManagerLimits) (admin : Text)
    : ConnectionManager → ConnectionManager → Type 0 where
  registers :
      (m : ConnectionManager) (r : Registration) (admitted : Bool)
      → Step l admin m (register l r admitted m).1
  detaches : (m : ConnectionManager) (s : ℕ) → Step l admin m (detach_connection s m).1
  broadcasts :
      (m : ConnectionManager) (b : Broadcast) (visited : List ℕ)
      → Step l admin m (broadcast l admin b visited (start_of_round m)).manager
  begins : (m : ConnectionManager) (s ident : ℕ) → Step l admin m (begin_send s ident m).1
  finishes : (m : ConnectionManager) (ident : ℕ) → Step l admin m (finish_send ident m)
  closes_room :
      (m : ConnectionManager) (room : Text) (subject : Option Text) (sequence : Option ℕ)
      → Step l admin m (detach_room_connections room subject sequence m)
  closes_all : (m : ConnectionManager) → Step l admin m (close_all m)

-- What the manager may have become since it was made.
pub data Reachable (l : ManagerLimits) (admin : Text) : ConnectionManager → Type 0 where
  made : Reachable l admin initial
  stepped :
      {m m' : ConnectionManager} → Reachable l admin m → Step l admin m m' → Reachable l admin m'

-- What is true of the first manager and kept by each section.
pub record IsKept (l : ManagerLimits) (P : ConnectionManager → Type 0) : Type 0 where
  pub first : P initial
  pub register_keeps :
      (m : ConnectionManager)
      → P m
      → (r : Registration) (admitted : Bool) → P (register l r admitted m).1
  pub detach_keeps : (m : ConnectionManager) → P m → (s : ℕ) → P (detach_connection s m).1
  pub queue_keeps :
      (m : ConnectionManager)
      → P m
      → (s : ℕ) (e : PendingEvent) (c : ConnectionMetadata) → find_connection s m ≡ some c
      → overflows l e c m ≡ false
      → P (queue_event s e m)
  pub begin_keeps : (m : ConnectionManager) → P m → (s ident : ℕ) → P (begin_send s ident m).1
  pub finish_keeps : (m : ConnectionManager) → P m → (ident : ℕ) → P (finish_send ident m)

module _ (l : ManagerLimits) (admin : Text) (P : ConnectionManager → Type 0) (k : IsKept l P) where
  buffer_event-keeps :
      (o : Option PendingEvent) (s : ℕ) (c : ConnectionMetadata) (r : Round)
      → P r.manager
      → find_connection s r.manager ≡ some c
      → P (buffer_event l o s c r).manager
  buffer_event-keeps none s c r h e = k.detach_keeps r.manager h s
  buffer_event-keeps (some x) s c r h e = elim (Bool-cases (overflows l x c r.manager)) [
    | inl t ↦ rw (buffer_event, t) (k.detach_keeps r.manager h s)
    | inr f ↦ rw (buffer_event, f) (k.queue_keeps r.manager h s x c e f)
  ]

  either : (t : Bool) (x y : Round) → P x.manager → P y.manager → P (if t then x else y).manager
  either true x y h i = h
  either false x y h i = i

  offer-keeps : (b : Broadcast) (s : ℕ) (r : Round) → P r.manager → P (offer l admin b s r).manager
  unfolding offer
  offer-keeps b s r h = elim (Option-cases (find_connection s r.manager)) [
    | inl e ↦ rw (e, offer) h
    | inr (c, e) ↦ elim (Bool-cases (not (is_addressed admin b c))) [
      | inl skip ↦ rw (e, skip, offer) h
      | inr on ↦
          rw (e, on, offer)
            (either c.broadcast_ready (record r { recipients = r.recipients ++ s ∷ [] })
              (buffer_event l b.buffered s c r) h (buffer_event-keeps b.buffered s c r h e))
    ]
  ]

  broadcast-keeps :
      (b : Broadcast) (visited : List ℕ) (r : Round)
      → P r.manager
      → P (broadcast l admin b visited r).manager
  unfolding broadcast
  broadcast-keeps b [] r h = h
  broadcast-keeps b (s ∷ ss) r h = broadcast-keeps b ss (offer l admin b s r) (offer-keeps b s r h)

  detach_all-keeps : (ss : List ℕ) (m : ConnectionManager) → P m → P (detach_all ss m)
  unfolding detach_all
  detach_all-keeps [] m h = h
  detach_all-keeps (s ∷ ss) m h =
      detach_all-keeps ss (detach_connection s m).1 (k.detach_keeps m h s)

  Step-keeps : {m m' : ConnectionManager} → Step l admin m m' → P m → P m'
  Step-keeps (registers m r admitted) h = k.register_keeps m h r admitted
  Step-keeps (detaches m s) h = k.detach_keeps m h s
  Step-keeps (broadcasts m b visited) h = broadcast-keeps b visited (start_of_round m) h
  Step-keeps (begins m s ident) h = k.begin_keeps m h s ident
  Step-keeps (finishes m ident) h = k.finish_keeps m h ident
  Step-keeps (closes_room m room subject sequence) h = detach_all-keeps _ m h
  Step-keeps (closes_all m) h = detach_all-keeps _ m h

  pub Reachable-keeps : {m : ConnectionManager} → Reachable l admin m → P m
  Reachable-keeps made = k.first
  Reachable-keeps (stepped r s) = Step-keeps s (Reachable-keeps r)
