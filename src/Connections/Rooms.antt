-- ===== src/Connections/Rooms.antt =====
-- No set of sockets is larger than a room may be, in any run of the manager.
use samsarix_chat_engine.Base.{
  ℕ, ◌+◌, ◌≤◌, ◌<◌, ◌==◌, Bool, true, false, not, ◌||◌, is_some, ◌≡◌, refl, ◌∙◌, List, [], ◌∷◌,
  ◌++◌, length, All, All-append, arith, Bool-cases, Option-cases, inl, inr,
}
use samsarix_chat_engine.Base.Sql.{fetch, exists, select, count, delete, All-delete, length-select}
use samsarix_chat_engine.Base.Order.{is_in}
use samsarix_chat_engine.Base.Dicts.{amend}
use samsarix_chat_engine.Base.Keys.{Unique, has_key}
use samsarix_chat_engine.Base.Distinct.{length-Unique-le}
use samsarix_chat_engine.Store.Tables.{Text}
use samsarix_chat_engine.Connections.{
  PendingEvent, ConnectionMetadata, ManagerLimits, ConnectionManager, find_connection, Registration,
  is_refused, register, of_room, members, join, leave, add_member, discard_member,
  detach_connection, take_event, begin_send, is_object, finish_detached, finish_send,
}
use samsarix_chat_engine.Connections.Steps.{Reachable, IsKept, Reachable-keeps}
use samsarix_chat_engine.Connections.Index.{IsIndexed, is_at, socket_of}

-- Every set of sockets is within the limit of a room.
abbrev pub RoomsWithin : ℕ → List (Text × List ℕ) → Type 0
RoomsWithin n rooms = All (λ (x : Text × List ℕ). length x.1 ≤ n) rooms

length-delete-le : (s : ℕ) (ss : List ℕ) → length (delete (λ t. t == s) ss) ≤ length ss
length-delete-le s [] = omega arith
length-delete-le s (t ∷ ts) = ground (arith, length-delete-le s ts)

length-joined : (s : ℕ) (ss : List ℕ) → length (ss ++ s ∷ []) ≡ length ss + 1
length-joined s [] = omega arith
length-joined s (t ∷ ts) = omega (arith, length-joined s ts)

module _ (n : ℕ) (room : Text) (s : ℕ) where
  join-RoomsWithin :
      (rooms : List (Text × List ℕ))
      → length (members room rooms) < n
      → RoomsWithin n rooms
      → RoomsWithin n (amend (of_room room) (join s) rooms)
  join-RoomsWithin [] less h = tt
  join-RoomsWithin ((r, ss) ∷ xs) less h = elim (Bool-cases (r == room)) [
    | inl e ↦
        let small : length ss < n = rw e at less in
        rw e (omega (arith, small, length-joined s ss), h.1)
    | inr e ↦ rw e (h.0, join-RoomsWithin xs (rw e at less) h.1)
  ]

  add_member-RoomsWithin :
      (rooms : List (Text × List ℕ))
      → length (members room rooms) < n
      → RoomsWithin n rooms
      → RoomsWithin n (add_member room s rooms)
  add_member-RoomsWithin rooms less h = elim (Bool-cases (exists (of_room room) rooms)) [
    | inl e ↦ rw e (join-RoomsWithin rooms less h)
    | inr e ↦ rw e (
        All-append (λ (x : Text × List ℕ). length x.1 ≤ n) rooms ((room, s ∷ []) ∷ []) h
          (omega (arith, less), tt))
  ]

  leave-RoomsWithin :
      (rooms : List (Text × List ℕ))
      → RoomsWithin n rooms
      → RoomsWithin n (amend (of_room room) (leave s) rooms)
  leave-RoomsWithin [] h = tt
  leave-RoomsWithin ((r, ss) ∷ xs) h = elim (Bool-cases (r == room)) [
    | inl e ↦ rw e (omega (arith, h.0, length-delete-le s ss), h.1)
    | inr e ↦ rw e (h.0, leave-RoomsWithin xs h.1)
  ]

  discard_member-RoomsWithin :
      (rooms : List (Text × List ℕ))
      → RoomsWithin n rooms
      → RoomsWithin n (discard_member room s rooms)
  discard_member-RoomsWithin rooms h =
      elim (Bool-cases (length (delete (λ t. t == s) (members room rooms)) == 0)) [
        | inl e ↦ rw e (All-delete (λ (x : Text × List ℕ). length x.1 ≤ n) (of_room room) rooms h)
        | inr e ↦ rw e (leave-RoomsWithin rooms h)
      ]

module _ (n : ℕ) (m : ConnectionManager) (h : RoomsWithin n m.rooms) where
  register-RoomsWithin :
      (l : ManagerLimits) (r : Registration) (admitted : Bool)
      → n ≡ l.max_per_room
      → RoomsWithin n (register l r admitted m).1.rooms
  unfolding register
  register-RoomsWithin l r admitted same = elim (Bool-cases (is_refused l r admitted m)) [
    | inl e ↦ rw e h
    | inr e ↦
        let less : length (members r.room_id m.rooms) < n = ground (arith, e, same) in
        rw e (add_member-RoomsWithin n r.room_id r.socket m.rooms less h)
  ]

  detach_connection-RoomsWithin : (s : ℕ) → RoomsWithin n (detach_connection s m).1.rooms
  unfolding detach_connection
  detach_connection-RoomsWithin s = elim (Option-cases (find_connection s m)) [
    | inl e ↦ rw (e, detach_connection) h
    | inr (c, e) ↦ rw (e, detach_connection) (discard_member-RoomsWithin n c.room_id s m.rooms h)
  ]

  take_event-RoomsWithin :
      (s : ℕ) (q : List PendingEvent) → RoomsWithin n (take_event s q m).1.rooms
  take_event-RoomsWithin s [] = h
  take_event-RoomsWithin s (e ∷ rest) = h

  begin_send-RoomsWithin : (s ident : ℕ) → RoomsWithin n (begin_send s ident m).1.rooms
  unfolding begin_send
  begin_send-RoomsWithin s ident = elim (Option-cases (find_connection s m)) [
    | inl e ↦ rw (e, begin_send) h
    | inr (c, e) ↦ elim (Bool-cases (not (c.ident == ident) || is_some c.inflight)) [
      | inl stop ↦ rw (e, stop, begin_send) h
      | inr go ↦ rw (e, go, begin_send) (take_event-RoomsWithin s c.pending)
    ]
  ]

  finish_detached-RoomsWithin : (ident : ℕ) → RoomsWithin n (finish_detached ident m).rooms
  finish_detached-RoomsWithin ident = elim (Option-cases (fetch (is_object ident) m.detached)) [
    | inl e ↦ rw (e, finish_detached) h
    | inr (c, e) ↦ elim (Option-cases c.inflight) [
      | inl i ↦ rw (e, i, finish_detached) h
      | inr (x, i) ↦ rw (e, i, finish_detached) h
    ]
  ]

  finish_send-RoomsWithin : (ident : ℕ) → RoomsWithin n (finish_send ident m).rooms
  unfolding finish_send
  finish_send-RoomsWithin ident = elim (Option-cases (fetch (is_object ident) m.metadata)) [
    | inl e ↦ rw (e, finish_send) (finish_detached-RoomsWithin ident)
    | inr (c, e) ↦ elim (Option-cases c.inflight) [
      | inl i ↦ rw (e, i, finish_send) h
      | inr (x, i) ↦ rw (e, i, finish_send) h
    ]
  ]

RoomsWithin-IsKept : (l : ManagerLimits) → IsKept l (λ m. RoomsWithin l.max_per_room m.rooms)
RoomsWithin-IsKept l = record {
  first = tt;
  register_keeps = λ m h r admitted. register-RoomsWithin l.max_per_room m h l r admitted refl;
  detach_keeps = λ m h s. detach_connection-RoomsWithin l.max_per_room m h s;
  queue_keeps = λ m h s e c found fits. h;
  begin_keeps = λ m h s ident. begin_send-RoomsWithin l.max_per_room m h s ident;
  finish_keeps = λ m h ident. finish_send-RoomsWithin l.max_per_room m h ident;
}

members-le :
    (n : ℕ) (room : Text) (rooms : List (Text × List ℕ))
    → RoomsWithin n rooms
    → length (members room rooms) ≤ n
members-le n room [] h = omega arith
members-le n room ((r, ss) ∷ xs) h = elim (Bool-cases (r == room)) [
  | inl e ↦ rw e h.0
  | inr e ↦ rw e (members-le n room xs h.1)
]

abbrev pub is_of_room : Text → ConnectionMetadata → Bool
is_of_room room c = c.room_id == room

Unique-select :
    (room : Text) (cs : List ConnectionMetadata)
    → Unique socket_of cs
    → Unique socket_of (select (is_of_room room) cs)
Unique-select room [] u = tt
Unique-select room (c ∷ cs) u = elim (Bool-cases (is_of_room room c)) [
  | inl t ↦ rw t (still cs u.0, Unique-select room cs u.1)
  | inr f ↦ rw f (Unique-select room cs u.1)
]
  where
    still :
        (xs : List ConnectionMetadata)
        → exists (has_key socket_of c.socket) xs ≡ false
        → exists (has_key socket_of c.socket) (select (is_of_room room) xs) ≡ false
    still [] e = refl
    still (x ∷ xs) e = ground (arith, still xs)

All-listed :
    (room : Text) (all cs : List ConnectionMetadata)
    → ((c : ConnectionMetadata)
        → exists (is_at room c.socket) cs ≡ true
        → exists (is_at room c.socket) all ≡ true)
    → All (λ c. exists (is_at room c.socket) all ≡ true) (select (is_of_room room) cs)
All-listed room all [] sub = tt
All-listed room all (c ∷ cs) sub = elim (Bool-cases (is_of_room room c)) [
  | inl t ↦
      rw t (sub c (ground (arith, t)), All-listed room all cs (λ x e. sub x (ground (arith, e))))
  | inr f ↦ rw f (All-listed room all cs (λ x e. sub x (ground (arith, e))))
]

All-members :
    (room : Text) (m : ConnectionManager) (cs : List ConnectionMetadata)
    → IsIndexed m
    → All (λ c. exists (is_at room c.socket) m.metadata ≡ true) cs
    → All (λ c. is_in c.socket (members room m.rooms) ≡ true) cs
All-members room m [] i h = tt
All-members room m (c ∷ cs) i h = (i.agrees room c.socket ∙ h.0, All-members room m cs i h.1)

-- The connections of a room are no more than its set holds, and so within its limit.
pub count-is_of_room-le :
    (l : ManagerLimits) (admin : Text) {m : ConnectionManager}
    → Reachable l admin m
    → IsIndexed m
    → (room : Text) → count (is_of_room room) m.metadata ≤ l.max_per_room
count-is_of_room-le l admin {m} r i room =
    let within =
      Reachable-keeps l admin (λ m. RoomsWithin l.max_per_room m.rooms) (RoomsWithin-IsKept l) r in
    let own = select (is_of_room room) m.metadata in
    omega (
      arith,
      length-select (is_of_room room) m.metadata,
      length-Unique-le socket_of own (members room m.rooms) (Unique-select room m.metadata i.unique)
          (All-members room m own i (All-listed room m.metadata m.metadata (λ c e. e))),
      members-le l.max_per_room room m.rooms within,
    )
