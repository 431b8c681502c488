-- ===== src/Connections/Budget.antt =====
-- The budget of queued events: every byte that is charged belongs to an event that is queued or being
-- sent, and no limit is passed. Each locked section keeps this.
use samsarix_chat_engine.Base.{
  ℕ, ◌+◌, ◌-◌, ◌≤◌, ◌==◌, Bool, true, false, not, ◌||◌, is_some, ◌≡◌, refl, ap, Option, none, some,
  List, [], ◌∷◌, length, length-append, All, All-append, arith, Bool-cases, Option-cases, inl, inr,
  if◌then◌else◌,
}
use samsarix_chat_engine.Base.Sql.{fetch, All-fetch}
use samsarix_chat_engine.Base.Dicts.{
  amend, sum, sum-append, sum-pop, sum-amend, length-pop, length-amend, All-pop, All-amend,
}
use samsarix_chat_engine.Connections.{
  PendingEvent, ConnectionMetadata, ManagerLimits, ConnectionManager, at_socket, find_connection,
  Registration, new_metadata, is_refused, register, inflight_size, discarded, detach_connection,
  waiting, overflows, push, queue_event, start, take_event, begin_send, is_object, release,
  finish_detached, finish_send,
}

abbrev pub bytes : ConnectionMetadata → ℕ
bytes c = c.pending_bytes

abbrev pub sizes : List PendingEvent → ℕ
sizes es = sum (λ (e : PendingEvent). e.size) es

abbrev pub size_of : Option PendingEvent → ℕ
size_of none = 0
size_of (some e) = e.size

abbrev sending_one : Option PendingEvent → ℕ
sending_one o = if is_some o then 1 else 0

none-of {ℓ} : {A : Type ℓ} (o : Option A) → is_some o ≡ false → o ≡ none
none-of none e = refl
none-of (some a) e = cc

-- The charge of an object is the size of what it has queued and of what it is sending.
abbrev pub IsCharged : ConnectionMetadata → Type 0
IsCharged c = c.pending_bytes ≡ sizes c.pending + inflight_size c

-- A detached object is charged for what it is sending alone.
abbrev pub IsRetained : ConnectionMetadata → Type 0
IsRetained c = c.pending_bytes ≡ inflight_size c

abbrev pub IsWithin : ManagerLimits → ConnectionMetadata → Type 0
IsWithin l c = (c.pending_bytes ≤ l.max_pending_bytes) × (waiting c ≤ l.max_pending_events)

pub record IsBudgeted (l : ManagerLimits) (m : ConnectionManager) : Type 0 where
  pub registered_charged : All IsCharged m.metadata
  pub detached_charged : All IsRetained m.detached
  pub total_charged : m.total ≡ sum bytes m.metadata + sum bytes m.detached
  pub each_within : All (IsWithin l) m.metadata
  pub total_within : m.total ≤ l.max_total_pending_bytes
  pub count_within : length m.metadata ≤ l.max_connections

module _ (l : ManagerLimits) (m : ConnectionManager) (h : IsBudgeted l m) where
  pub register-IsBudgeted :
      (r : Registration) (admitted : Bool) → IsBudgeted l (register l r admitted m).1
  unfolding register
  register-IsBudgeted r admitted = elim (Bool-cases (is_refused l r admitted m)) [
    | inl e ↦ rw e h
    | inr e ↦
        let c : ConnectionMetadata = new_metadata m.next_ident r in
        rw e (record {
          registered_charged =
              All-append IsCharged m.metadata (c ∷ []) h.registered_charged (omega arith, tt);
          detached_charged = h.detached_charged;
          total_charged = omega (arith, h.total_charged, sum-append bytes m.metadata (c ∷ []));
          each_within =
              All-append (IsWithin l) m.metadata (c ∷ []) h.each_within
                ((omega arith, omega arith), tt);
          total_within = h.total_within;
          count_within = ground (arith, length-append m.metadata (c ∷ []));
        })
  ]

  -- What is released is the charge without that of the event that is being sent.
  detached-IsBudgeted :
      (s : ℕ) (c : ConnectionMetadata)
      → find_connection s m ≡ some c
      → IsBudgeted l (detach_connection s m).1
  unfolding detach_connection
  detached-IsBudgeted s c e =
      let charged : IsCharged c =
        All-fetch IsCharged (at_socket s) m.metadata h.registered_charged e in
      rw (e, detach_connection)
        (record {
          registered_charged = All-pop (at_socket s) IsCharged m.metadata h.registered_charged;
          detached_charged =
              All-append IsRetained m.detached (discarded c ∷ []) h.detached_charged (refl, tt);
          total_charged = omega (
            arith,
            h.total_charged,
            charged,
            sum-pop (at_socket s) bytes m.metadata c e,
            sum-append bytes m.detached (discarded c ∷ []),
          );
          each_within = All-pop (at_socket s) (IsWithin l) m.metadata h.each_within;
          total_within = omega (arith, h.total_within);
          count_within = omega (arith, h.count_within, length-pop (at_socket s) m.metadata c e);
        })

  pub detach_connection-IsBudgeted : (s : ℕ) → IsBudgeted l (detach_connection s m).1
  unfolding detach_connection
  detach_connection-IsBudgeted s = elim (Option-cases (find_connection s m)) [
    | inl e ↦ rw (e, detach_connection) h
    | inr (c, e) ↦ detached-IsBudgeted s c e
  ]

  -- A queued event is charged once, to its object and to the total.
  pub queue_event-IsBudgeted :
      (s : ℕ) (e : PendingEvent) (c : ConnectionMetadata)
      → find_connection s m ≡ some c
      → overflows l e c m ≡ false
      → IsBudgeted l (queue_event s e m)
  queue_event-IsBudgeted s e c found fits =
      let charged : IsCharged c =
        All-fetch IsCharged (at_socket s) m.metadata h.registered_charged found in
      let more : IsCharged (push e c) =
        omega (arith, charged, sum-append (λ (x : PendingEvent). x.size) c.pending (e ∷ [])) in
      let within : IsWithin l (push e c) =
        (ground arith, ground (arith, length-append c.pending (e ∷ []))) in
      record {
        registered_charged =
            All-amend (at_socket s) IsCharged (push e) m.metadata c found more h.registered_charged;
        detached_charged = h.detached_charged;
        total_charged =
            omega
              (arith, h.total_charged, sum-amend (at_socket s) bytes (push e) m.metadata c found);
        each_within =
            All-amend (at_socket s) (IsWithin l) (push e) m.metadata c found within h.each_within;
        total_within = ground arith;
        count_within =
            omega (arith, h.count_within, length-amend (at_socket s) (push e) m.metadata);
      }

  -- An event that is taken to be sent keeps its charge.
  take_event-IsBudgeted :
      (s : ℕ) (c : ConnectionMetadata) (q : List PendingEvent)
      → find_connection s m ≡ some c
      → c.inflight ≡ none
      → c.pending ≡ q
      → IsCharged c
      → IsWithin l c
      → IsBudgeted l (take_event s q m).1
  take_event-IsBudgeted s c [] found idle q charged within =
      let set : ConnectionMetadata → ConnectionMetadata =
        λ d. record d { broadcast_ready = true } in
      record {
        registered_charged =
            All-amend (at_socket s) IsCharged set m.metadata c found charged h.registered_charged;
        detached_charged = h.detached_charged;
        total_charged =
            omega (arith, h.total_charged, sum-amend (at_socket s) bytes set m.metadata c found);
        each_within =
            All-amend (at_socket s) (IsWithin l) set m.metadata c found within h.each_within;
        total_within = h.total_within;
        count_within = omega (arith, h.count_within, length-amend (at_socket s) set m.metadata);
      }
  take_event-IsBudgeted s c (e ∷ rest) found idle q charged within =
      let f = start rest e in
      let after : IsCharged (f c) = omega (arith, charged, ap sizes q, ap size_of idle) in
      let still : IsWithin l (f c) =
        (within.0, omega (arith, within.1, ap (λ es. length es) q, ap sending_one idle)) in
      record {
        registered_charged =
            All-amend (at_socket s) IsCharged f m.metadata c found after h.registered_charged;
        detached_charged = h.detached_charged;
        total_charged =
            omega (arith, h.total_charged, sum-amend (at_socket s) bytes f m.metadata c found);
        each_within = All-amend (at_socket s) (IsWithin l) f m.metadata c found still h.each_within;
        total_within = h.total_within;
        count_within = omega (arith, h.count_within, length-amend (at_socket s) f m.metadata);
      }

  pub begin_send-IsBudgeted : (s ident : ℕ) → IsBudgeted l (begin_send s ident m).1
  unfolding begin_send
  begin_send-IsBudgeted s ident = elim (Option-cases (find_connection s m)) [
    | inl e ↦ rw (e, begin_send) h
    | inr (c, e) ↦ elim (Bool-cases (not (c.ident == ident) || is_some c.inflight)) [
      | inl stop ↦ rw (e, stop, begin_send) h
      | inr go ↦
          rw (e, go, begin_send)
            (take_event-IsBudgeted s c c.pending e (none-of c.inflight (ground arith)) refl
              (All-fetch IsCharged (at_socket s) m.metadata h.registered_charged e)
              (All-fetch (IsWithin l) (at_socket s) m.metadata h.each_within e))
    ]
  ]

  -- The end of a send releases its charge, of a registered object or of a detached one.
  finish_registered :
      (ident : ℕ) (c : ConnectionMetadata) (e : PendingEvent)
      → fetch (is_object ident) m.metadata ≡ some c
      → c.inflight ≡ some e
      → IsBudgeted l (record m {
        metadata = amend (is_object ident) (release e) m.metadata;
        total = m.total - e.size;
      })
  finish_registered ident c e found sent =
      let charged : IsCharged c =
        All-fetch IsCharged (is_object ident) m.metadata h.registered_charged found in
      let within : IsWithin l c =
        All-fetch (IsWithin l) (is_object ident) m.metadata h.each_within found in
      let after : IsCharged (release e c) = omega (arith, charged, ap size_of sent) in
      let still : IsWithin l (release e c) = (omega (arith, within.0), omega (arith, within.1)) in
      record {
        registered_charged =
            All-amend (is_object ident) IsCharged (release e) m.metadata c found after
              h.registered_charged;
        detached_charged = h.detached_charged;
        total_charged = omega (
          arith,
          h.total_charged,
          charged,
          ap size_of sent,
          sum-amend (is_object ident) bytes (release e) m.metadata c found,
        );
        each_within =
            All-amend (is_object ident) (IsWithin l) (release e) m.metadata c found still
              h.each_within;
        total_within = omega (arith, h.total_within);
        count_within =
            omega (arith, h.count_within, length-amend (is_object ident) (release e) m.metadata);
      }

  finish_left :
      (ident : ℕ) (c : ConnectionMetadata) (e : PendingEvent)
      → fetch (is_object ident) m.detached ≡ some c
      → c.inflight ≡ some e
      → IsBudgeted l (record m {
        detached = amend (is_object ident) (release e) m.detached;
        total = m.total - e.size;
      })
  finish_left ident c e found sent =
      let charged : IsRetained c =
        All-fetch IsRetained (is_object ident) m.detached h.detached_charged found in
      let after : IsRetained (release e c) = omega (arith, charged, ap size_of sent) in
      record {
        registered_charged = h.registered_charged;
        detached_charged =
            All-amend (is_object ident) IsRetained (release e) m.detached c found after
              h.detached_charged;
        total_charged = omega (
          arith,
          h.total_charged,
          charged,
          ap size_of sent,
          sum-amend (is_object ident) bytes (release e) m.detached c found,
        );
        each_within = h.each_within;
        total_within = omega (arith, h.total_within);
        count_within = h.count_within;
      }

  finish_detached-IsBudgeted : (ident : ℕ) → IsBudgeted l (finish_detached ident m)
  finish_detached-IsBudgeted ident = elim (Option-cases (fetch (is_object ident) m.detached)) [
    | inl e ↦ rw (e, finish_detached) h
    | inr (c, e) ↦ elim (Option-cases c.inflight) [
      | inl i ↦ rw (e, i, finish_detached) h
      | inr (x, i) ↦ rw (e, i, finish_detached) (finish_left ident c x e i)
    ]
  ]

  pub finish_send-IsBudgeted : (ident : ℕ) → IsBudgeted l (finish_send ident m)
  unfolding finish_send
  finish_send-IsBudgeted ident = elim (Option-cases (fetch (is_object ident) m.metadata)) [
    | inl e ↦ rw (e, finish_send) (finish_detached-IsBudgeted ident)
    | inr (c, e) ↦ elim (Option-cases c.inflight) [
      | inl i ↦ rw (e, i, finish_send) h
      | inr (x, i) ↦ rw (e, i, finish_send) (finish_registered ident c x e i)
    ]
  ]
