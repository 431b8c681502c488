-- ===== src/Connections/Runs.antt =====
-- What holds of every run of the manager: the budget, that no charge leaks, the index, and the limits
-- on connections.
use samsarix_chat_engine.Base.{
  ◌≤◌, ℕ, ◌+◌, ◌-◌, ◌==◌, true, not, ◌||◌, is_some, ◌≡◌, refl, ap, none, List, [], ◌∷◌, All, arith,
  Bool-cases, Option-cases, inl, inr,
}
use samsarix_chat_engine.Base.Sql.{fetch, count}
use samsarix_chat_engine.Base.Dicts.{sum}
use samsarix_chat_engine.Store.Tables.{Text}
use samsarix_chat_engine.Connections.{
  PendingEvent, ConnectionMetadata, ManagerLimits, ConnectionManager, at_socket, find_connection,
  queue_event, push, start, take_event, begin_send, is_object, release, finish_detached,
  finish_send,
}
use samsarix_chat_engine.Connections.Budget.{
  bytes, size_of, IsRetained, IsBudgeted, register-IsBudgeted, detach_connection-IsBudgeted,
  queue_event-IsBudgeted, begin_send-IsBudgeted, finish_send-IsBudgeted,
}
use samsarix_chat_engine.Connections.Steps.{Reachable, IsKept, Reachable-keeps}
use samsarix_chat_engine.Connections.Rooms.{is_of_room, count-is_of_room-le}
use samsarix_chat_engine.Connections.Index.{
  IsIndexed, register-IsIndexed, detach_connection-IsIndexed, amended-IsIndexed,
}

IsBudgeted-IsKept : (l : ManagerLimits) → IsKept l (IsBudgeted l)
IsBudgeted-IsKept l = record {
  first = record {
    registered_charged = tt;
    detached_charged = tt;
    total_charged = omega arith;
    each_within = tt;
    total_within = omega arith;
    count_within = omega arith;
  };
  register_keeps = λ m h r admitted. register-IsBudgeted l m h r admitted;
  detach_keeps = λ m h s. detach_connection-IsBudgeted l m h s;
  queue_keeps = λ m h s e c found fits. queue_event-IsBudgeted l m h s e c found fits;
  begin_keeps = λ m h s ident. begin_send-IsBudgeted l m h s ident;
  finish_keeps = λ m h ident. finish_send-IsBudgeted l m h ident;
}

run-IsBudgeted :
    (l : ManagerLimits) (admin : Text) {m : ConnectionManager}
    → Reachable l admin m
    → IsBudgeted l m
run-IsBudgeted l admin r = Reachable-keeps l admin (IsBudgeted l) (IsBudgeted-IsKept l) r

idle-sum :
    (cs : List ConnectionMetadata)
    → All IsRetained cs
    → All (λ c. c.inflight ≡ none) cs
    → sum bytes cs ≡ 0
idle-sum [] h k = refl
idle-sum (c ∷ cs) h k = omega (arith, h.0, ap size_of k.0, idle-sum cs h.1 k.1)

-- No charge leaks: whatever sections have run, once no connection is registered and no detached one
-- is sending, nothing is charged.
pub Reachable-total :
    (l : ManagerLimits) (admin : Text) {m : ConnectionManager}
    → Reachable l admin m
    → m.metadata ≡ []
    → All (λ c. c.inflight ≡ none) m.detached
    → m.total ≡ 0
Reachable-total l admin {m} r empty idle =
    let h = run-IsBudgeted l admin r in
    omega
      (arith, h.total_charged, ap (sum bytes) empty, idle-sum m.detached h.detached_charged idle)

module _ (m : ConnectionManager) (h : IsIndexed m) where
  queue_event-IsIndexed : (s : ℕ) (e : PendingEvent) → IsIndexed (queue_event s e m)
  queue_event-IsIndexed s e =
      amended-IsIndexed m h (at_socket s) (push e) (m.total + e.size) (λ x. (refl, refl))

  take_event-IsIndexed : (s : ℕ) (q : List PendingEvent) → IsIndexed (take_event s q m).1
  take_event-IsIndexed s [] =
      amended-IsIndexed m h (at_socket s) (λ c. record c { broadcast_ready = true }) m.total
        (λ x. (refl, refl))
  take_event-IsIndexed s (e ∷ rest) =
      amended-IsIndexed m h (at_socket s) (start rest e) m.total (λ x. (refl, refl))

  begin_send-IsIndexed : (s ident : ℕ) → IsIndexed (begin_send s ident m).1
  unfolding begin_send
  begin_send-IsIndexed s ident = elim (Option-cases (find_connection s m)) [
    | inl e ↦ rw (e, begin_send) h
    | inr (c, e) ↦ elim (Bool-cases (not (c.ident == ident) || is_some c.inflight)) [
      | inl stop ↦ rw (e, stop, begin_send) h
      | inr go ↦ rw (e, go, begin_send) (take_event-IsIndexed s c.pending)
    ]
  ]

  -- The detached objects are no part of the index.
  finish_detached-IsIndexed : (ident : ℕ) → IsIndexed (finish_detached ident m)
  finish_detached-IsIndexed ident = elim (Option-cases (fetch (is_object ident) m.detached)) [
    | inl e ↦ rw (e, finish_detached) h
    | inr (c, e) ↦ elim (Option-cases c.inflight) [
      | inl i ↦ rw (e, i, finish_detached) h
      | inr (x, i) ↦ rw (e, i, finish_detached) (record { agrees = h.agrees; unique = h.unique })
    ]
  ]

  finish_send-IsIndexed : (ident : ℕ) → IsIndexed (finish_send ident m)
  unfolding finish_send
  finish_send-IsIndexed ident = elim (Option-cases (fetch (is_object ident) m.metadata)) [
    | inl e ↦ rw (e, finish_send) (finish_detached-IsIndexed ident)
    | inr (c, e) ↦ elim (Option-cases c.inflight) [
      | inl i ↦ rw (e, i, finish_send) h
      | inr (x, i) ↦
          rw (e, i, finish_send)
            (amended-IsIndexed m h (is_object ident) (release x) (m.total - x.size)
              (λ y. (refl, refl)))
    ]
  ]

IsIndexed-IsKept : (l : ManagerLimits) → IsKept l IsIndexed
IsIndexed-IsKept l = record {
  first = record { agrees = λ k t. refl; unique = tt };
  register_keeps = λ m h r admitted. register-IsIndexed m h l r admitted;
  detach_keeps = λ m h s. detach_connection-IsIndexed m h s;
  queue_keeps = λ m h s e c found fits. queue_event-IsIndexed m h s e;
  begin_keeps = λ m h s ident. begin_send-IsIndexed m h s ident;
  finish_keeps = λ m h ident. finish_send-IsIndexed m h ident;
}

-- Whatever sections have run, in whatever order: the set of a room holds a socket exactly where a
-- connection of that socket in that room is registered, and no socket is registered twice.
pub Reachable-IsIndexed :
    (l : ManagerLimits) (admin : Text) {m : ConnectionManager} → Reachable l admin m → IsIndexed m
Reachable-IsIndexed l admin r = Reachable-keeps l admin IsIndexed (IsIndexed-IsKept l) r

-- Whatever sections have run, in whatever order: each charge is the size of what its connection has
-- queued and is sending, the total is the sum of the charges of the registered and of the detached
-- connections, no registered connection is past its number or bytes of pending events, the total is
-- within its limit, there are no more connections than allowed, and in no room more than a room may
-- have.
pub Reachable-IsBudgeted :
    (l : ManagerLimits) (admin : Text) {m : ConnectionManager}
    → Reachable l admin m
    → IsBudgeted l m × ((room : Text) → count (is_of_room room) m.metadata ≤ l.max_per_room)
Reachable-IsBudgeted l admin r =
    (run-IsBudgeted l admin r, count-is_of_room-le l admin r (Reachable-IsIndexed l admin r))
