-- ===== src/Store/Outbox/Capacity.antt =====
-- The outbox holds `max_webhook_deliveries` rows at most, and gives up only terminal ones.
use samsarix_chat_engine.Base.{
  ℕ, ◌+◌, ◌-◌, ◌<◌, ◌≤◌, ◌==◌, leb, true, false, not, ◌≡◌, ◌↔◌, ◌⊎◌, refl, sym, ap, List, [], ◌∷◌,
  ◌++◌, length, length-append, arith, Bool-cases, inl, inr, All, All-append, subst, if◌then◌else◌,
}
use samsarix_chat_engine.Base.Sql.{
  select, exists, delete, count, count-append, length-delete, length-select, All-select, All-delete,
  select-holds, count-select-le,
}
use samsarix_chat_engine.Base.Order.{among, count-among-take, All-order_by, All-take}
use samsarix_chat_engine.Base.Keys.{
  Unique, IsListed, Unique-append, Unique-delete, All-IsListed, among-All,
}
use samsarix_chat_engine.Store.Tables.{
  Text, Time, EventType, EventBody, DeliveryRow, Database, Limits, ok, err, webhook_capacity,
  integrity,
}
use samsarix_chat_engine.Store.Outcomes.{Outcome, Outcome-raise_if, Outcome-if}
use samsarix_chat_engine.Store.Results.{raise_if-eq-ok, ok-injective}
use samsarix_chat_engine.Store.Outbox.{
  delivery_id, is_terminal, older_delivery, evicted, make_room, new_delivery, enqueue,
  insert_webhook,
}

-- The number of terminal and of pending rows.
abbrev pub pending : List DeliveryRow → ℕ
pending rows = count (λ d. not (is_terminal d)) rows

terminal-add-pending :
    (rows : List DeliveryRow) → count is_terminal rows + pending rows ≡ length rows
terminal-add-pending [] = refl
terminal-add-pending (d ∷ ds) = ground (arith, terminal-add-pending ds)

module _ (l : Limits) (rows : List DeliveryRow) where
  evicted-terminal : All (λ d. is_terminal d ≡ true) (evicted l rows)
  evicted-terminal =
      All-take _ (length rows + 1 - l.max_webhook_deliveries) _
        (All-order_by _ older_delivery _ (select-holds is_terminal rows))

  evicted-IsListed : Unique delivery_id rows → All (IsListed delivery_id rows) (evicted l rows)
  evicted-IsListed u = All-take _ (length rows + 1 - l.max_webhook_deliveries) _ (
      All-order_by _ older_delivery _
        (All-select _ is_terminal rows (All-IsListed delivery_id rows u)))

  -- Where pending rows leave room, enough terminal ones go.
  make_room-lt :
      pending rows < l.max_webhook_deliveries → length (make_room l rows) < l.max_webhook_deliveries
  make_room-lt h =
      let terminal : List DeliveryRow = select is_terminal rows in
      omega (
        arith,
        terminal-add-pending rows,
        length-select is_terminal rows,
        length-delete (among delivery_id (evicted l rows)) rows,
        count-select-le (among delivery_id (evicted l rows)) is_terminal rows,
        count-among-take delivery_id older_delivery (length rows + 1 - l.max_webhook_deliveries)
            terminal,
      )

  pending-delete :
      Unique delivery_id rows
      → (ds : List DeliveryRow) → All (IsListed delivery_id rows) ds
      → pending (delete (among delivery_id (evicted l rows)) ds) ≡ pending ds
  pending-delete u [] h = refl
  pending-delete u (d ∷ ds) h = elim (Bool-cases (among delivery_id (evicted l rows) d)) [
    | inl e ↦ rw e (
        ground (
          arith,
          pending-delete u ds h.1,
          among-All delivery_id (λ r. is_terminal r ≡ true) rows (evicted l rows) d evicted-terminal
              (evicted-IsListed u) h.0 e,
        ))
    | inr e ↦
        rw e (ap (λ (n : ℕ). (if not (is_terminal d) then 1 else 0) + n) (pending-delete u ds h.1))
  ]

  -- No pending row is given up.
  pub pending-make_room : Unique delivery_id rows → pending (make_room l rows) ≡ pending rows
  pending-make_room u = pending-delete u rows (All-IsListed delivery_id rows u)

  pending-le-length : (ds : List DeliveryRow) → pending ds ≤ length ds
  pending-le-length ds = omega (arith, terminal-add-pending ds)

module _ (l : Limits) (row : DeliveryRow) (db : Database) where
  enqueue_cases :
      {db' : Database}
      → enqueue l row db ≡ ok db'
      → (leb l.max_webhook_deliveries (length (make_room l db.deliveries)) ≡ false)
        × (exists (λ d. d.id == row.id) (make_room l db.deliveries) ≡ false)
        × (db' ≡ record db { deliveries = make_room l db.deliveries ++ row ∷ [] })
  unfolding enqueue
  enqueue_cases done =
      let (room, e) = raise_if-eq-ok _ _ _ done in
      let (fresh, f) = raise_if-eq-ok _ _ _ e in (room, fresh, sym (ok-injective f))

  enqueue-refused :
      enqueue l row db ≡ err webhook_capacity
      → l.max_webhook_deliveries ≤ length (make_room l db.deliveries)
  unfolding enqueue
  enqueue-refused h = ground arith

  enqueue-refuses :
      l.max_webhook_deliveries ≤ length (make_room l db.deliveries)
      → enqueue l row db ≡ err webhook_capacity
  unfolding enqueue
  enqueue-refuses h = ground arith

module _ (l : Limits) (uid : Text) (kind : EventType) (room resource : Text) (occurred_at : Time)
    (body : EventBody) (db : Database) where
  -- Whatever the table held, after an insert of a subscribed event that is not refused the outbox
  -- holds at most `max_webhook_deliveries` rows.
  pub insert_webhook-within :
      {db' : Database}
      → l.webhook_events kind ≡ true
      → insert_webhook l uid kind room resource occurred_at body db ≡ ok db'
      → length db'.deliveries ≤ l.max_webhook_deliveries
  unfolding insert_webhook
  insert_webhook-within {db'} sub done =
      let row : DeliveryRow = new_delivery uid kind room resource occurred_at body in
      let (free, fresh, e) = enqueue_cases l row db {db' = db'} (rw sub at done) in
      rw e (ground (arith, length-append (make_room l db.deliveries) (row ∷ [])))

  -- Where identifiers are distinct, the insert of a subscribed event is refused for want of room
  -- exactly when the pending rows alone are as many as the outbox may hold.
  pub insert_webhook-refused_iff :
      Unique delivery_id db.deliveries
      → l.webhook_events kind ≡ true
      → (insert_webhook l uid kind room resource occurred_at body db ≡ err webhook_capacity)
        ↔ (l.max_webhook_deliveries ≤ pending db.deliveries)
  unfolding insert_webhook
  insert_webhook-refused_iff u sub =
      let row : DeliveryRow = new_delivery uid kind room resource occurred_at body in
      (
        (λ h.
            let full = enqueue-refused l row db (rw sub at h) in
            ground (arith, make_room-lt l db.deliveries, full)),
        λ full. rw sub (
            enqueue-refuses l row db (
              omega (
                arith,
                pending-make_room l db.deliveries u,
                pending-le-length l db.deliveries (make_room l db.deliveries),
              ))),
      )

  -- Where identifiers are distinct, an insert that is not refused gives up no pending row, and adds
  -- one if the event is subscribed.
  pub pending-insert_webhook :
      {db' : Database}
      → Unique delivery_id db.deliveries
      → insert_webhook l uid kind room resource occurred_at body db ≡ ok db'
      → pending db'.deliveries ≡ pending db.deliveries + (if l.webhook_events kind then 1 else 0)
  unfolding insert_webhook
  pending-insert_webhook {db'} u done = elim (Bool-cases (l.webhook_events kind)) [
    | inl sub ↦
        let row : DeliveryRow = new_delivery uid kind room resource occurred_at body in
        let (free, fresh, e) = enqueue_cases l row db {db' = db'} (rw sub at done) in
        rw (e, sub)
          (omega (
            arith,
            pending-make_room l db.deliveries u,
            count-append (λ d. not (is_terminal d)) (make_room l db.deliveries) (row ∷ []),
          ))
    | inr unsub ↦
        let e : db ≡ db' = ok-injective (rw unsub at done) in rw (unsub, ← e) (omega arith)
  ]

  -- The outbox keeps its identifiers distinct, and no other table is written to.
  pub Unique-insert_webhook :
      {db' : Database}
      → Unique delivery_id db.deliveries
      → insert_webhook l uid kind room resource occurred_at body db ≡ ok db'
      → Unique delivery_id db'.deliveries × (db' ≡ record db { deliveries = db'.deliveries })
  unfolding insert_webhook
  Unique-insert_webhook {db'} u done = elim (Bool-cases (l.webhook_events kind)) [
    | inl sub ↦
        let row : DeliveryRow = new_delivery uid kind room resource occurred_at body in
        let (free, fresh, e) = enqueue_cases l row db {db' = db'} (rw sub at done) in
        rw e (
          Unique-append delivery_id (make_room l db.deliveries) row
              (Unique-delete delivery_id _ db.deliveries u) fresh,
          refl,
        )
    | inr unsub ↦ let e : db ≡ db' = ok-injective (rw unsub at done) in rw (← e) (u, refl)
  ]

-- An outbox insert is refused for want of room or on a repeated identifier, and otherwise writes
-- to its own table alone.
pub insert_webhook-Outcome :
    (l : Limits) (uid : Text) (kind : EventType) (room resource : Text) (occurred_at : Time)
    (body : EventBody) (db : Database)
    → Outcome
        (λ e. (e ≡ webhook_capacity) ⊎ (e ≡ integrity))
        (λ db'. db' ≡ record db { deliveries = db'.deliveries })
        (insert_webhook l uid kind room resource occurred_at body db)
unfolding insert_webhook enqueue
insert_webhook-Outcome l uid kind room resource occurred_at body db =
    Outcome-if _ _ (l.webhook_events kind) _ (ok db)
      (λ _.
        Outcome-raise_if _ _ (leb l.max_webhook_deliveries (length (make_room l db.deliveries)))
          webhook_capacity _ (λ _. inl refl)
          (λ _.
            Outcome-raise_if _ _ (exists (λ d. d.id == uid) (make_room l db.deliveries)) integrity _
              (λ _. inr refl) (λ _. refl)))
      (λ _. refl)

-- What holds of the old deliveries and of the new one holds of those that are left.
pub insert_webhook-All {κ} :
    (P : DeliveryRow → Type κ) (l : Limits) (uid : Text) (kind : EventType) (room resource : Text)
    (occurred_at : Time) (body : EventBody) (db : Database) {db' : Database}
    → All P db.deliveries
    → P (new_delivery uid kind room resource occurred_at body)
    → insert_webhook l uid kind room resource occurred_at body db ≡ ok db'
    → All P db'.deliveries
unfolding insert_webhook
insert_webhook-All P l uid kind room resource occurred_at body db {db'} h n done =
    elim (Bool-cases (l.webhook_events kind)) [
      | inl sub ↦
          let row : DeliveryRow = new_delivery uid kind room resource occurred_at body in
          let (free, fresh, e) = enqueue_cases l row db {db' = db'} (rw sub at done) in
          rw e (
            All-append P (make_room l db.deliveries) (row ∷ []) (All-delete P _ db.deliveries h)
              (n, tt))
      | inr unsub ↦
          let e : db ≡ db' = ok-injective (rw unsub at done) in
          subst (λ (t : Database). All P t.deliveries) e h
    ]
