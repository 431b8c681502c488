-- ===== src/Store/Outbox/Schedule.antt =====
-- Which delivery the dispatcher is handed, and how attempts and replays move a delivery.
use samsarix_chat_engine.Base.{
  none, ◌⊎◌, inl, inr, ◌<◌, ◌≤◌, Option-cases, ◌==◌, Bool, true, false, not, ◌&&◌, ◌||◌, is_some,
  ◌≡◌, refl, sym, ap, ◌∙◌, Option, some, List, [], ◌∷◌, arith, All, subst,
}
use samsarix_chat_engine.Base.Sql.{
  head?, select, All-select, exists, update, fetch, All-update, All-intro, fetch-update_self,
}
use samsarix_chat_engine.Base.Order.{order_by, All-order_by}
use samsarix_chat_engine.Base.Sorted.{IsOrder, IsFirst, head-IsFirst, lexicographic_three}
use samsarix_chat_engine.Store.Tables.{
  Text, Time, DeliveryRow, Database, ok, err, delivery_not_found,
}
use samsarix_chat_engine.Store.Results.{raise_if-eq-ok, or_raise-eq-ok, ok-injective}
use samsarix_chat_engine.Store.Outbox.{
  delivery_id, is_due, due_time, due_before, next_webhook_delivery, Attempt, attempted, is_open,
  record_webhook_attempt, renewed, retry_webhook_delivery,
}

not-eq-false : (b : Bool) → not b ≡ false → b ≡ true
not-eq-false true h = refl
not-eq-false false h = cc

due_before-IsOrder : IsOrder due_before
due_before-IsOrder = lexicographic_three due_time (λ d. d.created_at) delivery_id

-- A pending delivery with a body whose time has come.
pub record IsDue (now : Time) (d : DeliveryRow) : Type 0 where
  pub not_delivered : d.delivered_at ≡ none
  pub not_failed : d.failed_at ≡ none
  pub has_body : is_some d.payload ≡ true
  pub due : Time
  pub scheduled : d.next_attempt_at ≡ some due
  pub reached : due ≤ now

-- By due time, then by time of creation, then by identifier
abbrev pub NotAfter : Time → DeliveryRow → Time → DeliveryRow → Type 0
NotAfter t d u e =
    (t < u)
    ⊎ ((t ≡ u) × ((d.created_at < e.created_at) ⊎ ((d.created_at ≡ e.created_at) × (d.id ≤ e.id))))

abbrev pub Mem : DeliveryRow → List DeliveryRow → Type 0
Mem d [] = ⊥
Mem d (e ∷ es) = (e ≡ d) ⊎ Mem d es

-- The earliest due delivery: a stored one that is due, and no other due row comes before it.
abbrev pub IsNext : Time → List DeliveryRow → Option DeliveryRow → Type 0
IsNext now rows none = All (λ e. IsDue now e → ⊥) rows
IsNext now rows (some d) =
    Mem d rows × ((w : IsDue now d) × All (λ e. (v : IsDue now e) → NotAfter w.due d v.due e) rows)

is_due-IsDue : (now : Time) (d : DeliveryRow) → is_due now d ≡ true → IsDue now d
is_due-IsDue now d h = elim (Option-cases d.next_attempt_at) [
  | inl n ↦ absurd (ground (arith, h, n))
  | inr (t, e) ↦ record {
    not_delivered = elim (Option-cases d.delivered_at) [
      | inl n ↦ n
      | inr (x, q) ↦ absurd (ground (arith, h, q))
    ];
    not_failed = elim (Option-cases d.failed_at) [
      | inl n ↦ n
      | inr (x, q) ↦ absurd (ground (arith, h, q))
    ];
    has_body = ground (arith, h);
    due = t;
    scheduled = e;
    reached = ground (arith, h, e);
  }
]

IsDue-is_due : (now : Time) (d : DeliveryRow) → IsDue now d → is_due now d ≡ true
IsDue-is_due now d w =
    ground (arith, w.not_delivered, w.not_failed, w.has_body, w.scheduled, w.reached)

NotAfter-due :
    (now : Time) (d e : DeliveryRow) (w : IsDue now d) (v : IsDue now e)
    → due_before e d ≡ false
    → NotAfter w.due d v.due e
NotAfter-due now d e w v h =
    let t : due_time d ≡ w.due = rw w.scheduled refl in
    let u : due_time e ≡ v.due = rw v.scheduled refl in ground (arith, t, u, h)

All-Mem-cons :
    (e : DeliveryRow) (rows ds : List DeliveryRow)
    → All (λ d. Mem d rows) ds
    → All (λ d. Mem d (e ∷ rows)) ds
All-Mem-cons e rows [] h = tt
All-Mem-cons e rows (d ∷ ds) h = (inr h.0, All-Mem-cons e rows ds h.1)

All-Mem : (rows : List DeliveryRow) → All (λ d. Mem d rows) rows
All-Mem [] = tt
All-Mem (e ∷ es) = (inl refl, All-Mem-cons e es es (All-Mem es))

nothing_there :
    (now : Time) (rows : List DeliveryRow)
    → All (λ e. is_due now e ≡ false) rows
    → All (λ e. IsDue now e → ⊥) rows
nothing_there now [] h = tt
nothing_there now (e ∷ es) h =
    ((λ v. let t = IsDue-is_due now e v in absurd (cc (t, h.0))), nothing_there now es h.1)

no_earlier :
    (now : Time) (d : DeliveryRow) (w : IsDue now d) (rows : List DeliveryRow)
    → All (λ e. is_due now e ≡ true → due_before e d ≡ false) rows
    → All (λ e. (v : IsDue now e) → NotAfter w.due d v.due e) rows
no_earlier now d w [] h = tt
no_earlier now d w (e ∷ es) h =
    ((λ v. NotAfter-due now d e w v (h.0 (IsDue-is_due now e v))), no_earlier now d w es h.1)

first-IsNext :
    (now : Time) (rows : List DeliveryRow) (o : Option DeliveryRow)
    → head? (order_by due_before (select (is_due now) rows)) ≡ o
    → IsFirst due_before (is_due now) rows o
    → IsNext now rows o
first-IsNext now rows none e h = nothing_there now rows h
first-IsNext now rows (some d) e h =
    let w = is_due-IsDue now d h.0 in
    (
      head_in (order_by due_before (select (is_due now) rows)) e (
          All-order_by (λ x. Mem x rows) due_before (select (is_due now) rows)
            (All-select (λ x. Mem x rows) (is_due now) rows (All-Mem rows))),
      (w, no_earlier now d w rows h.1),
    )
  where
    head_in : (xs : List DeliveryRow) → head? xs ≡ some d → All (λ x. Mem x rows) xs → Mem d rows
    head_in [] q all = cc
    head_in (x ∷ xs) q all = let s : x ≡ d = cc in subst (λ y. Mem y rows) s all.0

-- The delivery that is handed out is stored, neither delivered nor failed, has a body and a time that
-- has come, and no other such delivery has an earlier time, nor the same one with an earlier
-- creation, nor the same two with a smaller identifier; none is handed out only if there is no such
-- delivery.
pub next_webhook_delivery-IsNext :
    (now : Time) (db : Database) → IsNext now db.deliveries (next_webhook_delivery now db)
unfolding next_webhook_delivery
next_webhook_delivery-IsNext now db =
    first-IsNext now db.deliveries (next_webhook_delivery now db) refl
      (head-IsFirst due_before (is_due now) db.deliveries due_before-IsOrder)

-- No delivery is both delivered and failed.
abbrev pub IsExclusive : DeliveryRow → Type 0
IsExclusive d = (is_some d.delivered_at && is_some d.failed_at) ≡ false

module _ (uid : Text) (a : Attempt) (db : Database) where
  record_cases :
      {db' : Database}
      → record_webhook_attempt uid a db ≡ ok db'
      → ((a.delivered && a.failed) ≡ false)
        × (exists (is_open uid) db.deliveries ≡ true)
        × (db' ≡ record db { deliveries = update (is_open uid) (attempted a) db.deliveries })
  unfolding record_webhook_attempt
  record_cases done =
      let (fit, e) = raise_if-eq-ok _ _ _ done in
      let (open_row, f) = raise_if-eq-ok _ _ _ e in
      (fit, not-eq-false _ open_row, sym (ok-injective f))

  -- Where no delivery is both delivered and failed, none is after a recorded attempt.
  pub record_webhook_attempt-IsExclusive :
      {db' : Database}
      → All IsExclusive db.deliveries
      → record_webhook_attempt uid a db ≡ ok db'
      → All IsExclusive db'.deliveries
  record_webhook_attempt-IsExclusive {db'} h done =
      let (fit, _, e) = record_cases {db' = db'} done in
      rw e (
        All-update IsExclusive (is_open uid) (attempted a) db.deliveries
          (All-intro _ _ (λ d o x. ground arith)) h)

  -- After a terminal attempt no row of that identifier is open.
  closed :
      (a.delivered || a.failed) ≡ true
      → (rows : List DeliveryRow)
      → exists (is_open uid) (update (is_open uid) (attempted a) rows) ≡ false
  closed t [] = refl
  closed t (d ∷ ds) = ground (arith, closed t ds)

  -- Once an attempt that delivered a delivery or gave it up is recorded, any further attempt on it
  -- (that is not itself both) is refused as not found.
  pub record_webhook_attempt-twice :
      (b : Attempt) {db' : Database}
      → (a.delivered || a.failed) ≡ true
      → (b.delivered && b.failed) ≡ false
      → record_webhook_attempt uid a db ≡ ok db'
      → record_webhook_attempt uid b db' ≡ err (delivery_not_found uid)
  record_webhook_attempt-twice b {db'} t fit done =
      let e = (record_cases {db' = db'} done).2 in
      rw e (unfold record_webhook_attempt in rw (fit, closed t db.deliveries))

-- A replay that is accepted hands back the stored row as due at once, with no attempt counted and
-- its payload kept; the same row is what the table now holds.
pub retry_webhook_delivery-renews :
    (uid : Text) (now : Time) (db : Database) {r : Option DeliveryRow} {db' : Database}
    → retry_webhook_delivery uid now db ≡ ok (r, db')
    → (d : DeliveryRow) × (fetch (λ e. e.id == uid) db.deliveries ≡ some d)
      × (is_some d.payload ≡ true)
      × (r ≡ some (renewed now d))
      × (fetch (λ e. e.id == uid) db'.deliveries ≡ some (renewed now d))
      × (is_due now (renewed now d) ≡ true)
unfolding retry_webhook_delivery
retry_webhook_delivery-renews uid now db {r} {db'} done =
    let (d, found, e) = or_raise-eq-ok (fetch (λ e. e.id == uid) db.deliveries) _ _ done in
    let (full, f) = raise_if-eq-ok (not (is_some d.payload)) _ _ e in
    let back : fetch (λ e. e.id == uid) (update (λ e. e.id == uid) (renewed now) db.deliveries)
        ≡ some (renewed now d) =
      fetch-update_self _ (renewed now) (λ x. refl) db.deliveries found in
    let kept : is_some d.payload ≡ true = not-eq-false _ full in
    let q = ok-injective f in
    let written : r ≡ some (renewed now d) = sym (ap (λ t. t.0) q) ∙ back in
    (
      d,
      found,
      kept,
      written,
      subst (λ (t : Database). fetch (λ e. e.id == uid) t.deliveries ≡ some (renewed now d))
          (ap (λ t. t.1) q) back,
      ground arith,
    )
