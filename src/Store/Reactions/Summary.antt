-- ===== src/Store/Reactions/Summary.antt =====
-- The summary that is stored on a message (GROUP BY reaction_key ORDER BY reaction_key): for each key
-- the number of reactors, keys in ascending order.
use samsarix_chat_engine.Base.{
  ◌<◌, ◌==◌, false, ◌||◌, ◌≡◌, refl, ap, ◌∙◌, All, some, none, List, [], ◌∷◌, map, arith,
  Bool-cases, inl, inr, if◌then◌else◌, ==_iff,
}
use samsarix_chat_engine.Base.Sql.{exists, select, fetch, count}
use samsarix_chat_engine.Base.Order.{is_in, insert, order_by}
use samsarix_chat_engine.Base.Sorted.{IsOrder, Sorted, Sorted-order_by}
use samsarix_chat_engine.Base.Distinct.{distinct, is_in-distinct}
use samsarix_chat_engine.Store.Tables.{Text, ReactionRow, ReactionSummary}
use samsarix_chat_engine.Store.Reactions.{on_message, with_key, keys_on, ascending, summaries}

is_in-insert :
    (k j : Text) (ks : List Text) → is_in k (insert ascending j ks) ≡ (j == k || is_in k ks)
is_in-insert k j [] = refl
is_in-insert k j (i ∷ is) = ground (arith, is_in-insert k j is)

is_in-order_by : (k : Text) (ks : List Text) → is_in k (order_by ascending ks) ≡ is_in k ks
is_in-order_by k [] = refl
is_in-order_by k (j ∷ js) =
    is_in-insert k j (order_by ascending js) ∙ ap (λ b. j == k || b) (is_in-order_by k js)

abbrev key_of : ReactionRow → Text
key_of r = r.reaction_key

is_in-keys :
    (message k : Text) (rows : List ReactionRow)
    → is_in k (map key_of (select (on_message message) rows)) ≡ exists (with_key message k) rows
is_in-keys message k [] = refl
is_in-keys message k (r ∷ rs) = ground (arith, is_in-keys message k rs)

abbrev summary_of : Text → List ReactionRow → Text → ReactionSummary
summary_of message rows k = record { key = k; total = count (with_key message k) rows }

fetch-map :
    (message k : Text) (rows : List ReactionRow) (ks : List Text)
    → fetch (λ (s : ReactionSummary). s.key == k) (map (summary_of message rows) ks)
      ≡ (if is_in k ks then some (summary_of message rows k) else none)
fetch-map message k rows [] = refl
fetch-map message k rows (j ∷ js) = elim (Bool-cases (j == k)) [
  | inl e ↦ rw e (ap (λ i. some (summary_of message rows i)) ((==_iff j k).0 e))
  | inr n ↦ rw n (fetch-map message k rows js)
]

ascending-IsOrder : IsOrder ascending
ascending-IsOrder = record { asym = λ a b h. ground arith; neg_trans = λ a b c h k. ground arith }

-- Keys that differ
abbrev AreDistinct : List Text → Type 0
AreDistinct [] = Unit
AreDistinct (k ∷ ks) = (is_in k ks ≡ false) × AreDistinct ks

distinct-AreDistinct : (ks : List Text) → AreDistinct (distinct ks)
distinct-AreDistinct [] = tt
distinct-AreDistinct (k ∷ ks) = elim (Bool-cases (is_in k ks)) [
  | inl t ↦ rw t (distinct-AreDistinct ks)
  | inr n ↦ rw n (is_in-distinct k ks ∙ n, distinct-AreDistinct ks)
]

insert-AreDistinct :
    (k : Text) (ks : List Text)
    → is_in k ks ≡ false
    → AreDistinct ks
    → AreDistinct (insert ascending k ks)
insert-AreDistinct k [] n d = (refl, tt)
insert-AreDistinct k (j ∷ js) n d = elim (Bool-cases (ascending j k)) [
  | inl t ↦ rw t (
    is_in-insert j k js ∙ ground (arith, n, d.0),
    insert-AreDistinct k js (ground (arith, n)) d.1,
  )
  | inr f ↦ rw f (n, d)
]

order_by-AreDistinct : (ks : List Text) → AreDistinct ks → AreDistinct (order_by ascending ks)
order_by-AreDistinct [] d = tt
order_by-AreDistinct (k ∷ ks) d =
    insert-AreDistinct k (order_by ascending ks) (is_in-order_by k ks ∙ d.0)
      (order_by-AreDistinct ks d.1)

-- Entries whose keys rise: none stands twice.
abbrev pub Rising : List ReactionSummary → Type 0
Rising [] = Unit
Rising (s ∷ ss) = All (λ (t : ReactionSummary). s.key < t.key) ss × Rising ss

All-map :
    (message : Text) (rows : List ReactionRow) (k : Text) (ks : List Text)
    → is_in k ks ≡ false
    → All (λ j. ascending j k ≡ false) ks
    → All (λ (s : ReactionSummary). k < s.key) (map (summary_of message rows) ks)
All-map message rows k [] n h = tt
All-map message rows k (j ∷ js) n h =
    (ground (arith, n, h.0), All-map message rows k js (ground (arith, n)) h.1)

Rising-map :
    (message : Text) (rows : List ReactionRow) (ks : List Text)
    → AreDistinct ks
    → Sorted ascending ks
    → Rising (map (summary_of message rows) ks)
Rising-map message rows [] d s = tt
Rising-map message rows (k ∷ ks) d s =
    (All-map message rows k ks d.0 s.0, Rising-map message rows ks d.1 s.1)

-- The entry of a key is the number of its rows, and there is none for a key without rows; the keys of
-- the entries rise strictly, so no key has two entries.
pub summaries_lem :
    (message : Text) (rows : List ReactionRow)
    → ((k : Text)
        → fetch (λ (s : ReactionSummary). s.key == k) (summaries message rows) ≡ (
            if exists (with_key message k) rows
            then some (record { key = k; total = count (with_key message k) rows })
            else none))
      × Rising (summaries message rows)
unfolding summaries
summaries_lem message rows =
    let keys = keys_on message rows in
    let all = map key_of (select (on_message message) rows) in
    (
      (λ k.
          let known : is_in k (order_by ascending keys) ≡ exists (with_key message k) rows =
            is_in-order_by k keys ∙ (is_in-distinct k all ∙ is_in-keys message k rows) in
          fetch-map message k rows (order_by ascending keys)
          ∙ ap (λ b. if b then some (summary_of message rows k) else none) known),
      Rising-map message rows (order_by ascending keys)
          (order_by-AreDistinct keys (distinct-AreDistinct all))
          (Sorted-order_by ascending ascending-IsOrder keys),
    )
