-- ===== src/Store/Paging/Walk.antt =====
-- A client that follows `next_before` from the first page to the last.
use samsarix_chat_engine.Base.{
  append_assoc, ℕ, zero, suc, ◌+◌, ◌≤◌, ltb, Bool, true, false, ◌≡◌, refl, sym, ap, ◌∙◌, Option,
  none, some, List, [], ◌∷◌, ◌++◌, length, All, length-take, length-drop, take, drop,
  take-append-drop, map, reverse, arith, Bool-cases, inl, inr, if◌then◌else◌,
}
use samsarix_chat_engine.Store.Tables.{Text, Result, ok, err}
use samsarix_chat_engine.Store.Paging.{paginate, last_key}
use mathlib.Core.List.{reverse-reverse, reverse_aux, map-append}

abbrev pub turned {ℓ} : {A : Type ℓ} → Bool → List A → List A
turned chronological page = if chronological then reverse page else page

abbrev pub prepend {ℓ} : {B : Type ℓ} → List B → Option (List B) → Option (List B)
prepend page none = none
prepend page (some rest) = some (page ++ rest)

-- One page, and what its cursor leads to.
abbrev pub follow {ℓ} :
    {B : Type ℓ} → Bool → Result (List B × Option Text) → (Text → Option (List B)) → Option (List B)
follow chronological (err e) go_on = none
follow chronological (ok (page, none)) go_on = some (turned chronological page)
follow chronological (ok (page, some k)) go_on = prepend (turned chronological page) (go_on k)

-- The rows of all pages; none if the fuel runs out or a page is refused.
unfoldable pub walk {ℓ} :
    {B : Type ℓ}
    → (Option Text → Result (List B × Option Text))
    → Bool
    → ℕ
    → Option Text
    → Option (List B)
walk load chronological zero cursor = none
walk load chronological (suc n) cursor =
    follow chronological (load cursor) (λ k. walk load chronological n (some k))

turned-turned {ℓ} : {A : Type ℓ} (b : Bool) (xs : List A) → turned b (turned b xs) ≡ xs
turned-turned true xs = reverse-reverse xs
turned-turned false xs = refl

map-reverse_aux {ℓ κ} :
    {A : Type ℓ} {B : Type κ} (f : A → B) (xs ys : List A)
    → map f (reverse_aux xs ys) ≡ reverse_aux (map f xs) (map f ys)
map-reverse_aux f [] ys = refl
map-reverse_aux f (x ∷ xs) ys = map-reverse_aux f xs (x ∷ ys)

map-turned {ℓ κ} :
    {A : Type ℓ} {B : Type κ} (f : A → B) (b : Bool) (xs : List A)
    → map f (turned b xs) ≡ turned b (map f xs)
map-turned f true xs = map-reverse_aux f xs []
map-turned f false xs = refl

All-reverse_aux {ℓ κ} :
    {A : Type ℓ} (P : A → Type κ) (xs ys : List A) → All P xs → All P ys → All P (reverse_aux xs ys)
All-reverse_aux P [] ys h k = k
All-reverse_aux P (x ∷ xs) ys h k = All-reverse_aux P xs (x ∷ ys) h.1 (h.0, k)

pub All-turned {ℓ κ} :
    {A : Type ℓ} (P : A → Type κ) (b : Bool) (xs : List A) → All P xs → All P (turned b xs)
All-turned P true xs h = All-reverse_aux P xs [] h tt
All-turned P false xs h = h

take-take {ℓ} : {A : Type ℓ} (n : ℕ) (xs : List A) → take n (take (suc n) xs) ≡ take n xs
take-take zero xs = refl
take-take (suc n) [] = refl
take-take (suc n) (x ∷ xs) = ap (λ r. x ∷ r) (take-take n xs)

module _ {ℓ} {A : Type ℓ} (key : A → Text) where
  -- The page of the rows that follow the cursor, cut from one row more than the page holds.
  abbrev pub first_page : ℕ → Bool → List A → List A × Option Text
  first_page limit chronological rows = (
    turned chronological (take limit rows),
    (if ltb limit (length rows) then last_key key (take limit rows) else none),
  )

  pub paginate-take :
      (limit : ℕ) (b : Bool) (rows : List A)
      → paginate key limit b (take (limit + 1) rows) ≡ first_page limit b rows
  paginate-take limit b rows =
      let next : limit + 1 ≡ suc limit = omega arith in
      let long : ltb limit (length (take (suc limit) rows)) ≡ ltb limit (length rows) =
        ground (arith, length-take (suc limit) rows) in
      rw (next, take-take limit rows, long)

  -- A page that is not empty ends in the row whose key is handed out.
  last_key-cons :
      (x : A) (xs : List A)
      → (init : List A) × (d : A) × (x ∷ xs ≡ init ++ d ∷ [])
        × (last_key key (x ∷ xs) ≡ some (key d))
  last_key-cons x [] = ([], x, refl, refl)
  last_key-cons x (y ∷ ys) =
      let (init, d, e, k) = last_key-cons y ys in (x ∷ init, d, ap (λ r. x ∷ r) e, k)

  last_key-take :
      (n : ℕ) (bs : List A)
      → 1 ≤ n
      → 1 ≤ length bs
      → (init : List A) × (d : A) × (take n bs ≡ init ++ d ∷ [])
        × (last_key key (take n bs) ≡ some (key d))
  last_key-take zero bs h k = absurd (omega arith)
  last_key-take (suc n) [] h k = absurd (omega arith)
  last_key-take (suc n) (x ∷ xs) h k = last_key-cons x (take n xs)

take-long {ℓ} : {A : Type ℓ} (n : ℕ) (xs : List A) → length xs ≤ n → take n xs ≡ xs
take-long zero [] h = refl
take-long zero (x ∷ xs) h = absurd (omega arith)
take-long (suc n) [] h = refl
take-long (suc n) (x ∷ xs) h = ap (λ r. x ∷ r) (take-long n xs (omega arith))

module _ {ℓ κ} {A : Type ℓ} {B : Type κ} (key : A → Text) (view : A → B) (chronological : Bool)
    (limit : ℕ) (rows : List A) (load : Option Text → Result (List B × Option Text)) where
  -- What the page of the rows `bs` shows.
  abbrev pub shown : List A → List B × Option Text
  shown bs = let (page, next) = first_page key limit chronological bs in (map view page, next)

  -- Each page shows the rows after its cursor.
  pub record IsPaged : Type (ℓ ⊔ κ) where
    pub first : load none ≡ ok (shown rows)
    pub next :
        (seen : List A) (c : A) (bs : List A)
        → rows ≡ seen ++ c ∷ bs
        → load (some (key c)) ≡ ok (shown bs)

  module _ (positive : 1 ≤ limit) (p : IsPaged) where
    unturned :
        (bs : List A)
        → turned chronological (map view (turned chronological (take limit bs)))
          ≡ map view (take limit bs)
    unturned bs =
        ap (turned chronological) (map-turned view chronological (take limit bs))
        ∙ turned-turned chronological (map view (take limit bs))

    -- The pages from a cursor on show the rows after it.
    abbrev FromCursor : ℕ → Type (ℓ ⊔ κ)
    FromCursor n =
        (cursor : Option Text) (seen bs : List A)
        → rows ≡ seen ++ bs
        → load cursor ≡ ok (shown bs)
        → length bs ≤ n
        → walk load chronological (suc n) cursor ≡ some (map view bs)

    walk-on :
        (n : ℕ)
        → FromCursor n
        → (cursor : Option Text) (seen bs : List A) → rows ≡ seen ++ bs
        → load cursor ≡ ok (shown bs)
        → length bs ≤ suc n
        → ltb limit (length bs) ≡ true
        → walk load chronological (suc (suc n)) cursor ≡ some (map view bs)
    unfolding walk
    walk-on n ih cursor seen bs e h enough more =
        let (init, d, cut, key_d) = last_key-take key limit bs positive (ground arith) in
        let split : take limit bs ++ drop limit bs ≡ bs = take-append-drop limit bs in
        let whole : rows ≡ (seen ++ take limit bs) ++ drop limit bs =
          e
          ∙ ap (λ t. seen ++ t) (sym split)
          ∙ sym (append_assoc seen (take limit bs) (drop limit bs)) in
        let at : rows ≡ (seen ++ init) ++ d ∷ drop limit bs =
          whole
          ∙ ap (λ t. t ++ drop limit bs)
              (ap (λ t. seen ++ t) cut ∙ sym (append_assoc seen init (d ∷ [])))
          ∙ append_assoc (seen ++ init) (d ∷ []) (drop limit bs) in
        let on =
          ih (some (key d)) (seen ++ take limit bs) (drop limit bs) whole
            (p.next (seen ++ init) d (drop limit bs) at) (ground (arith, length-drop limit bs)) in
        rw (h, more, key_d, unturned bs, on)
          (ap (λ t. some t)
            (sym (map-append view (take limit bs) (drop limit bs)) ∙ ap (map view) split))

    walk-last :
        (n : ℕ) (cursor : Option Text) (bs : List A)
        → load cursor ≡ ok (shown bs)
        → ltb limit (length bs) ≡ false
        → walk load chronological (suc n) cursor ≡ some (map view bs)
    unfolding walk
    walk-last n cursor bs h last =
        rw (h, last, unturned bs) (ap (λ r. some (map view r)) (take-long limit bs (ground arith)))

    walk-from : (n : ℕ) → FromCursor n
    walk-from zero cursor seen bs e h enough = walk-last zero cursor bs h (ground arith)
    walk-from (suc n) cursor seen bs e h enough = elim (Bool-cases (ltb limit (length bs))) [
      | inl more ↦ walk-on n (walk-from n) cursor seen bs e h enough more
      | inr last ↦ walk-last (suc n) cursor bs h last
    ]

    -- All pages together show all rows, once each and in their order.
    pub walk-all : walk load chronological (suc (length rows)) none ≡ some (map view rows)
    walk-all = walk-from (length rows) none [] rows refl p.first (omega arith)
