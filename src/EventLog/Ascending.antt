-- ===== src/EventLog/Ascending.antt =====
-- Events in the order of their sequences, as the log keeps them and the reads and the retention return
-- them.
use samsarix_chat_engine.Base.{
  ℕ, ◌≤◌, ◌<◌, zero, suc, ltb, Bool, true, false, ◌≡◌, refl, ap, inl, inr, List, [], ◌∷◌, ◌++◌,
  take, arith, Bool-cases,
}
use samsarix_chat_engine.Base.Sql.{select, delete}
use samsarix_chat_engine.Base.Order.{order_by, insert, among}
use samsarix_chat_engine.EventLog.{Event, sequence_of, earlier, last_sequence, max_sequence}
use samsarix_chat_engine.EventLog.Reading.{comes_after, past}

-- Sequences that rise from above `n`.
abbrev pub Ascending : ℕ → List Event → Type 0
Ascending n [] = Unit {0}
Ascending n (e ∷ es) = (n < e.sequence) × Ascending e.sequence es

pub Ascending-lower : (m n : ℕ) (es : List Event) → m ≤ n → Ascending n es → Ascending m es
Ascending-lower m n [] k h = tt
Ascending-lower m n (e ∷ es) k h = (omega (arith, h.0), h.1)

pub Ascending-select :
    (p : Event → Bool) (n : ℕ) (es : List Event) → Ascending n es → Ascending n (select p es)
Ascending-select p n [] h = tt
Ascending-select p n (e ∷ es) h = elim (Bool-cases (p e)) [
  | inl t ↦ rw t (h.0, Ascending-select p e.sequence es h.1)
  | inr f ↦ rw f (
      Ascending-lower n e.sequence (select p es) (omega (arith, h.0))
        (Ascending-select p e.sequence es h.1))
]

pub Ascending-delete :
    (p : Event → Bool) (n : ℕ) (es : List Event) → Ascending n es → Ascending n (delete p es)
Ascending-delete p n [] h = tt
Ascending-delete p n (e ∷ es) h = elim (Bool-cases (p e)) [
  | inl t ↦ rw t (
      Ascending-lower n e.sequence (delete p es) (omega (arith, h.0))
        (Ascending-delete p e.sequence es h.1))
  | inr f ↦ rw f (h.0, Ascending-delete p e.sequence es h.1)
]

-- Events past a number, of which there is nothing to leave out.
pub select_past :
    (m n : ℕ) (es : List Event) → m ≤ n → Ascending n es → select (comes_after m) es ≡ es
select_past m n [] k h = refl
select_past m n (e ∷ es) k h =
    let t : ltb m e.sequence ≡ true = ground (arith, h.0) in
    rw t (ap (λ r. e ∷ r) (select_past m e.sequence es (omega (arith, h.0)) h.1))

pub Ascending-past :
    (m n : ℕ) (es : List Event) → Ascending n es → Ascending m (select (comes_after m) es)
Ascending-past m n [] h = tt
Ascending-past m n (e ∷ es) h = elim (Bool-cases (comes_after m e)) [
  | inl t ↦
      let below : m < e.sequence = ground arith in
      rw (t, select_past m e.sequence es (omega (arith, below)) h.1) (below, h.1)
  | inr f ↦ rw f (Ascending-past m e.sequence es h.1)
]

pub order_by-Ascending : (n : ℕ) (es : List Event) → Ascending n es → order_by earlier es ≡ es
order_by-Ascending n [] h = refl
order_by-Ascending n (e ∷ es) h = rw (order_by-Ascending e.sequence es h.1) (first es h.1)
  where
    first : (fs : List Event) → Ascending e.sequence fs → insert earlier e fs ≡ e ∷ fs
    first [] k = refl
    first (f ∷ fs) k = let t : earlier f e ≡ false = ground (arith, k.0) in rw t refl

pub past-Ascending :
    (m n : ℕ) (es : List Event) → Ascending n es → past m es ≡ select (comes_after m) es
past-Ascending m n es h =
    order_by-Ascending n (select (comes_after m) es) (Ascending-select (comes_after m) n es h)

pub last_sequence-ge : (n : ℕ) (es : List Event) → Ascending n es → n ≤ last_sequence n es
last_sequence-ge n [] h = omega arith
last_sequence-ge n (e ∷ es) h = omega (arith, h.0, last_sequence-ge e.sequence es h.1)

pub last_sequence_mono :
    (m n : ℕ) (es : List Event) → m ≤ n → Ascending n es → last_sequence m es ≤ last_sequence n es
last_sequence_mono m n [] k h = k
last_sequence_mono m n (e ∷ es) k h = omega arith

pub max_sequence-le :
    (n : ℕ) (es : List Event) → Ascending n es → max_sequence es ≤ last_sequence n es
max_sequence-le n [] h = omega arith
max_sequence-le n (e ∷ es) h =
    omega (arith, max_sequence-le e.sequence es h.1, last_sequence-ge e.sequence es h.1)

pub last_sequence-select :
    (p : Event → Bool) (n : ℕ) (es : List Event)
    → Ascending n es
    → last_sequence n (select p es) ≤ last_sequence n es
last_sequence-select p n [] h = omega arith
last_sequence-select p n (e ∷ es) h = elim (Bool-cases (p e)) [
  | inl t ↦ rw t (last_sequence-select p e.sequence es h.1)
  | inr f ↦ rw f (
      omega (
        arith,
        last_sequence-select p e.sequence es h.1,
        last_sequence_mono n e.sequence (select p es) (omega (arith, h.0))
            (Ascending-select p e.sequence es h.1),
      ))
]

pub last_sequence-delete :
    (p : Event → Bool) (n : ℕ) (es : List Event)
    → Ascending n es
    → last_sequence n (delete p es) ≤ last_sequence n es
last_sequence-delete p n [] h = omega arith
last_sequence-delete p n (e ∷ es) h = elim (Bool-cases (p e)) [
  | inl t ↦ rw t (
      omega (
        arith,
        last_sequence-delete p e.sequence es h.1,
        last_sequence_mono n e.sequence (delete p es) (omega (arith, h.0))
            (Ascending-delete p e.sequence es h.1),
      ))
  | inr f ↦ rw f (last_sequence-delete p e.sequence es h.1)
]

pub Ascending-take : (k n : ℕ) (es : List Event) → Ascending n es → Ascending n (take k es)
Ascending-take zero n es h = tt
Ascending-take (suc k) n [] h = tt
Ascending-take (suc k) n (e ∷ es) h = (h.0, Ascending-take k e.sequence es h.1)

pub last_sequence-take :
    (k n : ℕ) (es : List Event) → Ascending n es → last_sequence n (take k es) ≤ last_sequence n es
last_sequence-take zero n es h = last_sequence-ge n es h
last_sequence-take (suc k) n [] h = omega arith
last_sequence-take (suc k) n (e ∷ es) h = last_sequence-take k e.sequence es h.1

pub last_sequence-append :
    (n : ℕ) (es : List Event) (f : Event) → last_sequence n (es ++ f ∷ []) ≡ f.sequence
last_sequence-append n [] f = refl
last_sequence-append n (e ∷ es) f = last_sequence-append e.sequence es f

pub Ascending-append :
    (n : ℕ) (es : List Event) (f : Event)
    → Ascending n es
    → last_sequence n es < f.sequence
    → Ascending n (es ++ f ∷ [])
Ascending-append n [] f h k = (k, tt)
Ascending-append n (e ∷ es) f h k = (h.0, Ascending-append e.sequence es f h.1 k)

pub Ascending-first : (n : ℕ) (es fs : List Event) → Ascending n (es ++ fs) → Ascending n es
Ascending-first n [] fs h = tt
Ascending-first n (e ∷ es) fs h = (h.0, Ascending-first e.sequence es fs h.1)

-- Past the last of a first part is the second.
pub select_past-append :
    (n : ℕ) (es fs : List Event)
    → Ascending n (es ++ fs)
    → select (comes_after (last_sequence n es)) (es ++ fs) ≡ fs
select_past-append n [] fs h = select_past n n fs (omega arith) h
select_past-append n (e ∷ es) fs h =
    let k = last_sequence-ge e.sequence es (Ascending-first e.sequence es fs h.1) in
    let t : ltb (last_sequence e.sequence es) e.sequence ≡ false = ground (arith, k) in
    rw t (select_past-append e.sequence es fs h.1)

pub select_past-twice :
    (m n : ℕ) (es : List Event)
    → m ≤ n
    → select (comes_after n) (select (comes_after m) es) ≡ select (comes_after n) es
select_past-twice m n [] k = refl
select_past-twice m n (e ∷ es) k = ground (arith, select_past-twice m n es k)

pub select-append :
    (p : Event → Bool) (es fs : List Event) → select p (es ++ fs) ≡ select p es ++ select p fs
select-append p [] fs = refl
select-append p (e ∷ es) fs = ground (arith, select-append p es fs)

-- Chosen events lie among those up to the last of them.
pub select_past-delete :
    (chosen : List Event) (m n : ℕ) (es : List Event)
    → Ascending n chosen
    → last_sequence n chosen ≤ m
    → select (comes_after m) (delete (among sequence_of chosen) es) ≡ select (comes_after m) es
select_past-delete chosen m n [] h k = refl
select_past-delete chosen m n (e ∷ es) h k =
    ground (arith, select_past-delete chosen m n es h k, not_among chosen n h k)
  where
    not_among :
        (cs : List Event) (i : ℕ)
        → Ascending i cs
        → last_sequence i cs ≤ m
        → among sequence_of cs e ≡ true
        → comes_after m e ≡ false
    not_among [] i a l t = cc
    not_among (c ∷ cs) i a l t =
        ground (arith, not_among cs c.sequence a.1 l, last_sequence-ge c.sequence cs a.1)
