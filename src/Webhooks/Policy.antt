-- ===== src/Webhooks/Policy.antt =====
-- The network policy: no webhook goes to a private address unless that is allowed.
use samsarix_chat_engine.Base.{
  ℕ, Bool, true, false, not, ◌&&◌, ◌||◌, ◌≡◌, refl, sym, ◌∙◌, inl, inr, ◌⊎◌, Option, none, some,
  List, [], ◌∷◌, ◌++◌, All, arith, Bool-cases, if◌then◌else◌,
}
use samsarix_chat_engine.Base.Texts.{Chars, same, same_eq, has}
use samsarix_chat_engine.Webhooks.{Failure, invalid_target}
use samsarix_chat_engine.Webhooks.Targets.{
  Url, Address, Target, Resolved, target, refused, https, is_loopback, is_nil, is_invalid, port_or,
  default_port, Checked, add_address, check_addresses, to_target, looked_up, encoded, with_port,
  resolve_target,
}

-- An address that may be connected to.
abbrev pub IsPermitted : Bool → Url → Option Address → Type 0
IsPermitted allow_private u none = ⊥
IsPermitted allow_private u (some a) =
    (a.is_global ≡ true) ⊎ (is_loopback u ≡ true) ⊎ (allow_private ≡ true)

passed :
    (b : Bool) (f : Failure) (m : Checked) {found : List Chars}
    → (if b then inl f else m) ≡ inr found
    → (b ≡ false) × (m ≡ inr found)
passed true f m h = cc
passed false f m h = (refl, h)

address-IsPermitted :
    (allow_private : Bool) (u : Url) (a : Address)
    → (not (is_loopback u || allow_private) && not a.is_global) ≡ false
    → IsPermitted allow_private u (some a)
address-IsPermitted allow_private u a h = elim (Bool-cases a.is_global) [
  | inl g ↦ inl g
  | inr g ↦ elim (Bool-cases (is_loopback u)) [
    | inl l ↦ inr (inl l)
    | inr l ↦ elim (Bool-cases allow_private) [
      | inl p ↦ inr (inr p)
      | inr p ↦ absurd (ground arith)
    ]
  ]
]

check_addresses-IsPermitted :
    (allow_private : Bool) (u : Url) (xs : List (Option Address)) (seen found : List Chars)
    → check_addresses (is_loopback u || allow_private) xs seen ≡ inr found
    → All (IsPermitted allow_private u) xs
check_addresses-IsPermitted allow_private u [] seen found h = tt
check_addresses-IsPermitted allow_private u (none ∷ xs) seen found h = cc
check_addresses-IsPermitted allow_private u (some a ∷ xs) seen found h =
    let (ok_here, rest) = passed (not (is_loopback u || allow_private) && not a.is_global) _ _ h in
    (
      address-IsPermitted allow_private u a ok_here,
      check_addresses-IsPermitted allow_private u xs (add_address a.normal seen) found rest,
    )

-- The first address stays first.
abbrev StartsWith : Chars → List Chars → Type 0
StartsWith a found = (rest : List Chars) × (found ≡ a ∷ rest)

first_kept :
    (trusted : Bool) (xs : List (Option Address)) (a : Chars) (seen found : List Chars)
    → StartsWith a seen
    → check_addresses trusted xs seen ≡ inr found
    → StartsWith a found
first_kept trusted [] a seen found s h = let q : seen ≡ found = cc in (s.0, sym q ∙ s.1)
first_kept trusted (none ∷ xs) a seen found s h = cc
first_kept trusted (some b ∷ xs) a seen found s h =
    let (_, rest) = passed (not trusted && not b.is_global) _ _ h in
    first_kept trusted xs a (add_address b.normal seen) found (grown seen s) rest
  where
    grown : (ts : List Chars) → StartsWith a ts → StartsWith a (add_address b.normal ts)
    grown ts s = elim (Bool-cases (has b.normal ts)) [
      | inl e ↦ rw e s
      | inr e ↦ rw e (s.0 ++ b.normal ∷ [], rw s.1 refl)
    ]

first_found :
    (trusted : Bool) (xs : List (Option Address)) (c : Chars) (cs : List Chars)
    → check_addresses trusted xs [] ≡ inr (c ∷ cs)
    → (a : Address) × (rest : List (Option Address)) × (xs ≡ some a ∷ rest) × (c ≡ a.normal)
first_found trusted [] c cs h = cc
first_found trusted (none ∷ xs) c cs h = cc
first_found trusted (some a ∷ xs) c cs h =
    let (_, more) = passed (not trusted && not a.is_global) _ _ h in
    let (rest, e) = first_kept trusted xs a.normal (a.normal ∷ []) (c ∷ cs) ([], refl) more in
    (a, xs, refl, (cc))

module _ (getaddrinfo : Chars → ℕ → Option (List (Option Address))) (digits : ℕ → Chars) where
  -- The target is what the resolver said of its host, and all of that may be connected to.
  pub record IsSafe (allow_private : Bool) (u : Url) (t : Target) : Type 0 where
    pub answers : List (Option Address)
    pub resolved : getaddrinfo t.hostname t.port ≡ some answers
    pub all_safe : All (IsPermitted allow_private u) answers
    pub chosen :
        (a : Address) × (rest : List (Option Address)) × (answers ≡ some a ∷ rest)
        × (t.address ≡ a.normal)
    pub encrypted : (t.scheme ≡ https) ⊎ (is_loopback u ≡ true)
    pub plain : (u.has_username || u.has_password || not (is_nil u.query)) ≡ false

  abbrev pub Safely : Bool → Url → Resolved → Type 0
  Safely allow_private u (target t) = IsSafe allow_private u t
  Safely allow_private u (refused f) = Unit {0}

  valid_scheme : (u : Url) → is_invalid u ≡ false → (u.scheme ≡ https) ⊎ (is_loopback u ≡ true)
  valid_scheme u valid = elim (Bool-cases (same u.scheme https)) [
    | inl s ↦ inl (same_eq u.scheme https s)
    | inr n ↦ elim (Bool-cases (is_loopback u)) [ inl l ↦ inr l | inr l ↦ absurd (ground arith) ]
  ]

  targeted-Safely :
      (allow_private : Bool) (u : Url) (host : Chars) (port : ℕ) (answers : List (Option Address))
      (c : Checked)
      → is_invalid u ≡ false
      → getaddrinfo host port ≡ some answers
      → check_addresses (is_loopback u || allow_private) answers [] ≡ c
      → Safely allow_private u (to_target getaddrinfo digits u host port c)
  targeted-Safely allow_private u host port answers (inl f) valid found e = tt
  targeted-Safely allow_private u host port answers (inr []) valid found e = tt
  targeted-Safely allow_private u host port answers (inr (a ∷ more)) valid found e = record {
    answers = answers;
    resolved = found;
    all_safe = check_addresses-IsPermitted allow_private u answers [] (a ∷ more) e;
    chosen = first_found (is_loopback u || allow_private) answers a more e;
    encrypted = valid_scheme u valid;
    plain = ground arith;
  }

  looked_up-Safely :
      (allow_private : Bool) (u : Url) (host : Chars) (port : ℕ)
      (o : Option (List (Option Address)))
      → is_invalid u ≡ false
      → getaddrinfo host port ≡ o
      → Safely allow_private u (looked_up getaddrinfo digits allow_private u host port o)
  looked_up-Safely allow_private u host port none valid e = tt
  looked_up-Safely allow_private u host port (some answers) valid e =
      targeted-Safely allow_private u host port answers
        (check_addresses (is_loopback u || allow_private) answers []) valid e refl

  encoded-Safely :
      (allow_private : Bool) (u : Url) (port : Option ℕ) (ascii : Option Chars)
      → is_invalid u ≡ false
      → Safely allow_private u (encoded getaddrinfo digits allow_private u port ascii)
  encoded-Safely allow_private u port none valid = tt
  encoded-Safely allow_private u port (some host) valid =
      let resolved_port = port_or port (default_port u) in
      looked_up-Safely allow_private u host resolved_port (getaddrinfo host resolved_port) valid
        refl

  with_port-Safely :
      (allow_private : Bool) (u : Url) (p : Option (Option ℕ))
      → Safely allow_private u (with_port getaddrinfo digits allow_private u p)
  with_port-Safely allow_private u none = tt
  with_port-Safely allow_private u (some port) = guarded (is_invalid u) refl
    where
      guarded :
          (b : Bool)
          → is_invalid u ≡ b
          → Safely allow_private u (
              if b
              then refused invalid_target
              else encoded getaddrinfo digits allow_private u port u.ascii)
      guarded true e = tt
      guarded false e = encoded-Safely allow_private u port u.ascii e

  -- Where a target is resolved, the resolver gave its address, as the first, for its host and port,
  -- and every address that it gave is global, unless the host is a loopback name or private targets
  -- are allowed. The scheme is https, unless the host is a loopback name, and the URL has neither
  -- credentials nor a query.
  pub resolve_target-Safely :
      (allow_private : Bool) (u : Url)
      → Safely allow_private u (resolve_target getaddrinfo digits allow_private u)
  unfolding resolve_target
  resolve_target-Safely allow_private u = with_port-Safely allow_private u u.port
