-- ===== src/Auth/Trust.antt =====
-- Whom `JWKSAccessTokenVerifier` trusts: only the holders of keys that it was given, each under the
-- algorithm that its key names.
use samsarix_chat_engine.Base.{
  ℕ, ◌≤◌, ltb, Bool, true, false, not, ◌&&◌, ◌||◌, is_some, ◌≡◌, refl, sym, ap, ◌∙◌, subst, inl,
  inr, ◌⊎◌, some, List, [], ◌∷◌, ◌++◌, length, All, All-append, arith,
}
use samsarix_chat_engine.Base.Sql.{exists, fetch, All-fetch, fetch-holds}
use samsarix_chat_engine.Base.Texts.{Chars, same, same_eq}
use samsarix_chat_engine.Auth.{ok, Principal, token_type, Profile, validate_token_profile, in_range}
use samsarix_chat_engine.Auth.Outcomes.{raise_if-eq-ok, or_raise-eq-ok, >>=-eq-ok, ok-injective}
use samsarix_chat_engine.Auth.Payloads.{Claim, text, Payload}
use samsarix_chat_engine.Auth.Profiles.{IsProfiled, principal_from_payload-IsProfiled}
use samsarix_chat_engine.Auth.Tokens.{Jwt, Header, is_text, is_unreadable}
use samsarix_chat_engine.Auth.Keys.{
  Jwk, JwkValue, dict, no_dict, rs256, asymmetric, private_parameters, forbidden_headers, meets,
  is_key_id, text_of, check_usage, is_curve, is_verify_only, LoadedKey, names_key, load_key,
  load_keys, Verifier, new_verifier, verify,
}

-- One of the given keys.
abbrev pub Given : Jwk → List JwkValue → Type 0
Given w [] = ⊥
Given w (dict v ∷ vs) = (w ≡ v) ⊎ Given w vs
Given w (no_dict ∷ vs) = Given w vs

text_of-eq-some : (c : Claim) {t : Chars} → text_of c ≡ some t → c ≡ text t
text_of-eq-some c h = ground arith

not-eq-false : (b : Bool) → not b ≡ false → b ≡ true
not-eq-false true h = refl
not-eq-false false h = cc

module _ (j : Jwt) where
  open j use {Token, Public, header, decode_public, from_dict, key_size}

  -- A loaded key that comes from the JWK `w`, which is public and names its algorithm.
  pub record Loads (w : Jwk) (k : LoadedKey j) : Type 0 where
    pub kid : w.kid ≡ text k.kid
    pub alg : w.alg ≡ text k.algorithm
    pub known : is_some (asymmetric k.algorithm) ≡ true
    pub no_private : meets private_parameters w.names ≡ false
    pub made : from_dict w.content k.algorithm ≡ some k.key
    pub strong : same k.algorithm rs256 ≡ true → 2048 ≤ key_size k.key

  load_key-Loads :
      (loaded : List (LoadedKey j)) (w : Jwk) {k : LoadedKey j}
      → load_key j loaded w ≡ ok k
      → Loads w k
  unfolding load_key
  load_key-Loads loaded w h =
      let (kid, ek, h1) = or_raise-eq-ok (text_of w.kid) _ _ h in
      let (algorithm, ea, h2) = or_raise-eq-ok (text_of w.alg) _ _ h1 in
      let (_, h3) =
        raise_if-eq-ok (not (is_key_id kid) || exists (names_key j kid) loaded) _ _ h2 in
      let (expected, ex, h4) = or_raise-eq-ok (asymmetric algorithm) _ _ h3 in
      let (_, h5) =
        raise_if-eq-ok (not (is_text expected.0 w.kty) || not (is_curve expected.1 w.crv)) _ _ h4 in
      let (_, _, h6) = >>=-eq-ok (check_usage w.usage) _ h5 in
      let (public, h7) = raise_if-eq-ok (meets private_parameters w.names) _ _ h6 in
      let (_, h8) = raise_if-eq-ok (not (is_verify_only w.key_ops)) _ _ h7 in
      let (key, made, h9) = or_raise-eq-ok (from_dict w.content algorithm) _ _ h8 in
      let (strong, h10) = raise_if-eq-ok (same algorithm rs256 && ltb (key_size key) 2048) _ _ h9 in
      subst (Loads w) (ok-injective h10) (record {
        kid = text_of-eq-some w.kid ek;
        alg = text_of-eq-some w.alg ea;
        known = rw ex refl;
        no_private = public;
        made = made;
        strong = λ rsa. ground arith;
      })

  abbrev pub IsGiven : List JwkValue → LoadedKey j → Type 0
  IsGiven values k = (w : Jwk) × Given w values × Loads w k

  load_keys-All :
      (P : LoadedKey j → Type 0) (vs : List JwkValue)
      → ((w : Jwk) (k : LoadedKey j) → Given w vs → Loads w k → P k)
      → (loaded : List (LoadedKey j)) {keys : List (LoadedKey j)} → All P loaded
      → load_keys j loaded vs ≡ ok keys
      → All P keys
  unfolding load_keys
  load_keys-All P [] each loaded h e = subst (All P) (ok-injective e) h
  load_keys-All P (no_dict ∷ vs) each loaded h e = cc
  load_keys-All P (dict w ∷ vs) each loaded h e =
      let (k, ek, e') = >>=-eq-ok (load_key j loaded w) _ e in
      load_keys-All P vs (λ w' k' g. each w' k' (inr g)) (loaded ++ k ∷ [])
        (All-append P loaded (k ∷ []) h (each w k (inl refl) (load_key-Loads loaded w ek), tt)) e'

  new_verifier-IsGiven :
      (values : List JwkValue) (profile : Profile) {v : Verifier j}
      → new_verifier j (some values) profile ≡ ok v
      → All (IsGiven values) v.keys × (v.profile ≡ profile)
  unfolding new_verifier
  new_verifier-IsGiven values profile h =
      let (_, _, h1) = >>=-eq-ok (validate_token_profile profile) _ h in
      let (_, h2) = raise_if-eq-ok (not (in_range 1 32 (length values))) _ _ h1 in
      let (loaded, e, h3) = >>=-eq-ok (load_keys j [] values) _ h2 in
      subst (λ (u : Verifier j). All (IsGiven values) u.keys × (u.profile ≡ profile))
        (ok-injective h3)
        (load_keys-All (IsGiven values) values (λ w k g l. (w, g, l)) [] tt e, refl)

  -- The token names a key that was given and its algorithm, was decoded with both, and its payload
  -- is in_range the profile.
  pub record IsTrusted (values : List JwkValue) (profile : Profile) (t : Token) (now : ℕ)
      (r : Principal) : Type 0 where
    pub head : Header
    pub read : header t ≡ some head
    pub typed : is_text token_type head.typ ≡ true
    pub plain : meets forbidden_headers head.names ≡ false
    pub key : LoadedKey j
    pub given : IsGiven values key
    pub chosen : head.kid ≡ text key.kid
    pub agreed : head.alg ≡ text key.algorithm
    pub payload : Payload
    pub decoded : decode_public t key.key key.algorithm profile now ≡ some payload
    pub profiled : IsProfiled payload profile.max_lifetime_seconds r

  -- A verifier that was made of a key set accepts a token only if its header names one of the given
  -- keys and that key's own algorithm and none of the forbidden parameters, and if PyJWT decodes it
  -- with just that key and algorithm; that key is of a supported algorithm, without private
  -- parameters and, for RSA, of 2048 bits or more, and the payload keeps the profile.
  pub verify-IsTrusted :
      (values : List JwkValue) (profile : Profile) {v : Verifier j} (t : Token) (now : ℕ)
      {r : Principal}
      → new_verifier j (some values) profile ≡ ok v
      → verify j v t now ≡ ok r
      → IsTrusted values profile t now r
  unfolding verify
  verify-IsTrusted values profile {v} t now {r} made h =
      let (all_given, ep) = new_verifier-IsGiven values profile {v = v} made in
      let (_, h1) = raise_if-eq-ok (is_unreadable j t) _ _ h in
      let (head, eh, h2) = or_raise-eq-ok (header t) _ _ h1 in
      let (typed, h3) = raise_if-eq-ok (not (is_text token_type head.typ)) _ _ h2 in
      let (kid, ek, h4) = or_raise-eq-ok (text_of head.kid) _ _ h3 in
      let (_, h5) = raise_if-eq-ok (not (is_key_id kid)) _ _ h4 in
      let (algorithm, ea, h6) = or_raise-eq-ok (text_of head.alg) _ _ h5 in
      let (clean, h7) =
        raise_if-eq-ok (not (is_some (asymmetric algorithm)) || meets forbidden_headers head.names)
          _ _ h6 in
      let (k, found, h8) = or_raise-eq-ok (fetch (names_key j kid) v.keys) _ _ h7 in
      let (agreed, h9) = raise_if-eq-ok (not (same k.algorithm algorithm)) _ _ h8 in
      let (payload, decoded, h10) =
        or_raise-eq-ok (decode_public t k.key algorithm v.profile now) _ _ h9 in
      let same_kid : k.kid ≡ kid = same_eq k.kid kid (fetch-holds (names_key j kid) v.keys found) in
      let same_alg : k.algorithm ≡ algorithm =
        same_eq k.algorithm algorithm (not-eq-false _ agreed) in
      record {
        head = head;
        read = eh;
        typed = not-eq-false _ typed;
        plain = ground arith;
        key = k;
        given = All-fetch (IsGiven values) (names_key j kid) v.keys all_given found;
        chosen = text_of-eq-some head.kid ek ∙ ap text (sym same_kid);
        agreed = text_of-eq-some head.alg ea ∙ ap text (sym same_alg);
        payload = payload;
        decoded =
            subst (λ (p : Profile). decode_public t k.key k.algorithm p now ≡ some payload) ep
              (subst (λ a. decode_public t k.key a v.profile now ≡ some payload) (sym same_alg)
                decoded);
        profiled =
            subst (λ (p : Profile). IsProfiled payload p.max_lifetime_seconds r) ep
              (principal_from_payload-IsProfiled payload v.profile.max_lifetime_seconds h10);
      }
