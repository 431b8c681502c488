-- ===== src/Auth/Keys.antt =====
-- `JWKSAccessTokenVerifier`: the public keys that it loads, and its choice of one for a token.
use samsarix_chat_engine.Base.{
  ℕ, ◌==◌, ltb, Bool, true, false, not, ◌&&◌, ◌||◌, is_some, Option, none, some, List, [], ◌∷◌,
  ◌++◌, length, if◌then◌else◌,
}
use samsarix_chat_engine.Base.Sql.{exists, fetch}
use samsarix_chat_engine.Base.Texts.{Chars, codes, same, has}
use samsarix_chat_engine.Auth.{
  Result, ok, err, ◌>>=◌, ◌>>◌, raise_if, or_raise, untrusted, unhashable, bad_key_set, bad_key,
  weak_key, in_range, all_of, Principal, token_type, Profile, validate_token_profile,
}
use samsarix_chat_engine.Auth.Payloads.{
  str, Claim, text, null, items, object, principal_from_payload,
}
use samsarix_chat_engine.Auth.Tokens.{Jwt, is_text, is_unreadable}

-- A JSON Web Key: the members that are read, the names of all, and its content for `PyJWK.from_dict`.
pub record Jwk : Type 0 where
  pub kid : Claim
  pub alg : Claim
  pub kty : Claim
  pub crv : Claim
  pub usage : Claim
  pub key_ops : Claim
  pub names : List Chars
  pub content : List Chars

pub data JwkValue : Type 0 where
  dict : Jwk → JwkValue
  no_dict : JwkValue

abbrev pub ed_dsa : Chars
ed_dsa = codes "EdDSA"

abbrev pub rs256 : Chars
rs256 = codes "RS256"

-- _ASYMMETRIC_ALGORITHMS: the key type, and the curve if one is fixed
abbrev pub asymmetric : Chars → Option (Chars × Option Chars)
asymmetric algorithm =
    if same algorithm ed_dsa
    then some (codes "OKP", some (codes "Ed25519"))
    else if same algorithm rs256
    then some (codes "RSA", none)
    else none

-- _PRIVATE_JWK_PARAMETERS and _FORBIDDEN_TOKEN_HEADERS
abbrev pub private_parameters : List Chars
private_parameters =
    codes "d"
    ∷ codes "p"
    ∷ codes "q"
    ∷ codes "dp"
    ∷ codes "dq"
    ∷ codes "qi"
    ∷ codes "oth"
    ∷ codes "k"
    ∷ []

abbrev pub forbidden_headers : List Chars
forbidden_headers = codes "b64" ∷ codes "crit" ∷ codes "jku" ∷ codes "x5c" ∷ codes "x5u" ∷ []

abbrev pub meets : List Chars → List Chars → Bool
meets xs ys = exists (λ x. has x ys) xs

-- _KEY_ID, [A-Za-z0-9._~-]{1,128}, by `fullmatch`
abbrev pub is_key_id : Chars → Bool
is_key_id t =
    in_range 1 128 (length t)
    && all_of
        (λ c.
          in_range b'A' b'Z' c
          || in_range b'a' b'z' c
          || in_range b'0' b'9' c
          || c == b'.'
          || c == b'_'
          || c == b'~'
          || c == b'-')
        t

abbrev pub text_of : Claim → Option Chars
text_of (text t) = some t
text_of _ = none

-- `value.get("use") not in {None, "sig"}` hashes the value.
abbrev pub check_usage : Claim → Result (Unit {0})
check_usage null = ok tt
check_usage (text t) = raise_if (not (same t (codes "sig"))) bad_key
check_usage (items is) = err unhashable
check_usage object = err unhashable
check_usage _ = err bad_key

abbrev pub is_curve : Option Chars → Claim → Bool
is_curve none c = true
is_curve (some curve) c = is_text curve c

-- `key_operations is not None and key_operations != ["verify"]`
abbrev pub is_verify_only : Claim → Bool
is_verify_only null = true
is_verify_only (items (str t ∷ [])) = same t (codes "verify")
is_verify_only _ = false

module _ (j : Jwt) where
  open j use {Token, Public, size, header, decode_public, from_dict, key_size}

  pub record LoadedKey : Type 0 where
    pub kid : Chars
    pub algorithm : Chars
    pub key : Public

  abbrev pub names_key : Chars → LoadedKey → Bool
  names_key kid k = same k.kid kid

  -- One round of the loop over the keys.
  unfoldable pub load_key : List LoadedKey → Jwk → Result LoadedKey
  load_key loaded value = do
    kid ← or_raise (text_of value.kid) bad_key
    algorithm ← or_raise (text_of value.alg) bad_key
    raise_if (not (is_key_id kid) || exists (names_key kid) loaded) bad_key
    expected ← or_raise (asymmetric algorithm) bad_key
    raise_if (not (is_text expected.0 value.kty) || not (is_curve expected.1 value.crv)) bad_key
    check_usage value.usage
    raise_if (meets private_parameters value.names) bad_key
    raise_if (not (is_verify_only value.key_ops)) bad_key
    key ← or_raise (from_dict value.content algorithm) bad_key
    raise_if (same algorithm rs256 && ltb (key_size key) 2048) weak_key
    ok (record { kid = kid; algorithm = algorithm; key = key })

  unfoldable pub load_keys : List LoadedKey → List JwkValue → Result (List LoadedKey)
  load_keys loaded [] = ok loaded
  load_keys loaded (no_dict ∷ vs) = err bad_key
  load_keys loaded (dict value ∷ vs) = do k ← load_key loaded value; load_keys (loaded ++ k ∷ []) vs

  pub record Verifier : Type 0 where
    pub keys : List LoadedKey
    pub profile : Profile

  -- `JWKSAccessTokenVerifier.__init__`, on the list under "keys" if there is one
  unfoldable pub new_verifier : Option (List JwkValue) → Profile → Result Verifier
  new_verifier keys profile = do
    validate_token_profile profile
    values ← or_raise keys bad_key_set
    raise_if (not (in_range 1 32 (length values))) bad_key_set
    loaded ← load_keys [] values
    ok (record { keys = loaded; profile = profile })

  -- `JWKSAccessTokenVerifier.verify`
  unfoldable pub verify : Verifier → Token → ℕ → Result Principal
  verify v t now = do
    raise_if (is_unreadable j t) untrusted
    h ← or_raise (header t) untrusted
    raise_if (not (is_text token_type h.typ)) untrusted
    kid ← or_raise (text_of h.kid) untrusted
    raise_if (not (is_key_id kid)) untrusted
    algorithm ← or_raise (text_of h.alg) untrusted
    raise_if (not (is_some (asymmetric algorithm)) || meets forbidden_headers h.names) untrusted
    k ← or_raise (fetch (names_key kid) v.keys) untrusted
    raise_if (not (same k.algorithm algorithm)) untrusted
    payload ← or_raise (decode_public t k.key algorithm v.profile now) untrusted
    principal_from_payload payload v.profile.max_lifetime_seconds
