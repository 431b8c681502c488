-- ===== src/Auth.antt =====
-- samsarix_chat_engine/auth.py: principals, the profile of access tokens, and the checks of a payload.
-- Texts are code points, a `frozenset` of texts is a list that has each once.
pub mod Tokens
pub mod Keys
pub mod Outcomes
pub mod Payloads
pub mod Profiles
pub mod RoundTrip
pub mod Trust
mod Examples
use samsarix_chat_engine.Base.{
  ℕ, ◌+◌, ◌==◌, leb, ltb, Bool, true, false, not, ◌&&◌, ◌||◌, Option, none, some, List, [], ◌∷◌,
  length, if◌then◌else◌,
}
use samsarix_chat_engine.Base.Sql.{exists}
use samsarix_chat_engine.Base.Texts.{Chars, codes, same, strip, has, as_set}

-- What is raised: a ValueError by its cause, a TypeError, or `AuthenticationError("invalid access token")`.
pub data AuthError : Type 0 where
  bad_profile bad_lifetime bad_skew bad_secret : AuthError
  not_string_list repeated_values bad_rooms unknown_permission : AuthError
  bad_subject no_permission no_room bad_expiry token_too_long : AuthError
  bad_key_set bad_key weak_key : AuthError
  unhashable : AuthError
  untrusted : AuthError

pub data Result {ℓ} (A : Type ℓ) : Type ℓ where
  err : AuthError → Result A
  ok : A → Result A

-- An exception skips the rest.
infixl 5 ◌>>=◌
abbrev pub ◌>>=◌ {μ ℓ} : {B : Type μ} {A : Type ℓ} → Result A → (A → Result B) → Result B
err raised >>= rest = err raised
ok value >>= rest = rest value

infixl 5 ◌>>◌
abbrev pub ◌>>◌ {ℓ} : {B : Type ℓ} → Result (Unit {0}) → Result B → Result B
check >> rest = check >>= λ _. rest

abbrev pub raise_if : Bool → AuthError → Result (Unit {0})
raise_if true e = err e
raise_if false e = ok tt

abbrev pub or_raise {ℓ} : {A : Type ℓ} → Option A → AuthError → Result A
or_raise none e = err e
or_raise (some a) e = ok a

-- `except ValueError as exc: raise AuthenticationError(…) from exc`
abbrev pub rethrown {ℓ} : {A : Type ℓ} → Result A → Result A
rethrown (ok a) = ok a
rethrown (err e) = err untrusted

abbrev pub admin : Chars
admin = codes "admin"

abbrev pub allowed_permissions : List Chars
allowed_permissions =
    codes "room:read"
    ∷ codes "room:write"
    ∷ codes "room:pin"
    ∷ codes "room:read-receipts"
    ∷ admin
    ∷ []

-- TOKEN_TYPE
abbrev pub token_type : Chars
token_type = codes "samsarix-access+jwt"

-- `lo <= n <= hi`
abbrev pub in_range : ℕ → ℕ → ℕ → Bool
in_range lo hi n = leb lo n && leb n hi

-- [a-z0-9]
abbrev pub is_room_start : ℕ → Bool
is_room_start c = in_range b'a' b'z' c || in_range b'0' b'9' c

abbrev pub all_of : (ℕ → Bool) → Chars → Bool
all_of p [] = true
all_of p (c ∷ cs) = p c && all_of p cs

-- ROOM_ID_PATTERN, ^[a-z0-9][a-z0-9_-]{0,63}$, by `fullmatch`
abbrev pub is_room_id : Chars → Bool
is_room_id [] = false
is_room_id (c ∷ cs) =
    is_room_start c
    && all_of (λ d. is_room_start d || d == b'_' || d == b'-') cs
    && leb (length cs) 63

pub data Authentication : Type 0 where
  unauthenticated api_key token : Authentication

pub record Principal : Type 0 where
  pub subject : Option Chars
  pub permissions : List Chars
  pub rooms : List Chars
  pub authentication : Authentication

abbrev pub has_admin : Principal → Bool
has_admin p = has admin p.permissions

abbrev pub may_enter : Principal → Option Chars → Bool
may_enter p none = true
may_enter p (some room) = has room p.rooms

-- `Principal.allows`
unfoldable pub allows : Principal → Chars → Option Chars → Bool
allows p permission room =
    if has_admin p
    then true
    else if not (has permission p.permissions)
    then false
    else may_enter p room

abbrev pub operator : Authentication → Principal
operator a = record { subject = none; permissions = admin ∷ []; rooms = []; authentication = a }

abbrev pub local_operator : Principal
local_operator = operator Authentication.unauthenticated

abbrev pub api_key_operator : Principal
api_key_operator = operator Authentication.api_key

-- `not 1 <= len(value) <= 256 or value != value.strip()`
abbrev pub is_bad_name : Chars → Bool
is_bad_name t = not (in_range 1 256 (length t)) || not (same t (strip t))

pub record Profile : Type 0 where
  pub issuer : Chars
  pub audience : Chars
  pub max_lifetime_seconds : ℕ
  pub clock_skew_seconds : ℕ

-- `_validate_token_profile`
unfoldable pub validate_token_profile : Profile → Result (Unit {0})
validate_token_profile p = do
  raise_if (is_bad_name p.issuer || is_bad_name p.audience) bad_profile
  raise_if (not (in_range 60 604800 p.max_lifetime_seconds)) bad_lifetime
  raise_if (not (in_range 0 300 p.clock_skew_seconds)) bad_skew

-- `_validate_rooms` and `_validate_permissions`
unfoldable pub validate_rooms : List Chars → Result (List Chars)
validate_rooms rooms = do
  let normalized = as_set rooms
  raise_if (ltb 1000 (length normalized) || exists (λ r. not (is_room_id r)) normalized) bad_rooms
  ok normalized

unfoldable pub validate_permissions : List Chars → Result (List Chars)
validate_permissions permissions = do
  let normalized = as_set permissions
  raise_if (exists (λ p. not (has p allowed_permissions)) normalized) unknown_permission
  ok normalized

-- `compare_digest` on the bytes of two texts
abbrev pub credentials_match : Option Chars → Option Chars → Bool
credentials_match provided none = false
credentials_match none (some e) = false
credentials_match (some p) (some e) = same p e
