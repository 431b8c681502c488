-- ===== src/Auth/Payloads.antt =====
-- A decoded payload, whose claims may be any JSON value, and `_principal_from_payload`.
use samsarix_chat_engine.Base.{
  ℕ, ◌+◌, ◌==◌, leb, ltb, Bool, true, false, not, ◌&&◌, ◌||◌, Option, none, some, List, [], ◌∷◌,
  length,
}
use samsarix_chat_engine.Base.Texts.{Chars, same, strip, has, as_set}
use samsarix_chat_engine.Auth.{
  Result, ok, err, ◌>>=◌, ◌>>◌, raise_if, rethrown, untrusted, not_string_list, repeated_values,
  in_range, Principal, Authentication, admin, validate_rooms, validate_permissions,
}

-- `negsuc n` is -(n + 1).
pub data ℤ : Type 0 where
  pos : ℕ → ℤ
  negsuc : ℕ → ℤ

abbrev pub pos_part : ℤ → ℕ
pos_part (pos n) = n
pos_part (negsuc n) = 0

abbrev pub neg_part : ℤ → ℕ
neg_part (pos n) = 0
neg_part (negsuc n) = n + 1

-- `a <= b` and `a - b > k`
abbrev pub leb_ℤ : ℤ → ℤ → Bool
leb_ℤ a b = leb (pos_part a + neg_part b) (pos_part b + neg_part a)

abbrev pub exceeds : ℤ → ℤ → ℕ → Bool
exceeds a b k = ltb (pos_part b + neg_part a + k) (pos_part a + neg_part b)

-- An item of a JSON array: a text or something else.
pub data Item : Type 0 where
  str : Chars → Item
  no_str : Item

-- A missing claim reads as `null`; `other` is a float.
pub data Claim : Type 0 where
  null : Claim
  text : Chars → Claim
  integer : ℤ → Claim
  flag : Bool → Claim
  items : List Item → Claim
  object : Claim
  other : Claim

pub record Payload : Type 0 where
  pub iss : Claim
  pub aud : Claim
  pub sub : Claim
  pub iat : Claim
  pub nbf : Claim
  pub exp : Claim
  pub jti : Claim
  pub rooms : Claim
  pub permissions : Claim

abbrev pub texts_of : List Item → Option (List Chars)
texts_of [] = some []
texts_of (no_str ∷ is) = none
texts_of (str t ∷ is) = elim (texts_of is) [ none ↦ none | some ts ↦ some (t ∷ ts) ]

abbrev pub unrepeated : List Chars → Result (List Chars)
unrepeated ts = do
  raise_if (not (length ts == length (as_set ts)) || ltb 1000 (length ts)) repeated_values
  ok ts

abbrev pub string_items : Option (List Chars) → Result (List Chars)
string_items none = err not_string_list
string_items (some ts) = unrepeated ts

-- `_string_list`
unfoldable pub string_list : Claim → Result (List Chars)
string_list (items is) = string_items (texts_of is)
string_list _ = err not_string_list

-- `isinstance(subject, str)` with its length and its blanks
abbrev pub subject_of : Claim → Result Chars
subject_of (text s) = do
  raise_if (not (in_range 1 64 (length (strip s))) || not (same s (strip s))) untrusted
  ok s
subject_of _ = err untrusted

-- An `int` that is no `bool`
abbrev pub int_of : Claim → Result ℤ
int_of (integer n) = ok n
int_of _ = err untrusted

abbrev pub check_id : Claim → Result (Unit {0})
check_id (text t) = raise_if (not (in_range 1 128 (length t))) untrusted
check_id _ = err untrusted

abbrev pub is_empty_set : List Chars → Bool
is_empty_set [] = true
is_empty_set (t ∷ ts) = false

abbrev pub check_times : ℤ → ℤ → ℕ → Result (Unit {0})
check_times issued_at expires_at longest =
    raise_if (leb_ℤ expires_at issued_at || exceeds expires_at issued_at longest) untrusted

-- `_principal_from_payload`
unfoldable pub principal_from_payload : Payload → ℕ → Result Principal
principal_from_payload p max_lifetime_seconds = do
  subject ← subject_of p.sub
  issued_at ← int_of p.iat
  not_before ← int_of p.nbf
  expires_at ← int_of p.exp
  check_times issued_at expires_at max_lifetime_seconds
  check_id p.jti
  rooms ← rethrown (string_list p.rooms >>= validate_rooms)
  permissions ← rethrown (string_list p.permissions >>= validate_permissions)
  raise_if (is_empty_set permissions || not (has admin permissions) && is_empty_set rooms) untrusted
  ok (record {
    subject = some subject;
    permissions = permissions;
    rooms = rooms;
    authentication = Authentication.token;
  })
