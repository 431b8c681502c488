-- ===== src/Auth/Tokens.antt =====
-- `AccessTokenService`: issuing and verifying HS256 tokens. PyJWT is a parameter.
use samsarix_chat_engine.Base.{
  ℕ, ◌+◌, ◌==◌, ltb, Bool, false, not, ◌&&◌, ◌||◌, Option, List, [], ◌∷◌, length, if◌then◌else◌,
}
use samsarix_chat_engine.Base.Texts.{Chars, codes, same, strip, has, sorted}
use samsarix_chat_engine.Auth.{
  Result, ok, ◌>>=◌, ◌>>◌, raise_if, or_raise, untrusted, bad_secret, bad_subject, no_permission,
  no_room, bad_expiry, token_too_long, in_range, Principal, admin, token_type, Profile,
  validate_token_profile, validate_rooms, validate_permissions,
}
use samsarix_chat_engine.Auth.Payloads.{
  pos, Item, str, Claim, text, integer, items, Payload, is_empty_set, principal_from_payload,
}

-- The parameters of a token's header that are read, and the names of all.
pub record Header : Type 0 where
  pub typ : Claim
  pub alg : Claim
  pub kid : Claim
  pub names : List Chars

-- PyJWT: `jwt.encode` with the headers `typ` and `alg`, `jwt.get_unverified_header`, and `jwt.decode`
-- with an algorithm, a profile (audience, issuer and leeway), the claims it requires and the time.
-- `none` stands for the exceptions that it raises. `Public` are the keys of `PyJWK`.
pub record Jwt : Type 1 where
  pub Token : Type 0
  pub Public : Type 0
  pub size : Token → ℕ
  pub encode : Chars → Chars → Payload → Chars → Token
  pub header : Token → Option Header
  pub decode_secret : Token → Chars → Chars → Profile → ℕ → Option Payload
  pub decode_public : Token → Public → Chars → Profile → ℕ → Option Payload
  pub from_dict : List Chars → Chars → Option Public
  pub key_size : Public → ℕ

abbrev pub is_text : Chars → Claim → Bool
is_text t (text s) = same s t
is_text t _ = false

abbrev pub hs256 : Chars
hs256 = codes "HS256"

-- The bytes of a text in UTF-8
abbrev pub utf8_size : Chars → ℕ
utf8_size [] = 0
utf8_size (c ∷ cs) =
    (if ltb c 0x80 then 1 else if ltb c 0x800 then 2 else if ltb c 0x10000 then 3 else 4)
    + utf8_size cs

pub record Service : Type 0 where
  pub secret : Chars
  pub profile : Profile

-- `AccessTokenService.__init__`
unfoldable pub new_service : Chars → Profile → Result Service
unfolding validate_token_profile
new_service secret profile = do
  raise_if (not (in_range 32 4096 (utf8_size secret))) bad_secret
  validate_token_profile profile
  ok (record { secret = secret; profile = profile })

pub record Grant : Type 0 where
  pub subject : Chars
  pub rooms : List Chars
  pub permissions : List Chars
  pub expires_in_seconds : ℕ

abbrev pub item_list : List Chars → List Item
item_list [] = []
item_list (t ∷ ts) = str t ∷ item_list ts

-- `payload` of `issue`; `jti` is `uuid.uuid4().hex`.
abbrev pub issued_payload : Profile → Chars → List Chars → List Chars → ℕ → ℕ → Chars → Payload
issued_payload p subject rooms permissions expires_in_seconds issued_at jti = record {
  iss = text p.issuer;
  aud = text p.audience;
  sub = text subject;
  iat = integer (pos issued_at);
  nbf = integer (pos issued_at);
  exp = integer (pos (issued_at + expires_in_seconds));
  jti = text jti;
  rooms = items (item_list (sorted rooms));
  permissions = items (item_list (sorted permissions));
}

-- The checks of `issue` before it builds the payload, and what it has made of its arguments.
pub record Granted : Type 0 where
  pub subject : Chars
  pub rooms : List Chars
  pub permissions : List Chars

unfoldable pub granted : Service → Grant → Result Granted
granted s g = do
  let subject = strip g.subject
  raise_if (not (in_range 1 64 (length subject))) bad_subject
  rooms ← validate_rooms g.rooms
  permissions ← validate_permissions g.permissions
  raise_if (is_empty_set permissions) no_permission
  raise_if (not (has admin permissions) && is_empty_set rooms) no_room
  raise_if (not (in_range 60 s.profile.max_lifetime_seconds g.expires_in_seconds)) bad_expiry
  ok (record { subject = subject; rooms = rooms; permissions = permissions })

module _ (j : Jwt) where
  open j use {Token, size, encode, header, decode_secret}

  abbrev pub issued_token : Service → Grant → ℕ → Chars → Granted → Token
  issued_token s g now jti r =
      encode token_type hs256
        (issued_payload s.profile r.subject r.rooms r.permissions g.expires_in_seconds now jti)
        s.secret

  -- `AccessTokenService.issue`
  unfoldable pub issue : Service → Grant → ℕ → Chars → Result Token
  issue s g now jti = do
    r ← granted s g
    let made = issued_token s g now jti r
    raise_if (ltb 8192 (size made)) token_too_long
    ok made

  -- `not token or len(token) > 8_192`
  abbrev pub is_unreadable : Token → Bool
  is_unreadable t = size t == 0 || ltb 8192 (size t)

  -- `AccessTokenService.verify`
  unfoldable pub verify : Service → Token → ℕ → Result Principal
  verify s t now = do
    raise_if (is_unreadable t) untrusted
    h ← or_raise (header t) untrusted
    raise_if (not (is_text token_type h.typ) || not (is_text hs256 h.alg)) untrusted
    payload ← or_raise (decode_secret t s.secret hs256 s.profile now) untrusted
    principal_from_payload payload s.profile.max_lifetime_seconds
