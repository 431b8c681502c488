-- ===== src/Auth/Examples.antt =====
-- A codec that keeps its tokens in the clear, a service and a key set, and the theorems on them.
mod Codec
use samsarix_chat_engine.Base.{
  ℕ, ◌≤◌, ◌<◌, Bool, true, false, ◌≡◌, refl, Option, none, some, List, [], ◌∷◌, arith,
}
use samsarix_chat_engine.Base.Texts.{Chars, codes, strip, has}
use samsarix_chat_engine.Auth.{
  Result, ok, err, Principal, Authentication, Profile, admin, validate_token_profile,
  validate_rooms, validate_permissions, token_type,
}
use samsarix_chat_engine.Auth.Payloads.{
  Claim, text, null, Payload, string_list, principal_from_payload,
}
use samsarix_chat_engine.Auth.Tokens
use samsarix_chat_engine.Auth.Tokens.{
  Jwt, Header, Service, Grant, Granted, granted, issued_payload, issue, hs256,
}
use samsarix_chat_engine.Auth.RoundTrip.{verify-issue}
use samsarix_chat_engine.Auth.Keys.{
  Jwk, JwkValue, dict, LoadedKey, load_key, load_keys, Verifier, new_verifier, ed_dsa,
}
use samsarix_chat_engine.Auth.Keys
use samsarix_chat_engine.Auth.Trust.{IsTrusted, verify-IsTrusted}
use Codec.{Signed, clear, clear-ReadsBack}

abbrev profile : Profile
profile = record {
  issuer = codes "chat";
  audience = codes "rooms";
  max_lifetime_seconds = 86400;
  clock_skew_seconds = 30;
}

abbrev service : Service
service = record { secret = codes "0123456789abcdef0123456789abcdef"; profile = profile }

abbrev grant : Grant
grant = record {
  subject = codes " ann ";
  rooms = codes "lobby" ∷ codes "dev" ∷ codes "lobby" ∷ [];
  permissions = codes "room:write" ∷ codes "room:read" ∷ [];
  expires_in_seconds = 3600;
}

abbrev jti : Chars
jti = codes "b7"

abbrev after_issue : Result Signed → Signed
after_issue (ok t) = t
after_issue (err e) = record {
  typ = null;
  alg = null;
  kid = null;
  payload = blank;
  secret = [];
  signer = none;
}
  where
    blank : Payload
    blank = record {
      iss = null;
      aud = null;
      sub = null;
      iat = null;
      nbf = null;
      exp = null;
      jti = null;
      rooms = null;
      permissions = null;
    }

abbrev ticket : Signed
ticket = after_issue (issue clear service grant 1000 jti)

verify-issue_example :
    (p : Principal) × (Tokens.verify clear service ticket 4620 ≡ ok p)
    × (p.subject ≡ some (strip (codes " ann ")))
    × ((room : Chars) → has room p.rooms ≡ has room grant.rooms)
    × ((permission : Chars) → has permission p.permissions ≡ has permission grant.permissions)
    × (p.authentication ≡ Authentication.token)
unfolding issue granted validate_rooms validate_permissions strip
verify-issue_example =
    verify-issue clear clear-ReadsBack service grant 1000 4620 jti {t = ticket} refl (omega arith)
      (omega arith) refl

abbrev public_key : Jwk
public_key = record {
  kid = text (codes "k1");
  alg = text ed_dsa;
  kty = text (codes "OKP");
  crv = text (codes "Ed25519");
  usage = text (codes "sig");
  key_ops = null;
  names = codes "kid" ∷ codes "x" ∷ [];
  content = codes "x" ∷ [];
}

abbrev empty_verifier : Verifier clear
empty_verifier = record { keys = []; profile = profile }

abbrev loaded_or : Result (Verifier clear) → Verifier clear
loaded_or (ok v) = v
loaded_or (err e) = empty_verifier

abbrev keyring : Verifier clear
keyring = loaded_or (new_verifier clear (some (dict public_key ∷ [])) profile)

-- Signed by the holder of the key, over the payload that the service above would issue.
abbrev signed : Signed
signed = record ticket { alg = text ed_dsa; kid = text (codes "k1"); signer = some 1 }

abbrev nobody : Principal
nobody = record {
  subject = none;
  permissions = [];
  rooms = [];
  authentication = Authentication.unauthenticated;
}

abbrev principal_or : Result Principal → Principal
principal_or (ok p) = p
principal_or (err e) = nobody

verify-IsTrusted_example :
    IsTrusted clear
      (dict public_key ∷ [])
      profile
      signed
      1010
      (principal_or (Keys.verify clear keyring signed 1010))
unfolding new_verifier load_keys load_key Keys.verify validate_token_profile issue granted
    validate_rooms validate_permissions principal_from_payload string_list strip
verify-IsTrusted_example =
    verify-IsTrusted clear (dict public_key ∷ []) profile {v = keyring} signed 1010
      {r = principal_or (Keys.verify clear keyring signed 1010)} refl refl
