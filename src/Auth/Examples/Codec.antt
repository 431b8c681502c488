-- ===== src/Auth/Examples/Codec.antt =====
-- PyJWT by a codec that signs nothing and hides nothing: tokens are records.
use samsarix_chat_engine.Base.{
  ℕ, ◌+◌, leb, ltb, Bool, true, false, ◌&&◌, ◌≡◌, refl, Option, none, some, [], arith,
  if◌then◌else◌, holds,
}
use samsarix_chat_engine.Base.Texts.{Chars, same, same_refl}
use samsarix_chat_engine.Auth.{Profile}
use samsarix_chat_engine.Auth.Payloads.{pos, negsuc, Claim, text, integer, null, Payload}
use samsarix_chat_engine.Auth.Tokens.{Jwt, is_text}
use samsarix_chat_engine.Auth.RoundTrip.{IsCurrent, ReadsBack}

pub record Signed : Type 0 where
  pub typ : Claim
  pub alg : Claim
  pub kid : Claim
  pub payload : Payload
  pub secret : Chars
  pub signer : Option ℕ

abbrev is_any_text : Claim → Bool
is_any_text (text t) = true
is_any_text _ = false

abbrev is_present : Claim → Bool
is_present null = false
is_present _ = true

abbrev not_after : ℕ → Claim → Bool
not_after limit (integer (pos n)) = leb n limit
not_after limit (integer (negsuc n)) = true
not_after limit _ = false

abbrev runs_past : ℕ → ℕ → Claim → Bool
runs_past now leeway (integer (pos e)) = ltb now (e + leeway)
runs_past now leeway _ = false

abbrev is_current : Profile → ℕ → Payload → Bool
is_current profile now p =
    is_text profile.issuer p.iss
    && is_text profile.audience p.aud
    && is_any_text p.sub
    && not_after (now + profile.clock_skew_seconds) p.iat
    && not_after (now + profile.clock_skew_seconds) p.nbf
    && runs_past now profile.clock_skew_seconds p.exp
    && is_any_text p.jti
    && is_present p.rooms
    && is_present p.permissions

abbrev pub clear : Jwt
clear = record {
  Token = Signed;
  Public = ℕ;
  size = λ t. 500;
  encode = λ typ alg p secret. record {
    typ = text typ;
    alg = text alg;
    kid = null;
    payload = p;
    secret = secret;
    signer = none;
  };
  header = λ t. some (record { typ = t.typ; alg = t.alg; kid = t.kid; names = [] });
  decode_secret = λ t secret alg profile now.
      if same secret t.secret && is_text alg t.alg && is_current profile now t.payload
      then some t.payload
      else none;
  decode_public = λ t key alg profile now.
      if holds t.signer key && is_text alg t.alg && is_current profile now t.payload
      then some t.payload
      else none;
  from_dict = λ content alg. some 1;
  key_size = λ key. 4096;
}

present : (c : Claim) → (c ≡ null → ⊥) → is_present c ≡ true
present null h = absurd (h refl)
present (text t) h = refl
present (integer n) h = refl
present (Claim.flag b) h = refl
present (Claim.items is) h = refl
present Claim.object h = refl
present Claim.other h = refl

is_current-true :
    (profile : Profile) (now : ℕ) (p : Payload)
    → IsCurrent profile now p
    → is_current profile now p ≡ true
is_current-true profile now p c =
    let (s, es) = c.subject in
    let (i, ei, hi) = c.issued in
    let (n, en, hn) = c.started in
    let (e, ee, he) = c.unexpired in
    let (t, et) = c.identified in
    let a : leb i (now + profile.clock_skew_seconds) ≡ true = ground arith in
    let b : leb n (now + profile.clock_skew_seconds) ≡ true = ground arith in
    let d : ltb now (e + profile.clock_skew_seconds) ≡ true = ground arith in
    rw
      (
        c.issuer,
        c.audience,
        es,
        ei,
        en,
        ee,
        et,
        present p.rooms c.roomed,
        present p.permissions c.permitted,
        same_refl profile.issuer,
        same_refl profile.audience,
        a,
        b,
        d,
      )
      refl

pub clear-ReadsBack : ReadsBack clear
clear-ReadsBack = record {
  nonempty = λ typ alg p secret. omega arith;
  header-encode = λ typ alg p secret. (_, refl, refl, refl);
  decode-encode = λ typ alg p secret profile now current.
      rw (same_refl secret, same_refl alg, is_current-true profile now p current) refl;
}
