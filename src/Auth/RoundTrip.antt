-- ===== src/Auth/RoundTrip.antt =====
-- A token that `AccessTokenService.issue` made is accepted by `verify` and grants what was asked.
use samsarix_chat_engine.Base.{
  ℕ, ◌+◌, ◌≤◌, ◌<◌, leb, ltb, true, false, not, ◌&&◌, ◌||◌, ◌≡◌, ◌≢◌, refl, ap, ◌∙◌, subst, some,
  List, [], ◌∷◌, length, All, arith,
}
use samsarix_chat_engine.Base.Sql.{exists}
use samsarix_chat_engine.Base.Texts.{
  Chars, same_refl, strip, strip_twice, has, as_set, sorted, has-sorted, has-as_set, exists-sorted,
  length-sorted, as_set-sorted, length-as_set-le,
}
use samsarix_chat_engine.Auth.{
  ok, ◌>>=◌, rethrown, in_range, Principal, Authentication, admin, token_type, allowed_permissions,
  is_room_id, Profile, validate_rooms, validate_permissions,
}
use samsarix_chat_engine.Auth.Outcomes.{raise_if-eq-ok, >>=-eq-ok, ok-injective}
use samsarix_chat_engine.Auth.Payloads.{
  pos, Claim, text, integer, items, Payload, texts_of, string_list, is_empty_set,
  principal_from_payload,
}
use samsarix_chat_engine.Auth.Profiles.{validate_rooms-eq-ok, validate_permissions-eq-ok}
use samsarix_chat_engine.Auth.Tokens.{
  Jwt, Header, hs256, Service, Grant, item_list, issued_payload, Granted, granted, issued_token,
  issue, is_unreadable, verify,
}

-- The claims that PyJWT verifies: the issuer, the audience, the presence of the required ones and the
-- times, in_range the leeway.
pub record IsCurrent (profile : Profile) (now : ℕ) (p : Payload) : Type 0 where
  pub issuer : p.iss ≡ text profile.issuer
  pub audience : p.aud ≡ text profile.audience
  pub subject : (s : Chars) × (p.sub ≡ text s)
  pub issued : (i : ℕ) × (p.iat ≡ integer (pos i)) × (i ≤ now + profile.clock_skew_seconds)
  pub started : (n : ℕ) × (p.nbf ≡ integer (pos n)) × (n ≤ now + profile.clock_skew_seconds)
  pub unexpired : (e : ℕ) × (p.exp ≡ integer (pos e)) × (now < e + profile.clock_skew_seconds)
  pub identified : (t : Chars) × (p.jti ≡ text t)
  pub roomed : p.rooms ≢ Claim.null
  pub permitted : p.permissions ≢ Claim.null

-- PyJWT reads back what it wrote, under the same secret.
pub record ReadsBack (j : Jwt) : Type 0 where
  pub nonempty :
      (typ alg : Chars) (p : Payload) (secret : Chars) → 0 < j.size (j.encode typ alg p secret)
  pub header-encode :
      (typ alg : Chars) (p : Payload) (secret : Chars)
      → (h : Header) × (j.header (j.encode typ alg p secret) ≡ some h)
        × (h.typ ≡ text typ)
        × (h.alg ≡ text alg)
  pub decode-encode :
      (typ alg : Chars) (p : Payload) (secret : Chars) (profile : Profile) (now : ℕ)
      → IsCurrent profile now p
      → j.decode_secret (j.encode typ alg p secret) secret alg profile now ≡ some p

texts_of-item_list : (ts : List Chars) → texts_of (item_list ts) ≡ some ts
texts_of-item_list [] = refl
texts_of-item_list (t ∷ ts) = rw (texts_of-item_list ts) refl

-- The claim of a set reads back, unless it has more than 1000 texts.
string_list-items :
    (ts : List Chars)
    → length (as_set ts) ≤ 1000
    → string_list (items (item_list (sorted (as_set ts)))) ≡ ok (sorted (as_set ts))
unfolding string_list
string_list-items ts few =
    let short : length (sorted (as_set ts)) ≤ 1000 = omega (arith, length-sorted (as_set ts)) in
    rw (texts_of-item_list (sorted (as_set ts)), as_set-sorted ts) (ground arith)

rooms_again :
    (ts : List Chars) {rs : List Chars}
    → validate_rooms ts ≡ ok rs
    → validate_rooms (sorted rs) ≡ ok (sorted rs)
unfolding validate_rooms
rooms_again ts {rs} h =
    let (fits, e) =
      raise_if-eq-ok (ltb 1000 (length (as_set ts)) || exists (λ r. not (is_room_id r)) (as_set ts))
        _ _ h in
    subst (λ x. validate_rooms (sorted x) ≡ ok (sorted x)) (ok-injective e)
      (unfold validate_rooms in
        rw
          (
            as_set-sorted ts,
            length-sorted (as_set ts),
            exists-sorted (λ r. not (is_room_id r)) (as_set ts),
            fits,
          )
          refl)

permissions_again :
    (ts : List Chars) {ps : List Chars}
    → validate_permissions ts ≡ ok ps
    → validate_permissions (sorted ps) ≡ ok (sorted ps)
unfolding validate_permissions
permissions_again ts {ps} h =
    let (fits, e) =
      raise_if-eq-ok (exists (λ p. not (has p allowed_permissions)) (as_set ts)) _ _ h in
    subst (λ x. validate_permissions (sorted x) ≡ ok (sorted x)) (ok-injective e)
      (unfold validate_permissions in
        rw
          (as_set-sorted ts, exists-sorted (λ p. not (has p allowed_permissions)) (as_set ts), fits)
          refl)

is_empty_set-sorted : (ts : List Chars) → is_empty_set (sorted ts) ≡ is_empty_set ts
is_empty_set-sorted ts = by_length (sorted ts) ts (length-sorted ts)
  where
    by_length : (xs ys : List Chars) → length xs ≡ length ys → is_empty_set xs ≡ is_empty_set ys
    by_length [] [] h = refl
    by_length [] (y ∷ ys) h = absurd (omega arith)
    by_length (x ∷ xs) [] h = absurd (omega arith)
    by_length (x ∷ xs) (y ∷ ys) h = refl

-- What the checks of `issue` have established.
record IsGranted (s : Service) (g : Grant) (r : Granted) : Type 0 where
  subject : r.subject ≡ strip g.subject
  named : in_range 1 64 (length (strip g.subject)) ≡ true
  rooms : validate_rooms g.rooms ≡ ok r.rooms
  permissions : validate_permissions g.permissions ≡ ok r.permissions
  granting : is_empty_set r.permissions ≡ false
  scoped : (not (has admin r.permissions) && is_empty_set r.rooms) ≡ false
  lived : in_range 60 s.profile.max_lifetime_seconds g.expires_in_seconds ≡ true

granted-IsGranted : (s : Service) (g : Grant) {r : Granted} → granted s g ≡ ok r → IsGranted s g r
unfolding granted
granted-IsGranted s g h =
    let (a, h1) = raise_if-eq-ok (not (in_range 1 64 (length (strip g.subject)))) _ _ h in
    let (rooms, er, h2) = >>=-eq-ok (validate_rooms g.rooms) _ h1 in
    let (perms, ep, h3) = >>=-eq-ok (validate_permissions g.permissions) _ h2 in
    let (b, h4) = raise_if-eq-ok (is_empty_set perms) _ _ h3 in
    let (c, h5) = raise_if-eq-ok (not (has admin perms) && is_empty_set rooms) _ _ h4 in
    let (d, h6) =
      raise_if-eq-ok (not (in_range 60 s.profile.max_lifetime_seconds g.expires_in_seconds)) _ _
        h5 in
    subst (IsGranted s g) (ok-injective h6) (record {
      subject = refl;
      named = ground arith;
      rooms = er;
      permissions = ep;
      granting = b;
      scoped = c;
      lived = ground arith;
    })

abbrev principal_of : Granted → Principal
principal_of r = record {
  subject = some r.subject;
  permissions = sorted r.permissions;
  rooms = sorted r.rooms;
  authentication = Authentication.token;
}

-- A claim of `issue` read back through its checks.
rooms_read :
    (ts : List Chars) {rs : List Chars}
    → validate_rooms ts ≡ ok rs
    → rethrown (string_list (items (item_list (sorted rs))) >>= validate_rooms) ≡ ok (sorted rs)
rooms_read ts {rs} h =
    let (q, few, _) = validate_rooms-eq-ok ts h in
    let few' : length (as_set ts) ≤ 1000 = rw (← q) few in
    let claim : string_list (items (item_list (sorted rs))) ≡ ok (sorted rs) =
      rw q (string_list-items ts few') in
    rw (claim, rooms_again ts h) refl

permissions_read :
    (ts : List Chars) {ps : List Chars}
    → validate_permissions ts ≡ ok ps
    → rethrown (string_list (items (item_list (sorted ps))) >>= validate_permissions)
      ≡ ok (sorted ps)
permissions_read ts {ps} h =
    let (q, known) = validate_permissions-eq-ok ts h in
    let known' : All (λ t. has t allowed_permissions ≡ true) (as_set ts) = rw (← q) known in
    let few : length (as_set ts) ≤ 1000 =
      omega (arith, length-as_set-le allowed_permissions ts known') in
    let claim : string_list (items (item_list (sorted ps))) ≡ ok (sorted ps) =
      rw q (string_list-items ts few) in
    rw (claim, permissions_again ts h) refl

-- The payload that is issued passes the checks of a verified one.
principal-issued_payload :
    (s : Service) (g : Grant) (issued_at : ℕ) (jti : Chars) (r : Granted)
    → in_range 1 128 (length jti) ≡ true
    → IsGranted s g r
    → principal_from_payload
        (issued_payload s.profile r.subject r.rooms r.permissions g.expires_in_seconds issued_at
          jti)
        s.profile.max_lifetime_seconds
      ≡ ok (principal_of r)
unfolding principal_from_payload
principal-issued_payload s g issued_at jti r named c =
    let bare : strip r.subject ≡ r.subject = rw c.subject (strip_twice g.subject) in
    let long_enough : in_range 1 64 (length r.subject) ≡ true = rw c.subject c.named in
    let early : leb (issued_at + g.expires_in_seconds + 0) (issued_at + 0) ≡ false =
      ground (arith, c.lived) in
    let brief : ltb (issued_at + 0 + s.profile.max_lifetime_seconds)
          (issued_at + g.expires_in_seconds + 0)
        ≡ false =
      ground (arith, c.lived) in
    rw
      (
        bare,
        long_enough,
        same_refl r.subject,
        early,
        brief,
        named,
        rooms_read g.rooms c.rooms,
        permissions_read g.permissions c.permissions,
        is_empty_set-sorted r.permissions,
        c.granting,
        has-sorted admin r.permissions,
        is_empty_set-sorted r.rooms,
        c.scoped,
      )
      refl

module _ (j : Jwt) (back : ReadsBack j) where
  -- Where PyJWT reads back what it wrote, a token that `issue` returned is accepted by `verify` of
  -- the same service from `clock_skew_seconds` before its time of issue to as long after its expiry,
  -- if its identifier (a UUID in the code) has 1 to 128 characters. The principal has the stripped
  -- subject and exactly the rooms and the permissions that were asked for.
  pub verify-issue :
      (s : Service) (g : Grant) (issued_at now : ℕ) (jti : Chars) {t : j.Token}
      → in_range 1 128 (length jti) ≡ true
      → issued_at ≤ now + s.profile.clock_skew_seconds
      → now < issued_at + g.expires_in_seconds + s.profile.clock_skew_seconds
      → issue j s g issued_at jti ≡ ok t
      → (p : Principal) × (verify j s t now ≡ ok p)
        × (p.subject ≡ some (strip g.subject))
        × ((room : Chars) → has room p.rooms ≡ has room g.rooms)
        × ((permission : Chars) → has permission p.permissions ≡ has permission g.permissions)
        × (p.authentication ≡ Authentication.token)
  unfolding issue
  verify-issue s g issued_at now jti {t} named begun running h =
      let (r, er, h1) = >>=-eq-ok (granted s g) _ h in
      let made = issued_token j s g issued_at jti r in
      let (short, h2) = raise_if-eq-ok (ltb 8192 (j.size made)) _ _ h1 in
      let q : made ≡ t = ok-injective h2 in
      let c = granted-IsGranted s g er in
      let p =
        issued_payload s.profile r.subject r.rooms r.permissions g.expires_in_seconds issued_at
          jti in
      let current : IsCurrent s.profile now p = record {
        issuer = refl;
        audience = refl;
        subject = (r.subject, refl);
        issued = (issued_at, refl, begun);
        started = (issued_at, refl, begun);
        unexpired = (issued_at + g.expires_in_seconds, refl, running);
        identified = (jti, refl);
        roomed = λ e. cc;
        permitted = λ e. cc;
      } in
      let (head, eh, typ, alg) = back.header-encode token_type hs256 p s.secret in
      let readable : is_unreadable j made ≡ false =
        ground (arith, back.nonempty token_type hs256 p s.secret) in
      (
        principal_of r,
        subst (λ x. verify j s x now ≡ ok (principal_of r)) q
            (unfold verify in
              rw
                (
                  readable,
                  eh,
                  typ,
                  alg,
                  back.decode-encode token_type hs256 p s.secret s.profile now current,
                )
                (principal-issued_payload s g issued_at jti r named c)),
        ap some c.subject,
        (λ room.
            has-sorted room r.rooms
            ∙ ap (has room) (validate_rooms-eq-ok g.rooms c.rooms).0
            ∙ has-as_set room g.rooms),
        (λ permission.
            has-sorted permission r.permissions
            ∙ ap (has permission) (validate_permissions-eq-ok g.permissions c.permissions).0
            ∙ has-as_set permission g.permissions),
        refl,
      )
