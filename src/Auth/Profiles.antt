-- ===== src/Auth/Profiles.antt =====
-- What `_principal_from_payload` has checked of a payload that it accepts.
use samsarix_chat_engine.Base.{
  ℕ, ◌+◌, ◌≤◌, ◌<◌, Bool, true, false, not, ◌&&◌, ◌||◌, ◌≡◌, refl, sym, ap, ◌∙◌, some, List, [],
  ◌∷◌, length, All, arith, subst,
}
use samsarix_chat_engine.Base.Sql.{exists}
use samsarix_chat_engine.Base.Texts.{Chars, same_eq, strip, has, has-as_set, as_set}
use samsarix_chat_engine.Auth.{
  ok, ◌>>=◌, rethrown, Principal, Authentication, admin, is_room_id, allowed_permissions,
  validate_rooms, validate_permissions,
}
use samsarix_chat_engine.Auth.Outcomes.{raise_if-eq-ok, >>=-eq-ok, rethrown-eq-ok, ok-injective}
use samsarix_chat_engine.Auth.Payloads.{
  ℤ, pos_part, neg_part, leb_ℤ, exceeds, Claim, text, integer, Payload, string_list, subject_of,
  int_of, check_id, is_empty_set, principal_from_payload,
}

-- A text for a subject: not padded, and of 1 to 64 characters.
abbrev pub IsSubject : Chars → Type 0
IsSubject s = (1 ≤ length s) × (length s ≤ 64) × (strip s ≡ s)

-- From after `i` to at most `longest` seconds after it.
abbrev pub IsLifetime : ℕ → ℤ → ℤ → Type 0
IsLifetime longest i e =
    (pos_part i + neg_part e < pos_part e + neg_part i)
    × (pos_part e + neg_part i ≤ pos_part i + neg_part e + longest)

pub record IsProfiled (p : Payload) (longest : ℕ) (r : Principal) : Type 0 where
  pub named : (s : Chars) × (p.sub ≡ text s) × (r.subject ≡ some s) × IsSubject s
  pub timed : (i : ℤ) × (e : ℤ) × (p.iat ≡ integer i) × (p.exp ≡ integer e) × IsLifetime longest i e
  pub scoped :
      (rooms : List Chars) × (string_list p.rooms ≡ ok rooms)
      × ((t : Chars) → has t r.rooms ≡ has t rooms)
      × All (λ t. is_room_id t ≡ true) r.rooms
  pub permitted :
      (permissions : List Chars) × (string_list p.permissions ≡ ok permissions)
      × ((t : Chars) → has t r.permissions ≡ has t permissions)
      × All (λ t. has t allowed_permissions ≡ true) r.permissions
  pub granting : is_empty_set r.permissions ≡ false
  pub restricted : has admin r.permissions ≡ false → is_empty_set r.rooms ≡ false
  pub by_token : r.authentication ≡ Authentication.token

not-eq-false : (b : Bool) → not b ≡ false → b ≡ true
not-eq-false true h = refl
not-eq-false false h = cc

All-not :
    (p : Chars → Bool) (ts : List Chars)
    → exists (λ t. not (p t)) ts ≡ false
    → All (λ t. p t ≡ true) ts
All-not p [] h = tt
All-not p (t ∷ ts) h = (ground arith, All-not p ts (ground arith))

pub subject_of-eq-ok : (c : Claim) {s : Chars} → subject_of c ≡ ok s → (c ≡ text s) × IsSubject s
subject_of-eq-ok (text t) {s} h =
    let (fits, e) = raise_if-eq-ok _ _ _ h in
    let q : t ≡ s = ok-injective e in
    let whole : t ≡ strip t = same_eq t (strip t) (ground arith) in
    subst (λ x. (text t ≡ text x) × IsSubject x) q
      (refl, (rw whole (ground arith), rw whole (ground arith), sym whole))
subject_of-eq-ok Claim.null h = cc
subject_of-eq-ok (Claim.integer n) h = cc
subject_of-eq-ok (Claim.flag b) h = cc
subject_of-eq-ok (Claim.items is) h = cc
subject_of-eq-ok Claim.object h = cc
subject_of-eq-ok Claim.other h = cc

pub int_of-eq-ok : (c : Claim) {n : ℤ} → int_of c ≡ ok n → c ≡ integer n
int_of-eq-ok c h = ground arith

pub validate_rooms-eq-ok :
    (ts : List Chars) {rs : List Chars}
    → validate_rooms ts ≡ ok rs
    → (rs ≡ as_set ts) × (length rs ≤ 1000) × All (λ t. is_room_id t ≡ true) rs
unfolding validate_rooms
validate_rooms-eq-ok ts {rs} h =
    let (fits, e) = raise_if-eq-ok _ _ _ h in
    let q : as_set ts ≡ rs = ok-injective e in
    subst (λ x. (x ≡ as_set ts) × (length x ≤ 1000) × All (λ t. is_room_id t ≡ true) x) q
      (refl, ground arith, All-not is_room_id (as_set ts) (ground arith))

pub validate_permissions-eq-ok :
    (ts : List Chars) {ps : List Chars}
    → validate_permissions ts ≡ ok ps
    → (ps ≡ as_set ts) × All (λ t. has t allowed_permissions ≡ true) ps
unfolding validate_permissions
validate_permissions-eq-ok ts {ps} h =
    let (fits, e) = raise_if-eq-ok _ _ _ h in
    let q : as_set ts ≡ ps = ok-injective e in
    subst (λ x. (x ≡ as_set ts) × All (λ t. has t allowed_permissions ≡ true) x) q
      (refl, All-not (λ p. has p allowed_permissions) (as_set ts) fits)

pub principal_from_payload-IsProfiled :
    (p : Payload) (longest : ℕ) {r : Principal}
    → principal_from_payload p longest ≡ ok r
    → IsProfiled p longest r
unfolding principal_from_payload
principal_from_payload-IsProfiled p longest {r} h =
    let (s, es, h1) = >>=-eq-ok (subject_of p.sub) _ h in
    let (i, ei, h2) = >>=-eq-ok (int_of p.iat) _ h1 in
    let (n, en, h3) = >>=-eq-ok (int_of p.nbf) _ h2 in
    let (e, ee, h4) = >>=-eq-ok (int_of p.exp) _ h3 in
    let (timely, h5) = raise_if-eq-ok (leb_ℤ e i || exceeds e i longest) _ _ h4 in
    let (u, eu, h6) = >>=-eq-ok (check_id p.jti) _ h5 in
    let (rs, er, h7) = >>=-eq-ok (rethrown (string_list p.rooms >>= validate_rooms)) _ h6 in
    let (ps, ep, h8) =
      >>=-eq-ok (rethrown (string_list p.permissions >>= validate_permissions)) _ h7 in
    let (full, h9) =
      raise_if-eq-ok (is_empty_set ps || not (has admin ps) && is_empty_set rs) _ _ h8 in
    let (rooms, erooms, valid_rooms) =
      >>=-eq-ok (string_list p.rooms) validate_rooms (rethrown-eq-ok _ er) in
    let (perms, eperms, valid_perms) =
      >>=-eq-ok (string_list p.permissions) validate_permissions (rethrown-eq-ok _ ep) in
    let (ers, _, all_rooms) = validate_rooms-eq-ok rooms valid_rooms in
    let (eps, all_perms) = validate_permissions-eq-ok perms valid_perms in
    let (named, fit) = subject_of-eq-ok p.sub es in
    subst (IsProfiled p longest) (ok-injective h9) (record {
      named = (s, named, refl, fit);
      timed = (i, e, int_of-eq-ok p.iat ei, int_of-eq-ok p.exp ee, ground arith);
      scoped = (rooms, erooms, (λ t. ap (has t) ers ∙ has-as_set t rooms), all_rooms);
      permitted = (perms, eperms, (λ t. ap (has t) eps ∙ has-as_set t perms), all_perms);
      granting = ground arith;
      restricted = λ n. ground arith;
      by_token = refl;
    })
