-- ===== src/Connections/Index.antt =====
-- The sockets by room agree with the table of connections.
use samsarix_chat_engine.Base.{
  ℕ, ◌==◌, Bool, true, false, not, ◌&&◌, ◌||◌, is_some, ◌≡◌, refl, sym, ap, ◌∙◌, subst, Option,
  none, some, List, [], ◌∷◌, ◌++◌, length, arith, Bool-cases, ==_iff, Option-cases, inl, inr,
  if◌then◌else◌,
}
use samsarix_chat_engine.Base.Sql.{fetch, exists, delete, fetch-holds}
use samsarix_chat_engine.Base.Order.{is_in}
use samsarix_chat_engine.Base.Dicts.{pop, amend}
use samsarix_chat_engine.Base.Keys.{Unique, Unique-append}
use samsarix_chat_engine.Store.Tables.{Text}
use samsarix_chat_engine.Connections.{
  ConnectionMetadata, ManagerLimits, ConnectionManager, at_socket, find_connection, Registration,
  new_metadata, is_refused, register, of_room, sockets_of, members, join, leave, add_member,
  discard_member, detach_connection,
}

abbrev changed :
    Bool → (Text × List ℕ → Text × List ℕ) → Option (Text × List ℕ) → Option (Text × List ℕ)
changed b f none = none
changed b f (some e) = if b then some (f e) else some e

module _ (room : Text) (f : Text × List ℕ → Text × List ℕ)
    (same : (x : Text × List ℕ) → (f x).0 ≡ x.0) where
  fetch-amend :
      (k : Text) (rooms : List (Text × List ℕ))
      → fetch (of_room k) (amend (of_room room) f rooms)
        ≡ changed (k == room) f (fetch (of_room k) rooms)
  fetch-amend k [] = refl
  fetch-amend k (x ∷ xs) = ground (arith, same x, fetch-amend k xs)

fetch-delete :
    (room k : Text) (rooms : List (Text × List ℕ))
    → fetch (of_room k) (delete (of_room room) rooms)
      ≡ (if k == room then none else fetch (of_room k) rooms)
fetch-delete room k [] = ground arith
fetch-delete room k (x ∷ xs) = ground (arith, fetch-delete room k xs)

is_in-append : (t s : ℕ) (ss : List ℕ) → is_in t (ss ++ s ∷ []) ≡ (is_in t ss || s == t)
is_in-append t s [] = ground arith
is_in-append t s (x ∷ xs) = ground (arith, is_in-append t s xs)

is_in-delete :
    (t s : ℕ) (ss : List ℕ) → is_in t (delete (λ x. x == s) ss) ≡ (is_in t ss && not (s == t))
is_in-delete t s [] = ground arith
is_in-delete t s (x ∷ xs) = ground (arith, is_in-delete t s xs)

empty-is_in : (t : ℕ) (ss : List ℕ) → (length ss == 0) ≡ true → is_in t ss ≡ false
empty-is_in t [] e = refl
empty-is_in t (x ∷ xs) e = ground arith

-- Joining adds one socket to one room.
is_in-add_member :
    (room s k t : ℕ) (rooms : List (Text × List ℕ))
    → is_in t (members k (add_member room s rooms))
      ≡ (is_in t (members k rooms) || (room == k && s == t))
is_in-add_member room s k t rooms = elim (Bool-cases (exists (of_room room) rooms)) [
  | inl e ↦
      rw (e, fetch-amend room (join s) (λ x. refl) k rooms)
        (joined (fetch (of_room k) rooms) (present rooms e))
  | inr e ↦ rw e (added rooms e)
]
  where
    present :
        (rs : List (Text × List ℕ))
        → exists (of_room room) rs ≡ true
        → (k == room) ≡ true
        → is_some (fetch (of_room k) rs) ≡ true
    present [] e q = cc
    present (x ∷ xs) e q = ground (arith, present xs)

    added :
        (rs : List (Text × List ℕ))
        → exists (of_room room) rs ≡ false
        → is_in t (sockets_of (fetch (of_room k) (rs ++ (room, s ∷ []) ∷ [])))
          ≡ (is_in t (sockets_of (fetch (of_room k) rs)) || (room == k && s == t))
    added [] e = ground arith
    added ((r, ss) ∷ xs) e = ground (arith, added xs)

    joined :
        (o : Option (Text × List ℕ))
        → ((k == room) ≡ true → is_some o ≡ true)
        → is_in t (sockets_of (changed (k == room) (join s) o))
          ≡ (is_in t (sockets_of o) || (room == k && s == t))
    joined none h = ground arith
    joined (some (r, ss)) h = ground (arith, is_in-append t s ss)

-- Leaving removes one socket from one room.
is_in-discard_member :
    (room s k t : ℕ) (rooms : List (Text × List ℕ))
    → is_in t (members k (discard_member room s rooms))
      ≡ (is_in t (members k rooms) && not (room == k && s == t))
is_in-discard_member room s k t rooms =
    elim (Bool-cases (length (delete (λ x. x == s) (members room rooms)) == 0)) [
      | inl e ↦
          rw (e, fetch-delete room k rooms)
            (gone (is_in-delete t s (members room rooms))
              (empty-is_in t (delete (λ x. x == s) (members room rooms)) e))
      | inr e ↦
          rw (e, fetch-amend room (leave s) (λ x. refl) k rooms) (left (fetch (of_room k) rooms))
    ]
  where
    gone :
        is_in t (delete (λ x. x == s) (members room rooms))
          ≡ (is_in t (members room rooms) && not (s == t))
        → is_in t (delete (λ x. x == s) (members room rooms)) ≡ false
        → is_in t (sockets_of (if k == room then none else fetch (of_room k) rooms))
          ≡ (is_in t (members k rooms) && not (room == k && s == t))
    gone d e = elim (Bool-cases (k == room)) [
      | inl q ↦
          let same : k ≡ room = (==_iff k room).0 q in
          rw q (ground (arith, d, e, ap (λ (j : ℕ). is_in t (members j rooms)) same))
      | inr n ↦ rw n (ground arith)
    ]

    left :
        (o : Option (Text × List ℕ))
        → is_in t (sockets_of (changed (k == room) (leave s) o))
          ≡ (is_in t (sockets_of o) && not (room == k && s == t))
    left none = refl
    left (some (r, ss)) = ground (arith, is_in-delete t s ss)

-- A connection of that socket in that room.
abbrev pub is_at : Text → ℕ → ConnectionMetadata → Bool
is_at room s c = c.socket == s && c.room_id == room

abbrev pub socket_of : ConnectionMetadata → ℕ
socket_of c = c.socket

exists-added :
    (k : Text) (t : ℕ) (cs : List ConnectionMetadata) (c : ConnectionMetadata)
    → exists (is_at k t) (cs ++ c ∷ []) ≡ (exists (is_at k t) cs || is_at k t c)
exists-added k t [] c = ground arith
exists-added k t (x ∷ xs) c = ground (arith, exists-added k t xs c)

absent-is_at :
    (k : Text) (t : ℕ) (cs : List ConnectionMetadata)
    → exists (at_socket t) cs ≡ false
    → exists (is_at k t) cs ≡ false
absent-is_at k t [] e = refl
absent-is_at k t (x ∷ xs) e = ground (arith, absent-is_at k t xs)

exists-popped :
    (s : ℕ) (k : Text) (t : ℕ) (cs : List ConnectionMetadata) (c : ConnectionMetadata)
    → Unique socket_of cs
    → fetch (at_socket s) cs ≡ some c
    → exists (is_at k t) (pop (at_socket s) cs)
      ≡ (exists (is_at k t) cs && not (c.room_id == k && s == t))
exists-popped s k t [] c u e = cc
exists-popped s k t (x ∷ xs) c u e = elim (Bool-cases (at_socket s x)) [
  | inl h ↦
      let q : x ≡ c = cc (rw h at e) in
      let room : x.room_id ≡ c.room_id = ap (λ (y : ConnectionMetadata). y.room_id) q in
      rw h (ground (arith, absent-is_at k t xs, u.0, room))
  | inr n ↦
      rw n (ground (arith, exists-popped s k t xs c u.1 (rw n at e), fetch-socket xs (rw n at e)))
]
  where
    fetch-socket : (ys : List ConnectionMetadata) → fetch (at_socket s) ys ≡ some c → c.socket ≡ s
    fetch-socket ys e = ground (arith, fetch-holds (at_socket s) ys e)

exists-amended :
    (p : ConnectionMetadata → Bool) (f : ConnectionMetadata → ConnectionMetadata) (k : Text) (t : ℕ)
    (cs : List ConnectionMetadata)
    → ((x : ConnectionMetadata) → ((f x).socket ≡ x.socket) × ((f x).room_id ≡ x.room_id))
    → exists (is_at k t) (amend p f cs) ≡ exists (is_at k t) cs
exists-amended p f k t [] same = refl
exists-amended p f k t (x ∷ xs) same = ground (arith, same x, exists-amended p f k t xs same)

Unique-popped :
    (s : ℕ) (cs : List ConnectionMetadata)
    → Unique socket_of cs
    → Unique socket_of (pop (at_socket s) cs)
Unique-popped s [] u = tt
Unique-popped s (x ∷ xs) u = elim (Bool-cases (at_socket s x)) [
  | inl h ↦ rw h u.1
  | inr n ↦ rw n (still xs u.0, Unique-popped s xs u.1)
]
  where
    still :
        (ys : List ConnectionMetadata)
        → exists (at_socket x.socket) ys ≡ false
        → exists (at_socket x.socket) (pop (at_socket s) ys) ≡ false
    still [] e = refl
    still (y ∷ ys) e = ground (arith, still ys)

module _ (p : ConnectionMetadata → Bool) (f : ConnectionMetadata → ConnectionMetadata)
    (same : (x : ConnectionMetadata)
      → ((f x).socket ≡ x.socket) × ((f x).room_id ≡ x.room_id)) where
  exists-socket :
      (t : ℕ) (cs : List ConnectionMetadata)
      → exists (at_socket t) (amend p f cs) ≡ exists (at_socket t) cs
  exists-socket t [] = refl
  exists-socket t (x ∷ xs) = ground (arith, same x, exists-socket t xs)

  Unique-amended :
      (cs : List ConnectionMetadata) → Unique socket_of cs → Unique socket_of (amend p f cs)
  Unique-amended [] u = tt
  Unique-amended (x ∷ xs) u = elim (Bool-cases (p x)) [
    | inl h ↦ rw h (subst (λ (j : ℕ). exists (at_socket j) xs ≡ false) (sym (same x).0) u.0, u.1)
    | inr n ↦ rw n (exists-socket x.socket xs ∙ u.0, Unique-amended xs u.1)
  ]

-- The index holds a socket in a room exactly where the table has its connection in that room, and no
-- socket is registered twice.
pub record IsIndexed (m : ConnectionManager) : Type 0 where
  pub agrees : (k : Text) (t : ℕ) → is_in t (members k m.rooms) ≡ exists (is_at k t) m.metadata
  pub unique : Unique socket_of m.metadata

module _ (m : ConnectionManager) (h : IsIndexed m) where
  pub register-IsIndexed :
      (l : ManagerLimits) (r : Registration) (admitted : Bool)
      → IsIndexed (register l r admitted m).1
  unfolding register
  register-IsIndexed l r admitted = elim (Bool-cases (is_refused l r admitted m)) [
    | inl e ↦ rw e h
    | inr e ↦
        let c : ConnectionMetadata = new_metadata m.next_ident r in
        let fresh : exists (at_socket r.socket) m.metadata ≡ false = ground arith in
        rw e (record {
          agrees = λ k t. ground (
            arith,
            is_in-add_member r.room_id r.socket k t m.rooms,
            h.agrees k t,
            exists-added k t m.metadata c,
          );
          unique = Unique-append socket_of m.metadata c h.unique fresh;
        })
  ]

  pub detach_connection-IsIndexed : (s : ℕ) → IsIndexed (detach_connection s m).1
  unfolding detach_connection
  detach_connection-IsIndexed s = elim (Option-cases (find_connection s m)) [
    | inl e ↦ rw (e, detach_connection) h
    | inr (c, e) ↦
        rw (e, detach_connection)
          (record {
            agrees = λ k t.
                is_in-discard_member c.room_id s k t m.rooms
                ∙ ground (arith, h.agrees k t, exists-popped s k t m.metadata c h.unique e);
            unique = Unique-popped s m.metadata h.unique;
          })
  ]

  -- An update of one connection that leaves its socket and room.
  pub amended-IsIndexed :
      (p : ConnectionMetadata → Bool) (f : ConnectionMetadata → ConnectionMetadata) (total : ℕ)
      → ((x : ConnectionMetadata) → ((f x).socket ≡ x.socket) × ((f x).room_id ≡ x.room_id))
      → IsIndexed (record m { metadata = amend p f m.metadata; total = total })
  amended-IsIndexed p f total same = record {
    agrees = λ k t. h.agrees k t ∙ sym (exists-amended p f k t m.metadata same);
    unique = Unique-amended p f same m.metadata h.unique;
  }
