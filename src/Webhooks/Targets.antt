-- ===== src/Webhooks/Targets.antt =====
-- `_resolve_target`: which address a webhook may be sent to. URL parsing, IDNA, DNS and the classes of
-- addresses are parameters: the parsed URL, and the addresses that the resolver returned.
use samsarix_chat_engine.Base.{
  ℕ, ◌==◌, Bool, true, false, not, ◌&&◌, ◌||◌, is_some, inl, inr, ◌⊎◌, Option, none, some, List, [],
  ◌∷◌, ◌++◌, if◌then◌else◌,
}
use samsarix_chat_engine.Base.Sql.{exists}
use samsarix_chat_engine.Base.Texts.{Chars, codes, same, has}
use samsarix_chat_engine.Webhooks.{Failure, invalid_target, dns_error, private_target_blocked}

-- `urlparse(url)`: `port` is `none` where reading the host or the port raises ValueError, else the
-- port if it is given; `ascii` is the name in IDNA, if it has one, and `lowered` is `hostname.lower()`.
pub record Url : Type 0 where
  pub scheme : Chars
  pub netloc : Chars
  pub hostname : Option Chars
  pub lowered : Chars
  pub ascii : Option Chars
  pub port : Option (Option ℕ)
  pub has_username : Bool
  pub has_password : Bool
  pub query : Chars
  pub fragment : Chars
  pub quoted_path : Chars

-- An address of the resolver, if `ipaddress` reads it, by its normal form.
pub record Address : Type 0 where
  pub normal : Chars
  pub is_global : Bool

pub record Target : Type 0 where
  pub scheme : Chars
  pub hostname : Chars
  pub address : Chars
  pub port : ℕ
  pub path : Chars
  pub host_header : Chars

pub data Resolved : Type 0 where
  target : Target → Resolved
  refused : Failure → Resolved

abbrev pub http : Chars
http = codes "http"

abbrev pub https : Chars
https = codes "https"

abbrev pub loopback_names : List Chars
loopback_names = codes "localhost" ∷ codes "127.0.0.1" ∷ codes "::1" ∷ []

abbrev pub is_loopback : Url → Bool
is_loopback u = is_some u.hostname && has u.lowered loopback_names

abbrev pub is_nil : Chars → Bool
is_nil [] = true
is_nil (c ∷ cs) = false

abbrev pub is_invalid : Url → Bool
is_invalid u =
    not (same u.scheme http || same u.scheme https)
    || is_nil u.netloc
    || not (is_some u.hostname)
    || u.has_username
    || u.has_password
    || not (is_nil u.query)
    || not (is_nil u.fragment)
    || same u.scheme http && not (is_loopback u)

-- `port or default`: a port of 0 counts as none.
abbrev pub port_or : Option ℕ → ℕ → ℕ
port_or none default = default
port_or (some n) default = if n == 0 then default else n

abbrev pub default_port : Url → ℕ
default_port u = if same u.scheme https then 443 else 80

-- The loop over the addresses: `resolved_addresses`, or what is raised.
abbrev pub Checked : Type 0
Checked = Failure ⊎ List Chars

abbrev pub add_address : Chars → List Chars → List Chars
add_address a found = if has a found then found else found ++ a ∷ []

abbrev pub check_addresses : Bool → List (Option Address) → List Chars → Checked
check_addresses trusted [] found = inr found
check_addresses trusted (none ∷ more) found = inl dns_error
check_addresses trusted (some a ∷ more) found =
    let rest = check_addresses trusted more (add_address a.normal found) in
    if not trusted && not a.is_global then inl private_target_blocked else rest

-- What is in brackets if it holds a colon, and names the port unless it is the default.
abbrev pub host_header : (ℕ → Chars) → Chars → ℕ → ℕ → Chars
host_header digits host port default =
    let bracketed = if exists (λ c. c == b':') host then (b'[' ∷ host) ++ (b']' ∷ []) else host in
    if port == default then bracketed else bracketed ++ (b':' ∷ digits port)

-- `socket.getaddrinfo` by host and port; `none` is an OSError. `digits` is `str` of a number.
module _ (getaddrinfo : Chars → ℕ → Option (List (Option Address))) (digits : ℕ → Chars) where
  abbrev pub to_target : Url → Chars → ℕ → Checked → Resolved
  to_target u host port (inl f) = refused f
  to_target u host port (inr []) = refused dns_error
  to_target u host port (inr (a ∷ more)) = target (record {
    scheme = u.scheme;
    hostname = host;
    address = a;
    port = port;
    path = u.quoted_path;
    host_header = host_header digits host port (default_port u);
  })

  abbrev pub looked_up : Bool → Url → Chars → ℕ → Option (List (Option Address)) → Resolved
  looked_up allow_private u host port none = refused dns_error
  looked_up allow_private u host port (some found) =
      to_target u host port (check_addresses (is_loopback u || allow_private) found [])

  abbrev pub encoded : Bool → Url → Option ℕ → Option Chars → Resolved
  encoded allow_private u port none = refused invalid_target
  encoded allow_private u port (some host) =
      let resolved_port = port_or port (default_port u) in
      looked_up allow_private u host resolved_port (getaddrinfo host resolved_port)

  abbrev pub with_port : Bool → Url → Option (Option ℕ) → Resolved
  with_port allow_private u none = refused invalid_target
  with_port allow_private u (some port) =
      if is_invalid u then refused invalid_target else encoded allow_private u port u.ascii

  -- `_resolve_target`
  unfoldable pub resolve_target : Bool → Url → Resolved
  resolve_target allow_private u = with_port allow_private u u.port
