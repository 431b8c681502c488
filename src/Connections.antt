-- ===== src/Connections.antt =====
-- samsarix_chat_engine/websocket_manager.py: `ConnectionManager`, each section under its lock as one step.
pub mod Budget
pub mod Steps
pub mod Runs
pub mod Index
pub mod Rooms
mod Examples
use samsarix_chat_engine.Base.{
  ℕ, suc, ◌+◌, ◌-◌, ◌==◌, leb, ltb, Bool, true, false, not, ◌&&◌, ◌||◌, is_some, holds, Option,
  none, some, List, [], ◌∷◌, ◌++◌, length, map, if◌then◌else◌,
}
use samsarix_chat_engine.Base.Sql.{fetch, exists, select, update, delete}
use samsarix_chat_engine.Base.Order.{is_in}
use samsarix_chat_engine.Base.Dicts.{pop, amend}
use samsarix_chat_engine.Store.Tables.{Text}

-- `_PendingEvent`
pub record PendingEvent : Type 0 where
  pub payload : Text
  pub size : ℕ

-- `ConnectionMetadata` of a socket; `ident` is the identity of the object and of its operation lock.
pub record ConnectionMetadata : Type 0 where
  pub ident : ℕ
  pub socket : ℕ
  pub room_id : Text
  pub username : Text
  pub subject : Option Text
  pub permissions : List Text
  pub connection_id : Option Text
  pub broadcast_ready : Bool
  pub after_sequence : Option ℕ
  pub pending : List PendingEvent
  pub pending_bytes : ℕ
  pub inflight : Option PendingEvent

pub record ManagerLimits : Type 0 where
  pub max_connections : ℕ
  pub max_per_room : ℕ
  pub max_pending_events : ℕ
  pub max_pending_bytes : ℕ
  pub max_total_pending_bytes : ℕ

-- `_metadata` by socket, `_rooms` by room, and `_pending_bytes`. `detached` holds the objects that have
-- left `_metadata`: an activation may still hold one, and then releases its charge.
pub record ConnectionManager : Type 0 where
  pub next_ident : ℕ
  pub metadata : List ConnectionMetadata
  pub detached : List ConnectionMetadata
  pub rooms : List (Text × List ℕ)
  pub total : ℕ

-- `ConnectionManager.__init__`
abbrev pub initial : ConnectionManager
initial = record { next_ident = 0; metadata = []; detached = []; rooms = []; total = 0 }

abbrev pub at_socket : ℕ → ConnectionMetadata → Bool
at_socket s c = c.socket == s

abbrev pub find_connection : ℕ → ConnectionManager → Option ConnectionMetadata
find_connection s m = fetch (at_socket s) m.metadata

abbrev pub of_room : Text → Text × List ℕ → Bool
of_room room (r, _) = r == room

abbrev pub sockets_of : Option (Text × List ℕ) → List ℕ
sockets_of none = []
sockets_of (some (_, ss)) = ss

-- `self._rooms.get(room_id, ())`
abbrev pub members : Text → List (Text × List ℕ) → List ℕ
members room rooms = sockets_of (fetch (of_room room) rooms)

abbrev pub join : ℕ → Text × List ℕ → Text × List ℕ
join s (r, ss) = (r, ss ++ s ∷ [])

abbrev pub add_member : Text → ℕ → List (Text × List ℕ) → List (Text × List ℕ)
add_member room s rooms =
    if exists (of_room room) rooms
    then amend (of_room room) (join s) rooms
    else rooms ++ (room, s ∷ []) ∷ []

abbrev pub leave : ℕ → Text × List ℕ → Text × List ℕ
leave s (r, ss) = (r, delete (λ t. t == s) ss)

-- The socket is discarded from the set of its room, and a set that is left empty is dropped.
abbrev pub discard_member : Text → ℕ → List (Text × List ℕ) → List (Text × List ℕ)
discard_member room s rooms =
    if length (delete (λ t. t == s) (members room rooms)) == 0
    then delete (of_room room) rooms
    else amend (of_room room) (leave s) rooms

pub record Registration : Type 0 where
  pub socket : ℕ
  pub room_id : Text
  pub username : Text
  pub subject : Option Text
  pub permissions : List Text
  pub connection_id : Option Text
  pub broadcast_ready : Bool
  pub after_sequence : Option ℕ

abbrev pub new_metadata : ℕ → Registration → ConnectionMetadata
new_metadata ident r = record {
  ident = ident;
  socket = r.socket;
  room_id = r.room_id;
  username = r.username;
  subject = r.subject;
  permissions = r.permissions;
  connection_id = r.connection_id;
  broadcast_ready = r.broadcast_ready;
  after_sequence = r.after_sequence;
  pending = [];
  pending_bytes = 0;
  inflight = none;
}

-- `admitted` is the answer of the admission check, or true without one.
abbrev pub is_refused : ManagerLimits → Registration → Bool → ConnectionManager → Bool
is_refused l r admitted m =
    exists (at_socket r.socket) m.metadata
    || not admitted
    || leb l.max_connections (length m.metadata)
    || leb l.max_per_room (length (members r.room_id m.rooms))

unfoldable pub register :
    ManagerLimits → Registration → Bool → ConnectionManager → Bool × ConnectionManager
register l r admitted m = if is_refused l r admitted m then (false, m) else (
  true,
  record m {
    next_ident = suc m.next_ident;
    metadata = m.metadata ++ new_metadata m.next_ident r ∷ [];
    rooms = add_member r.room_id r.socket m.rooms;
  },
)

abbrev pub inflight_size : ConnectionMetadata → ℕ
inflight_size c = elim c.inflight [ none ↦ 0 | some e ↦ e.size ]

-- `_discard_pending`: the charge of an event that is being sent stays.
abbrev pub discarded : ConnectionMetadata → ConnectionMetadata
discarded c = record c { pending = []; pending_bytes = inflight_size c }

abbrev pub released : ConnectionMetadata → ℕ
released c = c.pending_bytes - inflight_size c

-- `_detach_connection`, which `unregister` and `close` call.
unfoldable pub detach_connection :
    ℕ → ConnectionManager → Option ConnectionMetadata × ConnectionManager
detach_connection s m = elim (find_connection s m) [
  | none ↦ (none, m)
  | some c ↦ (
    some c,
    record m {
      metadata = pop (at_socket s) m.metadata;
      detached = m.detached ++ discarded c ∷ [];
      rooms = discard_member c.room_id s m.rooms;
      total = m.total - released c;
    },
  )
]

pub record Broadcast : Type 0 where
  pub exclude : Option ℕ
  pub exclude_connection_id : Option Text
  pub event_sequence : Option ℕ
  pub required_permission : Option Text
  pub buffered : Option PendingEvent

-- `_accepts_sequence`
abbrev pub accepts_sequence : ConnectionMetadata → Option ℕ → Bool
accepts_sequence c none = true
accepts_sequence c (some n) = elim c.after_sequence [ none ↦ true | some k ↦ ltb k n ]

abbrev pub may_receive : Text → Option Text → ConnectionMetadata → Bool
may_receive admin none c = true
may_receive admin (some p) c = is_in p c.permissions || is_in admin c.permissions

abbrev pub same_connection : Option Text → ConnectionMetadata → Bool
same_connection none c = false
same_connection (some k) c = holds c.connection_id k

abbrev pub is_addressed : Text → Broadcast → ConnectionMetadata → Bool
is_addressed admin b c =
    accepts_sequence c b.event_sequence
    && may_receive admin b.required_permission c
    && not (holds b.exclude c.socket || same_connection b.exclude_connection_id c)

abbrev pub waiting : ConnectionMetadata → ℕ
waiting c = length c.pending + (if is_some c.inflight then 1 else 0)

abbrev pub overflows : ManagerLimits → PendingEvent → ConnectionMetadata → ConnectionManager → Bool
overflows l e c m =
    leb l.max_pending_events (waiting c)
    || ltb l.max_pending_bytes (c.pending_bytes + e.size)
    || ltb l.max_total_pending_bytes (m.total + e.size)

abbrev pub push : PendingEvent → ConnectionMetadata → ConnectionMetadata
push e c = record c { pending = c.pending ++ e ∷ []; pending_bytes = c.pending_bytes + e.size }

abbrev pub queue_event : ℕ → PendingEvent → ConnectionManager → ConnectionManager
queue_event s e m = record m {
  metadata = amend (at_socket s) (push e) m.metadata;
  total = m.total + e.size;
}

-- What the loop of `broadcast` has collected: who is sent to, who is closed, and the manager.
pub record Round : Type 0 where
  pub recipients : List ℕ
  pub overflow : List ℕ
  pub manager : ConnectionManager

abbrev pub drop_peer : ℕ → Round → Round
drop_peer s o = record o {
  overflow = o.overflow ++ s ∷ [];
  manager = (detach_connection s o.manager).1;
}

-- An event that is not valid JSON overflows at the first peer that it would be queued for.
abbrev pub buffer_event :
    ManagerLimits → Option PendingEvent → ℕ → ConnectionMetadata → Round → Round
buffer_event l none s c o = drop_peer s o
buffer_event l (some e) s c o =
    if overflows l e c o.manager
    then drop_peer s o
    else record o { manager = queue_event s e o.manager }

-- One turn of the loop.
unfoldable pub offer : ManagerLimits → Text → Broadcast → ℕ → Round → Round
offer l admin b s o = elim (find_connection s o.manager) [
  | none ↦ o
  | some c ↦
      if not (is_addressed admin b c)
      then o
      else if c.broadcast_ready
      then record o { recipients = o.recipients ++ s ∷ [] }
      else buffer_event l b.buffered s c o
]

-- The loop over the sockets of the room, in the order in which the set yields them.
unfoldable pub broadcast : ManagerLimits → Text → Broadcast → List ℕ → Round → Round
broadcast l admin b [] o = o
broadcast l admin b (s ∷ ss) o = broadcast l admin b ss (offer l admin b s o)

pub data Activation : Type 0 where
  gone ready : Activation
  sending : PendingEvent → Activation

abbrev pub start : List PendingEvent → PendingEvent → ConnectionMetadata → ConnectionMetadata
start rest e c = record c { pending = rest; inflight = some e }

-- The locked section of a turn of `_activate`, given the queue of the object that it was called with.
abbrev pub take_event : ℕ → List PendingEvent → ConnectionManager → Activation × ConnectionManager
take_event s [] m = (
  ready,
  record m { metadata = amend (at_socket s) (λ c. record c { broadcast_ready = true }) m.metadata },
)
take_event s (e ∷ rest) m =
    (sending e, record m { metadata = amend (at_socket s) (start rest e) m.metadata })

-- The operation lock is held until the send has ended, so no second event is taken meanwhile.
unfoldable pub begin_send : ℕ → ℕ → ConnectionManager → Activation × ConnectionManager
begin_send s ident m = elim (find_connection s m) [
  | none ↦ (gone, m)
  | some c ↦
      if not (c.ident == ident) || is_some c.inflight then (gone, m) else take_event s c.pending m
]

abbrev pub is_object : ℕ → ConnectionMetadata → Bool
is_object ident c = c.ident == ident

abbrev pub release : PendingEvent → ConnectionMetadata → ConnectionMetadata
release e c = record c { inflight = none; pending_bytes = c.pending_bytes - e.size }

abbrev pub finish_detached : ℕ → ConnectionManager → ConnectionManager
finish_detached ident m = elim (fetch (is_object ident) m.detached) [
  | none ↦ m
  | some c ↦ elim c.inflight [
    | none ↦ m
    | some e ↦ record m {
      detached = amend (is_object ident) (release e) m.detached;
      total = m.total - e.size;
    }
  ]
]

-- The `finally` of that turn: the charge is released, wherever the object is.
unfoldable pub finish_send : ℕ → ConnectionManager → ConnectionManager
finish_send ident m = elim (fetch (is_object ident) m.metadata) [
  | none ↦ finish_detached ident m
  | some c ↦ elim c.inflight [
    | none ↦ m
    | some e ↦ record m {
      metadata = amend (is_object ident) (release e) m.metadata;
      total = m.total - e.size;
    }
  ]
]

-- `_detach_room_connections` and `close_all` detach the sockets that they select.
unfoldable pub detach_all : List ℕ → ConnectionManager → ConnectionManager
detach_all [] m = m
detach_all (s ∷ ss) m = detach_all ss (detach_connection s m).1

abbrev pub is_matched : Option Text → Option ℕ → ConnectionManager → ℕ → Bool
is_matched subject sequence m s = elim (find_connection s m) [
  | none ↦ false
  | some c ↦
      (elim subject [ none ↦ true | some k ↦ holds c.subject k ]) && accepts_sequence c sequence
]

abbrev pub detach_room_connections :
    Text → Option Text → Option ℕ → ConnectionManager → ConnectionManager
detach_room_connections room subject sequence m =
    detach_all (select (is_matched subject sequence m) (members room m.rooms)) m

abbrev pub close_all : ConnectionManager → ConnectionManager
close_all m = detach_all (map (λ (c : ConnectionMetadata). c.socket) m.metadata) m
