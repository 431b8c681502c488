-- ===== src/Lib.antt =====
-- Verification of the Samsarix chat engine.
--
-- The program is a chat service. HTTP and WebSocket handlers (samsarix_chat_engine/app.py) call a store
-- (samsarix_chat_engine/store.py, over SQLite, or postgres_store.py), which keeps rooms, messages,
-- reactions, pins, member controls, read states, an audit trail and an outbox of webhook deliveries,
-- and enforces their limits; a dispatcher (webhooks.py) empties the outbox, and a manager
-- (websocket_manager.py) broadcasts to the open sockets of a room. With PostgreSQL, a log of events
-- (postgres.py) carries each change to all instances, whose relays (postgres_realtime.py) dispatch it.
--
-- Files and what they model:
--   Base            tests on numbers and options, lists, SQL statements on lists of rows, ORDER BY,
--                   primary keys, pages
--   Store.Tables    the schema of `_initialize_sync`, the models of models.py that the store returns,
--                   the limits of `ChatStore.__init__`, the exceptions, transactions as results
--   Store.Audit     `_insert_audit`
--   Store.Outbox    `_insert_webhook`, the scrubs, `_next_webhook_delivery_sync`,
--                   `_record_webhook_attempt_sync`, `_retry_webhook_delivery_sync`
--   Store.Cascade   the foreign keys of the schema
--   Store.Invariant the invariant of the table of messages
--   Store.Rooms     `create_room`, `list_rooms`, `_set_room_state_sync`, `_delete_room_sync`
--   Store.Members   `_set_member_moderation_sync`, `_enforce_member_write_sync`
--   Store.Retention `_trim_messages`, `_delete_messages_with_webhook_scrub`, `_run_retention_sync`
--   Store.Messages  `_create_message_sync`, `_update_message_sync`, `_delete_message_sync`
--   Store.Reactions `_set_message_reaction_sync`
--   Store.Pins      `_set_message_pin_sync`
--   Store.Paging    `_paginate_rows` and the listings with their cursors
--   Store.Reads     `_mark_read_sync` and the other operations on read states
--   Connections     websocket_manager.py: `ConnectionManager`, with its budget and its interleavings
--   RateLimiter     app.py: `MessageRateLimiter`, against a log of the accepted calls
--   Auth            auth.py: principals, `AccessTokenService`, `JWKSAccessTokenVerifier`
--   Webhooks        webhooks.py: `_resolve_target`, the outcome of a request, `_retry_delay` and
--                   `WebhookDispatcher` over the outbox of Store
--   EventLog        postgres.py: the event log, its retention and the cursors of instances;
--                   postgres_realtime.py: what `PostgresRealtimeRelay.process_once` reads and acknowledges
--   Store.Examples  a small store, and the theorems run on it; Connections.Examples does the same
-- An operation `_create_message_sync` is the function `create_message`, and so on. Child modules hold the
-- theorems and are named for what they show.
--
-- How the program is read. A table is the list of its rows in the order of insertion. A write is one
-- transaction (BEGIN IMMEDIATE under a write lock): a function from the database to a result, which
-- holds the new database or the exception, after which the old database stands. What the code draws
-- from the clock and from uuid4 is an argument. A text that the code only compares is a number (its
-- bytes, padded), so that `==` is equality and `<` the order of SQLite; an instant is a number of
-- microseconds, whose order isoformat keeps. No loop of the store needs fuel; a client that reads all
-- pages is given one page more than there are messages.
--
-- The coroutines of the connection manager interleave at their awaits. Each section under its lock, and
-- the synchronous release after a send, is one step, and a run is any sequence of steps. A set of
-- sockets is a list, and a broadcast takes the order in which the set yields them as an argument. An
-- object that has left the table of connections stays in the model, since an activation may hold it.
--
-- The rate limiter takes what `time.monotonic` returns as an argument. PyJWT, SHA-256, floating point,
-- URL parsing, IDNA and DNS are parameters, with what is relied on as hypotheses: ReadsBack of
-- Auth.RoundTrip, IsExact of Webhooks.Delays. One turn of the dispatcher takes as arguments what it
-- meets: stop requests at its awaits, whether the claim or the record fails in the storage, how the
-- request ended (`BoundedTransport.run` may also pass on any other exception), and what other
-- transactions did to the store between the claim and the record.
--
-- Each transaction of the event log is one step with one `now`; append_event holds an advisory lock until
-- its commit, so sequences rise in the order of commits. The steps of EventLog.Relay are those of one
-- relay and of any other instances, which draw other UUIDs. The history of all appended events and the
-- list of what was dispatched and acknowledged stand beside the log, where no code reads them. Pruning
-- takes the rows that SKIP LOCKED passes over as an argument.
--
-- Not modelled: the validators of request models and the size checks of JSON columns, migrations of old
-- schemas, file copies and locks, an OverflowError of `now - timedelta(…)` for retention periods that
-- reach before year 1 (the cutoff stops at 0), Unicode normalisation (a parameter of the search), the
-- PostgreSQL store, connections, rate limits and typing, the schema and notifications of the event log
-- and the polling and fencing of its relay, the HTTP and WebSocket handlers, configuration, reading a
-- key set from a file, the signature of a webhook, the sends and closes on sockets and their timeouts.
pub mod Base
pub mod Store
pub mod Connections
pub mod RateLimiter
pub mod Auth
pub mod Webhooks
pub mod EventLog
