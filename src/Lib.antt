-- ===== src/Lib.antt =====
-- kfadapter: the adapter between a KuaiFan account and SOCKS5 clients. A manager owns the runtime view
-- of the account (nodes, sessions, selectors) and decides who may pin it; a registry derives one user
-- name and password per node and authenticates them; the server speaks SOCKS5 with the clients; the
-- tunnel protocol WIFIIN carries the traffic to a node; a codec seals the messages of the control
-- plane, and a refresher turns what it answers into the next view; the web interface keeps the browser
-- sessions and throttles access tokens; a hub hands state events to browsers; a supervisor runs the
-- workers, one of them a watchdog.
--
-- The parts, each with its code, by paths from the repository's root:
--
-- - State, internal/state/types.go and manager.go. State.Types has the records of the runtime view,
--   State.Sessions the session secrets and their checks, State.Snapshot `NodeByID`, `ResolveSelector`
--   and `ValidateRuntimeSnapshot`, State.Binding the subscription generation and its binding to an
--   account. State.Manager is `Manager` as a record with one function per method: `Begin` and the
--   function that it returns, `SignOut`, `MarkExpired`, `Transition` there, `CompactPin` and
--   `SessionCurrentPin` in State.Manager.Admission, `Commit` in State.Manager.Publication, `Status`,
--   `InstallSubscriptionGeneration` with its rollback and `NewManagerWithSubscription` in
--   State.Manager.Setup. State.Manager.Trace runs a list of calls. A method holds the mutex
--   from start to end, so it is one step, but `Status` reads the state and then the view. The function that a method returns is a record whose field
--   `fired` is its `sync.Once`. State.Persistent is the durable state of types.go: its data, its
--   validation (Validation), the access token (Token) and what binds it to an account (Account).
-- - Selector, internal/selector/credentials.go. Selector.Identity has `Canonicalize`, `Fingerprint` and
--   `DeriveCanonical`, Selector.Registry `AuthenticateAt` and `Resolve`, which calls State.Snapshot,
--   Selector.Build `BuildWithTombstones`, whose result is the selectors of the next view.
-- - Socks, internal/socks/protocol.go: a connection is the bytes to read, the bytes written and the
--   room left to write, and each function of the file a function of the monad over it.
-- - Wifiin, internal/kuaifan/wifiin: Wifiin.Uot is udp.go, Wifiin.Provider and Wifiin.Header the provider
--   extension and the initial packet of tcp.go and cipher.go, Wifiin.Handshake its reader.
-- - Kuaifan, internal/kuaifan: Kuaifan.Codec is codec.go, padding, `Encode` and `Decode`. Kuaifan.Refresh
--   is refresh.go: the aggregate of two profiles and their merge, Refresh.Building the nodes, the
--   selectors and the snapshot, Refresh.Publication `Login`, `Refresh` and `ExpireIfNeeded` over
--   State.Manager, for any function that publishes the snapshot, Refresh.Retry `retry` and
--   `retryDelay` with profile.RandomInt.
-- - Web, internal/web/security.go: Web.Access is the table of access attempts, Web.Sessions the session
--   store, with its calls on sessions (Calls) and on logins (Logins), and Sessions.Run any
--   interleaving of them; Web.Diagnostics is `redactDiagnostic`.
-- - Lifecycle, internal/lifecycle/supervisor.go: `Watchdog` as a loop over its turns, each the end of the
--   context or a tick and what its probe finds, and the checks of `New`.
-- - App, internal/app: App.Events is the event hub of events.go, App.Coordinator the installation of a
--   credential generation in selector_coordinator.go, which calls Selector.Build. App.Publication is
--   `CommitControlSnapshotLocked` of runtime.go, which cmd/kfadapter/main.go gives the refresher as its
--   `CommitSnapshot`, with `PrepareRuntimeCommit` of internal/subscription/service.go: it installs the
--   account's subscription (State.Persistent, State.Manager) and its selectors (App.Coordinator), stores
--   and commits the snapshot, and takes all back where a step fails.
-- - Base has byte strings, lists, maps and the functions of Go's library that the code uses.
--
-- A `time.Time` is the number of nanoseconds since Go's zero time, and `clock k` the k-th reading of
-- the clock within a call. Strings and slices are lists of bytes; a map is an association list, read
-- at the first entry for a key, and a range over it takes the entries in order. Numbers of 64 bits
-- wrap around where the manager counts; the event hub's client numbers and the session store's
-- channels are taken not to. HMAC, MD5, SHA-256, Argon2id, AES, Base64, IDNA, the case tables, URLs,
-- durations and the text forms of `netip` are arguments, and a theorem that needs their documented
-- behaviour takes it as a hypothesis. What a service, a disk or a random source answers is an
-- argument too. Receivers and pointers are not nil.
--
-- Loops are recursions on their lists. With fuel: `derive_key` takes 33 rounds for a key of 32 bytes, of
-- which two are used with a 16-byte digest; `ReadACK` takes three, since each adds a byte; a port has five
-- decimal digits and a user number ten; `ReadServerIV` takes one round for each chunk and three more;
-- `create` of a session has four rounds and `retry` as many as it has attempts, as in the source.
--
-- Not modelled: the SQLite store, the HTTP handlers, the HTTP and JSON of the control-plane client, the
-- rest of the subscription service and of the runtime, the configuration, the server's goroutines and
-- deadlines, and the program's entry. They are I/O around the parts above, or stand on them. Of the
-- refresher, the two clients run one after the other.
pub mod App
pub mod Base
pub mod State
pub mod Kuaifan
pub mod Selector
pub mod Lifecycle
pub mod Web
pub mod Wifiin
pub mod Socks
