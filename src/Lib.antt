-- ===== src/Lib.antt =====
-- MCPHub: a Gateway that gives MCP clients one address for MCP servers that run elsewhere. On each
-- such machine a connect (cmd/mcp-connect) runs the servers behind connectors and keeps a WebSocket
-- tunnel to the Gateway (cmd/mcp-gateway). A client's HTTP request becomes a request frame on the
-- tunnel; the connect hands it to a connector and writes the answer back as response frames. The
-- Gateway also keeps a registry of what is connected, logs devices in, and offers the MCP Hub, which
-- searches, shows and invokes the tools of all components by groups.
--
-- The files, and the code that each models:
--   Registry      internal/registry/registry.go: the tables, keyed by joined ids, and its methods
--                 register, heartbeat, disconnect, disconnect_component, expire, restore, snapshot
--   Auth          internal/auth/device.go: code, token, oauth_token, revoke, validate, approve, over a
--                 table of entries (Entries, Handlers) or the stores of internal/store/store.go (Store)
--   Discovery     internal/discovery/service.go: groups (Groups), tools and memberships (Tools), and
--                 search, get, set_group and invoke (Queries)
--   Protocol      pkg/protocol/protocol.go: the frame
--   Connector     internal/connector: the Streamable HTTP connector: which upstreams are allowed
--                 (Upstream), and how a response is read and passed on (Http)
--   Connect       internal/connect: the daemon's control requests (Daemon), its backoff
--                 (Daemon.Backoff), and the frames that it serves (Serve)
--   Gateway       internal/gateway: the rate limiter (RateLimit), the checks on requests (Secure), the
--                 channels of a tunnel (Session), hello and heartbeat (Tunnel), the loop that turns
--                 frames into a response (Relay), and the Hub (Hub)
--   Gateway.Mcp, Gateway.TokenGroups, Gateway.Catalog
--                 internal/gateway/gateway.go and discovery_refresh.go: the routes for MCP requests, for the
--                 groups of a token and for refreshing a catalog, and the refresh itself
--   Postgres      internal/store/postgres over the tables of migrations: device codes, tokens and their
--                 groups (Auth), groups and tools (Discovery)
--   Redis         internal/store/redis/presence.go: the heartbeats, the limiter, the revoked tokens and
--                 the cache of catalogs, over the commands of the go-redis client
--   Admin         internal/admin: groups and their tools (Groups), and the overview (Overview)
--   Cli           cmd/mcp-connect/main.go: the command login (Login), and add and daemon (Components)
--   Mux           internal/tunnel/mux.go: Send and ReadLoop as steps of goroutines
--   Prelude       texts, maps, lists and tests that these share
--
-- A method that changes a shared object under its lock is a function from the state to the state that
-- it leaves, with its answer; a run of calls is a list. Texts are lists of bytes, with the case
-- mapping and trimming of ASCII. A Go map is an association list, and the theorems hold for every
-- order of its entries. Times are nanoseconds as natural numbers, and one call reads the clock once.
-- The Redis client, the HTTP client, DNS, hashes and random texts are parameters; so are the stores, where
-- the text does not say that they are PostgreSQL or Redis. A statement of SQL runs as a whole, a transaction
-- that fails leaves the tables as they were, rows are read in any order where the statement asks for none,
-- and ORDER BY compares bytes.
-- No definition uses fuel: the loop of the login command has its own bound of 120 rounds, and every
-- other loop that is modelled goes through a list.
--
-- Not modelled: the tables of connects and of audit records, behind their interfaces; JSON encoding;
-- the stdio connector; the installer; the commands but login, add and daemon; and the web
-- console.
pub mod Prelude
pub mod Protocol
pub mod Registry
pub mod Auth
pub mod Discovery
pub mod Connector
pub mod Connect
pub mod Cli
pub mod Gateway
pub mod Postgres
pub mod Redis
pub mod Admin
pub mod Mux
