-- ===== src/Lib.antt =====
-- Etre, an entity API with labels over MongoDB, and its change data capture (CDC) feed.
--
-- Base holds what all parts share: tests and lists over the native numbers, Go's maps with string
-- keys as association lists (Base/Dict), int64 by bit patterns (Base/Int64), texts by their bytes
-- where the program walks them (Base/Bytes, Base/Text).
--
-- * Etre models the types of etre.go: entities as maps from labels to values of Go's dynamic types,
--   CDC events, sets, meta labels. A panic of Go is the outcome `panics`.
-- * RevOrder models revorder.go: `in_order` is InOrder with the eviction callback, `feed` a client's
--   loop over it, as sendToClient and streamBacklog of cdc/changestream/stream.go have it. The LRU
--   cache of github.com/golang/groupcache is the parameter `Lru` (RevOrder/LruCache) with the laws
--   that its documentation gives; RevOrder/Bounded is a cache that meets them. sort.Sort is an
--   insertion sort, which differs from it only in the order of equal revisions.
-- * Query models query/kls.go (`parse`, with the state machine of its inner loop in Query/Kls/Scan)
--   and query/query.go (`translate`). A selector is its bytes; the code's offsets are kept, and its
--   slices between them are taken to be in range.
-- * Auth models auth/auth.go and auth/manager.go over an arbitrary plugin, which is taken to return.
-- * Entity models the package entity: Entity/Validate is entity/validate.go, Entity/Filter the
--   translation of a query into a filter of entity/entity.go, and Entity/Store the
--   store of entity/store.go with the CDC event of each write. The MongoDB collections, the context,
--   the clock and the CDC store are the parameter `Backend` (Entity/Store/Driver) with laws on the
--   events that the CDC store has acknowledged; Entity/Store/Memory is a backend that meets them.
-- * Cdc models cdc/store.go: Write (Cdc/Store) over the parameter `CdcDriver`: the collection, the
--   context, time, JSON and the fallback file; and Read (Cdc/Store/Read) with insertion sort for
--   sort.Sort.
-- * ChangeStream models cdc/changestream/server.go (ChangeStream/Server) as steps under its lock, and
--   the control messages of cdc/changestream/client.go (ChangeStream/Client) over the parameter `Conn`
--   for the websocket and the clock.
-- * Metrics models the package metrics over the parameter `GoMetrics` for go-metrics: the metrics of a
--   group (Metrics/Group), those of all groups of a request (Metrics/Store), and those of the system
--   (Metrics/System).
-- * Api models api/api_gomux.go and api/errors.go. A handler is an action on the state of a request
--   (Api/Action), which comes back after a panic too: the world of the store, the request's context,
--   the response, and the calls on metrics, which Metrics/Store makes. Api/Reply is readError and
--   WriteResult, Api/Read and Api/Write are the handlers of entities, Api/Wrapper is requestWrapper,
--   cdcWrapper and id, Api/Server the endpoints with the handler of changes. The store is the
--   interface `EntityStore`, which Entity/Store implements; the websocket, the clock and the parsers
--   of ids and durations are parameters of `Api`. Api/Leads is a logic of these actions by what holds
--   before and after, with which the other modules of Api prove what is said of all handlers.
--
-- The loop of DeleteEntities ends when a search finds no document. It runs on fuel, and any fuel
-- above the number of documents is enough, since each turn deletes one. The other loops are
-- recursions on lists or, for the retries of Write, on the tries that are left.
--
-- Not modelled: the streamer of change streams, and of its client Ping and the goroutine that
-- sends the events, the Go clients, the handlers of metrics and status, the query profile, the
-- encoding of responses, net/http with its choice of an endpoint, the statistics of histograms,
-- requests that make the metrics of a group at the same time, the MongoDB driver, logging and
-- the messages of errors, reading of configuration files, the command line of es, and the API
-- documentation.
pub mod Base
pub mod Etre
pub mod RevOrder
pub mod Query
pub mod Auth
pub mod Entity
pub mod Cdc
pub mod ChangeStream
pub mod Metrics
pub mod Api
