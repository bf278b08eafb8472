-- ===== src/Lib.antt =====
-- Torana, a gateway in Go between agents, tools, models and services: a model of the parts that decide
-- about a request, in the order in which one meets them. Paths are from the repository's root.
--
-- Router (internal/router/router.go): Compile makes the tables of a snapshot (Router/Compile,
--   compile_router) and Match finds a route and an upstream in them (Router/Match, match). Its counter
--   and the requests of the retry budgets are passed in and out. regexp.Compile is the parameter
--   `compile`, and a compiled expression is the test that it makes. RetryBudget and
--   SelectWeightedUpstream are in Router/Retry. Text is ASCII where case matters.
-- Pipeline (internal/pipeline): ExecutePhase runs the filters of a phase (Pipeline/Chain,
--   execute_phase), each behind a CircuitBreaker (Pipeline/Breaker). A filter is a record with its
--   Process as a function of the envelope and a world that all filters share. The readings of the
--   clock and of the context are the `Moment` of each filter. Durations and times are nanoseconds.
-- Authz (internal/security/authz): Evaluate (Authz/Engine, evaluate) decides by the rules, with a CEL
--   program as a function from the maps that it sees, and emits a DecisionLog to the AuditBuffer
--   (Authz/Audit), whose worker takes steps between those of the requests. Process of the filter of
--   this package is Authz/Filter, process, a filter of the pipeline.
-- Limits (internal/limits): PreCheckFilter and ReconciliationFilter (Limits/Filter) with the estimates of
--   Limits/Usage call the Limiter. PreCheck and Reconcile of the Limiter (Limits/Limiter) work over the
--   interface CounterStore; Limits/Store/Laws says what they rely on of it. LocalCounterStore
--   (Limits/Store) has a TokenBucket (Limits/TokenBucket). Each call of a store is one step at one
--   reading of the clock.
-- Revocation (internal/security/authn/revocation.go, Authn/Revocation): the list of revoked tokens and
--   keys under the events of the control plane and of subscribers.
-- Bulkhead (internal/egress/postgres/bulkhead.go, Egress/Bulkhead): callers take a slot, queue, wait,
--   leave the queue and release in any interleaving, each select a step (Egress/Bulkhead/Capacity).
-- Fallback (internal/egress/llm/fallback.go, Egress/Fallback): ExecuteWithFallback tries the targets of
--   a chain; a provider is a record of its methods as functions of the request and a world
--   (Egress/Fallback/Order).
-- Config (internal/config/config.go): the data that the parts above read (Config/Types), the RouteTrie
--   (Config/Trie), Validate and CompileSnapshot (Config/Compile), and SaveLKG, LoadLKG and the
--   SnapshotHolder (Config/Holder), each of whose operations is one step on the holder and on a file
--   system; package os and encoding/json are parameters.
-- Authn (internal/security/authn): the filter (Authn/Filter, authenticate_with) asks its providers one
--   after another: API keys (Authn/ApiKeys), tokens (Authn/Jwt with the keys of Authn/Jwks) and client
--   certificates (Authn/Mtls). A provider works on a world, which holds what it caches; hashes,
--   signatures, base64, JSON and HTTP are parameters. Identity is in Authn/Identity.
-- Plugins (internal/plugins): the split between a stable filter and a canary (manager/canary.go,
--   Plugins/Canary) and the cache of artifacts on disk (oci/cache.go, Plugins/Cache).
-- Ingress (internal/ingress/mcp/session.go, Ingress/Sessions): the sessions of MCP clients.
-- Prelude: tests, lists, integers, maps, bytes, and what Go's float64 offers as a parameter (Float64).
-- Samples: the theorems at concrete inputs.
--
-- An int64 or int wraps by wrap64 and a uint64 by % 2 ^ 64. No model needs fuel: every loop is over a
-- list. Maps are association lists; the order in which one is walked, which Go leaves open, is that of
-- the list; it decides between two errors of one rule in CompileSnapshot, between usage keys that
-- differ in case alone in getInt64, and between keys of MutateHeaders with one canonical form, of which
-- the last one walked stays.
--
-- Not modelled: goroutines and locks inside one call, logging and metrics; the Redis store; the plugin
-- manager, its WASM and process plugins and the OCI client; the HTTP, gRPC and WebSocket handlers of
-- ingress; the egress clients; secrets, tokens and peers; the control plane; generated code.
pub mod Authn
pub mod Authz
pub mod Config
pub mod Egress
pub mod Ingress
pub mod Limits
pub mod Pipeline
pub mod Plugins
pub mod Prelude
pub mod Router
pub mod Samples
