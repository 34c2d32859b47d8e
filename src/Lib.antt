-- ===== src/Lib.antt =====
-- gorouter routes HTTP requests to the instances of applications. Instances announce themselves by
-- messages, which the router turns into calls of Register and Unregister on the route registry;
-- the proxy calls Lookup with the host and path of a request, gets a pool of endpoints, and asks
-- the pool's iterator for one endpoint after the other until a round trip succeeds; it reports
-- each that fails back to the pool. The router accepts the connections and drains them before it
-- stops. This library models the decisions of the proxy, the registry, the trie, the pools, the
-- messages, the connections, the tries of a request, the response writer, the signatures of route
-- services, the statistics of applications, of which some are active and some have the most
-- requests, the routes that are fetched from the routing API, what becomes of a configuration, and
-- what is counted of the requests.
--
-- The parts, the files and the code:
--   Uri           route/uris.go: Uri, ToLower (uri_to_lower), NextWildcard, String, RouteKey
--   Endpoint      route/endpoint.go: Endpoint, NewEndpoint, CanonicalAddr, MarshalJSON
--   Pool          route/pool.go: Pool with Put, Remove, PruneEndpoints, next, findById, MarkUpdated,
--                 endpointFailed, Each, and endpointIterator with Next and EndpointFailed
--   Trie          registry/trie.go: Trie with Find, MatchUri, Insert, Delete, deleteEmptyNodes,
--                 PoolCount, EachNodeWithPool, ToMap; its child Trie/Snip models Snip,
--                 PruneDeadLeaves, the visit by a callback that snips, and EndpointCount
--   Registry      registry/registry.go: RouteRegistry with Register, Unregister, Lookup, NumUris,
--                 NumEndpoints, pruneStaleDroplets and MarshalJSON
--   Router        router/router.go: the connections of Router with HandleConnState, closeIdleConns and
--                 the locked part of Drain (start_drain) and of Stop
--   Messages      router/registry_message.go: RegistryMessage, makeEndpoint, ValidateMessage, and the
--                 callbacks of SubscribeRegister, SubscribeUnregister and subscribeRegistry of
--                 router/router.go
--   RoundTrip     proxy/proxy_round_tripper.go: BackendRoundTripper.RoundTrip (round_trip) and
--                 RouteServiceRoundTripper.RoundTrip (service_round_trip), with retryableError
--   ResponseWriter  proxy/responsewriter.go: proxyResponseWriter with Write, WriteHeader, Done, Flush
--   Proxy         proxy/proxy.go: what ServeHTTP decides (serve_http), hostWithoutPort, lookup,
--                 getStickySession, buildRouteServiceArgs (forward) and the predicates on requests;
--                 Proxy/Routing follows a request from ServeHTTP to its endpoints, Proxy/Sticky has
--                 setupStickySession, and Proxy/Outbound has SetupProxyRequest and
--                 SetupRouteServiceRequest of route_service/route_service_config.go
--   RequestHandler  proxy/request_handler.go: RequestHandler with its handlers and what net/http sends of them, which is nothing after a hijack; RequestHandler/Upstream
--                 has the headers of setupRequest, RequestHandler/Serving the sessions of serveTcp and
--                 serveWebSocket (dial_loop is the loop of both)
--   RouteService  route_service/header.go: BuildSignatureAndMetadata, SignatureFromHeaders, and
--                 route_service/route_service_config.go: GenerateSignatureAndMetadata, ValidateSignature
--   Stats         stats/heap.go: Heap, with container/heap written out (Stats/Heap), the table of entries
--                 in two heaps (Stats/Both, Stats/Table), and stats/active_apps.go: ActiveApps with
--                 Mark, Trim and ActiveSince (Stats/ActiveApps), and stats/top_apps.go: TopApps with
--                 Mark, Trim and TopSince (Stats/TopApps)
--   RouteFetcher  route_fetcher/route_fetcher.go: RouteFetcher with FetchRoutes, refreshEndpoints,
--                 deleteEndpoints, routeEquals and HandleEvent
--   Config        config/config.go: Config with Process, processCipherSuites and RoutingApiEnabled, and
--                 InitConfigFromFile
--   Varz          varz/varz.go: HttpMetric and TaggedHttpMetric with CaptureRequest and CaptureResponse,
--                 RealVarz with its captures, CaptureAppStats and updateTop
--   Base          lists, texts, maps and numbers that all of them use
-- The modules below a part hold its proofs, and its Tests the runs on concrete data.
-- Pool/Invariant says when a pool is valid, Trie/Shape when a trie is well formed, and
-- Registry/Routes when a registry is sound and which routes it stands for, as a set of pairs of a
-- path and an endpoint; Router/Draining orders the calls of the router as steps. Messages/Domain
-- says what holds of the registry while messages feed it, for instance ids without a colon,
-- Messages/Table makes a quotient of the worlds, which keeps only which path reaches which
-- address, and Messages/Steps and Messages/Orders take messages as steps and interleave them.
--
-- State. A pool's slice and its map share their elements, so an element is a reference into a heap
-- that is part of the pool; the registry keeps its pools by reference in the same way, since a
-- pool outlives the lock under which Lookup found it. An endpoint has the identity of its object,
-- which Put compares. A node of the trie is a value, and the field Parent is the path to it
-- without its last segment. Every method is one step, from a state to a state, as it runs under
-- one lock; ActiveSince and TopSince pop their copy of the heap after they have given up the lock,
-- so they are one step only where no Mark comes in between. A method that reads the clock or draws
-- a random number takes what it gets as an argument. A panic is `none`, as is an index out of
-- range. Texts are lists of ASCII codes, times and durations are natural numbers of nanoseconds. A
-- map of children is a list in the order in which `range` meets it.
--
-- Fuel. The loop of `next` gets one round more than the pool has elements, for a turn round the
-- pool and the round after the reset. The loop of Lookup gets one round more than the key has
-- characters after a leading "*.", which a wildcard has fewer of. The loop of PruneEndpoints is
-- bounded by its own variables, and the loops over a path go down its segments. Up and down in a
-- heap get the index and the length of the slice, which bound them; the loop of TopApps.trim gets
-- one round more than the heap has entries, since each round but the last one leaves an entry
-- fewer with a slot to trim.
--
-- Not modelled: logging, the ticker of the pruning cycle, the text of the JSON (its value is
-- there), negative thresholds and the overflow of durations (but for the configuration's), letters
-- beyond ASCII, the servers and greetings of the router, the ticker and the event stream of the
-- routing API, the parser of YAML, the JSON of varz, the access log, and of the proxy the callback
-- after a round trip. The cipher and the texts of JSON and base64 are parameters. The writer below
-- the response writer answers to a text the same at every call, and all rounds of one `next` read
-- the same time. Third-party packages are not part of the program.
pub mod Base
pub mod Uri
pub mod Endpoint
pub mod Pool
pub mod Trie
pub mod Registry
pub mod Router
pub mod Messages
pub mod RoundTrip
pub mod Config
pub mod Varz
pub mod RequestHandler
pub mod RouteFetcher
pub mod Stats
pub mod ResponseWriter
pub mod RouteService
pub mod Proxy
