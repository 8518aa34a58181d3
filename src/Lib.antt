-- ===== src/Lib.antt =====
-- PhysarumSM's service manager: proxies that find, or have allocated, a peer that offers a
-- service, and forward to it; allocators that start services in containers; and the caches that
-- the proxies keep.
--
-- The parts, each with the Go files that it is translated from:
-- - Rcache: rcache/registry-cache.go, the answers of the service registry with their expiry.
--   `get`, `add`, `delete_service` and `get_or_request` are Get, Add, Delete and
--   GetOrRequestService; History follows the cache while several goroutines use it.
-- - Pcache: pcache/pcache.go, the known peers in three levels of reliability. `add_peer`,
--   `remove_peer`, `get_peer` and `update_cache` are AddPeer, RemovePeer, GetPeer and
--   updateCache. Slices has the helpers apts and rpfs, Sweep the loop that removes entries as it
--   runs, Shape the cache as lists, Bags the cache without the order of its entries, Reliability,
--   Census, Lookup and Removal what the operations do, History any interleaving of them, and
--   Promotion the way of a good peer to the top. Sorting states what sort.Slice is taken to do.
-- - Lca: lca/lca-common.go (Wire), lca/lca-manager.go (Manager, with Address for the test of a
--   reply) and lca/lca-allocator.go (Allocator, Cull, Start). The manager asks allocators, over
--   one line in each direction, for a new instance; the allocator starts a container, answers its
--   address, and culls the services that served nothing for 60 seconds; Fleet follows its
--   containers over any sequence of these. Membership is the constructor NewLCAManager. Service
--   is RequestHandler of lca/lca-manager.go, which answers the requests of other proxies, with
--   httpMetricsHandler of proxy/proxy.go.
-- - Locate: findOrAllocate and resolveService of l4-proxy/l4-proxy.go. They use the two caches
--   and the manager: a name becomes a registry answer, and that a peer, cached, found or
--   allocated.
-- - Chain: l4-proxy/chain-setup.go. Message has the messages, Link their streams, Serving the end
--   and mid handlers of l4-proxy/tcp-proxy.go and l4-proxy/udp-proxy.go, Setup the setup of a
--   chain at its source (`setup_chain`) and at every proxy that it goes through
--   (`chain_setup_handler`), with Ending and Relaying for what the handler does at the end and in
--   the middle of a chain and Backward for the acknowledgement that returns through all of them,
--   Monitor connQualMonitor, Accept tcpServiceProxy and tcpFwdConnToServ, Forward the forwarders
--   between streams and connections of the two files, with Tunnel for the two ends of one
--   direction, and Clients udpServiceProxy: one round of its loop with its callback for closed
--   streams, and in Sessions, Callback and Mutex its whole run.
-- - Frontend: requestHandler of l4-proxy/l4-proxy.go, with openTCPProxy and openUDPProxy.
-- - Proxy: runRequest and httpRequestHandler of proxy/proxy.go, with Request of
--   lca/lca-manager.go.
-- - Boot: the main functions of allocator/allocator.go, proxy/proxy.go and l4-proxy/l4-proxy.go
--   (`allocator_main`, `proxy_main`, `l4_main`), with conf/conf.go. Host has what they take from
--   the operating system and what they run, Exits how they end, and Peers and Modes what they are
--   configured with. They call NewLCAAllocator (Lca.Start) and NewLCAManager (Lca.Membership).
-- Prelude has the shared helpers, with Go's strings and maps; Strconv the decimal numbers of the
-- package strconv; World what the program takes from libp2p, the registry and the clock.
--
-- Go strings are lists of bytes, maps are association lists, and a number of nanoseconds is a
-- natural number. What lies outside the repository is a field of a record (World, Machine, Node,
-- Member, Transport, Net, Pipes, Listener, Ports, Http, Os) on an abstract state that each call
-- passes on; it may answer anything, and a property that relies on more has it as a hypothesis. A
-- goroutine that a handler starts is an entry of the list that the handler gives. The requests of
-- Locate and Proxy are followed one at a time. Log lines are left out.
--
-- The loop on the backoff of findOrAllocate has fuel 6, one turn more than the 5 attempts that
-- the backoff is created with; where it lets no more attempts pass, it does not run out. The
-- loops of updateCache have the length of the slice as fuel. The write loop of a forwarder has
-- fuel too, of which two rounds are enough for a connection that writes all or fails. The
-- forwarders, connQualMonitor and UpdateCache run for ever unless they end by themselves, and are
-- given for a number of rounds.
--
-- A main function is a chain of calls that each may end it, and gives what it then runs: the
-- configuration of its node, its manager, its caches and its endpoints. udpServiceProxy is a
-- relation of steps in which a round for one packet is one step.
--
-- Not modelled: customUsage, which prints; the Prometheus endpoint of the allocator; a TTL below
-- 0; the callback for closed streams between two accesses of one round to the map; another step
-- of the allocator inside a handler or a cull.
pub mod Prelude
pub mod World
pub mod Strconv
pub mod Rcache
pub mod Pcache
pub mod Lca
pub mod Locate
pub mod Boot
pub mod Chain
pub mod Frontend
pub mod Proxy
