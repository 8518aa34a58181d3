-- ===== src/Proxy/Tests.antt =====
-- Requests through the HTTP proxy, at concrete inputs.
use go_code_goes_here.Prelude.{◌≡◌, refl, Bytes, codes, [], none, some, same, split}
use go_code_goes_here.World.{World, ok, err, external}
use go_code_goes_here.World.Toy.{toy, web}
use go_code_goes_here.Pcache.{PeerCache, add_peer, get_peer}
use go_code_goes_here.Pcache.Shape.{cache}
use go_code_goes_here.Lca.Manager.{find_service}
use go_code_goes_here.Locate.{round, improve, find_or_allocate, peer_for, Env}
use go_code_goes_here.Proxy.{Http, locate, keep, search_rounds, http_request_handler, panicked}
use go_code_goes_here.Proxy.Agreement.{id_of, locate_agrees}

-- The toy world with a clock that stands still.
abbrev still : World
still = record toy { now = λ s. (s, s) }

abbrev http : Http
http = record {
  world = still;
  Request = Bytes;
  Response = Bytes;
  write_request = λ stream req s. (none, s);
  read_stream = λ stream s. (ok (codes "hello"), s);
  read_response = λ body req. ok body;
}

abbrev broken : Http
broken = record http { read_response = λ body req. err (external body) }

abbrev empty : PeerCache
empty = cache [] [] []

abbrev filled : PeerCache
filled = add_peer (peer_for (codes "web") web (codes "near")) empty

abbrev env : Env still
env = record { registry_cache = record { ttl = 10; entries = [] }; peer_cache = empty; outside = 0 }

-- A request URI without a slash has no second token.
no_slash : http_request_handler http (codes "*") (codes "GET") env ≡ some (panicked, env)
unfolding http_request_handler split
no_slash = refl

locate_agrees_example :
    locate http (codes "web") web empty 3
    ≡ elim (find_or_allocate still (codes "web") web empty 3) [
      | none ↦ none
      | some (r, c, s') ↦ some (id_of r, c, s')
    ]
locate_agrees_example = locate_agrees http (codes "web") web empty 3 (λ t. refl)

located : locate broken (codes "web") web empty 3 ≡ some (codes "near", filled, 3)
unfolding locate get_peer search_rounds round find_service improve keep same
located = refl
