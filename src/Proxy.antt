-- ===== src/Proxy.antt =====
-- proxy/proxy.go: the HTTP proxy, with Request of lca/lca-manager.go. One request is followed from its
-- start to its end, as in Locate.
pub mod Agreement
mod Tests
use go_code_goes_here.Prelude.{
  ℕ, zero, suc, Bytes, codes, Bool, true, false, List, [], ◌∷◌, ◌++◌, Option, none, some, same,
  split, if◌then◌else◌,
}
use go_code_goes_here.World.{
  World, ServiceInfo, Error, Result, ok, err, not_found, wrapped, external,
}
use go_code_goes_here.Rcache.{RegistryCache, get_or_request}
use go_code_goes_here.Pcache.{PeerCache, add_peer, get_peer, remove_peer}
use go_code_goes_here.Lca.Wire.{manager_request_prot_id}
use go_code_goes_here.Locate.{Round, round, peer_for, Env}

-- What net/http gives: requests and responses, and how they are written to and read from streams.
pub record Http : Type 1 where
  pub world : World
  pub open world use *
  pub Request : Type 0
  pub Response : Type 0
  pub write_request : Stream → Request → State → Option Error × State
  pub read_stream : Stream → State → Result Bytes × State
  pub read_response : Bytes → Request → Result Response

-- What httpRequestHandler answers: a panic on a URI with no slash, an error, or the response of the
-- service.
pub data Reply (Response : Type 0) : Type 0 where
  panicked : Reply Response
  not_registered bad_gateway : Error → Reply Response
  relayed : Response → Reply Response

module _ (http : Http) where
  open http use {
    State, Stream, world, Request, Response, now, new_stream, write_request, read_stream,
    read_response, reset,
  }

  -- Request behind the opening of the stream.
  exchange : Request → Stream → State → Result Response × State
  exchange req stream s =
      let (e, s1) = write_request stream req s in
      let (r, s2) = read_stream stream s1 in
      elim e [
        | some e ↦ (err (external (codes "Error: could not write")), reset stream s1)
        | none ↦ elim r [
          | err e ↦ (err (wrapped e), reset stream s2)
          | ok body ↦ elim (read_response body req) [
            | err e ↦ (err (external (codes "Error: could not receive response")), reset stream s2)
            | ok resp ↦ (ok resp, reset stream s2)
          ]
        ]
      ]

  -- Request of LCAManager
  unfoldable pub request_peer : Bytes → Request → State → Result Response × State
  unfolding exchange
  request_peer pid req s =
      let (opened, s') = new_stream pid manager_request_prot_id s in
      elim opened [
        | err e ↦ (err (external (codes "Error: could not connect to microservice peer")), s')
        | ok stream ↦ exchange req stream s'
      ]

  -- The end of a round of runRequest's loop: a peer that was found without an error is cached.
  unfoldable pub keep : Bytes → ServiceInfo → Round → PeerCache → PeerCache
  keep serv_name info r cache = elim r.id [
    | [] ↦ cache
    | c ∷ cs ↦ elim r.failed [
      | none ↦ add_peer (peer_for serv_name info r.id) cache
      | some e ↦ cache
    ]
  ]

  -- The loop of runRequest, whose rounds are written as findOrAllocate's are.
  unfoldable pub search_rounds :
      ℕ → Bytes → ServiceInfo → Round → PeerCache → State → Option (Round × PeerCache × State)
  search_rounds zero serv_name info r cache s = some (r, cache, s)
  search_rounds (suc left) serv_name info r cache s = elim r.id [
    | c ∷ id ↦ some (r, cache, s)
    | [] ↦ elim (round world info s) [
      | none ↦ none
      | some (r', s') ↦ search_rounds left serv_name info r' (keep serv_name info r' cache) s'
    ]
  ]

  -- runRequest up to the test of the identifier; `none` where the fuel of the backoff runs out.
  unfoldable pub locate :
      Bytes → ServiceInfo → PeerCache → State → Option (Bytes × PeerCache × State)
  locate serv_name info cache s = elim (get_peer info.content_hash cache) [
    | ok id ↦ some (id, cache, s)
    | err e ↦
        let start : Round = record { id = []; failed = some e } in
        elim (search_rounds 3 serv_name info start cache (now s).1) [
          | none ↦ none
          | some (r, cache', s') ↦ some (r.id, cache', (now s').1)
        ]
  ]

  -- The rest of runRequest. The goroutine that removes a peer which failed is taken to have run.
  unfoldable pub send_on : Bytes → Request → PeerCache → State → Result Response × PeerCache × State
  send_on [] req cache s = (err not_found, cache, s)
  send_on (c ∷ cs) req cache s =
      let (r, s') = request_peer (c ∷ cs) req s in
      elim r [ ok resp ↦ (ok resp, cache, s') | err e ↦ (err e, remove_peer (c ∷ cs) cache, s') ]

  -- runRequest
  unfoldable pub run_request :
      Bytes
      → ServiceInfo
      → Request
      → PeerCache
      → State
      → Option (Result Response × PeerCache × State)
  run_request serv_name info req cache s = elim (locate serv_name info cache s) [
    | none ↦ none
    | some (id, cache', s') ↦ some (send_on id req cache' s')
  ]

  -- tokens[1] of the URI
  abbrev pub second_token : List Bytes → Option Bytes
  second_token [] = none
  second_token (t ∷ []) = none
  second_token (t ∷ name ∷ rest) = some name

  -- httpRequestHandler behind the name of the service
  unfoldable pub serve_request : Bytes → Request → Env world → Option (Reply Response × Env world)
  serve_request name req env =
      let (a, rc, s) = get_or_request world name env.registry_cache env.outside in
      elim a.error [
        | some e ↦ some (
          not_registered e,
          record { registry_cache = rc; peer_cache = env.peer_cache; outside = s },
        )
        | none ↦ elim (run_request name a.info req env.peer_cache s) [
          | none ↦ none
          | some (r, cache, s') ↦
              let env' : Env world = record {
                registry_cache = rc;
                peer_cache = cache;
                outside = s';
              } in
              elim r [ err e ↦ some (bad_gateway e, env') | ok resp ↦ some (relayed resp, env') ]
        ]
      ]

  -- httpRequestHandler, of a request with its URI
  unfoldable pub http_request_handler :
      Bytes → Request → Env world → Option (Reply Response × Env world)
  http_request_handler request_uri req env = elim (second_token (split request_uri b'/')) [
    | none ↦ some (panicked, env)
    | some name ↦ serve_request name req env
  ]
