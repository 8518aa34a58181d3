-- ===== src/Locate.antt =====
-- findOrAllocate and resolveService of l4-proxy/l4-proxy.go: from the name of a service to a peer that
-- provides it. One request is followed from its start to its end; what other goroutines do to the
-- caches in between is not interleaved.
pub mod Returns
pub mod Origin
pub mod Reuse
mod Tests
use go_code_goes_here.Prelude.{
  ℕ, zero, suc, ◌*◌, ◌≡◌, ◌<◌, ◌≤◌, Bytes, codes, Bool, true, false, List, [], ◌∷◌, Option, none,
  some, same, if◌then◌else◌,
}
use go_code_goes_here.World.{
  World, PeerInfo, ServiceInfo, PerfInd, Error, Result, ok, err, no_perf, unable_to_find,
  lookup_failed, find_failed,
}
use go_code_goes_here.Rcache.{RegistryCache, second, get_or_request}
use go_code_goes_here.Pcache.{PeerCache, add_peer, get_peer}
use go_code_goes_here.Lca.Manager.{Found, find_service, alloc_service, alloc_better_service}

-- 200 * time.Millisecond
abbrev pub wait : ℕ
wait = 200_000_000

-- Attempts of the backoff are at most 5, so one more turn of the loop is enough.
abbrev pub backoff_fuel : ℕ
backoff_fuel = 6

-- The variables id and err between two rounds of the loop.
pub record Round : Type 0 where
  pub id : Bytes
  pub failed : Option Error

abbrev pub error_of : {A : Type 0} → Result A → Option Error
error_of (ok a) = none
error_of (err e) = some e

abbrev pub peer_for : Bytes → ServiceInfo → Bytes → PeerInfo
peer_for serv_name info id = record {
  id = id;
  serv_name = serv_name;
  serv_hash = info.content_hash;
  perf = no_perf;
}

module _ (w : World) where
  open w use {State, Backoff, less_than, now, sleep, new_backoff, attempt}

  -- `for backoff.Attempt()`, which assigns an err of its own, so only the id comes out of it; `none`
  -- where the fuel runs out.
  unfoldable pub refind : ℕ → Bytes → Bytes → Backoff → State → Option (Bytes × State)
  refind zero service_hash id b s = none
  refind (suc fuel) service_hash id b s =
      let (again, b', s1) = attempt b s in
      let (r, s2) = find_service w service_hash s1 in
      elim again [
        | false ↦ some (id, s1)
        | true ↦ elim r [ ok (p, perf) ↦ some (p, s2) | err e ↦ refind fuel service_hash [] b' s2 ]
      ]

  -- The branch where no instance was found. NewExpoBackoffAttempts gets constants that it accepts.
  unfoldable pub allocate : ServiceInfo → State → Option (Round × State)
  allocate info s =
      let (r, s1) = alloc_service w info.docker_hash s in
      let (b, s2) = new_backoff wait second 5 (sleep wait s1) in
      elim r [
        | err e ↦ some (record { id = []; failed = some e }, s1)
        | ok p ↦ elim (refind backoff_fuel info.content_hash [] b s2) [
          | none ↦ none
          | some (id, s3) ↦ some (record { id = id; failed = none }, s3)
        ]
      ]

  -- The branches where one was found: it is taken whether or not a better one can be allocated, but
  -- the error stays.
  unfoldable pub improve : ServiceInfo → Bytes → PerfInd → State → Round × State
  improve info id perf s =
      let (r, s') = alloc_better_service w info.docker_hash perf s in
      if less_than info.network_soft_req perf
      then (record { id = id; failed = error_of r }, s')
      else (record { id = id; failed = none }, s)

  -- One round of the loop.
  unfoldable pub round : ServiceInfo → State → Option (Round × State)
  round info s =
      let (r, s') = find_service w info.content_hash s in
      elim r [ err e ↦ allocate info s' | ok (id, perf) ↦ some (improve info id perf s') ]

  -- `for attempts := 0; attempts < 3 && id == ""`, with the number of attempts left.
  unfoldable pub rounds : ℕ → ServiceInfo → Round → State → Option (Round × State)
  rounds zero info r s = some (r, s)
  rounds (suc left) info r s = elim r.id [
    | c ∷ id ↦ some (r, s)
    | [] ↦ elim (round info s) [ none ↦ none | some (r', s') ↦ rounds left info r' s' ]
  ]

  -- What follows the loop.
  unfoldable pub conclude :
      Bytes → ServiceInfo → Round → PeerCache → State → Result Bytes × PeerCache × State
  conclude serv_name info r cache s = elim r.id [
    | [] ↦ (err unable_to_find, cache, s)
    | c ∷ cs ↦ elim r.failed [
      | none ↦ (ok r.id, add_peer (peer_for serv_name info r.id) cache, (now s).1)
      | some e ↦ (ok r.id, cache, s)
    ]
  ]

  -- The text of a cached identifier is tested too.
  unfoldable pub cached : Bytes → PeerCache → State → Result Bytes × PeerCache × State
  cached [] cache s = (err unable_to_find, cache, s)
  cached (c ∷ cs) cache s = (ok (c ∷ cs), cache, s)

  -- findOrAllocate
  unfoldable pub find_or_allocate :
      Bytes → ServiceInfo → PeerCache → State → Option (Result Bytes × PeerCache × State)
  find_or_allocate serv_name info cache s = elim (get_peer info.content_hash cache) [
    | ok id ↦ some (cached id cache s)
    | err e ↦ elim (rounds 3 info (record { id = []; failed = some e }) (now s).1) [
      | none ↦ none
      | some (r, s') ↦ some (conclude serv_name info r cache s')
    ]
  ]

  -- The caches and the world that a request works on.
  pub record Env : Type 0 where
    pub registry_cache : RegistryCache
    pub peer_cache : PeerCache
    pub outside : State

  -- resolveService
  unfoldable pub resolve_service : Bytes → Env → Option (Result (Bytes × ServiceInfo) × Env)
  resolve_service serv_name env =
      let (a, rc, s) = get_or_request w serv_name env.registry_cache env.outside in
      elim a.error [
        | some e ↦ some (
          err (lookup_failed serv_name e),
          record { registry_cache = rc; peer_cache = env.peer_cache; outside = s },
        )
        | none ↦ elim (find_or_allocate serv_name a.info env.peer_cache s) [
          | none ↦ none
          | some (r, cache, s') ↦
              let env' : Env = record { registry_cache = rc; peer_cache = cache; outside = s' } in
              elim r [
                | err e ↦ some (err (find_failed serv_name a.info.content_hash e), env')
                | ok id ↦ some (ok (id, a.info), env')
              ]
        ]
      ]
