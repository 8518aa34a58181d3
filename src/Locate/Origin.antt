-- ===== src/Locate/Origin.antt =====
-- Where the peer that findOrAllocate of l4-proxy/l4-proxy.go returns comes from.
use go_code_goes_here.Prelude.{
  ℕ, zero, suc, ◌≡◌, refl, ap, subst, sym, ◌∙◌, inl, inr, arith, Bytes, true, Bool-cases, [], ◌∷◌,
  none, some, Option-cases,
}
use go_code_goes_here.World.{
  World, ServiceInfo, PerfInd, Error, Result, Result-cases, ok, err, unable_to_find,
}
use go_code_goes_here.Pcache.{PeerCache, add_peer, get_peer}
use go_code_goes_here.Lca.Manager.{find_service, alloc_service, alloc_better_service}
use go_code_goes_here.Locate.{
  wait, backoff_fuel, Round, peer_for, refind, allocate, improve, round, rounds, conclude, cached,
  find_or_allocate,
}

module _ (w : World) where
  open w use {State, Backoff, less_than, now, sleep, new_backoff, attempt}

  -- Where the identifier that a round ends with comes from.
  data Origin (info : ServiceInfo) (r : Round) : Type 0 where
    nowhere : r.id ≡ [] → Origin info r
    search :
        (t : State) (perf : PerfInd)
        → (find_service w info.content_hash t).0 ≡ ok (r.id, perf)
        → r.failed ≡ none
        → Origin info r
    no_better :
        (t t' : State) (perf : PerfInd) (e : Error)
        → (find_service w info.content_hash t).0 ≡ ok (r.id, perf)
        → less_than info.network_soft_req perf ≡ true
        → (alloc_better_service w info.docker_hash perf t').0 ≡ err e
        → r.failed ≡ some e
        → Origin info r

  refind-Origin :
      (info : ServiceInfo) (fuel : ℕ) (b : Backoff) (s : State) (id : Bytes) (s' : State)
      → refind w fuel info.content_hash [] b s ≡ some (id, s')
      → Origin info (record { id = id; failed = none })
  unfolding refind
  refind-Origin info zero b s id s' h = cc
  refind-Origin info (suc fuel) b s id s' h = elim (Bool-cases (attempt b s).0) [
    | inr e ↦ nowhere (ground (arith, e, h))
    | inl e ↦
        let (r, s2) = find_service w info.content_hash (attempt b s).2 in
        elim (Result-cases r) [
          | inl (p, q) ↦
              let same_id : p.0 ≡ id = ground (arith, e, q, h) in
              search (attempt b s).2 p.1 (q ∙ ap (λ i. ok (i, p.1)) same_id) refl
          | inr (f, q) ↦ refind-Origin info fuel (attempt b s).1 s2 id s' (rw (e, q, refind) at h)
        ]
  ]

  improve-Origin :
      (info : ServiceInfo) (id : Bytes) (perf : PerfInd) (t s : State)
      → (find_service w info.content_hash t).0 ≡ ok (id, perf)
      → Origin info (improve w info id perf s).0
  unfolding improve
  improve-Origin info id perf t s h = elim (Bool-cases (less_than info.network_soft_req perf)) [
    | inr e ↦ rw (e, improve) (search t perf h refl)
    | inl e ↦ elim (Result-cases (alloc_better_service w info.docker_hash perf s).0) [
      | inl (p, q) ↦ rw (e, q, improve) (search t perf h refl)
      | inr (f, q) ↦ rw (e, q, improve) (no_better t s perf f h e q refl)
    ]
  ]

  round-Origin :
      (info : ServiceInfo) (s : State) (r : Round) (s' : State)
      → round w info s ≡ some (r, s')
      → Origin info r
  unfolding round allocate
  round-Origin info s r s' h =
      let (f, s1) = find_service w info.content_hash s in
      let (a, s2) = alloc_service w info.docker_hash s1 in
      let (b, s3) = new_backoff wait 1_000_000_000 5 (sleep wait s2) in
      elim (Result-cases f) [
        | inl (p, q) ↦
            let e : (improve w info p.0 p.1 s1).0 ≡ r = ground (arith, q, h) in
            rw (sym e) (improve-Origin info p.0 p.1 s s1 q)
        | inr (g, q) ↦ elim (Result-cases a) [
          | inr (g', k) ↦
              let e : record { id = []; failed = some g' } ≡ r = ground (arith, q, k, h) in
              nowhere (sym (ap (λ (x : Round). x.id) e))
          | inl (p, k) ↦ elim (Option-cases (refind w backoff_fuel info.content_hash [] b s3)) [
            | inl n ↦ absurd (ground (arith, q, k, n, h))
            | inr ((id, s4), n) ↦
                let e : record { id = id; failed = none } ≡ r = ground (arith, q, k, n, h) in
                rw (sym e) (refind-Origin info backoff_fuel b s3 id s4 n)
          ]
        ]
      ]

  rounds-Origin :
      (left : ℕ) (info : ServiceInfo) (r : Round) (s : State) (r' : Round) (s' : State)
      → rounds w left info r s ≡ some (r', s')
      → Origin info r
      → Origin info r'
  unfolding rounds
  rounds-Origin zero info r s r' s' h o = let e : r ≡ r' = ground (arith, h) in rw (sym e) o
  rounds-Origin (suc left) info r s r' s' h o =
      next r.id refl
        (λ r1 s1 k q. rounds-Origin left info r1 s1 r' s' k (round-Origin info s r1 s1 q))
    where
      next :
          (id : Bytes)
          → r.id ≡ id
          → ((r1 : Round) (s1 : State)
              → rounds w left info r1 s1 ≡ some (r', s')
              → round w info s ≡ some (r1, s1)
              → Origin info r')
          → Origin info r'
      next (c ∷ id) e k = let q : r ≡ r' = ground (arith, e, h) in rw (sym q) o
      next [] e k = elim (Option-cases (round w info s)) [
        | inl n ↦ absurd (ground (arith, e, n, h))
        | inr ((r1, s1), n) ↦ k r1 s1 (ground (arith, e, n, h)) n
      ]

  -- How findOrAllocate ends: with a peer that the cache offers; with one that a search found, which is
  -- added to the cache; with one that a search found slower than the soft requirement while none better
  -- could be allocated, which is not added; or with an error.
  pub data Located (serv_name : Bytes) (info : ServiceInfo) (c : PeerCache) (r : Result Bytes)
      (c' : PeerCache) : Type 0 where
    from_cache :
        (id : Bytes)
        → get_peer info.content_hash c ≡ ok id
        → r ≡ ok id
        → c' ≡ c
        → Located serv_name info c r c'
    searched :
        (id : Bytes) (t : State) (perf : PerfInd) (e : Error)
        → get_peer info.content_hash c ≡ err e
        → (find_service w info.content_hash t).0 ≡ ok (id, perf)
        → r ≡ ok id
        → c' ≡ add_peer (peer_for serv_name info id) c
        → Located serv_name info c r c'
    slower :
        (id : Bytes) (t t' : State) (perf : PerfInd) (e : Error)
        → (find_service w info.content_hash t).0 ≡ ok (id, perf)
        → less_than info.network_soft_req perf ≡ true
        → (alloc_better_service w info.docker_hash perf t').0 ≡ err e
        → r ≡ ok id
        → c' ≡ c
        → Located serv_name info c r c'
    failed : r ≡ err unable_to_find → c' ≡ c → Located serv_name info c r c'

  conclude-Located :
      (serv_name : Bytes) (info : ServiceInfo) (x : Round) (c : PeerCache) (s : State) (e : Error)
      → get_peer info.content_hash c ≡ err e
      → Origin info x
      → Located serv_name info c
          (conclude w serv_name info x c s).0
          (conclude w serv_name info x c s).1
  unfolding conclude
  conclude-Located serv_name info x c s e h (nowhere n) =
      failed (ground (arith, n)) (ground (arith, n))
  conclude-Located serv_name info x c s e h (search t perf f n) = next x.id refl
    where
      next :
          (id : Bytes)
          → x.id ≡ id
          → Located serv_name info c
              (conclude w serv_name info x c s).0
              (conclude w serv_name info x c s).1
      next [] q = failed (ground (arith, q)) (ground (arith, q))
      next (d ∷ ds) q = searched x.id t perf e h f (ground (arith, q, n)) (ground (arith, q, n))
  conclude-Located serv_name info x c s e h (no_better t t' perf g f k b n) = next x.id refl
    where
      next :
          (id : Bytes)
          → x.id ≡ id
          → Located serv_name info c
              (conclude w serv_name info x c s).0
              (conclude w serv_name info x c s).1
      next [] q = failed (ground (arith, q)) (ground (arith, q))
      next (d ∷ ds) q = slower x.id t t' perf g f k b (ground (arith, q, n)) (ground (arith, q, n))

  -- When findOrAllocate returns, its answer and the cache are one of these: the peer that the cache
  -- offers, and the cache as it was; a peer that a search of the network found, and the cache with it
  -- added; a peer that a search found slower than the soft requirement while the allocation of a better
  -- one failed, and the cache as it was; or an error, and the cache as it was.
  pub find_or_allocate-Located :
      (serv_name : Bytes) (info : ServiceInfo) (c : PeerCache) (s : State) (r : Result Bytes)
      (c' : PeerCache) (s' : State)
      → find_or_allocate w serv_name info c s ≡ some (r, c', s')
      → Located serv_name info c r c'
  unfolding find_or_allocate cached
  find_or_allocate-Located serv_name info c s r c' s' h =
      elim (Result-cases (get_peer info.content_hash c)) [
        | inl ([], q) ↦ failed (ground (arith, q, h)) (ground (arith, q, h))
        | inl (d ∷ ds, q) ↦ from_cache (d ∷ ds) q (ground (arith, q, h)) (ground (arith, q, h))
        | inr (e, q) ↦
            let start : Round = record { id = []; failed = some e } in
            elim (Option-cases (rounds w 3 info start (now s).1)) [
              | inl n ↦ absurd (ground (arith, q, n, h))
              | inr ((x, t), n) ↦
                  let out : conclude w serv_name info x c t ≡ (r, c', s') =
                    ground (arith, q, n, h) in
                  let l =
                    conclude-Located serv_name info x c t e q
                      (rounds-Origin 3 info start (now s).1 x t n (nowhere refl)) in
                  subst (λ (y : Result Bytes × PeerCache × State). Located serv_name info c y.0 y.1)
                    out l
            ]
      ]
