-- ===== src/Lca/Manager/Requests.antt =====
-- Which allocator AllocService and AllocBetterService of lca/lca-manager.go end with.
use go_code_goes_here.Prelude.{
  ◌≡◌, refl, ap, Bytes, true, false, List, [], ◌∷◌, ◌++◌, arith, inl, inr, All,
}
use go_code_goes_here.World.{World, PeerInfo, PerfInd, Result-cases, ok, err, no_better_service}
use go_code_goes_here.Lca.Address.{IsAddress, is_address_sound}
use go_code_goes_here.Lca.Manager.{
  Found, await_address, request_alloc, ask, ask_each, ask_better, allocators, alloc_service,
  alloc_better_service,
}

module _ (w : World) where
  open w use {State, Stream, less_than}

  await_address-IsAddress :
      (stream : Stream) (s : State) (a : Bytes) → (await_address w stream s).0 ≡ ok a → IsAddress a
  unfolding await_address
  await_address-IsAddress stream s a h = is_address_sound a (ground arith)

  -- What requestAlloc accepts as an answer is an address and a port.
  pub request_alloc-IsAddress :
      (stream : Stream) (service_hash : Bytes) (s : State) (a : Bytes)
      → (request_alloc w stream service_hash s).0 ≡ ok a
      → IsAddress a
  unfolding request_alloc
  request_alloc-IsAddress stream service_hash s a h = is_address_sound a (ground arith)

  ask-IsAddress :
      (service_hash id : Bytes) (s : State) (a : Bytes)
      → (ask w service_hash id s).0 ≡ ok a
      → IsAddress a
  unfolding ask request_alloc
  ask-IsAddress service_hash id s a h = is_address_sound a (ground arith)

  -- A peer of the list that answered the request, in the state in which it was asked, by an address.
  pub record Allocated (service_hash : Bytes) (peers : List PeerInfo) (found : Bytes × PerfInd)
      : Type 0 where
    pub pre : List PeerInfo
    pub peer : PeerInfo
    pub post : List PeerInfo
    pub splits : peers ≡ pre ++ peer ∷ post
    pub is_found : found ≡ (peer.id, peer.perf)
    pub when : State
    pub address : Bytes
    pub answers : (ask w service_hash peer.id when).0 ≡ ok address
    pub is_address : IsAddress address

  behind :
      (service_hash : Bytes) (p : PeerInfo) (ps : List PeerInfo) (found : Bytes × PerfInd)
      → Allocated service_hash ps found
      → Allocated service_hash (p ∷ ps) found
  behind service_hash p ps found a = record {
    pre = p ∷ a.pre;
    peer = a.peer;
    post = a.post;
    splits = ap (λ t. p ∷ t) a.splits;
    is_found = a.is_found;
    when = a.when;
    address = a.address;
    answers = a.answers;
    is_address = a.is_address;
  }

  at_front :
      (service_hash : Bytes) (p : PeerInfo) (ps : List PeerInfo) (s : State) (address : Bytes)
      → (ask w service_hash p.id s).0 ≡ ok address
      → Allocated service_hash (p ∷ ps) (p.id, p.perf)
  at_front service_hash p ps s address e = record {
    pre = [];
    peer = p;
    post = ps;
    splits = refl;
    is_found = refl;
    when = s;
    address = address;
    answers = e;
    is_address = ask-IsAddress service_hash p.id s address e;
  }

  pub ask_each-Allocated :
      (service_hash : Bytes) (peers : List PeerInfo) (s : State) (found : Bytes × PerfInd)
      → (ask_each w service_hash peers s).0 ≡ ok found
      → Allocated service_hash peers found
  unfolding ask_each
  ask_each-Allocated service_hash [] s found h = cc
  ask_each-Allocated service_hash (p ∷ ps) s found h =
      let s' = (ask w service_hash p.id s).2 in
      elim (Result-cases (ask w service_hash p.id s).0) [
        | inr (e, q) ↦
            behind service_hash p ps found
              (ask_each-Allocated service_hash ps s' found (rw (q, ask_each) at h))
        | inl (a, q) ↦
            let e : found ≡ (p.id, p.perf) = ground arith in rw e (at_front service_hash p ps s a q)
      ]

  ask_better-Allocated :
      (service_hash : Bytes) (perf : PerfInd) (peers : List PeerInfo) (s : State)
      (found : Bytes × PerfInd)
      → (ask_better w service_hash perf peers s).0 ≡ ok found
      → Allocated service_hash peers found × (less_than perf found.1 ≡ false)
  unfolding ask_better
  ask_better-Allocated service_hash perf [] s found h = cc
  ask_better-Allocated service_hash perf (p ∷ ps) s found h =
      let s' = (ask w service_hash p.id s).2 in
      let near_enough : less_than perf p.perf ≡ false = ground arith in
      elim (Result-cases (ask w service_hash p.id s).0) [
        | inr (e, q) ↦
            let (a, b) =
              ask_better-Allocated service_hash perf ps s' found
                (rw (near_enough, q, ask_better) at h) in
            (behind service_hash p ps found a, b)
        | inl (a, q) ↦
            let e : found ≡ (p.id, p.perf) = ground arith in
            rw e (at_front service_hash p ps s a q, near_enough)
      ]

  -- When AllocService succeeds, the peer that it returns is one of the allocators that were found, and
  -- it answered the request with an address and a port.
  pub alloc_service-Allocated :
      (service_hash : Bytes) (s : State) (found : Bytes × PerfInd)
      → (alloc_service w service_hash s).0 ≡ ok found
      → (peers : List PeerInfo) × ((allocators w s).0 ≡ ok peers)
        × Allocated service_hash peers found
  unfolding alloc_service
  alloc_service-Allocated service_hash s found h = elim (Result-cases (allocators w s).0) [
    | inr (e, q) ↦ absurd (ground arith)
    | inl (peers, q) ↦
        (peers, q, ask_each-Allocated service_hash peers (allocators w s).1 found (ground arith))
  ]

  -- When AllocBetterService succeeds, the peer that it returns is one of the allocators that were
  -- found, it answered the request with an address and a port, and the required performance is not
  -- less than the peer's.
  pub alloc_better_service-Allocated :
      (service_hash : Bytes) (perf : PerfInd) (s : State) (found : Bytes × PerfInd)
      → (alloc_better_service w service_hash perf s).0 ≡ ok found
      → (peers : List PeerInfo) × ((allocators w s).0 ≡ ok peers)
        × Allocated service_hash peers found
        × (less_than perf found.1 ≡ false)
  unfolding alloc_better_service
  alloc_better_service-Allocated service_hash perf s found h =
      elim (Result-cases (allocators w s).0) [
        | inr (e, q) ↦ absurd (ground arith)
        | inl (peers, q) ↦
            let (a, b) =
              ask_better-Allocated service_hash perf peers (allocators w s).1 found
                (ground arith) in
            (peers, q, a, b)
      ]

  -- Where no allocator of the list is worse than the required performance, AllocBetterService's loop
  -- does what AllocService's does.
  pub ask_better-eq-ask_each :
      (service_hash : Bytes) (perf : PerfInd) (peers : List PeerInfo) (s : State)
      → All (λ p. less_than perf p.perf ≡ false) peers
      → ask_better w service_hash perf peers s ≡ ask_each w service_hash peers s
  unfolding ask_better ask_each
  ask_better-eq-ask_each service_hash perf [] s h = refl
  ask_better-eq-ask_each service_hash perf (p ∷ ps) s h =
      let s' = (ask w service_hash p.id s).2 in
      ground (arith, h.0, ask_better-eq-ask_each service_hash perf ps s' h.1)

  -- The loop at its end, told whether a worse allocator was met.
  abbrev pub stopped : Found → Found
  stopped (ok found) = ok found
  stopped (err e) = err no_better_service

  -- At the first allocator that is worse than the required performance the loop stops: neither it nor
  -- one behind it is asked, and unless one before it allocated, the error says that none is better.
  pub ask_better_stops :
      (service_hash : Bytes) (perf : PerfInd) (pre : List PeerInfo) (p : PeerInfo)
      (post : List PeerInfo) (s : State)
      → less_than perf p.perf ≡ true
      → ask_better w service_hash perf (pre ++ p ∷ post) s ≡ (
        stopped (ask_better w service_hash perf pre s).0,
        (ask_better w service_hash perf pre s).1,
      )
  unfolding ask_better
  ask_better_stops service_hash perf [] p post s h = ground arith
  ask_better_stops service_hash perf (q ∷ pre) p post s h =
      let s' = (ask w service_hash q.id s).2 in
      ground (arith, ask_better_stops service_hash perf pre p post s' h)
