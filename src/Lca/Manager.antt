-- ===== src/Lca/Manager.antt =====
-- lca/lca-manager.go: finding the best instance of a service, and asking allocators for a new one.
pub mod Requests
use go_code_goes_here.Prelude.{
  ℕ, ◌≡◌, ◌≢◌, refl, ap, ◌∙◌, Bytes, codes, Bool, true, false, List, [], ◌∷◌, ◌++◌, Option, none,
  some, arith, if◌then◌else◌, Bool-cases, inl, inr, All,
}
use go_code_goes_here.World.{
  World, PeerInfo, PerfInd, Error, Result, ok, err, bad_address, no_better_service, no_allocator,
  no_provider,
}
use go_code_goes_here.Lca.Wire.{
  write, read, start_program, allocator_protocol_id, allocator_rendezvous,
}
use go_code_goes_here.Lca.Address.{is_address}

-- The manager's identifier and the time of the last serviced request.
pub record LcaManager : Type 0 where
  pub p2p_hash : Bytes
  pub tolsr : ℕ

-- What the three methods return beside an error: a peer and its performance.
abbrev pub Found : Type 0
Found = Result (Bytes × PerfInd)

module _ (w : World) where
  open w use {State, PeerChan, Stream, less_than, find_peers, sort_peers, new_stream, reset}

  -- the part of requestAlloc behind the write
  unfoldable pub await_address : Stream → State → Result Bytes × State
  await_address stream s =
      let (r, s') = read w stream s in
      elim r [
        | err e ↦ (err e, s')
        | ok str ↦ (if is_address str then ok str else err bad_address, s')
      ]

  -- requestAlloc
  unfoldable pub request_alloc : Stream → Bytes → State → Result Bytes × State
  unfolding await_address
  request_alloc stream service_hash s =
      let (e, s') = write w stream (start_program ++ codes " " ++ service_hash) s in
      elim e [ some e ↦ (err e, s') | none ↦ await_address stream s' ]

  -- One round of the loops of AllocService and AllocBetterService: whether the peer allocated, and the
  -- stream whose Reset the round defers.
  unfoldable pub ask : Bytes → Bytes → State → Result Bytes × Option Stream × State
  ask service_hash id s =
      let (r, s') = new_stream id allocator_protocol_id s in
      elim r [
        | err e ↦ (err e, none, s')
        | ok stream ↦
            let (answer, s'') = request_alloc stream service_hash s' in (answer, some stream, s'')
      ]

  -- The deferred call of a round, when the function returns: the last round's comes first.
  unfoldable pub deferred : Option Stream → State → State
  deferred none s = s
  deferred (some stream) s = reset stream s

  -- the loop of AllocService
  unfoldable pub ask_each : Bytes → List PeerInfo → State → Found × State
  ask_each service_hash [] s = (err no_allocator, s)
  ask_each service_hash (p ∷ ps) s =
      let (r, opened, s') = ask service_hash p.id s in
      let (found, s'') = ask_each service_hash ps s' in
      elim r [
        | err e ↦ (found, deferred opened s'')
        | ok address ↦ (ok (p.id, p.perf), deferred opened s')
      ]

  -- the loop of AllocBetterService
  unfoldable pub ask_better : Bytes → PerfInd → List PeerInfo → State → Found × State
  ask_better service_hash perf [] s = (err no_allocator, s)
  ask_better service_hash perf (p ∷ ps) s =
      let (r, opened, s') = ask service_hash p.id s in
      let (found, s'') = ask_better service_hash perf ps s' in
      if less_than perf p.perf then (err no_better_service, s) else elim r [
        | err e ↦ (found, deferred opened s'')
        | ok address ↦ (ok (p.id, p.perf), deferred opened s')
      ]

  -- The allocators, the best one first.
  unfoldable pub allocators : State → Result (List PeerInfo) × State
  allocators s =
      let (r, s') = find_peers allocator_rendezvous s in
      elim r [
        | err e ↦ (err e, s')
        | ok peer_chan ↦ let (peers, s'') = sort_peers peer_chan s' in (ok peers, s'')
      ]

  -- AllocService
  unfoldable pub alloc_service : Bytes → State → Found × State
  alloc_service service_hash s =
      let (r, s') = allocators s in
      elim r [ err e ↦ (err e, s') | ok peers ↦ ask_each service_hash peers s' ]

  -- AllocBetterService
  unfoldable pub alloc_better_service : Bytes → PerfInd → State → Found × State
  alloc_better_service service_hash perf s =
      let (r, s') = allocators s in
      elim r [ err e ↦ (err e, s') | ok peers ↦ ask_better service_hash perf peers s' ]

  first_of_peers : List PeerInfo → Found
  first_of_peers [] = err no_provider
  first_of_peers (p ∷ ps) = ok (p.id, p.perf)

  -- FindService
  unfoldable pub find_service : Bytes → State → Found × State
  unfolding first_of_peers
  find_service service_hash s =
      let (r, s') = find_peers service_hash s in
      elim r [
        | err e ↦ (err e, s')
        | ok peer_chan ↦ let (peers, s'') = sort_peers peer_chan s' in (first_of_peers peers, s'')
      ]
