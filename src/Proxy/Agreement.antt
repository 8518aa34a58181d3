-- ===== src/Proxy/Agreement.antt =====
-- The searches of runRequest in proxy/proxy.go and of findOrAllocate in l4-proxy/l4-proxy.go agree.
use go_code_goes_here.Prelude.{
  ℕ, zero, suc, ◌≡◌, ◌≢◌, refl, ap, sym, Bytes, [], ◌∷◌, Option, none, some, Option-cases, inl, inr,
}
use go_code_goes_here.World.{ServiceInfo, Result, Result-cases, ok, err}
use go_code_goes_here.Pcache.{PeerCache, get_peer, remove_peer}
use go_code_goes_here.Locate.{Round, round, rounds, conclude, cached, find_or_allocate}
use go_code_goes_here.Proxy.{Http, keep, search_rounds, locate, send_on, run_request, request_peer}

-- The identifier of findOrAllocate's answer, empty where it failed.
abbrev pub id_of : Result Bytes → Bytes
id_of (ok id) = id
id_of (err e) = []

module _ (http : Http) where
  open http use {State, Request, Response, world, now}

  -- What the search ends with, with the cache that the answer leaves.
  abbrev kept :
      Bytes → ServiceInfo → PeerCache → Option (Round × State) → Option (Round × PeerCache × State)
  kept serv_name info cache none = none
  kept serv_name info cache (some (r, s)) = some (r, keep http serv_name info r cache, s)

  keep-empty :
      (serv_name : Bytes) (info : ServiceInfo) (r : Round) (cache : PeerCache)
      → r.id ≡ []
      → keep http serv_name info r cache ≡ cache
  unfolding keep
  keep-empty serv_name info r cache e = rw (e, keep) refl

  search_rounds_lem :
      (left : ℕ) (serv_name : Bytes) (info : ServiceInfo) (r : Round) (cache : PeerCache)
      (s : State)
      → search_rounds http left serv_name info r (keep http serv_name info r cache) s
        ≡ kept serv_name info cache (rounds world left info r s)
  unfolding search_rounds rounds
  search_rounds_lem zero serv_name info r cache s = refl
  search_rounds_lem (suc left) serv_name info r cache s =
      next r.id refl (λ r' s'. search_rounds_lem left serv_name info r' cache s')
    where
      next :
          (id : Bytes)
          → r.id ≡ id
          → ((r' : Round) (s' : State)
              → search_rounds http left serv_name info r' (keep http serv_name info r' cache) s'
                ≡ kept serv_name info cache (rounds world left info r' s'))
          → search_rounds http (suc left) serv_name info r (keep http serv_name info r cache) s
            ≡ kept serv_name info cache (rounds world (suc left) info r s)
      next (c ∷ cs) e k = rw (e, search_rounds, rounds) refl
      next [] e k =
          let nothing = keep-empty serv_name info r cache e in
          elim (Option-cases (round world info s)) [
            | inl n ↦ rw (e, n, search_rounds, rounds) refl
            | inr ((r', s'), n) ↦ rw (e, n, search_rounds, rounds, nothing) (k r' s')
          ]

  abbrev found : Result Bytes × PeerCache × State → Bytes × PeerCache × State
  found (r, c, s) = (id_of r, c, s)

  concluded :
      (serv_name : Bytes) (info : ServiceInfo) (r : Round) (cache : PeerCache) (s : State)
      → ((t : State) → (now t).1 ≡ t)
      → found (conclude world serv_name info r cache s)
        ≡ (r.id, keep http serv_name info r cache, s)
  unfolding conclude keep
  concluded serv_name info r cache s clock = next r.id refl
    where
      next :
          (id : Bytes)
          → r.id ≡ id
          → found (conclude world serv_name info r cache s)
            ≡ (r.id, keep http serv_name info r cache, s)
      next [] e = rw (e, conclude, keep) refl
      next (c ∷ cs) e = elim (Option-cases r.failed) [
        | inl n ↦ rw (e, n, conclude, keep, clock s, ← e) refl
        | inr (f, n) ↦ rw (e, n, conclude, keep, ← e) refl
      ]

  -- Where reading the clock changes nothing, runRequest's search and findOrAllocate find the same peer,
  -- leave the same cache and the same world, or neither returns.
  pub locate_agrees :
      (serv_name : Bytes) (info : ServiceInfo) (cache : PeerCache) (s : State)
      → ((t : State) → (now t).1 ≡ t)
      → locate http serv_name info cache s ≡ elim (find_or_allocate world serv_name info cache s) [
        | none ↦ none
        | some (r, c, s') ↦ some (id_of r, c, s')
      ]
  unfolding locate find_or_allocate cached keep
  locate_agrees serv_name info cache s clock =
      elim (Result-cases (get_peer info.content_hash cache)) [
        | inl ([], q) ↦ rw (q, locate, find_or_allocate) refl
        | inl (c ∷ cs, q) ↦ rw (q, locate, find_or_allocate) refl
        | inr (e, q) ↦
            let start : Round = record { id = []; failed = some e } in
            let lem = search_rounds_lem 3 serv_name info start cache s in
            elim (Option-cases (rounds world 3 info start s)) [
              | inl n ↦ rw (q, locate, find_or_allocate, clock s, lem, n) refl
              | inr ((r, t), n) ↦
                  rw (q, locate, find_or_allocate, clock s, lem, n, clock t)
                    (ap (λ x. some x) (sym (concluded serv_name info r cache t clock)))
            ]
      ]

  -- When the search of runRequest ended with a peer, the request is sent to it and its result
  -- returned; the cache is as the search left it after an answer, and without the peer's entry, as
  -- RemovePeer removes it, after an error.
  pub run_request_evicts :
      (serv_name : Bytes) (info : ServiceInfo) (req : Request) (cache : PeerCache) (s : State)
      (id : Bytes) (cache' : PeerCache) (s' : State)
      → locate http serv_name info cache s ≡ some (id, cache', s')
      → id ≢ []
      → let (r, s'') = request_peer http id req s' in
        run_request http serv_name info req cache s
        ≡ some (r, elim r [ ok resp ↦ cache' | err e ↦ remove_peer id cache' ], s'')
  unfolding run_request send_on
  run_request_evicts serv_name info req cache s [] cache' s' h n = absurd (n refl)
  run_request_evicts serv_name info req cache s (c ∷ cs) cache' s' h n =
      let (r, s'') = request_peer http (c ∷ cs) req s' in
      elim (Result-cases r) [
        | inl (resp, q) ↦ rw (h, q, run_request, send_on) refl
        | inr (e, q) ↦ rw (h, q, run_request, send_on) refl
      ]
