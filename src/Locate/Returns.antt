-- ===== src/Locate/Returns.antt =====
-- The loops of findOrAllocate in l4-proxy/l4-proxy.go end.
use go_code_goes_here.Prelude.{
  ℕ, zero, suc, ◌≡◌, ◌<◌, ◌≤◌, refl, inl, inr, arith, Bytes, true, Bool-cases, [], ◌∷◌, Option,
  none, some, Option-cases,
}
use go_code_goes_here.World.{World, ServiceInfo, Result, Result-cases}
use go_code_goes_here.Pcache.{PeerCache, get_peer}
use go_code_goes_here.Lca.Manager.{find_service, alloc_service}
use go_code_goes_here.Rcache.{get_or_request}
use go_code_goes_here.Locate.{
  wait, backoff_fuel, Round, refind, allocate, improve, round, rounds, conclude, cached,
  find_or_allocate, Env, resolve_service,
}

module _ (w : World) where
  open w use {State, Backoff, less_than, now, sleep, new_backoff, attempt}

  -- What NewExpoBackoffAttempts documents: the object lets at most as many attempts pass as it is told.
  pub record IsBounded : Type 0 where
    pub left : Backoff → ℕ
    pub starts : (first longest n : ℕ) (s : State) → left (new_backoff first longest n s).0 ≤ n
    pub counts : (b : Backoff) (s : State) → (attempt b s).0 ≡ true → left (attempt b s).1 < left b

  abbrev Returns : {A : Type 0} → Option A → Type 0
  Returns {A} o = (a : A) × (o ≡ some a)

  refind-Returns :
      (bounded : IsBounded) (fuel : ℕ) (service_hash id : Bytes) (b : Backoff) (s : State)
      → bounded.left b < fuel
      → Returns (refind w fuel service_hash id b s)
  unfolding refind
  refind-Returns bounded zero service_hash id b s h = absurd (omega arith)
  refind-Returns bounded (suc fuel) service_hash id b s h = elim (Bool-cases (attempt b s).0) [
    | inr e ↦ ((id, (attempt b s).2), rw (e, refind) refl)
    | inl e ↦
        let fewer = bounded.counts b s e in
        let (r, s2) = find_service w service_hash (attempt b s).2 in
        let later : Returns (refind w fuel service_hash [] (attempt b s).1 s2) =
          refind-Returns bounded fuel service_hash [] (attempt b s).1 s2 (omega arith) in
        elim (Result-cases r) [
          | inl (p, q) ↦ ((p.0, s2), rw (e, q, refind) refl)
          | inr (f, q) ↦ (later.0, rw (e, q, refind) later.1)
        ]
  ]

  round-Returns : (bounded : IsBounded) (info : ServiceInfo) (s : State) → Returns (round w info s)
  unfolding round allocate
  round-Returns bounded info s =
      let (r, s') = find_service w info.content_hash s in
      let (a, s1) = alloc_service w info.docker_hash s' in
      let (b, s2) = new_backoff wait 1_000_000_000 5 (sleep wait s1) in
      let few = bounded.starts wait 1_000_000_000 5 (sleep wait s1) in
      let ((id, s3), e) =
        refind-Returns bounded backoff_fuel info.content_hash [] b s2 (omega arith) in
      elim (Result-cases r) [
        | inl (p, q) ↦ (improve w info p.0 p.1 s', rw (q, round) refl)
        | inr (f, q) ↦ elim (Result-cases a) [
          | inl (p, k) ↦ ((record { id = id; failed = none }, s3), ground (arith, e, k, q))
          | inr (g, k) ↦ ((record { id = []; failed = some g }, s1), ground (arith, k, q))
        ]
      ]

  rounds-Returns :
      (bounded : IsBounded) (left : ℕ) (info : ServiceInfo) (r : Round) (s : State)
      → Returns (rounds w left info r s)
  unfolding rounds
  rounds-Returns bounded zero info r s = ((r, s), refl)
  rounds-Returns bounded (suc left) info r s =
      let ((r', s'), q) = round-Returns bounded info s in
      let (out, k) = rounds-Returns bounded left info r' s' in next r.id refl r' s' q out k
    where
      next :
          (id : Bytes)
          → r.id ≡ id
          → (r' : Round) (s' : State) → round w info s ≡ some (r', s')
          → (out : Round × State) → rounds w left info r' s' ≡ some out
          → Returns (rounds w (suc left) info r s)
      next (c ∷ id) e r' s' q out k = ((r, s), ground (arith, e))
      next [] e r' s' q out k = (out, ground (arith, e, q, k))

  -- Where the backoff lets at most as many attempts pass as it is told, findOrAllocate returns.
  pub find_or_allocate_returns :
      (serv_name : Bytes) (info : ServiceInfo) (c : PeerCache) (s : State)
      → IsBounded
      → (out : Result Bytes × PeerCache × State) × (find_or_allocate w serv_name info c s
          ≡ some out)
  unfolding find_or_allocate
  find_or_allocate_returns serv_name info c s bounded =
      elim (Result-cases (get_peer info.content_hash c)) [
        | inl (id, q) ↦ (cached w id c s, rw (q, find_or_allocate) refl)
        | inr (e, q) ↦
            let ((r, s'), k) =
              rounds-Returns bounded 3 info (record { id = []; failed = some e }) (now s).1 in
            (conclude w serv_name info r c s', ground (arith, q, k))
      ]

  -- Where the backoff lets at most as many attempts pass as it is told, resolveService returns.
  pub resolve_service_returns :
      (serv_name : Bytes) (env : Env w)
      → IsBounded
      → (out : Result (Bytes × ServiceInfo) × Env w) × (resolve_service w serv_name env ≡ some out)
  unfolding resolve_service
  resolve_service_returns serv_name env bounded =
      let (a, rc, s) = get_or_request w serv_name env.registry_cache env.outside in
      let ((r, c, s'), q) = find_or_allocate_returns serv_name a.info env.peer_cache s bounded in
      elim (Option-cases (resolve_service w serv_name env)) [
        | inr (out, e) ↦ (out, e)
        | inl n ↦ absurd (ground (arith, n, q, Option-cases a.error, Result-cases r))
      ]
