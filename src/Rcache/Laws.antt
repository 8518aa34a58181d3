-- ===== src/Rcache/Laws.antt =====
-- What the registry cache promises: rcache/registry-cache.go.
use go_code_goes_here.Prelude.{
  ℕ, ◌+◌, ◌≤◌, ◌≡◌, Bytes, Option, none, some, lookup, same, lookup-store, lookup-delete, ltb,
  false, same_refl, if◌then◌else◌, arith, inl, inr, Option-cases,
}
use go_code_goes_here.World.{ServiceInfo, World, Error}
use go_code_goes_here.Rcache.{
  CacheEntry, RegistryCache, delete_service, add, get, request, get_or_request,
}

module _ (w : World) where
  open w use {State, now, get_service}

  -- What Get returns for an entry that Add wrote at time `added` with lifetime `ttl`.
  abbrev pub until : ServiceInfo → ℕ → State → Option ServiceInfo × State
  until info expiry s = let (t, s') = now s in if ltb expiry t then (none, s') else (some info, s')

  -- After Add of a name, Get of that name returns the added information until the lifetime that
  -- started at the time of Add is over, and nothing later; Get of any other name is as before.
  pub get-add :
      (k j : Bytes) (info : ServiceInfo) (rc : RegistryCache) (s t : State)
      → get w j (add w k info rc s).0 t
        ≡ (if same k j then until info ((now s).0 + rc.ttl) t else get w j rc t)
  unfolding get add
  get-add k j info rc s t =
      ground
        (arith, lookup-store k j (record { info = info; expiry = (now s).0 + rc.ttl }) rc.entries)

  -- After Delete of a name, Get finds nothing under it and asks no clock; other names are as before.
  pub get-delete :
      (k j : Bytes) (rc : RegistryCache) (t : State)
      → get w j (delete_service k rc) t ≡ (if same k j then (none, t) else get w j rc t)
  unfolding get delete_service
  get-delete k j rc t = ground (arith, lookup-delete k j rc.entries)

  abbrev pub entry_at : Bytes → RegistryCache → State → CacheEntry
  entry_at name rc s = record {
    info = (get_service name s).0.info;
    expiry = (now (get_service name s).1).0 + rc.ttl;
  }

  pub lookup-request :
      (name j : Bytes) (rc : RegistryCache) (s : State)
      → (get_service name s).0.error ≡ none
      → lookup j (request w name rc s).1.entries
        ≡ (if same name j then some (entry_at name rc s) else lookup j rc.entries)
  unfolding request
  lookup-request name j rc s h = ground (arith, lookup-store name j (entry_at name rc s) rc.entries)

  pub request_ok :
      (name : Bytes) (rc : RegistryCache) (s : State)
      → (request w name rc s).0 ≡ (get_service name s).0
  unfolding request
  request_ok name rc s = ground arith

  get-request :
      (name : Bytes) (rc : RegistryCache) (s t : State)
      → (get_service name s).0.error ≡ none
      → (now t).0 ≤ (now (get_service name s).1).0 + rc.ttl
      → get w name (request w name rc s).1 t ≡ (some (get_service name s).0.info, (now t).1)
  unfolding get
  get-request name rc s t good soon =
      ground (arith, lookup-request name name rc s good, same_refl name)

  pub get-eq-some :
      (name : Bytes) (rc : RegistryCache) (s : State) (info : ServiceInfo)
      → (get w name rc s).0 ≡ some info
      → (e : CacheEntry) × (lookup name rc.entries ≡ some e) × (e.info ≡ info)
  unfolding get
  get-eq-some name rc s info h = elim (Option-cases (lookup name rc.entries)) [
    | inl e ↦ absurd (ground arith)
    | inr (entry, e) ↦ (entry, e, ground arith)
  ]

  pub get_or_request_hit :
      (name : Bytes) (rc : RegistryCache) (s : State) (info : ServiceInfo)
      → (get w name rc s).0 ≡ some info
      → get_or_request w name rc s ≡ (record { info = info; error = none }, rc, (get w name rc s).1)
  unfolding get_or_request
  get_or_request_hit name rc s info h = ground arith

  pub get_or_request_miss :
      (name : Bytes) (rc : RegistryCache) (s : State)
      → (get w name rc s).0 ≡ none
      → get_or_request w name rc s ≡ request w name rc (get w name rc s).1
  unfolding get_or_request
  get_or_request_miss name rc s h = ground arith

  second_request :
      (name : Bytes) (rc : RegistryCache) (s t : State)
      → (get_service name s).0.error ≡ none
      → (now t).0 ≤ (now (get_service name s).1).0 + rc.ttl
      → get_or_request w name (request w name rc s).1 t
        ≡ ((request w name rc s).0, (request w name rc s).1, (now t).1)
  unfolding get_or_request
  second_request name rc s t good soon =
      ground (arith, get-request name rc s t good soon, request_ok name rc s)

  -- When GetOrRequestService succeeds, the information that it returns is what the cache then holds
  -- under the name, whether it came from the cache or from the registry.
  pub get_or_request_caches :
      (name : Bytes) (rc : RegistryCache) (s : State)
      → (get_or_request w name rc s).0.error ≡ none
      → (e : CacheEntry) × (lookup name (get_or_request w name rc s).1.entries ≡ some e)
        × (e.info ≡ (get_or_request w name rc s).0.info)
  get_or_request_caches name rc s h = elim (Option-cases (get w name rc s).0) [
    | inl e ↦
        let s' = (get w name rc s).1 in
        let m = get_or_request_miss name rc s e in
        (
          entry_at name rc s',
          ground (arith, m, request_ok name rc s', lookup-request name name rc s', same_refl name),
          ground (arith, m, request_ok name rc s'),
        )
    | inr (info, e) ↦
        let hit = get_or_request_hit name rc s info e in
        let (entry, p, q) = get-eq-some name rc s info e in
        (entry, ground (arith, hit, p), ground (arith, hit, q))
  ]

  -- When it fails, the cache is unchanged and holds nothing fresh under the name, and the error is
  -- the one of the registry.
  pub get_or_request_fails :
      (name : Bytes) (rc : RegistryCache) (s : State) (e : Error)
      → (get_or_request w name rc s).0.error ≡ some e
      → ((get_or_request w name rc s).1 ≡ rc)
        × ((get w name rc s).0 ≡ none)
        × ((get_service name (get w name rc s).1).0.error ≡ some e)
  unfolding get_or_request request
  get_or_request_fails name rc s e h = ground arith

  -- A request never changes what is cached under another name, nor the lifetime.
  pub get_or_request_frame :
      (name j : Bytes) (rc : RegistryCache) (s : State)
      → same name j ≡ false
      → (lookup j (get_or_request w name rc s).1.entries ≡ lookup j rc.entries)
        × ((get_or_request w name rc s).1.ttl ≡ rc.ttl)
  unfolding get_or_request request
  get_or_request_frame name j rc s h =
      let s' = (get w name rc s).1 in
      ground (arith, lookup-store name j (entry_at name rc s') rc.entries)

  -- After a request that had to ask the registry and got an answer, a second request for the name,
  -- made before the lifetime counted from the answer is over, gives the same answer from the cache:
  -- it only reads the clock, and the cache stays as it is.
  pub get_or_request_again :
      (name : Bytes) (rc : RegistryCache) (s t : State)
      → (get w name rc s).0 ≡ none
      → (get_service name (get w name rc s).1).0.error ≡ none
      → (now t).0 ≤ (now (get_service name (get w name rc s).1).1).0 + rc.ttl
      → get_or_request w name (get_or_request w name rc s).1 t
        ≡ ((get_or_request w name rc s).0, (get_or_request w name rc s).1, (now t).1)
  get_or_request_again name rc s t miss good soon =
      rw (get_or_request_miss name rc s miss)
        (second_request name rc (get w name rc s).1 t good soon)
