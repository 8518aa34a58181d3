-- ===== src/Rcache.antt =====
-- rcache/registry-cache.go: the cache of registry answers, whose entries expire.
pub mod Laws
pub mod History
pub mod Keeping
mod Tests
use go_code_goes_here.Prelude.{
  ℕ, ◌+◌, ◌*◌, Bytes, List, [], Option, none, some, lookup, store, delete, ltb, if◌then◌else◌,
}
use go_code_goes_here.World.{ServiceInfo, Answer, World}

pub record CacheEntry : Type 0 where
  pub info : ServiceInfo
  pub expiry : ℕ

-- The contexts and hosts, which only registry queries use, belong to the world. `entries` is the
-- source's field `data`.
pub record RegistryCache : Type 0 where
  pub ttl : ℕ
  pub entries : List (Bytes × CacheEntry)

-- time.Second
abbrev pub second : ℕ
second = 1_000_000_000

unfoldable pub new_registry_cache : ℕ → RegistryCache
new_registry_cache ttl = record { ttl = ttl * second; entries = [] }

-- Delete
unfoldable pub delete_service : Bytes → RegistryCache → RegistryCache
delete_service name rc = record rc { entries = delete name rc.entries }

module _ (w : World) where
  open w use {State, now, get_service}

  -- Add
  unfoldable pub add : Bytes → ServiceInfo → RegistryCache → State → RegistryCache × State
  add name info rc s =
      let (t, s') = now s in
      (
        record rc { entries = store name (record { info = info; expiry = t + rc.ttl }) rc.entries },
        s',
      )

  -- the part of Get behind the map access
  fresh : CacheEntry → State → Option ServiceInfo × State
  fresh entry s =
      let (t, s') = now s in if ltb entry.expiry t then (none, s') else (some entry.info, s')

  -- Get, with `none` where `ok` is false
  unfoldable pub get : Bytes → RegistryCache → State → Option ServiceInfo × State
  unfolding fresh
  get name rc s = elim (lookup name rc.entries) [ none ↦ (none, s) | some entry ↦ fresh entry s ]

  -- the query and its caching
  unfoldable pub request : Bytes → RegistryCache → State → Answer × RegistryCache × State
  unfolding add
  request name rc s =
      let (a, s') = get_service name s in
      elim a.error [
        | some e ↦ (a, rc, s')
        | none ↦ let (rc', s'') = add name a.info rc s' in (a, rc', s'')
      ]

  -- GetOrRequestService
  unfoldable pub get_or_request : Bytes → RegistryCache → State → Answer × RegistryCache × State
  get_or_request name rc s =
      let (found, s') = get name rc s in
      elim found [
        | some info ↦ (record { info = info; error = none }, rc, s')
        | none ↦ request name rc s'
      ]
