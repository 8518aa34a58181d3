-- ===== src/Pcache.antt =====
-- pcache/pcache.go: the cache of peers in levels of reliability.
mod Slices
mod Sweep
pub mod Sorting
pub mod Shape
pub mod Reliability
pub mod Census
pub mod Bags
pub mod Lookup
pub mod Removal
pub mod History
pub mod Promotion
mod Tests
use Slices.{apts, rpfs}
use Sweep.{sweep}
use Sorting.{Sorter}
use go_code_goes_here.Prelude.{
  ℕ, zero, suc, ◌+◌, ◌-◌, Bool, Bytes, List, [], ◌∷◌, Option, none, some, length, get_elem?, set,
  same, ltb, ◌==◌, ◌||◌, if◌then◌else◌,
}
use go_code_goes_here.World.{PerfInd, PeerInfo, Result, ok, err, no_suitable_peer, Answer, World}
use go_code_goes_here.Rcache.{RegistryCache, new_registry_cache, get_or_request}

pub record RPeerInfo : Type 0 where
  pub r_count : ℕ
  pub info : PeerInfo

-- The node belongs to the world. The registry cache, which the proxy shares, is passed beside the
-- peer cache. Every method but NewPeerCache holds the mutex from its start to its end.
pub record PeerCache : Type 0 where
  pub n_levels : ℕ
  pub levels : List (List RPeerInfo)
  pub rmax : ℕ

-- `for i := 0; i < NLevels; i++ { Levels = append(Levels, []RPeerInfo{}) }`
empty_levels : ℕ → List (List RPeerInfo) → List (List RPeerInfo)
empty_levels zero ls = ls
empty_levels (suc n) ls = empty_levels n (apts ls [])

-- rcacheDefaultTTL
abbrev pub rcache_default_ttl : ℕ
rcache_default_ttl = 600

-- NewPeerCache, where `none` stands for a nil registry cache
unfoldable pub new_peer_cache : Option RegistryCache → PeerCache × RegistryCache
unfolding empty_levels apts new_registry_cache
new_peer_cache reg_cache = (
  record { n_levels = 3; levels = empty_levels 3 []; rmax = 3 },
  elim reg_cache [ none ↦ new_registry_cache rcache_default_ttl | some rc ↦ rc ],
)

-- Levels[l]. Out of range Go panics.
abbrev pub level : List (List RPeerInfo) → ℕ → List RPeerInfo
level ls l = elim (get_elem? ls l) [ none ↦ [] | some s ↦ s ]

unfoldable pub add_peer : PeerInfo → PeerCache → PeerCache
unfolding apts
add_peer p_info cache =
    let l = cache.n_levels - 2 in
    record cache {
      levels =
          set cache.levels l (apts (level cache.levels l) (record { r_count = 50; info = p_info }));
    }

-- The inner loop of RemovePeer: the index of the peer, among the first `rmax` of a level.
index_of : Bytes → ℕ → ℕ → ℕ → List RPeerInfo → Option ℕ
index_of id rmax count i [] = none
index_of id rmax count i (p ∷ ps) =
    let next = index_of id rmax (count + 1) (i + 1) ps in
    if ltb count rmax then (if same id p.info.id then some i else next) else none

-- The outer loop, with the number of levels left.
remove_from : Bytes → ℕ → ℕ → PeerCache → PeerCache
unfolding index_of rpfs
remove_from id zero l cache = cache
remove_from id (suc left) l cache = elim (index_of id cache.rmax 0 0 (level cache.levels l)) [
  | none ↦ remove_from id left (l + 1) cache
  | some i ↦ record cache { levels = set cache.levels l (rpfs (level cache.levels l) i) }
]

unfoldable pub remove_peer : Bytes → PeerCache → PeerCache
unfolding remove_from
remove_peer id cache = remove_from id (cache.n_levels - 1) 0 cache

-- The inner loop of GetPeer.
first_match : Bytes → List RPeerInfo → Option Bytes
first_match hash [] = none
first_match hash (p ∷ ps) =
    let next = first_match hash ps in if same p.info.serv_hash hash then some p.info.id else next

-- The outer loop, with the number of levels left.
search_levels : Bytes → ℕ → ℕ → List (List RPeerInfo) → Result Bytes
unfolding first_match
search_levels hash zero l ls = err no_suitable_peer
search_levels hash (suc left) l ls = elim (first_match hash (level ls l)) [
  | none ↦ search_levels hash left (l + 1) ls
  | some id ↦ ok id
]

unfoldable pub get_peer : Bytes → PeerCache → Result Bytes
unfolding search_levels
get_peer hash cache = search_levels hash (cache.n_levels - 1) 0 cache.levels

-- The new RCount of a peer whose ping meets, or does not meet, the soft requirement.
penalize : ℕ → ℕ
penalize n = if ltb n 10 then 0 else n - 10

reward : ℕ → ℕ
reward n = if ltb n 100 then n + 1 else n

-- The second pass over level 0: the state is level 1.
pub demote : RPeerInfo → List RPeerInfo → Option RPeerInfo × List RPeerInfo
unfolding apts
demote p down =
    if ltb p.r_count 90 then (none, apts down (record p { r_count = 50 })) else (some p, down)

-- The second pass over a middle level: the state is the level above and the level below.
pub regrade :
    RPeerInfo
    → List RPeerInfo × List RPeerInfo
    → Option RPeerInfo × (List RPeerInfo × List RPeerInfo)
unfolding apts
regrade p (up, down) =
    if ltb 90 p.r_count
    then (none, (apts up p, down))
    else if ltb p.r_count 10
    then (none, (up, apts down (record p { r_count = 50 })))
    else (some p, (up, down))

demote_top : List (List RPeerInfo) → List (List RPeerInfo)
unfolding sweep demote
demote_top ls =
    let (s, down) = sweep demote (length (level ls 0)) 0 (level ls 0) (level ls 1) in
    set (set ls 1 down) 0 s

-- With the number of levels left.
regrade_middle : ℕ → ℕ → List (List RPeerInfo) → List (List RPeerInfo)
unfolding sweep regrade
regrade_middle zero l ls = ls
regrade_middle (suc left) l ls =
    let around : List RPeerInfo × List RPeerInfo = (level ls (l - 1), level ls (l + 1)) in
    let (s, (up, down)) = sweep regrade (length (level ls l)) 0 (level ls l) around in
    regrade_middle left (l + 1) (set (set (set ls (l - 1) up) (l + 1) down) l s)

module _ (w : World) where
  open w use {State, ping, less_than}

  -- RPeerInfo.LessThan
  pub less : RPeerInfo → RPeerInfo → Bool
  less l r = less_than l.info.perf r.info.perf

  -- What the first pass makes of a peer with a round-trip time, under the service's requirements.
  pub judge : PerfInd → PerfInd → RPeerInfo → ℕ → Option RPeerInfo
  unfolding penalize reward
  judge hard soft p rtt =
      let perf : PerfInd = record { rtt = rtt } in
      let info = record p.info { perf = perf } in
      if rtt == 0 || less_than hard perf
      then none
      else if less_than soft perf
      then some (record { r_count = penalize p.r_count; info = info })
      else some (record { r_count = reward p.r_count; info = info })

  -- The body of the first pass. A failed registry lookup is only logged.
  pub probe : RPeerInfo → RegistryCache × State → Option RPeerInfo × (RegistryCache × State)
  unfolding judge
  probe p (rc, s) =
      let (answer, rc', s') = get_or_request w p.info.serv_name rc s in
      let hard = answer.info.network_hard_req in
      let (rtt, s'') = ping p.info.id hard.rtt s' in
      (judge hard answer.info.network_soft_req p rtt, (rc', s''))

  -- The first pass, with the number of levels left.
  update_counts :
      ℕ
      → ℕ
      → List (List RPeerInfo)
      → RegistryCache × State
      → List (List RPeerInfo) × (RegistryCache × State)
  update_counts zero l ls e = (ls, e)
  update_counts (suc left) l ls e =
      let (s, e') = sweep probe (length (level ls l)) 0 (level ls l) e in
      update_counts left (l + 1) (set ls l s) e'

  -- The third pass, with the number of levels left.
  sort_levels : Sorter RPeerInfo → ℕ → ℕ → List (List RPeerInfo) → List (List RPeerInfo)
  sort_levels sorter zero l ls = ls
  sort_levels sorter (suc left) l ls =
      sort_levels sorter left (l + 1) (set ls l (sorter.sort_slice less (level ls l)))

  -- updateCache
  pub update_cache :
      Sorter RPeerInfo → PeerCache → RegistryCache → State → PeerCache × RegistryCache × State
  unfolding update_counts demote_top regrade_middle sort_levels
  update_cache sorter cache rc s =
      let n = cache.n_levels in
      let (counted, (rc', s')) = update_counts n 0 cache.levels (rc, s) in
      let moved = regrade_middle (n - 2) 1 (demote_top counted) in
      let cleared = set moved (n - 1) [] in
      (record cache { levels = sort_levels sorter n 0 cleared }, rc', s')

  -- UpdateCache, for a number of ticks before its context is done: one update for each.
  pub run_updates :
      Sorter RPeerInfo → ℕ → PeerCache → RegistryCache → State → PeerCache × RegistryCache × State
  run_updates sorter zero cache rc s = (cache, rc, s)
  run_updates sorter (suc ticks) cache rc s =
      let (cache', rc', s') = update_cache sorter cache rc s in
      run_updates sorter ticks cache' rc' s'
