-- ===== src/Pcache/Tests.antt =====
-- Runs of the peer cache, and its properties at concrete inputs.
use mathlib.Core.List.{Perm}
use go_code_goes_here.Prelude.{
  ℕ, ◌≤◌, ◌≡◌, refl, codes, same, none, arith, List, [], ◌∷◌, true, false, Bytes, total, lookup,
}
use go_code_goes_here.World.{PeerInfo, no_perf}
use go_code_goes_here.World.Toy.{toy, web}
use go_code_goes_here.Rcache.Keeping.{Keeps, Registers}
use go_code_goes_here.Rcache.{RegistryCache}
use go_code_goes_here.Pcache.Sorting.{Sorter, IsStrictWeak}
use go_code_goes_here.Pcache.Sorting.Insertion.{insertion}
use go_code_goes_here.Pcache.Slices.{rpfs}
use go_code_goes_here.Pcache.Sweep.{sweep, one_by_one, sweep_lem}
use go_code_goes_here.Pcache.{
  RPeerInfo, PeerCache, new_peer_cache, add_peer, get_peer, remove_peer, demote, less, update_cache,
  run_updates, level,
}
use go_code_goes_here.Pcache.Shape.{cache}
use go_code_goes_here.Pcache.Bags.{Updates, update_cache-Updates}
use go_code_goes_here.Pcache.Census.{
  entries_of, is_peer, fails, update_cache-entries_le, update_cache_evicts,
}
use go_code_goes_here.Pcache.Lookup.{Finds, get_peer-Finds}
use go_code_goes_here.Pcache.Removal.{Removes, remove_peer-Removes}
use go_code_goes_here.Pcache.Promotion.{misses, is_entry_from, run_updates_promotes}
use go_code_goes_here.Pcache.History.{Reach, adds, removes, starts, steps, IsReady, Reach-IsReady}

abbrev web_peer : Bytes → PeerInfo
web_peer id = record { id = id; serv_name = codes "web"; serv_hash = codes "hash"; perf = no_perf }

abbrev counted : ℕ → Bytes → RPeerInfo
counted n id = record { r_count = n; info = web_peer id }

abbrev fast : RPeerInfo
fast = counted 95 (codes "a")

abbrev slow : RPeerInfo
slow = counted 30 (codes "b")

abbrev down : RPeerInfo
down = counted 60 (codes "dead")

abbrev rc0 : RegistryCache
rc0 = record { ttl = 100; entries = [] }

abbrev sorter : Sorter RPeerInfo
sorter = insertion RPeerInfo

-- A removal in the middle puts the last entry in the place.
rpfs_runs : rpfs {A = ℕ} (1 ∷ 2 ∷ 3 ∷ 4 ∷ []) 1 ≡ 1 ∷ 4 ∷ 3 ∷ []
unfolding rpfs
rpfs_runs = refl

sweep_lem_example :
    (ys : List RPeerInfo) × Perm ys (slow ∷ fast ∷ [])
    × (sweep demote 2 0 (slow ∷ fast ∷ []) [] ≡ one_by_one demote ys [])
sweep_lem_example = sweep_lem demote (slow ∷ fast ∷ []) []

update_cache-Updates_example :
    Updates toy
      (fast ∷ [])
      (slow ∷ down ∷ [])
      []
      rc0
      0
      (update_cache toy sorter (cache (fast ∷ []) (slow ∷ down ∷ []) []) rc0 0)
update_cache-Updates_example =
    update_cache-Updates toy sorter (fast ∷ []) (slow ∷ down ∷ []) [] rc0 0

shorter-IsStrictWeak : IsStrictWeak (less toy)
unfolding less
shorter-IsStrictWeak = record {
  irreflexive = λ a. ground arith;
  transitive = λ a b c h k. ground arith;
  negatively_transitive = λ a b c h k. ground arith;
}

update_cache-entries_le_example :
    entries_of
      (is_peer (codes "a"))
      (update_cache toy sorter (cache (fast ∷ []) (slow ∷ []) []) rc0 0).0.levels
    ≤ 1
unfolding same
update_cache-entries_le_example =
    update_cache-entries_le toy sorter (codes "a") (fast ∷ []) (slow ∷ []) [] rc0 0

never_answers :
    (name : Bytes) (rc : RegistryCache) (s : ℕ) → fails toy (codes "dead") name rc s ≡ true
unfolding same
never_answers name rc s = refl

update_cache_evicts_example :
    entries_of
      (is_peer (codes "dead"))
      (update_cache toy sorter (cache (fast ∷ []) (slow ∷ down ∷ []) []) rc0 0).0.levels
    ≡ 0
update_cache_evicts_example =
    update_cache_evicts toy sorter (codes "dead") (fast ∷ []) (slow ∷ down ∷ []) [] rc0 0
      never_answers

get_peer-Finds_example :
    Finds
      (codes "hash")
      (fast ∷ slow ∷ [])
      (get_peer (codes "hash") (cache (fast ∷ []) (slow ∷ []) []))
get_peer-Finds_example = get_peer-Finds (codes "hash") (fast ∷ []) (slow ∷ []) []

remove_peer-Removes_example :
    Removes
      (codes "b")
      (fast ∷ slow ∷ [])
      []
      []
      (remove_peer (codes "b") (cache (fast ∷ slow ∷ []) [] []))
remove_peer-Removes_example = remove_peer-Removes (codes "b") (fast ∷ slow ∷ []) [] []

abbrev grown : PeerCache
grown = remove_peer (codes "x") (add_peer (web_peer (codes "a")) (new_peer_cache none).0)

grown-Reach : Reach toy sorter grown
grown-Reach = steps (steps (starts none) (adds (web_peer (codes "a")))) (removes (codes "x"))

Reach-IsReady_example : IsReady grown
Reach-IsReady_example = Reach-IsReady toy sorter grown-Reach

nothing_cached : Keeps (codes "web") web.network_hard_req web.network_soft_req rc0
unfolding lookup
nothing_cached = tt

web_registered : Registers toy (codes "web") web.network_hard_req web.network_soft_req
unfolding same
web_registered s = (refl, refl)

always_meets :
    (s : ℕ)
    → misses toy web.network_hard_req web.network_soft_req (toy.ping (codes "a") 100 s).0 ≡ false
unfolding same
always_meets s = refl

abbrev promoted : PeerCache
promoted =
    (run_updates toy sorter 41 (add_peer (web_peer (codes "a")) (cache (fast ∷ []) [] [])) rc0 0).0

run_updates_promotes_example :
    1 ≤ total (is_entry_from (codes "a") (codes "web") 90) (level promoted.levels 0)
run_updates_promotes_example =
    run_updates_promotes toy sorter 41 (web_peer (codes "a")) web.network_hard_req
      web.network_soft_req (fast ∷ []) [] [] rc0 0 (omega arith) (omega arith) tt nothing_cached
      web_registered always_meets
