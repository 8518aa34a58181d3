-- ===== src/Pcache/Shape.antt =====
-- The cache as NewPeerCache builds it, with three levels: what updateCache of pcache/pcache.go makes
-- of it, level by level.
use go_code_goes_here.Prelude.{◌≡◌, refl, List, [], ◌∷◌, length, Option}
use go_code_goes_here.World.{World}
use go_code_goes_here.Rcache.{RegistryCache}
use go_code_goes_here.Pcache.Sorting.{Sorter}
use go_code_goes_here.Pcache.Sweep.{sweep}
use go_code_goes_here.Pcache.{RPeerInfo, PeerCache, demote, regrade, probe, less, update_cache}

-- Level 0 holds the reliable peers, level 1 the others; level 2 is for peers due for removal.
abbrev pub cache : List RPeerInfo → List RPeerInfo → List RPeerInfo → PeerCache
cache a b c = record { n_levels = 3; levels = a ∷ b ∷ c ∷ []; rmax = 3 }

-- A loop over a whole slice.
abbrev pub loop :
    {S : Type 0} → (RPeerInfo → S → Option RPeerInfo × S) → List RPeerInfo → S → List RPeerInfo × S
loop body xs s = sweep body (length xs) 0 xs s

module _ (w : World) (sorter : Sorter RPeerInfo) where
  open w use {State}

  abbrev pub sorted : List RPeerInfo → List RPeerInfo
  sorted = sorter.sort_slice (less w)

  module _ (a b c : List RPeerInfo) (rc : RegistryCache) (s : State) where
    abbrev pub counted_0 : List RPeerInfo × (RegistryCache × State)
    counted_0 = loop (probe w) a (rc, s)

    abbrev pub counted_1 : List RPeerInfo × (RegistryCache × State)
    counted_1 = loop (probe w) b counted_0.1

    abbrev pub counted_2 : List RPeerInfo × (RegistryCache × State)
    counted_2 = loop (probe w) c counted_1.1

    abbrev pub demoted : List RPeerInfo × List RPeerInfo
    demoted = loop demote counted_0.0 counted_1.0

    abbrev pub regraded : List RPeerInfo × (List RPeerInfo × List RPeerInfo)
    regraded = loop regrade demoted.1 (demoted.0, counted_2.0)

    -- What stays of the last level is what an empty slice sorts to.
    pub update_cache_lem : update_cache w sorter (cache a b c) rc s ≡ (
      cache (sorted regraded.1.0) (sorted regraded.0) (sorted []),
      counted_2.1.0,
      counted_2.1.1,
    )
    unfolding update_cache
    update_cache_lem = refl
