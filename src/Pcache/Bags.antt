-- ===== src/Pcache/Bags.antt =====
-- The cache of pcache/pcache.go as bags, without the order of the entries, and updateCache on bags: the
-- order in which the loops meet the entries, the entries that they swap, and what sort.Slice makes of
-- entries that compare alike are forgotten.
use mathlib.Core.Quot
use mathlib.Core.Quot.{Quot}
use mathlib.Core.List.{Perm, filter_map, filter_map-append}
use mathlib.Core.List.Perm
use go_code_goes_here.Prelude.{
  ◌≡◌, refl, ◌∙◌, subst, List, [], ◌∷◌, ◌++◌, map, Option, none, some, ltb, if◌then◌else◌,
  append_assoc, append-nil, arith,
}
use go_code_goes_here.World.{World}
use go_code_goes_here.Rcache.{RegistryCache}
use go_code_goes_here.Pcache.Slices.{apts}
use go_code_goes_here.Pcache.Sorting.{Sorter}
use go_code_goes_here.Pcache.Sweep.{one_by_one, sweep_lem}
use go_code_goes_here.Pcache.{RPeerInfo, PeerCache, demote, regrade, probe, update_cache}
use go_code_goes_here.Pcache.Shape.{
  cache, loop, counted_0, counted_1, counted_2, sorted, update_cache_lem,
}

-- Entries up to their order.
abbrev pub Bag : Type 0
Bag = Quot (Perm {A = RPeerInfo})

abbrev pub bag : List RPeerInfo → Bag
bag = Quot.mk

abbrev pub bags : PeerCache → List Bag
bags c = map bag c.levels

-- Where an entry goes, by its count: a reliable one stays at the top, or falls with a count of 50; one
-- below rises, stays, or goes.
abbrev pub stays_up : RPeerInfo → Option RPeerInfo
stays_up p = if ltb p.r_count 90 then none else some p

abbrev pub falls : RPeerInfo → Option RPeerInfo
falls p = if ltb p.r_count 90 then some (record p { r_count = 50 }) else none

abbrev pub rises : RPeerInfo → Option RPeerInfo
rises p = if ltb 90 p.r_count then some p else none

abbrev pub stays : RPeerInfo → Option RPeerInfo
stays p = if ltb 90 p.r_count then none else if ltb p.r_count 10 then none else some p

-- The levels behind an update, from the counted entries of the levels 0 and 1.
abbrev pub moved : List RPeerInfo → List RPeerInfo → List Bag
moved a b =
    bag (filter_map stays_up a ++ filter_map rises b)
    ∷ bag (filter_map stays b ++ filter_map falls a)
    ∷ bag []
    ∷ []

one_by_one-demote :
    (xs down : List RPeerInfo)
    → one_by_one demote xs down ≡ (filter_map stays_up xs, down ++ filter_map falls xs)
unfolding one_by_one demote apts filter_map
one_by_one-demote [] down = rw (append-nil down)
one_by_one-demote (x ∷ xs) down =
    let fallen : RPeerInfo = record x { r_count = 50 } in
    ground (
      arith,
      one_by_one-demote xs (down ++ fallen ∷ []),
      one_by_one-demote xs down,
      append_assoc down (fallen ∷ []) (filter_map falls xs),
    )

one_by_one-regrade :
    (xs up down : List RPeerInfo)
    → ((one_by_one regrade xs (up, down)).0 ≡ filter_map stays xs)
      × ((one_by_one regrade xs (up, down)).1.0 ≡ up ++ filter_map rises xs)
unfolding one_by_one regrade apts filter_map
one_by_one-regrade [] up down = (refl, rw (append-nil up))
one_by_one-regrade (x ∷ xs) up down =
    let fallen : RPeerInfo = record x { r_count = 50 } in
    ground (
      arith,
      one_by_one-regrade xs (up ++ x ∷ []) down,
      one_by_one-regrade xs up (down ++ fallen ∷ []),
      one_by_one-regrade xs up down,
      append_assoc up (x ∷ []) (filter_map rises xs),
    )

rises-falls : (a : List RPeerInfo) → filter_map rises (filter_map falls a) ≡ []
unfolding filter_map
rises-falls [] = refl
rises-falls (x ∷ xs) = ground (arith, rises-falls xs)

stays-falls : (a : List RPeerInfo) → filter_map stays (filter_map falls a) ≡ filter_map falls a
unfolding filter_map
stays-falls [] = refl
stays-falls (x ∷ xs) = ground (arith, stays-falls xs)

loop-demote :
    (a b : List RPeerInfo)
    → Perm (loop demote a b).0 (filter_map stays_up a)
      × Perm (loop demote a b).1 (b ++ filter_map falls a)
loop-demote a b =
    let (xs, p, e) = sweep_lem demote a b in
    rw (e, one_by_one-demote xs b)
      (Perm.filter_map stays_up p, Perm.append_left b (Perm.filter_map falls p))

loop-regrade :
    (m up down : List RPeerInfo)
    → Perm (loop regrade m (up, down)).0 (filter_map stays m)
      × Perm (loop regrade m (up, down)).1.0 (up ++ filter_map rises m)
loop-regrade m up down =
    let (xs, p, e) = sweep_lem regrade m (up, down) in
    let (same_stay, same_up) = one_by_one-regrade xs up down in
    rw (e, same_stay, same_up)
      (Perm.filter_map stays p, Perm.append_left up (Perm.filter_map rises p))

-- The passes that move entries, with the sort, do on bags what `moved` says.
bags-moved :
    (w : World) (sorter : Sorter RPeerInfo) (a b c : List RPeerInfo)
    → let d = loop demote a b in
      let r = loop regrade d.1 (d.0, c) in
      bags (cache (sorted w sorter r.1.0) (sorted w sorter r.0) (sorted w sorter [])) ≡ moved a b
bags-moved w sorter a b c =
    let d = loop demote a b in
    let r = loop regrade d.1 (d.0, c) in
    let (top, middle) = loop-demote a b in
    let (stay, up) = loop-regrade d.1 d.0 c in
    let shuffled : (xs : List RPeerInfo) → Perm (sorted w sorter xs) xs =
      λ xs. sorter.sort_slice-perm _ xs in
    let fallen = filter_map falls a in
    let no_rise : filter_map rises (b ++ fallen) ≡ filter_map rises b =
      filter_map-append rises b fallen ∙ rw (rises-falls a) (append-nil _) in
    let all_stay : filter_map stays (b ++ fallen) ≡ filter_map stays b ++ fallen =
      filter_map-append stays b fallen ∙ rw (stays-falls a) in
    let at_0 : Perm (sorted w sorter r.1.0) (filter_map stays_up a ++ filter_map rises b) =
      Perm.trans (shuffled r.1.0)
        (Perm.trans up (Perm.append top (subst (Perm _) no_rise (Perm.filter_map rises middle)))) in
    let at_1 : Perm (sorted w sorter r.0) (filter_map stays b ++ fallen) =
      Perm.trans (shuffled r.0)
        (Perm.trans stay (subst (Perm _) all_stay (Perm.filter_map stays middle))) in
    λ i. Quot.sound at_0 i ∷ Quot.sound at_1 i ∷ Quot.sound (shuffled []) i ∷ []

module _ (w : World) where
  open w use {State}

  -- What one update may do. The entries of each level are pinged one after the other, in some order;
  -- then they stand where their counts take them; and the world is the one behind the last ping.
  pub record Updates (a b c : List RPeerInfo) (rc : RegistryCache) (s : State)
      (r : PeerCache × RegistryCache × State) : Type 0 where
    pub order_0 : List RPeerInfo
    pub order_1 : List RPeerInfo
    pub order_2 : List RPeerInfo
    pub pinged_0 : List RPeerInfo × (RegistryCache × State)
    pub pinged_1 : List RPeerInfo × (RegistryCache × State)
    pub pinged_2 : List RPeerInfo × (RegistryCache × State)
    pub orders_0 : Perm order_0 a
    pub orders_1 : Perm order_1 b
    pub orders_2 : Perm order_2 c
    pub pings_0 : pinged_0 ≡ one_by_one (probe w) order_0 (rc, s)
    pub pings_1 : pinged_1 ≡ one_by_one (probe w) order_1 pinged_0.1
    pub pings_2 : pinged_2 ≡ one_by_one (probe w) order_2 pinged_1.1
    pub levels : bags r.0 ≡ moved pinged_0.0 pinged_1.0
    pub outside : (r.1, r.2) ≡ pinged_2.1

  -- An update of three levels does the same to the bags of their entries, whatever sort.Slice makes of
  -- entries that compare alike: every entry is pinged exactly once, level by level; of those that are
  -- left, one of level 0 stays with a count of 90 or more, and else falls to level 1 with a count of 50;
  -- one of level 1 rises with a count above 90, goes with one below 10, and else stays; and level 2 is
  -- empty, whatever it held.
  pub update_cache-Updates :
      (sorter : Sorter RPeerInfo) (a b c : List RPeerInfo) (rc : RegistryCache) (s : State)
      → Updates a b c rc s (update_cache w sorter (cache a b c) rc s)
  update_cache-Updates sorter a b c rc s =
      let e0 = counted_0 w sorter a b c rc s in
      let e1 = counted_1 w sorter a b c rc s in
      let e2 = counted_2 w sorter a b c rc s in
      let (xs, p, e) = sweep_lem (probe w) a (rc, s) in
      let (ys, q, f) = sweep_lem (probe w) b e0.1 in
      let (zs, r, g) = sweep_lem (probe w) c e1.1 in
      record {
        order_0 = xs;
        order_1 = ys;
        order_2 = zs;
        pinged_0 = e0;
        pinged_1 = e1;
        pinged_2 = e2;
        orders_0 = p;
        orders_1 = q;
        orders_2 = r;
        pings_0 = e;
        pings_1 = f;
        pings_2 = g;
        levels = rw update_cache_lem (bags-moved w sorter e0.0 e1.0 e2.0);
        outside = rw update_cache_lem;
      }
