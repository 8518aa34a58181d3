-- ===== src/Lca/Fleet/Apart.antt =====
-- The map of the allocator in lca/lca-allocator.go, in which no two entries share a container.
use go_code_goes_here.Prelude.{
  ◌≡◌, arith, Bytes, Bool, true, false, not, ◌||◌, ◌∷◌, same, same_iff, same_refl, All, All-map,
  All-map2, All-delete, store, delete,
}
use go_code_goes_here.Lca.Allocator.{Services}

-- Two entries of the map of the same container are the same entry.
abbrev pub apart : Bytes × Bytes → Bytes × Bytes → Bool
apart a b = not (same a.1 b.1) || same a.0 b.0

abbrev pub ApartFrom : Bytes × Bytes → Services → Type 0
ApartFrom a = All (λ b. apart a b ≡ true)

abbrev pub IsApart : Services → Type 0
IsApart services = All (λ a. ApartFrom a services) services

-- A container that no entry of the map is of.
abbrev pub IsNew : Bytes → Services → Type 0
IsNew cid = All (λ e. same cid e.1 ≡ false)

pub IsApart-delete :
    (k : Bytes) (services : Services) → IsApart services → IsApart (delete k services)
IsApart-delete k services h =
    All-map {P = λ a. ApartFrom a services} {Q = λ a. ApartFrom a (delete k services)}
      (λ a i. All-delete (λ b. apart a b ≡ true) k services i) (delete k services)
      (All-delete (λ a. ApartFrom a services) k services h)

pub IsApart-store :
    (port cid : Bytes) (services : Services)
    → IsNew cid services
    → IsApart services
    → IsApart (store port cid services)
unfolding store
IsApart-store port cid services new h =
    let d = delete port services in
    let new' = All-delete (λ e. same cid e.1 ≡ false) port services new in
    let own : apart (port, cid) (port, cid) ≡ true = ground (arith, same_refl port) in
    let to_new : ApartFrom (port, cid) d =
      All-map {P = λ e. same cid e.1 ≡ false} {Q = λ b. apart (port, cid) b ≡ true}
        (λ b n. ground (arith, n)) d new' in
    (
      (own, to_new),
      All-map2 {P = λ e. same cid e.1 ≡ false} {Q = λ a. ApartFrom a d}
          {R = λ a. ApartFrom a ((port, cid) ∷ d)}
          (λ a n i. (ground (arith, n, same_iff cid a.1, same_iff a.1 cid), i)) d new'
          (IsApart-delete port services h),
    )
