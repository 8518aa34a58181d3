-- ===== src/Pcache/Removal.antt =====
-- RemovePeer of pcache/pcache.go: which entry goes, and what stays as it was.
use go_code_goes_here.Prelude.{
  ℕ, zero, suc, ◌+◌, ◌<◌, ◌≡◌, refl, ap, ◌∙◌, Bytes, true, false, List, [], ◌∷◌, ◌++◌, Option, none,
  some, arith, same, length, take, All, ◌⊎◌, inl, inr, Bool-cases,
}
use go_code_goes_here.Pcache.Slices.{rpfs, rpfs-append, bring_last}
use go_code_goes_here.Pcache.{RPeerInfo, PeerCache, remove_peer, index_of}
use go_code_goes_here.Pcache.Shape.{cache}

abbrev pub IsOther : Bytes → RPeerInfo → Type 0
IsOther id p = same id p.info.id ≡ false

-- The peer's first entry, among the first `n` of a level, behind entries of other peers.
pub record Holds (id : Bytes) (n : ℕ) (xs : List RPeerInfo) : Type 0 where
  pub pre : List RPeerInfo
  pub entry : RPeerInfo
  pub post : List RPeerInfo
  pub splits : xs ≡ pre ++ entry ∷ post
  pub within : length pre < n
  pub others : All (IsOther id) pre
  pub is_peer : same id entry.info.id ≡ true

abbrev pub Misses : Bytes → ℕ → List RPeerInfo → Type 0
Misses id n xs = All (IsOther id) (take n xs)

-- What the scan of a level finds.
data Scan (id : Bytes) (n : ℕ) (i : ℕ) (xs : List RPeerInfo) (r : Option ℕ) : Type 0 where
  missed : Misses id n xs → r ≡ none → Scan id n i xs r
  held : (h : Holds id n xs) → r ≡ some (length h.pre + i) → Scan id n i xs r

cons_Scan :
    (id : Bytes) (n i : ℕ) (x : RPeerInfo) (xs : List RPeerInfo) (r : Option ℕ)
    → IsOther id x
    → Scan id n (i + 1) xs r
    → Scan id (suc n) i (x ∷ xs) r
cons_Scan id n i x xs r e (missed m q) = missed (e, m) q
cons_Scan id n i x xs r e (held h q) =
    held
      (record {
        pre = x ∷ h.pre;
        entry = h.entry;
        post = h.post;
        splits = ap (λ t. x ∷ t) h.splits;
        within = omega arith;
        others = (e, h.others);
        is_peer = h.is_peer;
      })
      (q ∙ ap some (omega arith))

-- With `n` entries left to look at.
index_of-Scan :
    (id : Bytes) (rmax n i count : ℕ) (xs : List RPeerInfo)
    → count + n ≡ rmax
    → Scan id n i xs (index_of id rmax count i xs)
unfolding index_of
index_of-Scan id rmax zero i count [] h = missed tt refl
index_of-Scan id rmax (suc n) i count [] h = missed tt refl
index_of-Scan id rmax zero i count (x ∷ xs) h = missed tt (ground arith)
index_of-Scan id rmax (suc n) i count (x ∷ xs) h = elim (Bool-cases (same id x.info.id)) [
  | inl e ↦
      held
        (record {
          pre = [];
          entry = x;
          post = xs;
          splits = refl;
          within = omega arith;
          others = tt;
          is_peer = e;
        })
        (ground arith)
  | inr e ↦
      let rest = index_of-Scan id rmax n (i + 1) (count + 1) xs (omega arith) in
      let step : index_of id rmax count i (x ∷ xs) ≡ index_of id rmax (count + 1) (i + 1) xs =
        ground arith in
      rw step (cons_Scan id n i x xs _ e rest)
]

-- What RemovePeer does: of the first rmax entries of level 0, then of level 1, the first one of the
-- peer goes, and the last entry of that level takes its place.
pub data Removes (id : Bytes) (a b c : List RPeerInfo) (r : PeerCache) : Type 0 where
  from_top : (h : Holds id 3 a) → r ≡ cache (h.pre ++ bring_last h.post) b c → Removes id a b c r
  from_next :
      Misses id 3 a
      → (h : Holds id 3 b) → r ≡ cache a (h.pre ++ bring_last h.post) c
      → Removes id a b c r
  not_found : Misses id 3 a → Misses id 3 b → r ≡ cache a b c → Removes id a b c r

rpfs-Holds :
    (id : Bytes) (n : ℕ) (xs : List RPeerInfo) (h : Holds id n xs)
    → rpfs xs (length h.pre) ≡ h.pre ++ bring_last h.post
rpfs-Holds id n xs h = rw h.splits (rpfs-append h.pre h.entry h.post)

scan_level :
    (id : Bytes) (xs : List RPeerInfo)
    → Misses id 3 xs × (index_of id 3 0 0 xs ≡ none)
      ⊎ ((h : Holds id 3 xs) × (index_of id 3 0 0 xs ≡ some (length h.pre)))
scan_level id xs = go (index_of-Scan id 3 3 0 0 xs (omega arith))
  where
    go :
        {r : Option ℕ}
        → Scan id 3 0 xs r
        → Misses id 3 xs × (r ≡ none) ⊎ ((h : Holds id 3 xs) × (r ≡ some (length h.pre)))
    go (missed m q) = inl (m, q)
    go (held h q) = inr (h, q ∙ ap some (omega arith))

-- RemovePeer removes at most one entry: the first one of the peer among the first three of level 0,
-- or if there is none, among the first three of level 1; everything else stays, level 2 always.
pub remove_peer-Removes :
    (id : Bytes) (a b c : List RPeerInfo) → Removes id a b c (remove_peer id (cache a b c))
unfolding remove_peer
remove_peer-Removes id a b c = elim (scan_level id a) [
  | inr (h, e) ↦ from_top h (rw (e, remove_peer) (rw (rpfs-Holds id 3 a h)))
  | inl (m, e) ↦ elim (scan_level id b) [
    | inr (h, e') ↦ from_next m h (ground (arith, rpfs-Holds id 3 b h))
    | inl (m', e') ↦ not_found m m' (ground arith)
  ]
]
