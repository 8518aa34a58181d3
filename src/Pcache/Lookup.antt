-- ===== src/Pcache/Lookup.antt =====
-- AddPeer, GetPeer and RemovePeer of pcache/pcache.go against the plain list of entries.
use go_code_goes_here.Prelude.{
  ◌≡◌, refl, ap, Bytes, true, false, List, [], ◌∷◌, ◌++◌, Option, none, some, arith, same,
  if◌then◌else◌, All, inl, inr, Bool-cases,
}
use go_code_goes_here.World.{PeerInfo, Result, ok, err, no_suitable_peer}
use go_code_goes_here.Pcache.{RPeerInfo, add_peer, get_peer, first_match}
use go_code_goes_here.Pcache.Shape.{cache}

abbrev pub Offers : Bytes → RPeerInfo → Type 0
Offers hash p = same p.info.serv_hash hash ≡ true

abbrev pub OffersOther : Bytes → RPeerInfo → Type 0
OffersOther hash p = same p.info.serv_hash hash ≡ false

-- A search of a list of entries for a service: the first entry that offers it, if there is one.
pub data Finds (hash : Bytes) (xs : List RPeerInfo) (r : Result Bytes) : Type 0 where
  absent : All (OffersOther hash) xs → r ≡ err no_suitable_peer → Finds hash xs r
  present :
      (pre : List RPeerInfo) (p : RPeerInfo) (post : List RPeerInfo)
      → xs ≡ pre ++ p ∷ post
      → All (OffersOther hash) pre
      → Offers hash p
      → r ≡ ok p.info.id
      → Finds hash xs r

abbrev found : Option Bytes → Result Bytes
found none = err no_suitable_peer
found (some id) = ok id

first_match-Finds :
    (hash : Bytes) (xs : List RPeerInfo) → Finds hash xs (found (first_match hash xs))
unfolding first_match
first_match-Finds hash [] = absent tt refl
first_match-Finds hash (x ∷ xs) = elim (Bool-cases (same x.info.serv_hash hash)) [
  | inl e ↦ present [] x xs refl tt e (rw (e, first_match))
  | inr e ↦ rw (e, first_match) (behind x e (first_match-Finds hash xs))
]
  where
    behind :
        (x : RPeerInfo)
        → OffersOther hash x
        → {r : Result Bytes} → Finds hash xs r
        → Finds hash (x ∷ xs) r
    behind x e (absent h q) = absent (e, h) q
    behind x e (present pre p post s h o q) =
        present (x ∷ pre) p post (ap (λ t. x ∷ t) s) (e, h) o q

first_match-append :
    (hash : Bytes) (xs ys : List RPeerInfo)
    → first_match hash (xs ++ ys)
      ≡ elim (first_match hash xs) [ none ↦ first_match hash ys | some id ↦ some id ]
unfolding first_match
first_match-append hash [] ys = refl
first_match-append hash (x ∷ xs) ys = ground (arith, first_match-append hash xs ys)

get_peer_lem :
    (hash : Bytes) (a b c : List RPeerInfo)
    → get_peer hash (cache a b c) ≡ found (first_match hash (a ++ b))
unfolding get_peer
get_peer_lem hash a b c = ground (arith, first_match-append hash a b)

-- GetPeer returns the first entry for the service in level 0 followed by level 1, and an error exactly
-- when neither has one; the last level is not looked at.
pub get_peer-Finds :
    (hash : Bytes) (a b c : List RPeerInfo) → Finds hash (a ++ b) (get_peer hash (cache a b c))
get_peer-Finds hash a b c = rw get_peer_lem (first_match-Finds hash (a ++ b))

-- A peer that was added is what GetPeer returns for its service, unless the service had one before;
-- for every other service GetPeer returns what it did.
pub get_peer-add_peer :
    (hash : Bytes) (p : PeerInfo) (a b c : List RPeerInfo)
    → get_peer hash (add_peer p (cache a b c)) ≡ elim (get_peer hash (cache a b c)) [
      | ok id ↦ ok id
      | err e ↦ if same p.serv_hash hash then ok p.id else err e
    ]
unfolding add_peer first_match
get_peer-add_peer hash p a b c =
    let added : List RPeerInfo = record { r_count = 50; info = p } ∷ [] in
    ground (
      arith,
      get_peer_lem hash a (b ++ added) c,
      get_peer_lem hash a b c,
      first_match-append hash a (b ++ added),
      first_match-append hash a b,
      first_match-append hash b added,
    )
