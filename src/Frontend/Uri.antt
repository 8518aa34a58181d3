-- ===== src/Frontend/Uri.antt =====
-- splitURIPath of l4-proxy/l4-proxy.go takes apart the paths that the clients join.
use go_code_goes_here.Prelude.{
  ℕ, ◌≡◌, ◌≢◌, refl, ap, sym, ◌∙◌, Bytes, codes, List, [], ◌∷◌, ◌++◌, same, join, split,
  trim_prefix, trim_suffix, Lacks, All, split-join, join-last, trim_suffix-append, trim_suffix-keep,
}
use go_code_goes_here.Frontend.{slash, no_empty_front, split_uri_path}

trimmed-join :
    (c : ℕ) (p : Bytes) (ps : List Bytes)
    → All (Lacks slash) ((c ∷ p) ∷ ps)
    → no_empty_front (split (join ((c ∷ p) ∷ ps) (codes "/")) slash) ≡ (c ∷ p) ∷ ps
unfolding same
trimmed-join c p ps h = rw (split-join (c ∷ p) ps slash h) refl

-- The components of a path come back, where none holds a slash, and the first one is not empty; the path
-- ends with a slash.
pub split_uri_path-join-slash :
    (c : ℕ) (p : Bytes) (ps : List Bytes)
    → All (Lacks slash) ((c ∷ p) ∷ ps)
    → split_uri_path (codes "/" ++ (join ((c ∷ p) ∷ ps) (codes "/") ++ codes "/")) ≡ (c ∷ p) ∷ ps
unfolding split_uri_path trim_prefix
split_uri_path-join-slash c p ps h =
    ap (λ t. no_empty_front (split t slash))
      (trim_suffix-append (join ((c ∷ p) ∷ ps) (codes "/")) slash)
    ∙ trimmed-join c p ps h

-- A path of components with slashes between them, one before the first and none behind the last, is
-- split into these components, where no component holds a slash, and the first and the last are not
-- empty.
pub split_uri_path-join :
    (c : ℕ) (p : Bytes) (ps : List Bytes) (ls : List Bytes) (l : Bytes) (d : ℕ)
    → All (Lacks slash) ((c ∷ p) ∷ ps)
    → (c ∷ p) ∷ ps ≡ ls ++ (l ++ d ∷ []) ∷ []
    → d ≢ slash
    → split_uri_path (codes "/" ++ join ((c ∷ p) ∷ ps) (codes "/")) ≡ (c ∷ p) ∷ ps
unfolding split_uri_path trim_prefix
split_uri_path-join c p ps ls l d h e n =
    let (x, q) = join-last ls l d (codes "/") in
    let whole : join ((c ∷ p) ∷ ps) (codes "/") ≡ x ++ d ∷ [] =
      ap (λ t. join t (codes "/")) e ∙ q in
    let kept : trim_suffix (join ((c ∷ p) ∷ ps) (codes "/")) slash
        ≡ join ((c ∷ p) ∷ ps) (codes "/") =
      ap (λ t. trim_suffix t slash) whole ∙ trim_suffix-keep x d slash n ∙ sym whole in
    ap (λ t. no_empty_front (split t slash)) kept ∙ trimmed-join c p ps h
