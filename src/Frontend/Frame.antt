-- ===== src/Frontend/Frame.antt =====
-- Chains do not share a listener: the keys of serv2Fwd in l4-proxy/l4-proxy.go.
use go_code_goes_here.Prelude.{
  ◌≡◌, ◌≢◌, refl, ap, sym, ◌∙◌, arith, Bytes, codes, false, List, ◌∷◌, ◌++◌, Option-cases, inl, inr,
  same, same-ne, lookup, lookup-store, join, split, split-join, Lacks, All,
}
use go_code_goes_here.World.{Result-cases}
use go_code_goes_here.Frontend.{slash, tcp_worker, Forwarders, Ports, open_tcp_proxy}

abbrev pub HasNoSlash : List Bytes → Type 0
HasNoSlash = All (Lacks slash)

keys_differ :
    (p : Bytes) (ps : List Bytes) (q : Bytes) (qs : List Bytes)
    → HasNoSlash (p ∷ ps)
    → HasNoSlash (q ∷ qs)
    → (p ∷ ps) ≢ (q ∷ qs)
    → same (join (p ∷ ps) (codes "/")) (join (q ∷ qs) (codes "/")) ≡ false
keys_differ p ps q qs h k n =
    same-ne _ _
      (λ e. n (sym (split-join p ps slash h) ∙ ap (λ t. split t slash) e ∙ split-join q qs slash k))

module _ (ports : Ports) (ctrl_host : Bytes) where
  open ports use {State, listen_tcp, resolve_udp, listen_udp}

  -- Opening a TCP listener for a chain leaves the entry of every other chain, where no component of
  -- either holds a slash.
  pub open_tcp_proxy_frame :
      (p : Bytes) (ps : List Bytes) (q : Bytes) (qs : List Bytes) (fwds : Forwarders) (s : State)
      → HasNoSlash (p ∷ ps)
      → HasNoSlash (q ∷ qs)
      → (p ∷ ps) ≢ (q ∷ qs)
      → lookup (join (q ∷ qs) (codes "/")) (open_tcp_proxy ports ctrl_host (p ∷ ps) fwds s).2
        ≡ lookup (join (q ∷ qs) (codes "/")) fwds
  unfolding open_tcp_proxy
  open_tcp_proxy_frame p ps q qs fwds s h k n =
      let key = join (p ∷ ps) (codes "/") in
      let other = join (q ∷ qs) (codes "/") in
      let (r, s') = listen_tcp (ctrl_host ++ codes ":") s in
      elim (Option-cases (lookup key fwds)) [
        | inr (f, e) ↦ rw (e, open_tcp_proxy) refl
        | inl e ↦ elim (Result-cases r) [
          | inr (f, g) ↦ rw (e, g, open_tcp_proxy) refl
          | inl (addr, g) ↦
              rw (e, g, open_tcp_proxy)
                (ground (
                  arith,
                  lookup-store key other (record { listen_addr = addr; worker = tcp_worker }) fwds,
                  keys_differ p ps q qs h k n,
                ))
        ]
      ]
