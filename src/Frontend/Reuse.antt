-- ===== src/Frontend/Reuse.antt =====
-- One listener for each chain: what a second request for a chain gets from requestHandler of
-- l4-proxy/l4-proxy.go.
use go_code_goes_here.Prelude.{
  ℕ, ◌≡◌, ◌≢◌, refl, ap, sym, arith, Bytes, codes, false, Bool-cases, List, [], ◌∷◌, ◌++◌, some,
  Option-cases, same, same_refl, lookup, lookup-store, join, inl, inr, ◌⊎◌, subst, ◌==◌,
}
use go_code_goes_here.World.{Result-cases, ok, err}
use go_code_goes_here.Frontend.{
  Worker, Forwarder, Forwarders, Ports, Served, Reply, Opened, enter, open_tcp_proxy,
  open_udp_proxy, Handled, answer, serve_chain, request_handler, split_uri_path,
}

module _ (ports : Ports) (ctrl_host : Bytes) where
  open ports use {State, listen_tcp, resolve_udp, listen_udp}

  -- The chain's key stands in the map with an address.
  abbrev Stands : List Bytes → Forwarders → Bytes → Type 0
  Stands spec fwds addr =
      (f : Forwarder) × (lookup (join spec (codes "/")) fwds ≡ some f) × (f.listen_addr ≡ addr)

  entered-Stands :
      (worker : Worker) (spec : List Bytes) (addr : Bytes) (fwds : Forwarders) (s : State)
      → Stands spec (enter ports ctrl_host worker spec addr fwds s).2 addr
  entered-Stands worker spec addr fwds s =
      let key = join spec (codes "/") in
      let f : Forwarder = record { listen_addr = addr; worker = worker } in
      (f, ground (arith, lookup-store key key f fwds, same_refl key), refl)

  -- What openTCPProxy and openUDPProxy do: where they succeed the key stands in the map with the
  -- address, and where they fail they leave the map and start nothing.
  abbrev Keeps : List Bytes → Forwarders → Opened ports ctrl_host → Type 0
  Keeps spec fwds (ok addr, started, fwds', s) = Stands spec fwds' addr
  Keeps spec fwds (err e, started, fwds', s) = (started ≡ []) × (fwds' ≡ fwds)

  open_tcp_proxy-Keeps :
      (spec : List Bytes) (fwds : Forwarders) (s : State)
      → Keeps spec fwds (open_tcp_proxy ports ctrl_host spec fwds s)
  unfolding open_tcp_proxy
  open_tcp_proxy-Keeps spec fwds s = elim (Option-cases (lookup (join spec (codes "/")) fwds)) [
    | inr (f, e) ↦ rw (e, open_tcp_proxy) (f, e, refl)
    | inl n ↦
        let (r, s') = listen_tcp (ctrl_host ++ codes ":") s in
        elim (Result-cases r) [
          | inl (addr, q) ↦ rw (n, q, open_tcp_proxy) (entered-Stands _ spec addr fwds s')
          | inr (f, q) ↦ rw (n, q, open_tcp_proxy) (refl, refl)
        ]
  ]

  open_udp_proxy-Keeps :
      (spec : List Bytes) (fwds : Forwarders) (s : State)
      → Keeps spec fwds (open_udp_proxy ports ctrl_host spec fwds s)
  unfolding open_udp_proxy
  open_udp_proxy-Keeps spec fwds s = elim (Option-cases (lookup (join spec (codes "/")) fwds)) [
    | inr (f, e) ↦ rw (e, open_udp_proxy) (f, e, refl)
    | inl n ↦
        let (u, s1) = resolve_udp (ctrl_host ++ codes ":") s in
        elim (Result-cases u) [
          | inr (f, q) ↦ rw (n, q, open_udp_proxy) (refl, refl)
          | inl (a, q) ↦
              let (r, s2) = listen_udp a s1 in
              elim (Result-cases r) [
                | inl (addr, k) ↦ rw (n, q, k, open_udp_proxy) (entered-Stands _ spec addr fwds s2)
                | inr (f, k) ↦ rw (n, q, k, open_udp_proxy) (refl, refl)
              ]
        ]
  ]

  -- A chain that has a listener keeps it: once openTCPProxy has returned an address for a chain, a call
  -- for the same chain on the map that it left returns the same address, and opens and starts nothing.
  pub open_tcp_proxy_again :
      (spec : List Bytes) (fwds : Forwarders) (s : State) (addr : Bytes) (started : List Served)
      (fwds' : Forwarders) (s' s2 : State)
      → open_tcp_proxy ports ctrl_host spec fwds s ≡ (ok addr, started, fwds', s')
      → open_tcp_proxy ports ctrl_host spec fwds' s2 ≡ (ok addr, [], fwds', s2)
  unfolding open_tcp_proxy
  open_tcp_proxy_again spec fwds s addr started fwds' s' s2 h =
      let (f, e, same_addr) : Stands spec fwds' addr =
        subst (Keeps spec fwds) h (open_tcp_proxy-Keeps spec fwds s) in
      rw (e, open_tcp_proxy) (ap (λ a. (ok a, [], fwds', s2)) same_addr)

  -- The same of openUDPProxy.
  pub open_udp_proxy_again :
      (spec : List Bytes) (fwds : Forwarders) (s : State) (addr : Bytes) (started : List Served)
      (fwds' : Forwarders) (s' s2 : State)
      → open_udp_proxy ports ctrl_host spec fwds s ≡ (ok addr, started, fwds', s')
      → open_udp_proxy ports ctrl_host spec fwds' s2 ≡ (ok addr, [], fwds', s2)
  unfolding open_udp_proxy
  open_udp_proxy_again spec fwds s addr started fwds' s' s2 h =
      let (f, e, same_addr) : Stands spec fwds' addr =
        subst (Keeps spec fwds) h (open_udp_proxy-Keeps spec fwds s) in
      rw (e, open_udp_proxy) (ap (λ a. (ok a, [], fwds', s2)) same_addr)

  -- What a request leaves: an answer that is no success leaves the map and starts nothing, and after a
  -- success the same path gets the same answer on the map that is left, and nothing more is done.
  abbrev pub IsSettled : List Bytes → Forwarders → Handled ports ctrl_host → Type 0
  IsSettled parts fwds (reply, started, fwds', s) =
      ((reply.status ≢ 200) × (started ≡ []) × (fwds' ≡ fwds))
      ⊎ ((reply.status ≡ 200)
          × ((s2 : State) → serve_chain ports ctrl_host parts fwds' s2 ≡ (reply, [], fwds', s2)))

  is_not_success : (n : ℕ) → (n == 200) ≡ false → n ≢ 200
  is_not_success n h e = ground arith

  answered_again :
      (open_proxy : Forwarders → State → Opened ports ctrl_host)
      (again : (fwds : Forwarders) (s : State) (addr : Bytes) (started : List Served)
          (fwds' : Forwarders) (s' s2 : State)
        → open_proxy fwds s ≡ (ok addr, started, fwds', s')
        → open_proxy fwds' s2 ≡ (ok addr, [], fwds', s2))
      (fwds : Forwarders) (s : State) (reply : Reply) (started : List Served) (fwds' : Forwarders)
      (s' s2 : State) (o : Opened ports ctrl_host)
      → open_proxy fwds s ≡ o
      → answer ports ctrl_host o ≡ (reply, started, fwds', s')
      → reply.status ≡ 200
      → answer ports ctrl_host (open_proxy fwds' s2) ≡ (reply, [], fwds', s2)
  answered_again open_proxy again fwds s reply started fwds' s' s2 (ok addr, st, f, t) q h
        ok_status =
      let stays : f ≡ fwds' = ap (λ (x : Handled ports ctrl_host). x.2) h in
      let same_reply : record { status = 200; text = addr ++ codes "\n" } ≡ reply =
        ap (λ (x : Handled ports ctrl_host). x.0) h in
      rw (sym stays, sym same_reply) (ap (answer ports ctrl_host) (again fwds s addr st f t s2 q))
  answered_again open_proxy again fwds s reply started fwds' s' s2 (err e, st, f, t) q h ok_status =
      let same_status : 500 ≡ reply.status = ap (λ (x : Handled ports ctrl_host). x.0.status) h in
      absurd (omega (arith, same_status, ok_status))

  serve_chain_again :
      (parts : List Bytes) (fwds : Forwarders) (s : State) (reply : Reply) (started : List Served)
      (fwds' : Forwarders) (s' s2 : State)
      → serve_chain ports ctrl_host parts fwds s ≡ (reply, started, fwds', s')
      → reply.status ≡ 200
      → serve_chain ports ctrl_host parts fwds' s2 ≡ (reply, [], fwds', s2)
  unfolding serve_chain
  serve_chain_again [] fwds s reply started fwds' s' s2 h k =
      absurd (omega (arith, ap (λ (x : Handled ports ctrl_host). x.0.status) h, k))
  serve_chain_again (p ∷ []) fwds s reply started fwds' s' s2 h k =
      absurd (omega (arith, ap (λ (x : Handled ports ctrl_host). x.0.status) h, k))
  serve_chain_again (p ∷ serv ∷ rest) fwds s reply started fwds' s' s2 h k =
      let spec = p ∷ serv ∷ rest in
      elim (Bool-cases (same p (codes "tcp"))) [
        | inl e ↦
            rw (e, serve_chain)
              (answered_again (open_tcp_proxy ports ctrl_host spec) (open_tcp_proxy_again spec) fwds
                s reply started fwds' s' s2 _ refl (rw (e, serve_chain) at h) k)
        | inr e ↦ elim (Bool-cases (same p (codes "udp"))) [
          | inl e' ↦
              rw (e, e', serve_chain)
                (answered_again (open_udp_proxy ports ctrl_host spec) (open_udp_proxy_again spec)
                  fwds s reply started fwds' s' s2 _ refl (rw (e, e', serve_chain) at h) k)
          | inr e' ↦ absurd (
              omega (
                arith,
                ap (λ (x : Handled ports ctrl_host). x.0.status) (rw (e, e', serve_chain) at h),
                k,
              ))
        ]
      ]

  -- Where requestHandler has answered a request with a listener's address, the same request on the map
  -- that it left gets the same answer, and opens and starts nothing.
  pub request_handler_again :
      (raw_query path : Bytes) (fwds : Forwarders) (s : State) (reply : Reply)
      (started : List Served) (fwds' : Forwarders) (s' s2 : State)
      → request_handler ports ctrl_host raw_query path fwds s ≡ (reply, started, fwds', s')
      → reply.status ≡ 200
      → request_handler ports ctrl_host raw_query path fwds' s2 ≡ (reply, [], fwds', s2)
  unfolding request_handler
  request_handler_again raw_query path fwds s reply started fwds' s' s2 h k =
      elim (Bool-cases (same raw_query [])) [
        | inl e ↦
            rw (e, request_handler)
              (serve_chain_again (split_uri_path path) fwds s reply started fwds' s' s2
                (rw (e, request_handler) at h) k)
        | inr e ↦ absurd (
            omega (
              arith,
              ap (λ (x : Handled ports ctrl_host). x.0.status) (rw (e, request_handler) at h),
              k,
            ))
      ]
