-- ===== src/Boot/Modes.antt =====
-- What main of proxy/proxy.go and of l4-proxy/l4-proxy.go make of their positional arguments, with the
-- manager that NewLCAManager of lca/lca-manager.go gives them.
use go_code_goes_here.Prelude.{
  ◌≡◌, refl, subst, inl, inr, Bytes, codes, List, [], ◌∷◌, ◌++◌, Option, none, some, arith,
}
use go_code_goes_here.Lca.Config.{NodeConfig}
use go_code_goes_here.Lca.Manager.{LcaManager}
use go_code_goes_here.Lca.Membership.Hash.{
  Represents, new_lca_manager-Represents, Represents-nothing,
}
use go_code_goes_here.Boot.Exits.{
  Started, starting, exiting, >>=-Started, then-Started, settle-Started,
}
use go_code_goes_here.Boot.Peers.{take_flags_lem}
use go_code_goes_here.Boot.Host.{
  Os, Flags, Position, ProxyProgram, alone, serving, anonymous, service_mode, Mode-cases, ctrl_host,
  proxy_position, l4_position,
}
use go_code_goes_here.Boot.{
  take_position, prepare, member, start_manager, run_proxy, serve_metrics, proxy_main, l4_main,
}

-- An HTTP proxy, by its arguments.
pub data FitsProxy (os : Os) (args : List Bytes) (p : ProxyProgram) : Type 0 where
  without_service :
      (port : Bytes)
      → args ≡ port ∷ []
      → p.endpoint ≡ ctrl_host ++ codes ":" ++ port
      → p.manager.p2p_hash ≡ []
      → p.metrics_endpoint ≡ none
      → FitsProxy os args p
  with_service :
      (port service address metrics_port : Bytes)
      → args ≡ port ∷ service ∷ address ∷ metrics_port ∷ []
      → p.endpoint ≡ ctrl_host ++ codes ":" ++ port
      → Represents (member os) service p.manager.p2p_hash
      → p.metrics_endpoint ≡ some (ctrl_host ++ codes ":" ++ metrics_port)
      → FitsProxy os args p

-- A chain proxy, by its arguments: its node sets up chains.
pub data FitsChain (os : Os) (args : List Bytes) (p : ProxyProgram) : Type 0 where
  without_service :
      (port : Bytes)
      → args ≡ port ∷ []
      → p.endpoint ≡ ctrl_host ++ codes ":" ++ port
      → p.manager.p2p_hash ≡ []
      → FitsChain os args p
  with_service :
      (port service address : Bytes)
      → args ≡ port ∷ service ∷ address ∷ []
      → p.endpoint ≡ ctrl_host ++ codes ":" ++ port
      → Represents (member os) service p.manager.p2p_hash
      → FitsChain os args p

-- The manager of a proxy at its position.
data Manages (os : Os) (position : Position) (manager : LcaManager) : Type 0 where
  no_one : position.mode ≡ anonymous → manager.p2p_hash ≡ [] → Manages os position manager
  someone :
      position.mode ≡ service_mode
      → Represents (member os) position.service manager.p2p_hash
      → Manages os position manager

module _ (os : Os) where
  open os use {State}

  Manages-anonymous :
      (position : Position) (m : LcaManager)
      → position.mode ≡ anonymous
      → Manages os position m
      → m.p2p_hash ≡ []
  Manages-anonymous position m e (no_one e' h) = h
  Manages-anonymous position m e (someone e' h) = absurd (ground (arith, e, e'))

  Manages-service :
      (position : Position) (m : LcaManager)
      → position.mode ≡ service_mode
      → Manages os position m
      → Represents (member os) position.service m.p2p_hash
  Manages-service position m e (no_one e' h) = absurd (ground (arith, e, e'))
  Manages-service position m e (someone e' h) = h

  start_manager-Manages :
      (position : Position) (config : NodeConfig) (s : State)
      → Started (Manages os position) (start_manager os position config s)
  unfolding start_manager
  start_manager-Manages position config s = elim (Mode-cases position.mode) [
    | inl e ↦ rw e (
        settle-Started _ _ (λ m h. no_one refl (
          Represents-nothing (member os) m.p2p_hash
            (new_lca_manager-Represents (member os) config [] [] s m h))))
    | inr e ↦ rw e (
        settle-Started _ _ (λ m h.
          someone refl (
            new_lca_manager-Represents (member os) config position.service position.address s m h)))
  ]

  abbrev AsProxy : List Bytes → Position → Flags → NodeConfig → LcaManager → State → Type 0
  AsProxy args q f c m s =
      Manages os q m → Started (FitsProxy os args) (serve_metrics os (run_proxy os q f c m) s)

  abbrev AsChain : List Bytes → Position → Flags → NodeConfig → LcaManager → Type 0
  AsChain args q f c m = Manages os q m → FitsChain os args (run_proxy os q f c m)

  -- What a proxy is, by the arguments behind its position.
  proxy_fits :
      (args : List Bytes) (position : Position) (f : Flags) (c : NodeConfig) (m : LcaManager)
      (s : State)
      → proxy_position args ≡ some position
      → Manages os position m
      → Started (FitsProxy os args) (serve_metrics os (run_proxy os position f c m) s)
  unfolding proxy_position serve_metrics run_proxy
  proxy_fits [] position f c m s n h = absurd (ground (arith, n))
  proxy_fits (port ∷ []) position f c m s n h =
      let e : alone port ≡ position = cc in
      subst (λ q. AsProxy (port ∷ []) q f c m s) e
        (λ h.
          starting (without_service port refl refl (Manages-anonymous (alone port) m refl h) refl))
        h
  proxy_fits (port ∷ service ∷ []) position f c m s n h = absurd (ground (arith, n))
  proxy_fits (port ∷ service ∷ address ∷ []) position f c m s n h = absurd (ground (arith, n))
  proxy_fits (port ∷ service ∷ address ∷ metrics_port ∷ []) position f c m s n h =
      let p = serving port service address metrics_port in
      let e : p ≡ position = cc in
      subst (λ q. AsProxy (port ∷ service ∷ address ∷ metrics_port ∷ []) q f c m s) e
        (λ h. starting (
          with_service port service address metrics_port refl refl (Manages-service p m refl h)
            refl))
        h
  proxy_fits (port ∷ service ∷ address ∷ metrics_port ∷ x ∷ xs) position f c m s n h =
      absurd (ground (arith, n))

  chain_fits :
      (args : List Bytes) (position : Position) (f : Flags) (c : NodeConfig) (m : LcaManager)
      → l4_position args ≡ some position
      → Manages os position m
      → FitsChain os args (run_proxy os position f c m)
  unfolding l4_position run_proxy
  chain_fits [] position f c m n h = absurd (ground (arith, n))
  chain_fits (port ∷ []) position f c m n h =
      let e : alone port ≡ position = cc in
      subst (λ q. AsChain (port ∷ []) q f c m) e
        (λ h. without_service port refl refl (Manages-anonymous (alone port) m refl h)) h
  chain_fits (port ∷ service ∷ []) position f c m n h = absurd (ground (arith, n))
  chain_fits (port ∷ service ∷ address ∷ []) position f c m n h =
      let p = serving port service address [] in
      let e : p ≡ position = cc in
      subst (λ q. AsChain (port ∷ service ∷ address ∷ []) q f c m) e
        (λ h. with_service port service address refl refl (Manages-service p m refl h)) h
  chain_fits (port ∷ service ∷ address ∷ x ∷ xs) position f c m n h = absurd (ground (arith, n))

module _ (os : Os) (flags : Flags) (parses : (s : os.State) → (os.parse_flags s).0 ≡ flags) where
  open os use {State}

  take_position_lem :
      (o : Option Position) (s : State) → Started (λ p. o ≡ some p) (take_position os o s)
  unfolding take_position
  take_position_lem none s = exiting
  take_position_lem (some p) s = starting refl

  prepare_lem :
      (key_file : Bytes) (position_of : List Bytes → Option Position) (s : State)
      → Started (λ x. position_of flags.args ≡ some x.0) (prepare os key_file position_of s)
  unfolding prepare take_position
  prepare_lem key_file position_of s =
      >>=-Started _ _ s (take_flags_lem os flags parses key_file s) (λ (key_flags, f) s1 e.
        >>=-Started _ _ s1 (take_position_lem (position_of f.args) s1) (λ position s2 n.
          then-Started _ _ s2 (λ priv s3. then-Started _ _ s3 (λ config s4.
            then-Started _ _ s4 (λ bs s5.
              then-Started _ _ s5
                (λ psk s6. starting (subst (λ f. position_of f.args ≡ some position) e n)))))))

  proxy_main-FitsProxy : (s : State) → Started (FitsProxy os flags.args) (proxy_main os s)
  unfolding proxy_main
  proxy_main-FitsProxy s =
      >>=-Started _ _ s (prepare_lem _ proxy_position s) (λ (position, f, config) s1 n.
        >>=-Started _ _ s1 (start_manager-Manages os position config s1)
          (λ m s2 h. proxy_fits os flags.args position f config m s2 n h))

  l4_main-FitsChain : (s : State) → Started (FitsChain os flags.args) (l4_main os s)
  unfolding l4_main
  l4_main-FitsChain s =
      >>=-Started _ _ s (prepare_lem _ l4_position s) (λ (position, f, config) s1 n.
        >>=-Started _ _ s1 (start_manager-Manages os position _ s1)
          (λ m s2 h. starting (chain_fits os flags.args position f _ m n h)))

  -- An HTTP proxy that starts has one argument or four, and a chain proxy one or three. With one, its
  -- port, a proxy represents no service, and serves no metrics; with more, it has the hash that the
  -- registry answers for the service, and none for a service without a name, and the HTTP proxy serves
  -- its metrics at the fourth. The flags do not depend on the state.
  pub proxies_fit :
      (s : State)
      → Started (FitsProxy os flags.args) (proxy_main os s)
        × Started (FitsChain os flags.args) (l4_main os s)
  proxies_fit s = (proxy_main-FitsProxy s, l4_main-FitsChain s)
