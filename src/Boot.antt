-- ===== src/Boot.antt =====
-- The main functions of allocator/allocator.go, proxy/proxy.go and l4-proxy/l4-proxy.go, from the flags
-- to what the program then runs.
pub mod Exits
pub mod Host
pub mod Peers
pub mod Modes
mod Tests
use Exits.{
  Outcome, starts, exits, fatal, no_bootstraps, usage, ◌>>=◌, ◌>>◌, give, stop, or_fatal, checked,
  pure_or_fatal,
}
use Host.{
  Config, Flags, Os, AllocatorProgram, Mode, anonymous, service_mode, Position, ProxyProgram,
  ctrl_host, alone, serving, proxy_position, l4_position, Mode-cases,
}
use go_code_goes_here.Prelude.{
  ℕ, ◌≡◌, refl, ◌⊎◌, inl, inr, Bytes, codes, List, [], ◌∷◌, ◌++◌, Option, none, some,
}
use go_code_goes_here.World.{PerfInd, Error, Result, ok, err}
use go_code_goes_here.Rcache.{RegistryCache, new_registry_cache}
use go_code_goes_here.Pcache.{PeerCache, new_peer_cache}
use go_code_goes_here.Lca.Config.{NodeConfig, StreamHandler, sets_up_chains}
use go_code_goes_here.Lca.Manager.{LcaManager}
use go_code_goes_here.Lca.Membership.{Member, new_lca_manager}
use go_code_goes_here.Lca.Start.{Node, Start, failed, absent, running, new_lca_allocator}
use go_code_goes_here.Chain.Setup.{chain_setup_proto_id}

module _ (os : Os) where
  open os use {
    State, world, KeyFlags, File, now, new_node, advertise, add_key_flags, add_bootstrap_flags,
    add_psk_flag, parse_flags, create_or_load_key, open_file, read_file, close_file, unmarshal,
    get_env_bootstraps, strings_to_multiaddrs, get_env_psk, get_env_psk_string, get_flag_psk_string,
    new_config,
  }

  -- The declaration of the flags, up to flag.Parse.
  pub take_flags : Bytes → State → Outcome (KeyFlags × Flags) × State
  take_flags default_key_file = do
    key_flags ← or_fatal (add_key_flags default_key_file)
    checked add_bootstrap_flags
    checked add_psk_flag
    λ s. let (flags, s') = parse_flags s in (starts (key_flags, flags), s')

  -- The environment has to name a bootstrap.
  some_of : List Bytes → State → Outcome (List Bytes) × State
  some_of [] = stop no_bootstraps
  some_of (e ∷ es) = give (e ∷ es)

  -- The bootstraps: of the flags, else of the configuration file, else of the environment.
  choose_bootstraps : Flags → Config → State → Outcome (List Bytes) × State
  unfolding some_of
  choose_bootstraps flags config = elim flags.bootstraps [
    | b ∷ bs ↦ give (b ∷ bs)
    | [] ↦ elim config.bootstraps [
      | c ∷ cs ↦ pure_or_fatal (strings_to_multiaddrs (c ∷ cs))
      | [] ↦ do env ← pure_or_fatal get_env_bootstraps; some_of env
    ]
  ]

  read_all_of : File → State → Outcome Bytes × State
  read_all_of file s =
      let (r, s') = read_file file s in
      let s'' = close_file file s' in
      elim r [ ok bytes ↦ (starts bytes, s') | err e ↦ (exits (fatal e), s'') ]

  -- The configuration file, as the proxies read it: it is closed on each path.
  read_config : Bytes → State → Outcome Config × State
  unfolding read_all_of
  read_config path = do
    file ← or_fatal (open_file path)
    bytes ← read_all_of file
    λ s. (pure_or_fatal (unmarshal bytes) (close_file file s))

  -- The same in main of allocator/allocator.go, whose deferred Close is never reached.
  read_config_open : Bytes → State → Outcome Config × State
  read_config_open path = do
    file ← or_fatal (open_file path)
    bytes ← or_fatal (read_file file)
    pure_or_fatal (unmarshal bytes)

  -- The configuration of the node.
  abbrev pub node_config : Bytes → List Bytes → Option Bytes → NodeConfig
  node_config priv bootstraps psk = record new_config {
    priv_key = priv;
    bootstrap_peers = bootstraps;
    psk = psk;
  }

  -- The PSK of a proxy: of the flags, else of the environment.
  choose_psk : Option Bytes → State → Outcome (Option Bytes) × State
  choose_psk none = pure_or_fatal get_env_psk
  choose_psk (some psk) = give (some psk)

  -- The PSK of the allocator, with the passphrase of the same origin.
  choose_psk_string : Option Bytes → State → Outcome (Option Bytes × Bytes) × State
  choose_psk_string none = do psk ← pure_or_fatal get_env_psk; give (psk, get_env_psk_string)
  choose_psk_string (some psk) = give (some psk, get_flag_psk_string)

  -- What NewLCAAllocator returns: only an error ends the program.
  allocator_program : NodeConfig → Bytes → Start → Outcome AllocatorProgram
  allocator_program config passphrase (failed e) = exits (fatal e)
  allocator_program config passphrase start =
      starts (record { config = config; passphrase = passphrase; allocator = start })

  start_allocator : NodeConfig → Bytes → State → Outcome AllocatorProgram × State
  unfolding allocator_program
  start_allocator config passphrase s =
      let (start, s') = new_lca_allocator os.node config passphrase s in
      (allocator_program config passphrase start, s')

  -- main of allocator/allocator.go
  pub allocator_main : State → Outcome AllocatorProgram × State
  unfolding take_flags read_config_open choose_bootstraps choose_psk_string start_allocator
  allocator_main = do
    (key_flags, flags) ← take_flags (codes "~/.privKeyAlloc")
    priv ← or_fatal (create_or_load_key key_flags)
    config ← read_config_open flags.config_path
    bootstraps ← choose_bootstraps flags config
    (psk, passphrase) ← choose_psk_string flags.psk
    start_allocator (node_config priv bootstraps psk) passphrase

  take_position : Option Position → State → Outcome Position × State
  take_position none = stop usage
  take_position (some position) = give position

  -- What the two proxies do in the same words: from the flags to the configuration of the node.
  prepare :
      Bytes
      → (List Bytes → Option Position)
      → State
      → Outcome (Position × Flags × NodeConfig) × State
  unfolding take_flags take_position read_config choose_bootstraps choose_psk
  prepare default_key_file position_of = do
    (key_flags, flags) ← take_flags default_key_file
    position ← take_position (position_of flags.args)
    priv ← or_fatal (create_or_load_key key_flags)
    config ← read_config flags.config_path
    bootstraps ← choose_bootstraps flags config
    psk ← choose_psk flags.psk
    give (position, flags, node_config priv bootstraps psk)

  abbrev pub member : Member
  member = record { world = world; new_node = new_node; advertise = advertise }

  -- The manager, without a service in anonymous mode.
  start_manager : Position → NodeConfig → State → Outcome LcaManager × State
  start_manager position config = elim position.mode [
    | anonymous ↦ or_fatal (new_lca_manager member config [] [])
    | service_mode ↦ or_fatal (new_lca_manager member config position.service position.address)
  ]

  -- The caches and the first endpoint of a proxy.
  run_proxy : Position → Flags → NodeConfig → LcaManager → ProxyProgram
  run_proxy position flags config manager =
      let rc = new_registry_cache flags.rcache_ttl in
      let (peer_cache, registry_cache) = new_peer_cache (some rc) in
      record {
        config = config;
        position = position;
        manager = manager;
        registry_cache = registry_cache;
        peer_cache = peer_cache;
        endpoint = ctrl_host ++ codes ":" ++ position.port;
        metrics_endpoint = none;
      }

  -- In service mode, the metrics from the start of the proxy on.
  serve_metrics : ProxyProgram → State → Outcome ProxyProgram × State
  serve_metrics p s =
      let (time, s') = now s in
      let manager = record p.manager { tolsr = time } in
      let endpoint = ctrl_host ++ codes ":" ++ p.position.metrics_port in
      elim p.position.mode [
        | anonymous ↦ (starts p, s)
        | service_mode ↦
            (starts (record p { manager = manager; metrics_endpoint = some endpoint }), s')
      ]

  -- main of proxy/proxy.go
  pub proxy_main : State → Outcome ProxyProgram × State
  unfolding prepare start_manager run_proxy serve_metrics
  proxy_main = do
    (position, flags, config) ← prepare (codes "~/.privKeyProxy") proxy_position
    manager ← start_manager position config
    serve_metrics (run_proxy position flags config manager)

  -- The node of a chain proxy sets up chains too.
  abbrev pub chaining : NodeConfig → NodeConfig
  chaining config = record config {
    handler_protocol_ids = config.handler_protocol_ids ++ chain_setup_proto_id ∷ [];
    stream_handlers = config.stream_handlers ++ sets_up_chains ∷ [];
  }

  -- main of l4-proxy/l4-proxy.go. It serves until ListenAndServe of its endpoint fails.
  pub l4_main : State → Outcome ProxyProgram × State
  unfolding prepare start_manager run_proxy
  l4_main = do
    (position, flags, config) ← prepare (codes "~/.privKeyProxy") l4_position
    manager ← start_manager position (chaining config)
    give (run_proxy position flags (chaining config) manager)
