-- ===== src/Boot/Host.antt =====
-- conf/conf.go, what the main functions take from the operating system, their positional arguments, and
-- what they run with.
use go_code_goes_here.Prelude.{
  ℕ, ◌≡◌, refl, ◌⊎◌, inl, inr, Bytes, codes, List, [], ◌∷◌, Option, none, some,
}
use go_code_goes_here.World.{PerfInd, Error, Result}
use go_code_goes_here.Rcache.{RegistryCache}
use go_code_goes_here.Pcache.{PeerCache}
use go_code_goes_here.Lca.Config.{NodeConfig}
use go_code_goes_here.Lca.Manager.{LcaManager}
use go_code_goes_here.Lca.Start.{Node, Start}

-- conf.Config
pub record Config : Type 0 where
  pub soft_req : PerfInd
  pub hard_req : PerfInd
  pub bootstraps : List Bytes

-- What flag.Parse leaves in the variables of the flags, and the positional arguments. A TTL below 0 is
-- not modelled.
pub record Flags : Type 0 where
  pub config_path : Bytes
  pub rcache_ttl : ℕ
  pub bootstraps : List Bytes
  pub psk : Option Bytes
  pub args : List Bytes

-- What the programs take from the operating system and PhysarumSM/common.
pub record Os : Type 1 where
  pub node : Node
  pub open node use *
  pub advertise : Bytes → State → State
  pub KeyFlags : Type 0
  pub File : Type 0
  -- util.AddKeyFlags, AddBootstrapFlags and AddPSKFlag; flag.Parse; util.CreateOrLoadKey
  pub add_key_flags : Bytes → State → Result KeyFlags × State
  pub add_bootstrap_flags : State → Option Error × State
  pub add_psk_flag : State → Option Error × State
  pub parse_flags : State → Flags × State
  pub create_or_load_key : KeyFlags → State → Result Bytes × State
  -- os.Open, ioutil.ReadAll, Close, and json.Unmarshal into a Config
  pub open_file : Bytes → State → Result File × State
  pub read_file : File → State → Result Bytes × State
  pub close_file : File → State → State
  pub unmarshal : Bytes → Result Config
  -- util.GetEnvBootstraps, StringsToMultiaddrs, GetEnvPSK, GetEnvPSKString, GetFlagPSKString
  pub get_env_bootstraps : Result (List Bytes)
  pub strings_to_multiaddrs : List Bytes → Result (List Bytes)
  pub get_env_psk : Result (Option Bytes)
  pub get_env_psk_string : Bytes
  pub get_flag_psk_string : Bytes
  -- p2pnode.NewConfig
  pub new_config : NodeConfig

-- What the allocator runs with: NewLCAAllocator has returned without an error, and the goroutine calls
-- CullUnusedServices of its result every minute.
pub record AllocatorProgram : Type 0 where
  pub config : NodeConfig
  pub passphrase : Bytes
  pub allocator : Start

pub data Mode : Type 0 where
  anonymous service_mode : Mode

-- The positional arguments as the proxies keep them, empty where they have none.
pub record Position : Type 0 where
  pub mode : Mode
  pub port : Bytes
  pub service : Bytes
  pub address : Bytes
  pub metrics_port : Bytes

-- What a proxy runs with. The goroutine of UpdateCache updates its peer cache.
pub record ProxyProgram : Type 0 where
  pub config : NodeConfig
  pub position : Position
  pub manager : LcaManager
  pub registry_cache : RegistryCache
  pub peer_cache : PeerCache
  pub endpoint : Bytes
  pub metrics_endpoint : Option Bytes

abbrev pub ctrl_host : Bytes
ctrl_host = codes "127.0.0.1"

abbrev pub alone : Bytes → Position
alone port = record { mode = anonymous; port = port; service = []; address = []; metrics_port = [] }

abbrev pub serving : Bytes → Bytes → Bytes → Bytes → Position
serving port service address metrics_port = record {
  mode = service_mode;
  port = port;
  service = service;
  address = address;
  metrics_port = metrics_port;
}

-- flag.NArg() of main in proxy/proxy.go
unfoldable pub proxy_position : List Bytes → Option Position
proxy_position (port ∷ []) = some (alone port)
proxy_position (port ∷ service ∷ address ∷ metrics_port ∷ []) =
    some (serving port service address metrics_port)
proxy_position _ = none

-- flag.NArg() of main in l4-proxy/l4-proxy.go
unfoldable pub l4_position : List Bytes → Option Position
l4_position (port ∷ []) = some (alone port)
l4_position (port ∷ service ∷ address ∷ []) = some (serving port service address [])
l4_position _ = none

-- To split on the mode of a proxy.
pub Mode-cases : (m : Mode) → (m ≡ anonymous) ⊎ (m ≡ service_mode)
Mode-cases anonymous = inl refl
Mode-cases service_mode = inr refl
