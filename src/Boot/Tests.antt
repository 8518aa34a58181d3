-- ===== src/Boot/Tests.antt =====
-- The properties of the main functions at concrete inputs.
use go_code_goes_here.Prelude.{◌≢◌, refl, arith, Bytes, codes, List, [], ◌∷◌, none, some}
use go_code_goes_here.World.{World, ok, no_perf}
use go_code_goes_here.World.Toy.{toy, web}
use go_code_goes_here.Lca.Config.{NodeConfig}
use go_code_goes_here.Lca.Start.{Node}
use go_code_goes_here.Lca.Tests.Hosts.{host}
use go_code_goes_here.Boot.Exits.{Started}
use go_code_goes_here.Boot.Host.{Os, Flags}
use go_code_goes_here.Boot.Peers.{IsConfigured, programs-IsConfigured}
use go_code_goes_here.Boot.Modes.{FitsProxy, FitsChain, proxies_fit}
use go_code_goes_here.Boot.{allocator_main, proxy_main, l4_main}

abbrev bare : NodeConfig
bare = record {
  priv_key = [];
  bootstrap_peers = [];
  psk = none;
  rendezvous = [];
  handler_protocol_ids = [];
  stream_handlers = [];
}

-- The registry knows every service.
abbrev registry : World
registry = record toy { get_service = λ name s. (record { info = web; error = none }, s) }

abbrev node : Node
node = record {
  machine = host registry [];
  new_node = λ cfg s. (none, s);
  whoami = λ s. (ok (codes "/ip4/10.0.0.1/tcp/4001" ∷ []), s);
  set_stream_handler = λ bootstraps s_psk s. s;
}

abbrev line : List Bytes → Flags
line args = record {
  config_path = codes "conf.json";
  rcache_ttl = 3600;
  bootstraps = [];
  psk = some (codes "hashed");
  args = args;
}

-- A system with an empty configuration file and one bootstrap in the environment.
abbrev os : List Bytes → Os
os args = record {
  node = node;
  advertise = λ hash s. s;
  KeyFlags = Bytes;
  File = Bytes;
  add_key_flags = λ file s. (ok file, s);
  add_bootstrap_flags = λ s. (none, s);
  add_psk_flag = λ s. (none, s);
  parse_flags = λ s. (line args, s);
  create_or_load_key = λ file s. (ok file, s);
  open_file = λ path s. (ok path, s);
  read_file = λ file s. (ok [], s);
  close_file = λ file s. s;
  unmarshal = λ b. ok (record { soft_req = no_perf; hard_req = no_perf; bootstraps = [] });
  get_env_bootstraps = ok (codes "/ip4/10.0.0.9" ∷ []);
  strings_to_multiaddrs = λ texts. ok texts;
  get_env_psk = ok none;
  get_env_psk_string = [];
  get_flag_psk_string = codes "secret";
  new_config = bare;
}

abbrev only_port : List Bytes
only_port = codes "4200" ∷ []

abbrev with_metrics : List Bytes
with_metrics = codes "4200" ∷ codes "web" ∷ codes "10.0.0.1:80" ∷ codes "4201" ∷ []

some_address_stays :
    (b : Bytes) (bs : List Bytes) → Os.strings_to_multiaddrs (os only_port) (b ∷ bs) ≢ ok []
some_address_stays b bs e = absurd (ground (arith, e))

programs-IsConfigured_example :
    Started
      (λ p. IsConfigured (os only_port) (line only_port) p.config)
      (allocator_main (os only_port) 0)
    × Started
        (λ p. IsConfigured (os only_port) (line only_port) p.config)
        (proxy_main (os only_port) 0)
    × Started
        (λ p. IsConfigured (os only_port) (line only_port) p.config)
        (l4_main (os only_port) 0)
programs-IsConfigured_example =
    programs-IsConfigured (os only_port) (line only_port) (λ s. refl) some_address_stays 0

proxies_fit_example :
    Started (FitsProxy (os with_metrics) with_metrics) (proxy_main (os with_metrics) 0)
    × Started (FitsChain (os with_metrics) with_metrics) (l4_main (os with_metrics) 0)
proxies_fit_example = proxies_fit (os with_metrics) (line with_metrics) (λ s. refl) 0
