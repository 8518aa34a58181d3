-- ===== src/Lca/Config.antt =====
-- p2pnode.Config of PhysarumSM/common, with the fields that the constructors of lca and the main
-- functions set. A multiaddress is its text.
use go_code_goes_here.Prelude.{Bytes, List, Option}

-- The handlers that the program registers with a node when it creates it: the one that RequestHandler
-- of lca/lca-manager.go makes for an address, and chainSetupHandler of l4-proxy/chain-setup.go; or one
-- from outside.
pub data StreamHandler : Type 0 where
  answers_requests : Bytes → StreamHandler
  sets_up_chains : StreamHandler
  foreign : Bytes → StreamHandler

-- A nil PSK is `none`.
pub record NodeConfig : Type 0 where
  pub priv_key : Bytes
  pub bootstrap_peers : List Bytes
  pub psk : Option Bytes
  pub rendezvous : List Bytes
  pub handler_protocol_ids : List Bytes
  pub stream_handlers : List StreamHandler
