-- ===== src/Lca/Membership.antt =====
-- NewLCAManager of lca/lca-manager.go: a node that answers requests, and in service mode advertises the
-- hash of its service.
pub mod Hash
use go_code_goes_here.Prelude.{
  ℕ, Bytes, same, List, [], ◌∷◌, ◌++◌, Option, none, some, if◌then◌else◌,
}
use go_code_goes_here.World.{World, Error, Result, ok, err}
use go_code_goes_here.Lca.Wire.{manager_request_prot_id}
use go_code_goes_here.Lca.Config.{NodeConfig, StreamHandler, answers_requests}
use go_code_goes_here.Lca.Manager.{LcaManager}

-- p2pnode.NewNode, and the Advertise of the node.
pub record Member : Type 1 where
  pub world : World
  pub open world use *
  pub new_node : NodeConfig → State → Option Error × State
  pub advertise : Bytes → State → State

-- The configuration that the constructor gives to NewNode.
abbrev pub answering : Bytes → NodeConfig → NodeConfig
answering service_address cfg = record cfg {
  stream_handlers = cfg.stream_handlers ++ answers_requests service_address ∷ [];
  handler_protocol_ids = cfg.handler_protocol_ids ++ manager_request_prot_id ∷ [];
}

-- Go's zero LCAManager, with its zero time as 0.
abbrev pub no_manager : LcaManager
no_manager = record { p2p_hash = []; tolsr = 0 }

module _ (member : Member) where
  open member use {State, get_service, new_node, advertise}

  -- The part for a service name that is not empty.
  take_up : Bytes → State → Result LcaManager × State
  take_up service_name s =
      let (answer, s') = get_service service_name s in
      let hash = answer.info.content_hash in
      elim answer.error [
        | some e ↦ (err e, s')
        | none ↦ (ok (record no_manager { p2p_hash = hash }), advertise hash s')
      ]

  -- NewLCAManager
  unfoldable pub new_lca_manager : NodeConfig → Bytes → Bytes → State → Result LcaManager × State
  unfolding take_up
  new_lca_manager cfg service_name service_address s =
      let (e, s') = new_node (answering service_address cfg) s in
      let taken = take_up service_name s' in
      elim e [
        | some e ↦ (err e, s')
        | none ↦ if same service_name [] then (ok no_manager, s') else taken
      ]
