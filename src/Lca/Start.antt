-- ===== src/Lca/Start.antt =====
-- NewLCAAllocator of lca/lca-allocator.go: the node, its public address, and the stream handler.
pub mod Address
use go_code_goes_here.Prelude.{
  ℕ, Bytes, Bool, true, false, ◌||◌, List, [], ◌∷◌, ◌++◌, Option, none, some, has_prefix,
}
use go_code_goes_here.World.{Error, Result, ok, err}
use go_code_goes_here.Lca.Wire.{allocator_rendezvous}
use go_code_goes_here.Lca.Config.{NodeConfig}
use go_code_goes_here.Lca.Machine.{Machine}

-- What a node takes from outside: its creation, util.Whoami with each address as a text, and
-- SetStreamHandler with the handler that NewLCAHandler makes for bootstraps and a key.
pub record Node : Type 1 where
  pub machine : Machine
  pub open machine use *
  pub new_node : NodeConfig → State → Option Error × State
  pub whoami : State → Result (List Bytes) × State
  pub set_stream_handler : List Bytes → Bytes → State → State

-- What the constructor returns: an error; a nil allocator and no error; or an allocator that handles
-- streams, by the bootstraps that its handler was made with.
pub data Start : Type 0 where
  failed : Error → Start
  absent : Start
  running : List Bytes → Start

-- strings.Contains
unfoldable pub contains : Bytes → Bytes → Bool
contains [] sub = has_prefix [] sub
contains (c ∷ s) sub = has_prefix (c ∷ s) sub || contains s sub

-- The loop over the addresses: the first one that contains the public address.
unfoldable pub public_one : Bytes → List Bytes → Option Bytes
public_one pub_addr [] = none
public_one pub_addr (addr ∷ rest) =
    let later = public_one pub_addr rest in
    elim (contains addr pub_addr) [ true ↦ some addr | false ↦ later ]

-- The configuration that the constructor gives to NewNode.
abbrev pub announced : NodeConfig → NodeConfig
announced cfg = record cfg { rendezvous = cfg.rendezvous ++ allocator_rendezvous ∷ [] }

module _ (node : Node) where
  open node use {State, new_node, whoami, get_ip_address, set_stream_handler}

  -- The constructor behind the two lookups of addresses. The error that it returns beside nil is the one
  -- of GetIPAddress, which is nil.
  unfoldable pub install : List Bytes → Bytes → List Bytes → Bytes → State → Start × State
  install bootstraps s_psk multiaddrs pub_addr s = elim (public_one pub_addr multiaddrs) [
    | none ↦ (absent, s)
    | some addr ↦
        let peers = bootstraps ++ addr ∷ [] in (running peers, set_stream_handler peers s_psk s)
  ]

  -- NewLCAAllocator
  unfoldable pub new_lca_allocator : NodeConfig → Bytes → State → Start × State
  new_lca_allocator cfg s_psk s =
      let (e, s1) = new_node (announced cfg) s in
      let (addrs, s2) = whoami s1 in
      let (ip, s3) = get_ip_address s2 in
      elim e [
        | some e ↦ (failed e, s1)
        | none ↦ elim addrs [
          | err e ↦ (failed e, s2)
          | ok multiaddrs ↦ elim ip [
            | err e ↦ (failed e, s3)
            | ok pub_addr ↦ install cfg.bootstrap_peers s_psk multiaddrs pub_addr s3
          ]
        ]
      ]
