-- ===== src/Lca/Start/Address.antt =====
-- Which address NewLCAAllocator of lca/lca-allocator.go starts with, and where it starts nothing.
use go_code_goes_here.Prelude.{
  ◌≡◌, refl, arith, Bytes, true, false, List, [], ◌∷◌, ◌++◌, none, some, All,
}
use go_code_goes_here.World.{ok}
use go_code_goes_here.Lca.Config.{NodeConfig}
use go_code_goes_here.Lca.Start.{
  Node, announced, absent, running, contains, public_one, install, new_lca_allocator,
}

-- Addresses that do not contain the public one.
abbrev pub Private : Bytes → List Bytes → Type 0
Private pub_addr = All (λ addr. contains addr pub_addr ≡ false)

public_one-Private :
    (pub_addr : Bytes) (addrs : List Bytes)
    → Private pub_addr addrs
    → public_one pub_addr addrs ≡ none
unfolding public_one
public_one-Private pub_addr [] h = refl
public_one-Private pub_addr (a ∷ addrs) h =
    ground (arith, h.0, public_one-Private pub_addr addrs h.1)

public_one-append :
    (pub_addr : Bytes) (pre : List Bytes) (a : Bytes) (post : List Bytes)
    → Private pub_addr pre
    → contains a pub_addr ≡ true
    → public_one pub_addr (pre ++ a ∷ post) ≡ some a
unfolding public_one
public_one-append pub_addr [] a post h k = ground (arith, k)
public_one-append pub_addr (x ∷ pre) a post h k =
    ground (arith, h.0, public_one-append pub_addr pre a post h.1 k)

module _ (node : Node) where
  open node use {State, new_node, whoami, get_ip_address, set_stream_handler}

  -- When the node is created, and its addresses and the public address are found, but no address of the
  -- node contains the public one, NewLCAAllocator returns a nil allocator without an error, and no
  -- handler is set.
  pub new_lca_allocator_absent :
      (cfg : NodeConfig) (s_psk : Bytes) (s s1 s2 s3 : State) (pub_addr : Bytes)
      (addrs : List Bytes)
      → new_node (announced cfg) s ≡ (none, s1)
      → whoami s1 ≡ (ok addrs, s2)
      → get_ip_address s2 ≡ (ok pub_addr, s3)
      → Private pub_addr addrs
      → new_lca_allocator node cfg s_psk s ≡ (absent, s3)
  unfolding new_lca_allocator install
  new_lca_allocator_absent cfg s_psk s s1 s2 s3 pub_addr addrs h k g p =
      ground (arith, h, k, g, public_one-Private pub_addr addrs p)

  -- Otherwise streams are handled with the first such address behind the bootstraps.
  pub new_lca_allocator_runs :
      (cfg : NodeConfig) (s_psk : Bytes) (s s1 s2 s3 : State) (pub_addr : Bytes) (pre : List Bytes)
      (a : Bytes) (post : List Bytes)
      → new_node (announced cfg) s ≡ (none, s1)
      → whoami s1 ≡ (ok (pre ++ a ∷ post), s2)
      → get_ip_address s2 ≡ (ok pub_addr, s3)
      → Private pub_addr pre
      → contains a pub_addr ≡ true
      → new_lca_allocator node cfg s_psk s ≡ (
        running (cfg.bootstrap_peers ++ a ∷ []),
        set_stream_handler (cfg.bootstrap_peers ++ a ∷ []) s_psk s3,
      )
  unfolding new_lca_allocator install
  new_lca_allocator_runs cfg s_psk s s1 s2 s3 pub_addr pre a post h k g p c =
      ground (arith, h, k, g, public_one-append pub_addr pre a post p c)
