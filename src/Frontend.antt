-- ===== src/Frontend.antt =====
-- requestHandler of l4-proxy/l4-proxy.go, with the listeners that openTCPProxy of l4-proxy/tcp-proxy.go
-- and openUDPProxy of l4-proxy/udp-proxy.go open, one for each chain.
pub mod Uri
pub mod Reuse
pub mod Frame
mod Tests
use go_code_goes_here.Prelude.{
  ℕ, Bytes, codes, Bool, true, false, ◌||◌, List, [], ◌∷◌, ◌++◌, Option, none, some, same, lookup,
  store, join, split, trim_prefix, trim_suffix, if◌then◌else◌,
}
use go_code_goes_here.World.{Error, Result, ok, err, wrapped, no_port}

abbrev pub slash : ℕ
slash = b'/'

-- splitURIPath behind the trims
abbrev no_empty_front : List Bytes → List Bytes
no_empty_front [] = []
no_empty_front (p ∷ ps) = if same p [] then [] else p ∷ ps

-- splitURIPath
unfoldable pub split_uri_path : Bytes → List Bytes
split_uri_path uri_path =
    no_empty_front (split (trim_suffix (trim_prefix uri_path slash) slash) slash)

-- tcpServiceProxy and udpServiceProxy, which a Forwarder holds as functions.
pub data Worker : Type 0 where
  tcp_worker udp_worker : Worker

pub record Forwarder : Type 0 where
  pub listen_addr : Bytes
  pub worker : Worker

-- serv2Fwd
abbrev pub Forwarders : Type 0
Forwarders = List (Bytes × Forwarder)

-- What the standard library gives: listeners, here by their addresses, and what `Error()` prints.
pub record Ports : Type 1 where
  pub State : Type 0
  pub listen_tcp : Bytes → State → Result Bytes × State
  pub resolve_udp : Bytes → State → Result Bytes × State
  pub listen_udp : Bytes → State → Result Bytes × State
  pub error_text : Error → Bytes

-- A goroutine that serves a listener for a chain.
pub record Served : Type 0 where
  pub worker : Worker
  pub listen_addr : Bytes
  pub chain_spec : List Bytes

-- An HTTP answer: the status and the text.
pub record Reply : Type 0 where
  pub status : ℕ
  pub text : Bytes

abbrev pub bad_request : Bytes
bad_request = codes "Bad Request\n"

module _ (ports : Ports) (ctrl_host : Bytes) where
  open ports use {State, listen_tcp, resolve_udp, listen_udp, error_text}

  -- What opening a listener gives: its address or an error, the goroutines started, the map, the world.
  abbrev pub Opened : Type 0
  Opened = Result Bytes × List Served × Forwarders × State

  -- the map entry and the goroutine for a listener that was opened
  abbrev pub enter : Worker → List Bytes → Bytes → Forwarders → State → Opened
  enter worker spec addr fwds s = (
    ok addr,
    record { worker = worker; listen_addr = addr; chain_spec = spec } ∷ [],
    store (join spec (codes "/")) (record { listen_addr = addr; worker = worker }) fwds,
    s,
  )

  -- openTCPProxy
  unfoldable pub open_tcp_proxy : List Bytes → Forwarders → State → Opened
  open_tcp_proxy spec fwds s = elim (lookup (join spec (codes "/")) fwds) [
    | some f ↦ (ok f.listen_addr, [], fwds, s)
    | none ↦
        let (r, s') = listen_tcp (ctrl_host ++ codes ":") s in
        elim r [
          | err e ↦ (err no_port, [], fwds, s')
          | ok addr ↦ enter tcp_worker spec addr fwds s'
        ]
  ]

  -- openUDPProxy
  unfoldable pub open_udp_proxy : List Bytes → Forwarders → State → Opened
  open_udp_proxy spec fwds s = elim (lookup (join spec (codes "/")) fwds) [
    | some f ↦ (ok f.listen_addr, [], fwds, s)
    | none ↦
        let (r, s1) = resolve_udp (ctrl_host ++ codes ":") s in
        elim r [
          | err e ↦ (err (wrapped e), [], fwds, s1)
          | ok udp_addr ↦
              let (r, s2) = listen_udp udp_addr s1 in
              elim r [
                | err e ↦ (err no_port, [], fwds, s2)
                | ok addr ↦ enter udp_worker spec addr fwds s2
              ]
        ]
  ]

  abbrev pub Handled : Type 0
  Handled = Reply × List Served × Forwarders × State

  -- the answer of requestHandler to what a listener gave
  abbrev pub answer : Opened → Handled
  answer (ok addr, started, fwds, s) =
      (record { status = 200; text = addr ++ codes "\n" }, started, fwds, s)
  answer (err e, started, fwds, s) =
      (record { status = 500; text = error_text e ++ codes "\n" }, started, fwds, s)

  abbrev pub usage : Bytes
  usage =
      bad_request
      ++ codes
          "Error: Incorrect API usage, expecting a protocol ('tcp' or 'udp') and a service name.\n"
      ++ codes "e.g. http://"
      ++ ctrl_host
      ++ codes "/tcp/name-of-service\n"

  -- requestHandler, on the components of the path
  unfoldable pub serve_chain : List Bytes → Forwarders → State → Handled
  serve_chain [] fwds s = (record { status = 400; text = usage }, [], fwds, s)
  serve_chain (tp_proto ∷ []) fwds s = (record { status = 400; text = usage }, [], fwds, s)
  serve_chain (tp_proto ∷ serv_name ∷ rest) fwds s =
      let spec = tp_proto ∷ serv_name ∷ rest in
      if same tp_proto (codes "tcp")
      then answer (open_tcp_proxy spec fwds s)
      else (if same tp_proto (codes "udp") then answer (open_udp_proxy spec fwds s) else (
        record {
          status = 400;
          text = bad_request ++ codes "Error: Expecting protocol to be either 'tcp' or 'udp'\n";
        },
        [],
        fwds,
        s,
      ))

  -- requestHandler
  unfoldable pub request_handler : Bytes → Bytes → Forwarders → State → Handled
  request_handler raw_query path fwds s =
      if same raw_query []
      then serve_chain (split_uri_path path) fwds s
      else (record { status = 400; text = bad_request }, [], fwds, s)
