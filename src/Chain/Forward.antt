-- ===== src/Chain/Forward.antt =====
-- The forwarders between streams and connections: tcpFwdStream2Conn and tcpFwdConn2Stream of
-- l4-proxy/tcp-proxy.go, udpFwdStream2Conn and udpFwdConn2Stream of l4-proxy/udp-proxy.go.
pub mod Writes
pub mod Tunnel
use go_code_goes_here.Prelude.{
  ℕ, zero, suc, ◌+◌, ◌-◌, Bytes, Bool, true, false, List, [], ◌∷◌, Option, none, some, length, ltb,
  if◌then◌else◌,
}
use go_code_goes_here.World.{World, Error, Result, ok, err}
use go_code_goes_here.Chain.Link.{Net, send_data, receive_data}

-- net.Conn and net.UDPConn: Write and WriteTo return a number of bytes beside the error.
pub record Pipes : Type 1 where
  pub net : Net
  pub open net use *
  pub Address : Type 0
  pub write_conn : Conn → Bytes → State → ℕ × Option Error × State
  pub write_to : Conn → Address → Bytes → State → ℕ × Option Error × State
  pub read_conn : Conn → ℕ → State → Result Bytes × State
  pub close : Conn → State → State

-- MAX_TCP_TUNNEL_PAYLOAD and MAX_UDP_TUNNEL_PAYLOAD
abbrev pub max_tcp_tunnel_payload : ℕ
max_tcp_tunnel_payload = 0xffff - 20 - 20

abbrev pub max_udp_tunnel_payload : ℕ
max_udp_tunnel_payload = 0xffff - 8 - 20

module _ (pipes : Pipes) where
  open pipes use {State, Stream, Conn, Address, net, write_conn, write_to, read_conn, reset, close}

  -- One call of Write or WriteTo, with its connection and address.
  abbrev pub Writer : Type 0
  Writer = Bytes → State → ℕ × Option Error × State

  -- `for nBytesW < nBytes`, which writes the whole of the data in each round; `none` where the fuel runs
  -- out. The answer is whether there was no error.
  unfoldable pub write_all : Writer → ℕ → ℕ → Bytes → State → Option (Bool × State)
  write_all write_some zero written d s = none
  write_all write_some (suc fuel) written d s = elim (ltb written (length d)) [
    | false ↦ some (true, s)
    | true ↦
        let (n, e, s') = write_some d s in
        elim e [ some e ↦ some (false, s') | none ↦ write_all write_some fuel (written + n) d s' ]
  ]

  -- The loop from a stream to a writer, for a number of rounds, with fuel for each inner loop: whether it
  -- has ended.
  unfoldable pub fwd_to_writer : ℕ → Writer → ℕ → Stream → State → Option (Bool × State)
  fwd_to_writer fuel write_some zero src s = some (false, s)
  fwd_to_writer fuel write_some (suc n) src s =
      let (r, s1) = receive_data net src s in
      elim r [
        | err e ↦ some (true, s1)
        | ok d ↦ elim (write_all write_some fuel 0 d s1) [
          | none ↦ none
          | some (written, s2) ↦ elim written [
            | false ↦ some (true, s2)
            | true ↦ fwd_to_writer fuel write_some n src s2
          ]
        ]
      ]

  -- what the deferred calls of a forwarder do when it has ended
  abbrev pub finish : (State → State) → Option (Bool × State) → Option (Bool × State)
  finish clean none = none
  finish clean (some (true, s)) = some (true, clean s)
  finish clean (some (false, s)) = some (false, s)

  -- tcpFwdStream2Conn
  unfoldable pub tcp_fwd_stream_to_conn : ℕ → ℕ → Stream → Conn → State → Option (Bool × State)
  tcp_fwd_stream_to_conn fuel n src dst s =
      finish (λ t. close dst (reset src t)) (fwd_to_writer fuel (write_conn dst) n src s)

  -- udpFwdStream2Conn: a connection that clients share is written to at an address, and not closed
  unfoldable pub udp_fwd_stream_to_conn :
      ℕ → ℕ → Stream → Conn → Option Address → State → Option (Bool × State)
  udp_fwd_stream_to_conn fuel n src dst dst_addr s = elim dst_addr [
    | none ↦ finish (λ t. close dst (reset src t)) (fwd_to_writer fuel (write_conn dst) n src s)
    | some a ↦ finish (reset src) (fwd_to_writer fuel (write_to dst a) n src s)
  ]

  -- The loop from a connection to a stream, for a number of rounds.
  unfoldable pub fwd_to_stream : ℕ → ℕ → Conn → Stream → State → Bool × State
  fwd_to_stream max zero src dst s = (false, s)
  fwd_to_stream max (suc n) src dst s =
      let (r, s1) = read_conn src max s in
      elim r [
        | err e ↦ (true, close src (reset dst s1))
        | ok d ↦
            let (e, s2) = send_data net dst d s1 in
            elim e [
              | some e ↦ (true, close src (reset dst s2))
              | none ↦ fwd_to_stream max n src dst s2
            ]
      ]

  -- tcpFwdConn2Stream and udpFwdConn2Stream
  unfoldable pub tcp_fwd_conn_to_stream : ℕ → Conn → Stream → State → Bool × State
  tcp_fwd_conn_to_stream n src dst s = fwd_to_stream max_tcp_tunnel_payload n src dst s

  unfoldable pub udp_fwd_conn_to_stream : ℕ → Conn → Stream → State → Bool × State
  udp_fwd_conn_to_stream n src dst s = fwd_to_stream max_udp_tunnel_payload n src dst s
