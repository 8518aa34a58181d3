-- ===== src/Chain/Link.antt =====
-- What the proxies of a chain take from outside: message streams and connections to services; and the
-- send and receive functions of l4-proxy/chain-setup.go over them.
use go_code_goes_here.Prelude.{ℕ, zero, suc, Bool, true, false, Bytes, List, Option, none, some}
use go_code_goes_here.World.{World, ServiceInfo, Error, Result, ok, err, wrapped, wrong_message}
use go_code_goes_here.Chain.Message.{
  ChainMsg, Codec, new_chain_setup_request, new_chain_setup_ack, new_chain_data, new_chain_error,
  accept_setup_request, accept_setup_ack, accept_data,
}

pub record Net : Type 1 where
  pub codec : Codec
  pub world : World
  pub open world use *
  -- gob over msgio: one message in, one message out
  pub send_msg : Stream → ChainMsg → State → Option Error × State
  pub recv_msg : Stream → State → Result ChainMsg × State
  -- Stream.SetProtocol
  pub set_protocol : Stream → Bytes → State → State
  -- time.NewTicker, and the receive from the channel of a ticker
  pub Ticker : Type 0
  pub new_ticker : ℕ → State → Ticker × State
  pub await_tick : Ticker → State → State
  -- the Close of a stream's connection
  pub close_conn : Stream → State → State
  pub Conn : Type 0
  -- net.ResolveTCPAddr with net.DialTCP, or the same of UDP
  pub dial : Bytes → Bytes → State → Result Conn × State

-- errors are passed on with a text around them
abbrev pub wrap_error : Option Error → Option Error
wrap_error none = none
wrap_error (some e) = some (wrapped e)

module _ (net : Net) where
  open net use {State, Stream, Conn, codec, new_stream, send_msg, recv_msg, reset}

  -- The goroutines that the handlers start: a connection monitor, and the forwarders of a protocol.
  pub data Routine : Type 0 where
    conn_qual_monitor : Bytes → ServiceInfo → Stream → Routine
    fwd_stream_to_conn : Bytes → Stream → Conn → Routine
    fwd_conn_to_stream : Bytes → Conn → Stream → Routine
    fwd_stream_to_stream : Stream → Stream → Routine

  -- createStream of l4-proxy/l4-proxy.go
  abbrev pub create_stream : Bytes → Bytes → State → Result Stream × State
  create_stream target_peer proto s =
      let (r, s') = new_stream target_peer proto s in
      elim r [ err e ↦ (err e, s') | ok stream ↦ (ok stream, s') ]

  -- sendError
  unfoldable pub send_error : Stream → Bytes → State → Option Error × State
  send_error stream text s =
      let (e, s') = send_msg stream (new_chain_error codec text) s in (wrap_error e, s')

  -- sendSetupRequest, whose message is never nil
  unfoldable pub send_setup_request : Stream → List Bytes → State → Option Error × State
  send_setup_request stream spec s = elim (new_chain_setup_request codec spec) [
    | none ↦ (some wrong_message, s)
    | some msg ↦ let (e, s') = send_msg stream msg s in (wrap_error e, s')
  ]

  -- sendSetupACK
  unfoldable pub send_setup_ack : Stream → Bytes → State → Option Error × State
  send_setup_ack stream debug s =
      let (e, s') = send_msg stream (new_chain_setup_ack codec debug) s in (wrap_error e, s')

  -- sendData
  unfoldable pub send_data : Stream → Bytes → State → Option Error × State
  send_data stream d s =
      let (e, s') = send_msg stream (new_chain_data codec d) s in (wrap_error e, s')

  receive : {A : Type 0} → (ChainMsg → Result A) → Stream → State → Result A × State
  receive accept stream s =
      let (r, s') = recv_msg stream s in
      elim r [ err e ↦ (err (wrapped e), s') | ok msg ↦ (accept msg, s') ]

  -- receiveSetupRequest
  unfoldable pub receive_setup_request : Stream → State → Result (List Bytes) × State
  unfolding receive
  receive_setup_request stream s = receive (accept_setup_request codec) stream s

  -- receiveSetupACK
  unfoldable pub receive_setup_ack : Stream → State → Result Bytes × State
  unfolding receive
  receive_setup_ack stream s = receive (accept_setup_ack codec) stream s

  -- receiveData
  unfoldable pub receive_data : Stream → State → Result Bytes × State
  unfolding receive
  receive_data stream s = receive (accept_data codec) stream s

  -- The loop of fwdStream2Stream, for a number of rounds: the goroutine ends at the first failure, with
  -- the deferred resets of its streams. `true` where it has ended.
  unfoldable pub fwd_stream_to_stream_rounds : ℕ → Stream → Stream → State → Bool × State
  fwd_stream_to_stream_rounds zero src dst s = (false, s)
  fwd_stream_to_stream_rounds (suc n) src dst s =
      let (r, s1) = receive_data src s in
      elim r [
        | err e ↦ (true, reset src (reset dst s1))
        | ok d ↦
            let (e, s2) = send_data dst d s1 in
            elim e [
              | some e ↦ (true, reset src (reset dst s2))
              | none ↦ fwd_stream_to_stream_rounds n src dst s2
            ]
      ]
