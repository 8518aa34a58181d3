-- ===== src/Chain/Tests.antt =====
-- Messages, a proxy's place in a chain, and setting one up, at concrete inputs.
pub mod Nets
mod Sessions
mod Hops
mod Wire
mod Trail
use go_code_goes_here.Prelude.{
  ℕ, length, zero, suc, ◌∙◌, ◌≡◌, refl, ap, arith, Bytes, codes, true, List, [], ◌∷◌, ◌++◌, none,
  some, same, join, lookup, store,
}
use go_code_goes_here.World.{ok, err, wrong_message}
use go_code_goes_here.World.Toy.{toy, web}
use go_code_goes_here.Rcache.{get_or_request, get, request, add}
use go_code_goes_here.Pcache.{RPeerInfo, get_peer, add_peer}
use go_code_goes_here.Pcache.Shape.{cache}
use go_code_goes_here.Lca.Manager.{find_service}
use go_code_goes_here.Locate.{
  Env, find_or_allocate, rounds, round, improve, conclude, resolve_service, peer_for,
}
use go_code_goes_here.Locate.Returns.{IsBounded}
use go_code_goes_here.Chain.Message.{
  data_msg, setup_request, setup_ack, error_msg, ChainMsg, Codec, a_string, an_error, same_type,
  new_chain_setup_request, new_chain_setup_ack, new_chain_data, new_chain_error,
  accept_setup_request, accept_setup_ack, accept_data, decode_chain_data, encode_chain_data,
  expect_type,
}
use go_code_goes_here.Chain.Message.RoundTrip.{
  IsLawful, received, decode-encode, messages_told_apart,
}
use go_code_goes_here.Chain.Link.{
  send_data, Net, conn_qual_monitor, send_setup_request, send_setup_ack, receive_setup_request,
  receive_setup_ack,
}
use go_code_goes_here.Chain.Serving.{tcp, Done, at}
use go_code_goes_here.Chain.Setup.{
  scan, scan_start, rev_chain_msg_prefix, setup_chain, setup_chain_to, await_chain,
  chain_setup_handler,
}
use go_code_goes_here.Chain.Forward.{Pipes, finish, tcp_fwd_stream_to_conn}
use go_code_goes_here.Chain.Forward.Writes.{fwd_by_one_write, tcp_fwd_stream_to_conn_once}
use go_code_goes_here.Chain.Clients.{
  goes_on, of_chain, fwd_to_client, Served, first_try, serve_packet,
}
use go_code_goes_here.Chain.Monitor.{
  conn_qual_monitor_rounds, Watched, conn_qual_monitor_rounds-Watched,
}
use go_code_goes_here.Chain.Setup.Route.{scan_finds, relayed, relayed-join}
use go_code_goes_here.Chain.Setup.Opening.{IsOpen, setup_chain-IsOpen}
use go_code_goes_here.Chain.Setup.Ending.{Ended, chain_setup_handler-Ended}
use go_code_goes_here.Chain.Setup.Handler.{chain_setup_handler_returns, chain_setup_handler_ends}
use go_code_goes_here.Chain.Tests.Nets.{
  codec, codec-IsLawful, net, acking, asking, env, env_after, web_name,
}

-- /tcp/resize/web/udp/store
abbrev pub resize : Bytes
resize = codes "resize"

abbrev store_name : Bytes
store_name = codes "store"

decode-encode_example :
    received codec error_msg (a_string (codes "no")) ≡ some (an_error (codes "no"))
decode-encode_example =
    decode-encode codec error_msg (a_string (codes "no")) codec-IsLawful (ground arith)

messages_told_apart_example :
    (elim (new_chain_setup_request codec (tcp ∷ resize ∷ [])) [
      | none ↦ err wrong_message
      | some m ↦ accept_setup_request codec m
    ]
      ≡ ok (tcp ∷ resize ∷ []))
    × ((accept_setup_ack codec (new_chain_setup_ack codec (codes "a")) ≡ ok (codes "a"))
        × ((accept_data codec (new_chain_data codec (codes "d")) ≡ ok (codes "d"))
            × ((accept_setup_ack codec (new_chain_data codec (codes "d")) ≡ err wrong_message)
                × ((accept_data codec (new_chain_setup_ack codec (codes "a")) ≡ err wrong_message)
                    × ((accept_setup_ack codec (new_chain_error codec (codes "a"))
                          ≡ err wrong_message)
                        × ((accept_data codec (new_chain_error codec (codes "a"))
                              ≡ err wrong_message)
                            × (accept_setup_request codec (new_chain_error codec (codes "a"))
                                ≡ err wrong_message)))))))
messages_told_apart_example =
    messages_told_apart codec (tcp ∷ resize ∷ []) (codes "a") (codes "d") codec-IsLawful

abbrev pub chain : List Bytes
chain = tcp ∷ web_name ∷ []

set_up :
    setup_chain acking chain env
    ≡ some (ok (codes "near"), conn_qual_monitor (codes "near") web (codes "near") ∷ [], env_after)
unfolding setup_chain setup_chain_to await_chain resolve_service get_or_request get request add
    lookup store find_or_allocate get_peer rounds round find_service improve conclude same
    send_setup_request receive_setup_ack new_chain_setup_request encode_chain_data accept_setup_ack
    decode_chain_data expect_type same_type
set_up = refl

setup_chain-IsOpen_example :
    IsOpen acking chain env
      (codes "near")
      (conn_qual_monitor (codes "near") web (codes "near") ∷ [])
setup_chain-IsOpen_example =
    setup_chain-IsOpen acking chain env (codes "near")
      (conn_qual_monitor (codes "near") web (codes "near") ∷ []) env_after set_up

chain_setup_handler-Ended_example :
    (out : Done asking) × (chain_setup_handler asking web_name
        (codes "10.0.0.1:80")
        (codes "in")
        env
      ≡ some out)
    × Ended asking web_name (codes "10.0.0.1:80") tcp (codes "in") env 0 out
unfolding receive_setup_request accept_setup_request decode_chain_data expect_type same_type same
chain_setup_handler-Ended_example =
    chain_setup_handler-Ended asking web_name (codes "10.0.0.1:80") (codes "in") env 0 (tcp ∷ []) []
      refl refl (refl, tt) tt refl

-- The peer `near` answers in 5, and the registry's hard requirement for the service is 100; the peer
-- `dead` does not answer.
abbrev monitored : List RPeerInfo
monitored = record { r_count = 50; info = peer_for web_name web (codes "dead") } ∷ []

conn_qual_monitor_rounds-Watched_example :
    Watched acking (codes "dead") web (codes "near") monitored [] [] 3 0 (
      conn_qual_monitor_rounds acking 3 (codes "dead") web (codes "near") (cache monitored [] []) 0)
conn_qual_monitor_rounds-Watched_example =
    conn_qual_monitor_rounds-Watched acking (codes "dead") web (codes "near") monitored [] [] 3 0

-- A connection that takes all that is written to it, and streams on which every message is data.
abbrev pipes : Pipes
pipes = record {
  net = net (record { type = data_msg; payload = codes "hello" });
  Address = Bytes;
  write_conn = λ dst d s. (length d, none, s);
  write_to = λ dst a d s. (length d, none, s);
  read_conn = λ src max s. (ok (codes "hello"), s);
  close = λ conn s. s;
}

tcp_fwd_stream_to_conn_once_example :
    tcp_fwd_stream_to_conn pipes 2 3 (codes "in") (codes "conn") 0
    ≡ finish pipes
        (λ t. t)
        (some (fwd_by_one_write pipes (λ d s. (length d, none, s)) 3 (codes "in") 0))
tcp_fwd_stream_to_conn_once_example =
    tcp_fwd_stream_to_conn_once pipes 0 3 (codes "in") (codes "conn") 0 (λ d s h. omega arith)

abbrev pub acking_pipes : Pipes
acking_pipes = record {
  net = acking;
  Address = Bytes;
  write_conn = λ dst d s. (length d, none, s);
  write_to = λ dst a d s. (length d, none, s);
  read_conn = λ src max s. (ok (codes "hello"), s);
  close = λ conn s. s;
}

abbrev pub after_packet : Served acking_pipes
after_packet = (
  goes_on,
  of_chain (conn_qual_monitor (codes "near") web (codes "near"))
      ∷ fwd_to_client (codes "near") (codes "client")
      ∷ [],
  (codes "client", codes "near") ∷ [],
  env_after,
)

pub served : serve_packet acking_pipes chain (codes "client") (codes "d") [] env ≡ some after_packet
unfolding serve_packet first_try send_data setup_chain setup_chain_to await_chain resolve_service
    get_or_request get request add lookup store find_or_allocate get_peer rounds round find_service
    improve conclude same send_setup_request receive_setup_ack new_chain_setup_request
    encode_chain_data accept_setup_ack decode_chain_data expect_type same_type
served = refl
