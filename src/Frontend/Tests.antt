-- ===== src/Frontend/Tests.antt =====
-- Requests to the proxy's HTTP interface, at concrete inputs.
use go_code_goes_here.Prelude.{
  ℕ, ◌+◌, ◌≡◌, ◌≢◌, refl, arith, Bytes, codes, List, [], ◌∷◌, same, split, trim_prefix, trim_suffix,
  join, lookup, store,
}
use go_code_goes_here.World.{ok}
use go_code_goes_here.Frontend.{
  split_uri_path, Ports, Forwarders, tcp_worker, udp_worker, open_tcp_proxy, serve_chain,
  request_handler,
}
use go_code_goes_here.Frontend.Uri.{split_uri_path-join}
use go_code_goes_here.Frontend.Reuse.{request_handler_again}

-- A path that starts with two slashes has no components.
double_slash : split_uri_path (codes "//tcp/web") ≡ []
unfolding split_uri_path split trim_prefix trim_suffix same
double_slash = refl

split_uri_path-join_example : split_uri_path (codes "/tcp/web") ≡ codes "tcp" ∷ codes "web" ∷ []
unfolding join
split_uri_path-join_example =
    split_uri_path-join b't' (codes "cp") (codes "web" ∷ []) (codes "tcp" ∷ []) (codes "we") b'b'
      (ground arith) refl (λ e. omega (arith, e))

-- Every listener gets the address :9000.
abbrev ports : Ports
ports = record {
  State = ℕ;
  listen_tcp = λ address s. (ok (codes ":9000"), s + 1);
  resolve_udp = λ address s. (ok address, s);
  listen_udp = λ address s. (ok (codes ":9000"), s + 1);
  error_text = λ e. codes "error";
}

abbrev host : Bytes
host = codes "10.0.0.1"

abbrev chain : List Bytes
chain = codes "tcp" ∷ codes "web" ∷ []

abbrev after_tcp : Forwarders
after_tcp = (codes "tcp/web", record { listen_addr = codes ":9000"; worker = tcp_worker }) ∷ []

abbrev after_udp : Forwarders
after_udp = (codes "tcp/web", record { listen_addr = codes ":9000"; worker = udp_worker }) ∷ []

request_handler_again_example :
    request_handler ports host [] (codes "/tcp/web") after_tcp 7
    ≡ (record { status = 200; text = codes ":9000\n" }, [], after_tcp, 7)
unfolding request_handler serve_chain open_tcp_proxy lookup store join same split_uri_path split
    trim_prefix trim_suffix
request_handler_again_example =
    request_handler_again ports host [] (codes "/tcp/web") [] 0
      (record { status = 200; text = codes ":9000\n" })
      (record { worker = tcp_worker; listen_addr = codes ":9000"; chain_spec = chain } ∷ [])
      after_tcp 1 7 refl refl

chains_differ : (codes "tcp" ∷ codes "web" ∷ []) ≢ (codes "tcp" ∷ codes "db" ∷ [])
chains_differ e = cc
