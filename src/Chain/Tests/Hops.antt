-- ===== src/Chain/Tests/Hops.antt =====
-- A proxy in the middle of a chain, and the connections that a listener accepts, at concrete inputs.
use go_code_goes_here.Prelude.{◌≡◌, Bytes, codes, List, [], ◌∷◌, some}
use go_code_goes_here.World.Toy.{toy}
use go_code_goes_here.Locate.{Env}
use go_code_goes_here.Chain.Link.{Routine}
use go_code_goes_here.Chain.Serving.{tcp, udp}
use go_code_goes_here.Chain.Accept.{tcp_fwd_conn_to_serv}
use go_code_goes_here.Chain.Accept.Forwarding.{Forwarded, tcp_fwd_conn_to_serv-Forwarded}
use go_code_goes_here.Chain.Tests.Nets.{acking, env, web_name, toy-IsBounded}
use go_code_goes_here.Chain.Tests.{chain, resize}

-- /tcp/resize/udp/web
abbrev pub two_hops : List Bytes
two_hops = tcp ∷ resize ∷ udp ∷ web_name ∷ []

tcp_fwd_conn_to_serv-Forwarded_example :
    (out : List (Routine acking) × Env toy) × (tcp_fwd_conn_to_serv acking (codes "conn") chain env
      ≡ some out)
    × Forwarded acking (codes "conn") chain env out
tcp_fwd_conn_to_serv-Forwarded_example =
    tcp_fwd_conn_to_serv-Forwarded acking (codes "conn") chain env toy-IsBounded
