-- ===== src/Chain/Tests/Sessions.antt =====
-- The clients of udpServiceProxy at concrete inputs.
use go_code_goes_here.Prelude.{◌≡◌, refl, Bytes, codes, true, List, [], ◌∷◌, some, same, lookup}
use go_code_goes_here.World.{err, unknown_protocol}
use go_code_goes_here.Chain.Setup.{setup_chain, chain_setup_proto_id}
use go_code_goes_here.Chain.Clients.{returned, Served, serve_packet, on_closed_stream}
use go_code_goes_here.Chain.Clients.Sessions.{
  Sessions, behind, Reach, begins, steps, packet, begin, elsewhere,
}
use go_code_goes_here.Chain.Clients.Callback.{closed_client_stays}
use go_code_goes_here.Chain.Clients.Mutex.{stay, go, IsStuck, failed_setup_locks}
use go_code_goes_here.Chain.Tests.Nets.{env, env_after}
use go_code_goes_here.Chain.Tests.{acking_pipes, chain, after_packet, served}

-- One client has sent a packet.
abbrev one_client : Sessions acking_pipes
one_client = behind acking_pipes after_packet

one_client-Reach : Reach acking_pipes chain env one_client
one_client-Reach = steps begins (packet (codes "client") (codes "d") refl refl served)

closed_client_stays_example :
    on_closed_stream acking_pipes chain_setup_proto_id
      (λ v. same v (codes "near"))
      one_client.clients
    ≡ one_client.clients
unfolding lookup same
closed_client_stays_example =
    closed_client_stays acking_pipes (λ v. chain_setup_proto_id) (codes "client") (codes "near")
      (λ v. same v (codes "near")) (λ id s v e. refl) one_client-Reach refl

-- A chain that starts with no protocol cannot be set up.
abbrev bad_chain : List Bytes
bad_chain = codes "web" ∷ codes "web" ∷ []

abbrev fresh : Sessions acking_pipes
fresh = begin acking_pipes env

bad_setup : setup_chain acking_pipes.net bad_chain env ≡ some (err unknown_protocol, [], env)
unfolding setup_chain same
bad_setup = refl

abbrev refused : Served acking_pipes
refused = (returned true, [], [], env)

bad_packet : serve_packet acking_pipes bad_chain (codes "client") (codes "d") [] env ≡ some refused
unfolding serve_packet setup_chain same lookup
bad_packet = refl

abbrev later : Sessions acking_pipes
later = record (behind acking_pipes refused) { env = env_after }

failed_setup_locks_example : IsStuck acking_pipes [] later
unfolding lookup
failed_setup_locks_example =
    failed_setup_locks acking_pipes bad_chain (codes "client") (codes "d") fresh later
      unknown_protocol [] env refused refl bad_setup bad_packet (go stay (elsewhere env_after))
