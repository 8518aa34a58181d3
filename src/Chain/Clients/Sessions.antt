-- ===== src/Chain/Clients/Sessions.antt =====
-- udpServiceProxy of l4-proxy/udp-proxy.go over its whole run: its loop, and the callback for closed
-- streams, which stays registered when the function has returned. The mutex of the map makes the
-- callback wait; a round of the loop is one step.
use go_code_goes_here.Prelude.{◌≡◌, Bytes, Bool, true, false, List, [], some}
use go_code_goes_here.Locate.{Env}
use go_code_goes_here.Chain.Forward.{Pipes}
use go_code_goes_here.Chain.Clients.{
  Turn, goes_on, returned, Clients, Served, serve_packet, on_closed_stream,
}

-- Whether a round leaves the mutex locked, and whether it ends the loop.
abbrev pub locks : Turn → Bool
locks goes_on = false
locks (returned locked) = locked

abbrev pub ends : Turn → Bool
ends goes_on = false
ends (returned locked) = true

module _ (pipes : Pipes) where
  open pipes use {State, Stream, net, world, reset, new_stream}

  pub record Sessions : Type 0 where
    pub clients : Clients pipes
    pub locked : Bool
    pub over : Bool
    pub env : Env world

  abbrev pub behind : Served pipes → Sessions
  behind out = record { clients = out.2; locked = locks out.0; over = ends out.0; env = out.3 }

  -- A round for a packet, a failed read, a closed stream of a protocol, or something else that changes
  -- the caches and the world. `is_it` tells the closed stream from the others.
  pub data Step (spec : List Bytes) (u : Sessions) : Sessions → Type 0 where
    packet :
        {out : Served pipes} (from d : Bytes)
        → u.over ≡ false
        → u.locked ≡ false
        → serve_packet pipes spec from d u.clients u.env ≡ some out
        → Step spec u (behind out)
    failed_read : u.over ≡ false → Step spec u (record u { over = true })
    closing :
        (protocol : Bytes) (is_it : Stream → Bool)
        → u.locked ≡ false
        → Step spec u (record u { clients = on_closed_stream pipes protocol is_it u.clients })
    elsewhere : (env' : Env world) → Step spec u (record u { env = env' })

  abbrev pub begin : Env world → Sessions
  begin env = record { clients = []; locked = false; over = false; env = env }

  pub data Reach (spec : List Bytes) (env : Env world) : Sessions → Type 0 where
    begins : Reach spec env (begin env)
    steps : {u v : Sessions} → Reach spec env u → Step spec u v → Reach spec env v
