-- ===== src/Lca/Allocator.antt =====
-- lca/lca-allocator.go: starting containers on request.
pub mod Handling
pub mod Replies
use go_code_goes_here.Prelude.{
  ℕ, ◌≡◌, refl, Bytes, codes, Bool, true, false, ◌&&◌, ◌||◌, List, [], ◌∷◌, ◌++◌, Option, none,
  some, store, same, join, leb, ◌==◌, if◌then◌else◌,
}
use go_code_goes_here.World.{World, Error, Result, ok, err}
use go_code_goes_here.Strconv.{itoa}
use go_code_goes_here.Lca.Wire.{write, read, start_program, err_unrecognized, err_alloc_fail}
use go_code_goes_here.Lca.Machine.{Machine, DockerConfig}

-- LCAAllocator.services: the containers by the port of their metrics. The mutex makes each access
-- atomic.
abbrev pub Services : Type 0
Services = List (Bytes × Bytes)

-- \s in Go's regular expressions
unfoldable pub is_regexp_space : ℕ → Bool
is_regexp_space c = c == b' ' || c == b'\t' || c == b'\n' || c == 12 || c == b'\r'

-- The submatches of (.*?)\s(.*?)$ on a line with no newline inside: what stands before the first white
-- space and behind it; `none` where the expression does not match and the list of submatches is nil.
unfoldable pub submatches : Bytes → Option (Bytes × Bytes)
unfolding is_regexp_space
submatches [] = none
submatches (c ∷ s) =
    let later : Option (Bytes × Bytes) = elim (submatches s) [
      | none ↦ none
      | some (a, b) ↦ some (c ∷ a, b)
    ] in
    if is_regexp_space c then some ([], s) else later

-- `panicked` is an index out of range in the list of submatches; nothing recovers it.
pub data Exit : Type 0 where
  returned panicked : Exit

module _ (m : Machine) where
  open m use {
    State, Stream, world, pull_image, run_container, get_ip_address, get_free_port, close_stream,
  }

  infixl 5 ◌>>=◌ ◌>>◌
  -- a step that may fail; every failure ends cmdStartProgram in the same way
  abbrev ◌>>=◌ :
      {A B : Type 0}
      → (State → Result A × State)
      → (A → State → Result B × State)
      → State
      → Result B × State
  ◌>>=◌ step next s = let (r, s') = step s in elim r [ ok a ↦ next a s' | err e ↦ (err e, s') ]

  abbrev ◌>>◌ :
      {B : Type 0}
      → (State → Option Error × State)
      → (State → Result B × State)
      → State
      → Result B × State
  ◌>>◌ step next s = let (e, s') = step s in elim e [ none ↦ next s' | some e ↦ (err e, s') ]

  abbrev pub docker_config : List Bytes → Bytes → Bytes → Bytes → ℕ → ℕ → ℕ → DockerConfig
  docker_config bootstraps s_psk image_name ip_address pp sp mp = record {
    image = image_name;
    network = codes "host";
    env =
        (codes "PROXY_IP=" ++ ip_address)
        ∷ (codes "PROXY_PORT=" ++ itoa pp)
        ∷ (codes "SERVICE_PORT=" ++ itoa sp)
        ∷ (codes "METRICS_PORT=" ++ itoa mp)
        ∷ (codes "P2P_BOOTSTRAPS=" ++ join bootstraps (codes " "))
        ∷ (codes "P2P_PSK=" ++ s_psk)
        ∷ [];
  }

  -- The steps of cmdStartProgram up to the write of the address: the metrics port and the container.
  unfoldable pub launch :
      List Bytes → Bytes → Bytes → Stream → State → Result (Bytes × Bytes) × State
  launch bootstraps s_psk image_name rw_stream = do
    pull_image image_name
    ip_address ← get_ip_address
    pp ← get_free_port
    sp ← get_free_port
    mp ← get_free_port
    cid ← run_container (docker_config bootstraps s_psk image_name ip_address pp sp mp)
    write world rw_stream (ip_address ++ codes ":" ++ itoa sp ++ codes "\n")
    λ s. (ok (itoa mp, cid), s)

  -- cmdStartProgram: the error text, the map and the world. The bootstraps are their texts.
  unfoldable pub cmd_start_program :
      List Bytes → Bytes → Bytes → Services → Stream → State → Bytes × Services × State
  cmd_start_program bootstraps s_psk image_name services rw_stream s =
      let (r, s') = launch bootstraps s_psk image_name rw_stream s in
      elim r [
        | err e ↦ (err_alloc_fail, services, s')
        | ok (metrics_port, cid) ↦ ([], store metrics_port cid services, s')
      ]

  -- the answer to a command; a failed write is only logged
  unfoldable pub respond :
      List Bytes → Bytes → Bytes → Bytes → Services → Stream → State → Exit × Services × State
  respond bootstraps s_psk command image_name services stream s =
      if same command start_program
      then (let (result, services', s') =
            cmd_start_program bootstraps s_psk image_name services stream s in
          if same result []
          then (returned, services', s')
          else (returned, services', (write world stream result s').1))
      else (returned, services, (write world stream err_unrecognized s).1)

  -- The handler that NewLCAHandler makes, run on one stream, up to its deferred call: how it ends, the
  -- map and the world.
  unfoldable pub answer : List Bytes → Bytes → Services → Stream → State → Exit × Services × State
  answer bootstraps s_psk services stream s =
      let (r, s') = read world stream s in
      elim r [
        | err e ↦ (returned, services, s')
        | ok str ↦ elim (submatches str) [
          | none ↦ (panicked, services, s')
          | some (command, image_name) ↦
              respond bootstraps s_psk command image_name services stream s'
        ]
      ]

  -- The handler. The deferred Close is made however it ends.
  unfoldable pub handle : List Bytes → Bytes → Services → Stream → State → Exit × Services × State
  handle bootstraps s_psk services stream s =
      let (exit, services', s') = answer bootstraps s_psk services stream s in
      (exit, services', close_stream stream s')
