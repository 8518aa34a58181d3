-- ===== src/Lca/Allocator/Replies.antt =====
-- The two ends of a request for an allocation: the handler of lca/lca-allocator.go that answers it, and
-- requestAlloc of lca/lca-manager.go that reads the answer.
use go_code_goes_here.Prelude.{
  ℕ, ◌<◌, ◌≡◌, Bytes, codes, List, [], ◌∷◌, ◌++◌, none, store, ◌==◌, if◌then◌else◌,
}
use go_code_goes_here.World.{World, Result, ok, err, bad_address}
use go_code_goes_here.Strconv.{itoa}
use go_code_goes_here.Lca.Wire.{newline, write, start_program}
use go_code_goes_here.Lca.Address.{IsAddress}
use go_code_goes_here.Lca.Machine.{Machine}
use go_code_goes_here.Lca.Manager.{request_alloc}
use go_code_goes_here.Lca.Allocator.{Services}
use go_code_goes_here.Lca.Allocator.Handling.{IsQuad}

-- What a read up to a newline returns of a text that was written.
abbrev pub first_line : Bytes → Bytes
first_line [] = []
first_line (c ∷ s) = let rest = first_line s in if c == newline then c ∷ [] else c ∷ rest

-- The manager's end of a line for one request: the states before and behind its write, by the text that
-- will have been written on the other end when it reads.
pub record Line (w : World) (stream : World.Stream w) (image_name : Bytes) : Type 0 where
  pub asking : Bytes → World.State w
  pub asked : Bytes → World.State w
  pub sends :
      (text : Bytes)
      → write w stream (start_program ++ codes " " ++ image_name) (asking text) ≡ (none, asked text)
  pub hears : (text : Bytes) → (w.read_string stream (asked text)).0 ≡ ok (first_line text)

module _ (w : World) (line_stream : World.Stream w) (image_name : Bytes)
    (line : Line w line_stream image_name) where
  -- What requestAlloc returns when a text was written on the other end.
  abbrev pub taken : Bytes → Result Bytes
  taken text = (request_alloc w line_stream image_name (line.asking text)).0

  -- Both ends agree: the service is recorded, and the manager gets an address; or the map is as it was,
  -- and the manager gets an error.
  pub data Agreed (services services' : Services) (text : Bytes) : Type 0 where
    started :
        (metrics_port cid address : Bytes)
        → services' ≡ store metrics_port cid services
        → IsAddress address
        → taken text ≡ ok address
        → Agreed services services' text
    refused : services' ≡ services → taken text ≡ err bad_address → Agreed services services' text

module _ (m : Machine) (bootstraps : List Bytes) (s_psk image_name : Bytes)
    (stream : World.Stream m.world) where
  open m use {
    State, world, pull_image, get_ip_address, get_free_port, run_container, write_string,
    close_stream,
  }

  -- The text with the address that a launch writes: the write of it ends the launch.
  record Launched (out : State) : Type 0 where
    ip : Bytes
    port : ℕ
    before : State
    is_quad : IsQuad ip
    is_port : port < 65536
    last :
        out
        ≡ (write_string stream
            ((ip ++ codes ":" ++ itoa port ++ codes "\n") ++ newline ∷ [])
            before).1
