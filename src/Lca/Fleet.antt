-- ===== src/Lca/Fleet.antt =====
-- The containers of the allocator in lca/lca-allocator.go over its whole run: its handler for streams and
-- CullUnusedServices, in any order. Each is one step; the mutex makes the accesses to the map atomic.
pub mod Apart
pub mod Launching
pub mod Running
use go_code_goes_here.Prelude.{◌≡◌, Bytes, Bool, true, false, not, ◌&&◌, ◌||◌, List, same, []}
use go_code_goes_here.World.{Result, ok}
use go_code_goes_here.Lca.Machine.{Machine, DockerConfig}
use go_code_goes_here.Lca.Allocator.{Services, handle}
use go_code_goes_here.Lca.Cull.{cull_unused_services}

module _ (m : Machine) where
  open m use {
    State, Stream, Body, pull_image, run_container, stop_container, delete_container,
    get_ip_address, get_free_port, http_get, read_all, read_string, write_string, close_stream,
  }

  -- What docker documents: a container that is started is new, and runs until it is stopped; and nothing
  -- else that the allocator calls stops a container or starts one.
  pub record IsDocker : Type 0 where
    pub runs : Bytes → State → Bool
    pub starts_new :
        (config : DockerConfig) (s : State) (cid : Bytes)
        → (run_container config s).0 ≡ ok cid
        → runs cid s ≡ false
    pub starts :
        (config : DockerConfig) (s : State) (cid c : Bytes)
        → (run_container config s).0 ≡ ok cid
        → runs c (run_container config s).1 ≡ (same cid c || runs c s)
    pub fails :
        (config : DockerConfig) (s : State) (c : Bytes)
        → runs c s ≡ true
        → runs c (run_container config s).1 ≡ true
    pub stops :
        (cid c : Bytes) (s : State) → runs c (stop_container cid s) ≡ (not (same cid c) && runs c s)
    pub deletes : (cid c : Bytes) (s : State) → runs c (delete_container cid s) ≡ runs c s
    pub pulls : (image c : Bytes) (s : State) → runs c (pull_image image s).1 ≡ runs c s
    pub finds_ip : (c : Bytes) (s : State) → runs c (get_ip_address s).1 ≡ runs c s
    pub finds_port : (c : Bytes) (s : State) → runs c (get_free_port s).1 ≡ runs c s
    pub gets : (url c : Bytes) (s : State) → runs c (http_get url s).1 ≡ runs c s
    pub reads_all : (body : Body) (c : Bytes) (s : State) → runs c (read_all body s).1 ≡ runs c s
    pub reads :
        (stream : Stream) (c : Bytes) (s : State) → runs c (read_string stream s).1 ≡ runs c s
    pub writes :
        (stream : Stream) (text c : Bytes) (s : State)
        → runs c (write_string stream text s).1 ≡ runs c s
    pub closes :
        (stream : Stream) (c : Bytes) (s : State) → runs c (close_stream stream s) ≡ runs c s

  pub record Fleet : Type 0 where
    pub services : Services
    pub outside : State

  abbrev pub behind : Services → State → Fleet
  behind services s = record { services = services; outside = s }

  -- A stream is handled, the minute is over, or something that leaves the containers as they are happens
  -- outside.
  pub data Step (docker : IsDocker) (bootstraps : List Bytes) (s_psk : Bytes) (f : Fleet)
      : Fleet → Type 0 where
    handles :
        (stream : Stream)
        → Step docker bootstraps s_psk f (
            let (_, services, s) = handle m bootstraps s_psk f.services stream f.outside in
            behind services s)
    culls :
        Step docker bootstraps s_psk f
          (let (services, s) = cull_unused_services m f.services f.outside in behind services s)
    elsewhere :
        (s : State)
        → ((c : Bytes) → docker.runs c s ≡ docker.runs c f.outside)
        → Step docker bootstraps s_psk f (record f { outside = s })

  pub data Reach (docker : IsDocker) (bootstraps : List Bytes) (s_psk : Bytes)
      : Fleet → Type 0 where
    begins : (s : State) → Reach docker bootstraps s_psk (record { services = []; outside = s })
    steps :
        {f g : Fleet}
        → Reach docker bootstraps s_psk f
        → Step docker bootstraps s_psk f g
        → Reach docker bootstraps s_psk g
