-- ===== src/Lca/Tests/Dock.antt =====
-- The containers of an allocator at concrete inputs: on a host that can run one container, and whose
-- state tells whether it runs.
use go_code_goes_here.Prelude.{
  ℕ, refl, arith, Bytes, codes, Bool, ◌&&◌, [], same, same_iff, ltb, if◌then◌else◌,
}
use go_code_goes_here.World.{Result, ok, err, external}
use go_code_goes_here.Lca.Machine.{Machine, DockerConfig}
use go_code_goes_here.Lca.Allocator.{handle}
use go_code_goes_here.Lca.Fleet.{IsDocker, Fleet, behind, handles, begins, steps}
use go_code_goes_here.Lca.Fleet.Running.{IsSound, Reach-IsSound}
use go_code_goes_here.Lca.Tests.Hosts.{speaking, host}

abbrev the_one : Bytes
the_one = codes "container"

abbrev start : DockerConfig → ℕ → Result Bytes × ℕ
start config s = if ltb 0 s then (err (external (codes "full")), s) else (ok the_one, 1)

abbrev stop : Bytes → ℕ → ℕ
stop cid s = if same cid the_one then 0 else s

abbrev dock : Machine
dock = record (host (speaking (codes "start-program image\\n")) (codes "7\\n")) {
  run_container = start;
  stop_container = stop;
}

abbrev is_up : Bytes → ℕ → Bool
is_up c s = same the_one c && ltb 0 s

dock-IsDocker : IsDocker dock
dock-IsDocker = record {
  runs = is_up;
  starts_new = λ config s cid h. ground (arith, h);
  starts = λ config s cid c h. ground (arith, h, same_iff cid c, same_iff the_one c);
  fails = λ config s c h. ground (arith, h);
  stops = λ cid c s. ground (arith, same_iff cid the_one, same_iff cid c, same_iff the_one c);
  deletes = λ cid c s. refl;
  pulls = λ image c s. refl;
  finds_ip = λ c s. refl;
  finds_port = λ c s. refl;
  gets = λ url c s. refl;
  reads_all = λ body c s. refl;
  reads = λ stream c s. refl;
  writes = λ stream text c s. refl;
  closes = λ stream c s. refl;
}

abbrev grown : Fleet dock
grown =
    let (_, services, s) = handle dock [] (codes "key") [] (codes "in") 0 in behind dock services s

Reach-IsSound_example : IsSound dock dock-IsDocker [] (codes "key") grown.services grown.outside
Reach-IsSound_example =
    Reach-IsSound dock dock-IsDocker [] (codes "key") (steps (begins 0) (handles (codes "in")))
