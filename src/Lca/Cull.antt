-- ===== src/Lca/Cull.antt =====
-- CullUnusedServices of lca/lca-allocator.go: stopping the services that served nothing for long.
pub mod Laws
use go_code_goes_here.Prelude.{
  ℕ, Bytes, codes, Bool, true, false, not, ◌&&◌, List, [], ◌∷◌, ◌++◌, Option, none, some, delete,
  ltb,
}
use go_code_goes_here.World.{Error, Result, ok, err}
use go_code_goes_here.Strconv.{ℤ, pos, negsuc, parse_int, trim_space}
use go_code_goes_here.Lca.Machine.{Machine}
use go_code_goes_here.Lca.Allocator.{Services}

-- Service
pub record Service : Type 0 where
  pub metrics_port : Bytes
  pub cid : Bytes

-- tslsr > 60
unfoldable pub is_over_time : ℤ → Bool
is_over_time (pos tslsr) = ltb 60 tslsr
is_over_time (negsuc n) = false

-- Whether what a service reports has it culled: a text that is no number does.
unfoldable pub is_unused : Bytes → Bool
is_unused body = elim (parse_int (trim_space body)) [
  | none ↦ true
  | some tslsr ↦ is_over_time tslsr
]

module _ (m : Machine) where
  open m use {State, Body, stop_container, delete_container, http_get, read_all}

  -- Whether the loop adds a service to the cull list.
  unfoldable pub should_cull : Bytes → State → Bool × State
  should_cull metrics_port s =
      let (resp, s') = http_get (codes "http://127.0.0.1:" ++ metrics_port) s in
      elim resp [
        | err e ↦ (true, s')
        | ok body ↦
            let (text, s'') = read_all body s' in
            elim text [ err e ↦ (true, s'') | ok text ↦ (is_unused text, s'') ]
      ]

  -- The first loop, over the map's entries in the order in which they come.
  unfoldable pub services_to_cull : Services → State → List Service × State
  services_to_cull [] s = ([], s)
  services_to_cull ((metrics_port, cid) ∷ rest) s =
      let (over, s') = should_cull metrics_port s in
      let (more, s'') = services_to_cull rest s' in
      elim over [
        | true ↦ (record { metrics_port = metrics_port; cid = cid } ∷ more, s'')
        | false ↦ (more, s'')
      ]

  -- The second loop. The results of the driver's calls are dropped.
  unfoldable pub cull_each : List Service → Services → State → Services × State
  cull_each [] services s = (services, s)
  cull_each (service ∷ rest) services s =
      cull_each rest (delete service.metrics_port services)
        (delete_container service.cid (stop_container service.cid s))

  unfoldable pub cull_unused_services : Services → State → Services × State
  cull_unused_services services s =
      let (culled, s') = services_to_cull services s in cull_each culled services s'
