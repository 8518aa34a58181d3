-- ===== src/Lca/Machine.antt =====
-- What the allocator of lca/lca-allocator.go takes from outside: the docker driver, the helpers of
-- PhysarumSM/common that find addresses and ports, HTTP, and the streams of the world that it is in.
use go_code_goes_here.Prelude.{ℕ, Bytes, List, Option}
use go_code_goes_here.World.{World, Error, Result}

-- docker_driver.DockerConfig
pub record DockerConfig : Type 0 where
  pub image : Bytes
  pub network : Bytes
  pub env : List Bytes

pub record Machine : Type 1 where
  pub world : World
  pub open world use *
  -- docker_driver
  pub pull_image : Bytes → State → Option Error × State
  pub run_container : DockerConfig → State → Result Bytes × State
  pub stop_container : Bytes → State → State
  pub delete_container : Bytes → State → State
  -- util.GetIPAddress and util.GetFreePort
  pub get_ip_address : State → Result Bytes × State
  pub get_free_port : State → Result ℕ × State
  -- http.Get, up to the response, and ioutil.ReadAll of its body
  pub Body : Type 0
  pub http_get : Bytes → State → Result Body × State
  pub read_all : Body → State → Result Bytes × State
