-- ===== src/Lca/Fleet/Launching.antt =====
-- What cmdStartProgram of lca/lca-allocator.go does to the containers, up to its access to the map.
use go_code_goes_here.Prelude.{
  ◌≡◌, refl, ap, sym, ◌∙◌, arith, Bytes, codes, ◌++◌, true, false, ◌||◌, List, Option, none, some,
  same,
}
use go_code_goes_here.World.{Error, Result, ok, err}
use go_code_goes_here.Strconv.{itoa}
use go_code_goes_here.Lca.Wire.{write}
use go_code_goes_here.Lca.Machine.{Machine, DockerConfig}
use go_code_goes_here.Lca.Allocator.{launch, docker_config}
use go_code_goes_here.Lca.Fleet.{IsDocker}

module _ (m : Machine) (docker : IsDocker m) (bootstraps : List Bytes) (s_psk : Bytes) where
  open m use {State, Stream, world, pull_image, run_container, get_ip_address, get_free_port}
  open docker use {runs}

  -- What launch does to the containers: on an error none stops; else a new one runs beside the others.
  pub data Launched (s : State) (out : Result (Bytes × Bytes) × State) : Type 0 where
    not_launched :
        (e : Error)
        → out.0 ≡ err e
        → ((c : Bytes) → runs c s ≡ true → runs c out.1 ≡ true)
        → Launched s out
    launched :
        (port cid : Bytes)
        → out.0 ≡ ok (port, cid)
        → runs cid s ≡ false
        → ((c : Bytes) → runs c out.1 ≡ (same cid c || runs c s))
        → Launched s out

  abbrev pub Out : Type 0
  Out = Result (Bytes × Bytes) × State

  -- What leaves the containers as they are may come first.
  after_calm :
      {s t : State} {out : Out}
      → ((c : Bytes) → runs c t ≡ runs c s)
      → Launched t out
      → Launched s out
  after_calm {s} {t} {out} same_runs (not_launched e q keeps) =
      not_launched e q (λ c h. keeps c (same_runs c ∙ h))
  after_calm {s} {t} {out} same_runs (launched port cid q new all) =
      launched port cid q (sym (same_runs cid) ∙ new)
        (λ c. all c ∙ ap (λ b. same cid c || b) (same_runs c))

  calm :
      {A : Type 0} {s t : State} (r : Result A) (next : A → Out)
      → ((c : Bytes) → runs c t ≡ runs c s)
      → ((a : A) → Launched t (next a))
      → Launched s (elim r as (λ x. Out) [ ok a ↦ next a | err e ↦ (err e, t) ])
  calm (ok a) next same_runs rest = after_calm same_runs (rest a)
  calm (err e) next same_runs rest = not_launched e refl (λ c h. same_runs c ∙ h)

  calm_check :
      {s t : State} (o : Option Error) (next : Out)
      → ((c : Bytes) → runs c t ≡ runs c s)
      → Launched t next
      → Launched s (elim o as (λ x. Out) [ none ↦ next | some e ↦ (err e, t) ])
  calm_check none next same_runs rest = after_calm same_runs rest
  calm_check (some e) next same_runs rest = not_launched e refl (λ c h. same_runs c ∙ h)

  written :
      {s u : State} (port cid : Bytes) (o : Option Error)
      → runs cid s ≡ false
      → ((c : Bytes) → runs c u ≡ (same cid c || runs c s))
      → Launched s (elim o as (λ x. Out) [ none ↦ (ok (port, cid), u) | some e ↦ (err e, u) ])
  written port cid none new all = launched port cid refl new all
  written port cid (some e) new all = not_launched e refl (λ c h. ground (arith, all c, h))

  -- The container is started, and its address written.
  run_and_write :
      (config : DockerConfig) (stream : Stream) (text port : Bytes) (s : State) (r : Result Bytes)
      → (run_container config s).0 ≡ r
      → let t = (run_container config s).1 in
        let (o, u) = write world stream text t in
        Launched s (elim r as (λ x. Out) [
          | ok cid ↦ elim o as (λ x. Out) [ none ↦ (ok (port, cid), u) | some e ↦ (err e, u) ]
          | err e ↦ (err e, t)
        ])
  unfolding write
  run_and_write config stream text port s (err e) q = not_launched e refl (docker.fails config s)
  run_and_write config stream text port s (ok cid) q =
      let t = (run_container config s).1 in
      let all : (c : Bytes) → runs c (write world stream text t).1 ≡ (same cid c || runs c s) =
        λ c. docker.writes stream _ c t ∙ docker.starts config s cid c q in
      written port cid (write world stream text t).0 (docker.starts_new config s cid q) all

  pub launch-Launched :
      (image : Bytes) (stream : Stream) (s : State)
      → Launched s (launch m bootstraps s_psk image stream s)
  unfolding launch
  launch-Launched image stream s =
      let s1 = (pull_image image s).1 in
      let s2 = (get_ip_address s1).1 in
      let s3 = (get_free_port s2).1 in
      let s4 = (get_free_port s3).1 in
      let s5 = (get_free_port s4).1 in
      let config = docker_config m bootstraps s_psk image in
      calm_check (pull_image image s).0 _ (λ c. docker.pulls image c s)
        (calm (get_ip_address s1).0 _ (λ c. docker.finds_ip c s1)
          (λ ip.
            calm (get_free_port s2).0 _ (λ c. docker.finds_port c s2)
              (λ pp.
                calm (get_free_port s3).0 _ (λ c. docker.finds_port c s3)
                  (λ sp.
                    calm (get_free_port s4).0 _ (λ c. docker.finds_port c s4)
                      (λ mp.
                        run_and_write (config ip pp sp mp) stream
                          (ip ++ codes ":" ++ itoa sp ++ codes "\n") (itoa mp) s5 _ refl)))))
