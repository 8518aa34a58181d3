-- ===== src/Lca/Fleet/Running.antt =====
-- Which containers run while the allocator of lca/lca-allocator.go does: those of its map.
use go_code_goes_here.Prelude.{
  ◌≡◌, refl, ap, ◌∙◌, arith, Bytes, codes, ◌++◌, true, false, List, [], ◌∷◌, Option-cases,
  Bool-cases, inl, inr, same, same_iff, same_refl, All, All-map, All-delete, store, delete,
}
use go_code_goes_here.World.{Result-cases}
use go_code_goes_here.Lca.Wire.{write, read, start_program}
use go_code_goes_here.Lca.Machine.{Machine}
use go_code_goes_here.Lca.Allocator.{
  Services, launch, cmd_start_program, respond, answer, handle, submatches,
}
use go_code_goes_here.Lca.Cull.{
  Service, should_cull, services_to_cull, cull_each, cull_unused_services,
}
use go_code_goes_here.Lca.Fleet.Apart.{
  apart, ApartFrom, IsApart, IsNew, IsApart-delete, IsApart-store,
}
use go_code_goes_here.Lca.Fleet.Launching.{not_launched, launched, launch-Launched}
use go_code_goes_here.Lca.Fleet.{IsDocker, Fleet, handles, culls, elsewhere, Reach, begins, steps}

module _ (m : Machine) (docker : IsDocker m) (bootstraps : List Bytes) (s_psk : Bytes) where
  open m use {State, Stream, world, pull_image, run_container, get_ip_address, get_free_port}
  open docker use {runs}

  -- The container of each entry of the map runs, and no two entries share one.
  abbrev pub AllRun : Services → State → Type 0
  AllRun services s = All (λ e. runs e.1 s ≡ true) services

  -- Of a map and a state: the containers of the map run, each in one entry.
  abbrev pub IsSound : Services → State → Type 0
  IsSound services s = AllRun services s × IsApart services

  IsSound-calm :
      (services : Services) (s t : State)
      → ((c : Bytes) → runs c t ≡ runs c s)
      → IsSound services s
      → IsSound services t
  IsSound-calm services s t same_runs (run, is_apart) = (
    All-map {P = λ e. runs e.1 s ≡ true} {Q = λ e. runs e.1 t ≡ true} (λ e h. same_runs e.1 ∙ h)
        services run,
    is_apart,
  )

  -- A new container is none of the map's.
  IsNew-of_stopped :
      (cid : Bytes) (services : Services) (s : State)
      → runs cid s ≡ false
      → AllRun services s
      → IsNew cid services
  IsNew-of_stopped cid services s new run =
      All-map {P = λ e. runs e.1 s ≡ true} {Q = λ e. same cid e.1 ≡ false}
        (λ e h. elim (Bool-cases (same cid e.1)) [
          | inr b ↦ b
          | inl b ↦
              let i : cid ≡ e.1 = ground (arith, same_iff cid e.1, b) in
              absurd (ground (arith, h, new, ap (λ c. runs c s) i))
        ])
        services run

  cmd_start_program_keeps :
      (image : Bytes) (services : Services) (stream : Stream) (s : State)
      → IsSound services s
      → let (_, services', s') = cmd_start_program m bootstraps s_psk image services stream s in
        IsSound services' s'
  unfolding cmd_start_program store
  cmd_start_program_keeps image services stream s (run, is_apart) =
      let t = (launch m bootstraps s_psk image stream s).1 in
      elim (launch-Launched m docker bootstraps s_psk image stream s) [
        | not_launched e q keeps ↦
            rw (cmd_start_program, q)
              (
                All-map {P = λ e. runs e.1 s ≡ true} {Q = λ e. runs e.1 t ≡ true}
                    (λ e h. keeps e.1 h) services run,
                is_apart,
              )
        | launched port cid q new all ↦
            let new_one : runs cid t ≡ true = ground (arith, all cid, same_refl cid) in
            let others : AllRun services t =
              All-map {P = λ e. runs e.1 s ≡ true} {Q = λ e. runs e.1 t ≡ true}
                (λ e h. ground (arith, all e.1, h)) services run in
            rw (cmd_start_program, q)
              (
                (new_one, All-delete (λ e. runs e.1 t ≡ true) port services others),
                IsApart-store port cid services (IsNew-of_stopped cid services s new run) is_apart,
              )
      ]

  respond_keeps :
      (command image : Bytes) (services : Services) (stream : Stream) (s : State)
      → IsSound services s
      → let (_, services', s') = respond m bootstraps s_psk command image services stream s in
        IsSound services' s'
  unfolding respond write
  respond_keeps command image services stream s h =
      let (text, services', s') = cmd_start_program m bootstraps s_psk image services stream s in
      let h' = cmd_start_program_keeps image services stream s h in
      elim (Bool-cases (same command start_program)) [
        | inr b ↦ rw (respond, b) (IsSound-calm services s _ (λ c. docker.writes stream _ c s) h)
        | inl b ↦ elim (Bool-cases (same text [])) [
          | inl e ↦ rw (respond, b, e) h'
          | inr e ↦
              rw (respond, b, e) (IsSound-calm services' s' _ (λ c. docker.writes stream _ c s') h')
        ]
      ]

  answer-IsSound :
      (services : Services) (stream : Stream) (s : State)
      → IsSound services s
      → let (_, services', s') = answer m bootstraps s_psk services stream s in IsSound services' s'
  unfolding answer read
  answer-IsSound services stream s h =
      let s1 = (read world stream s).1 in
      let h1 =
        IsSound-calm services s s1
          (λ c. ground (arith, docker.reads stream c s, Result-cases (m.read_string stream s).0))
          h in
      elim (Result-cases (read world stream s).0) [
        | inr (e, q) ↦ rw (answer, q) h1
        | inl (str, q) ↦ elim (Option-cases (submatches str)) [
          | inl n ↦ rw (answer, q, n) h1
          | inr ((command, image), n) ↦
              rw (answer, q, n) (respond_keeps command image services stream s1 h1)
        ]
      ]

  handle-IsSound :
      (services : Services) (stream : Stream) (s : State)
      → IsSound services s
      → let (_, services', s') = handle m bootstraps s_psk services stream s in IsSound services' s'
  unfolding handle
  handle-IsSound services stream s h =
      let (_, services', s') = answer m bootstraps s_psk services stream s in
      IsSound-calm services' s' _ (λ c. docker.closes stream c s')
        (answer-IsSound services stream s h)

  -- The test of a service, and the first loop, leave the containers as they are.
  should_cull-calm : (port c : Bytes) (s : State) → runs c (should_cull m port s).1 ≡ runs c s
  unfolding should_cull
  should_cull-calm port c s =
      let url = codes "http://127.0.0.1:" ++ port in
      let (r, s1) = m.http_get url s in
      elim (Result-cases r) [
        | inr (e, q) ↦ rw (should_cull, q) (docker.gets url c s)
        | inl (body, q) ↦ ground (
          arith,
          q,
          docker.gets url c s,
          docker.reads_all body c s1,
          Result-cases (m.read_all body s1).0,
        )
      ]

  services_to_cull-calm :
      (services : Services) (c : Bytes) (s : State)
      → runs c (services_to_cull m services s).1 ≡ runs c s
  unfolding services_to_cull
  services_to_cull-calm [] c s = refl
  services_to_cull-calm ((port, cid) ∷ rest) c s =
      let s1 = (should_cull m port s).1 in
      ground (
        arith,
        should_cull-calm port c s,
        services_to_cull-calm rest c s1,
        Bool-cases (should_cull m port s).0,
      )

  -- The cull list is made of entries of the map.
  All-services_to_cull :
      (P : Bytes × Bytes → Type 0) (services : Services) (s : State)
      → All P services
      → All (λ v. P (v.metrics_port, v.cid)) (services_to_cull m services s).0
  unfolding services_to_cull
  All-services_to_cull P [] s h = tt
  All-services_to_cull P ((port, cid) ∷ rest) s h =
      let rest' = All-services_to_cull P rest (should_cull m port s).1 h.1 in
      elim (Bool-cases (should_cull m port s).0) [
        | inl e ↦ rw (services_to_cull, e) (h.0, rest')
        | inr e ↦ rw (services_to_cull, e) rest'
      ]

  -- A container that is stopped takes no other entry with it.
  AllRun-stop :
      (port cid : Bytes) (services : Services) (s : State)
      → ApartFrom (port, cid) services
      → AllRun services s
      → AllRun (delete port services) (m.delete_container cid (m.stop_container cid s))
  unfolding delete
  AllRun-stop port cid [] s h run = tt
  AllRun-stop port cid ((k, v) ∷ rest) s h run =
      let rest' = AllRun-stop port cid rest s h.1 run.1 in
      elim (Bool-cases (same k port)) [
        | inl e ↦ rw (delete, e) rest'
        | inr e ↦
            let t = m.stop_container cid s in
            let first : runs v (m.delete_container cid t) ≡ true = ground (
              arith,
              h.0,
              run.0,
              e,
              same_iff k port,
              same_iff port k,
              docker.deletes cid v t,
              docker.stops cid v s,
            ) in
            rw (delete, e) (first, rest')
      ]

  cull_each-IsSound :
      (culled : List Service) (services : Services) (s : State)
      → All (λ v. ApartFrom (v.metrics_port, v.cid) services) culled
      → IsSound services s
      → let (services', s') = cull_each m culled services s in IsSound services' s'
  unfolding cull_each
  cull_each-IsSound [] services s h sound = sound
  cull_each-IsSound (v ∷ rest) services s h (run, is_apart) =
      let left = delete v.metrics_port services in
      cull_each-IsSound rest left (m.delete_container v.cid (m.stop_container v.cid s))
        (All-map {P = λ w. ApartFrom (w.metrics_port, w.cid) services}
          {Q = λ w. ApartFrom (w.metrics_port, w.cid) left}
          (λ w i.
            All-delete (λ b. apart (w.metrics_port, w.cid) b ≡ true) v.metrics_port services i)
          rest h.1)
        (
          AllRun-stop v.metrics_port v.cid services s h.0 run,
          IsApart-delete v.metrics_port services is_apart,
        )

  cull_unused_services-IsSound :
      (services : Services) (s : State)
      → IsSound services s
      → let (services', s') = cull_unused_services m services s in IsSound services' s'
  unfolding cull_unused_services
  cull_unused_services-IsSound services s h =
      let (culled, s1) = services_to_cull m services s in
      cull_each-IsSound culled services s1
        (All-services_to_cull (λ a. ApartFrom a services) services s h.1)
        (IsSound-calm services s s1 (λ c. services_to_cull-calm services c s) h)

  -- As long as docker does what it documents, and nothing else stops the allocator's containers: after
  -- any sequence of handled streams and culls the container of each service of the map runs, and no two
  -- services share a container.
  pub Reach-IsSound :
      {f : Fleet m} → Reach m docker bootstraps s_psk f → IsSound f.services f.outside
  Reach-IsSound (begins s) = (tt, tt)
  Reach-IsSound (steps r (handles stream)) = handle-IsSound _ stream _ (Reach-IsSound r)
  Reach-IsSound (steps r culls) = cull_unused_services-IsSound _ _ (Reach-IsSound r)
  Reach-IsSound (steps r (elsewhere s h)) = IsSound-calm _ _ s h (Reach-IsSound r)
