-- ===== src/Lca/Membership/Hash.antt =====
-- The hash that NewLCAManager of lca/lca-manager.go keeps and advertises.
use go_code_goes_here.Prelude.{
  ◌≡◌, ◌≢◌, refl, inl, inr, Bytes, same, same_iff, [], none, arith, Option-cases, Bool-cases,
}
use go_code_goes_here.World.{ok}
use go_code_goes_here.Lca.Config.{NodeConfig}
use go_code_goes_here.Lca.Manager.{LcaManager}
use go_code_goes_here.Lca.Membership.{Member, answering, take_up, new_lca_manager}

-- A manager that stands for a service: without a name for none, else with the hash that the registry
-- answers.
pub data Represents (m : Member) (service : Bytes) (hash : Bytes) : Type 0 where
  nothing : service ≡ [] → hash ≡ [] → Represents m service hash
  registered :
      (s : m.State)
      → service ≢ []
      → (m.get_service service s).0.error ≡ none
      → (m.get_service service s).0.info.content_hash ≡ hash
      → Represents m service hash

module _ (m : Member) where
  open m use {State, get_service}

  -- NewLCAManager gives a manager that represents the service.
  pub new_lca_manager-Represents :
      (cfg : NodeConfig) (service address : Bytes) (s : State) (manager : LcaManager)
      → (new_lca_manager m cfg service address s).0 ≡ ok manager
      → Represents m service manager.p2p_hash
  unfolding new_lca_manager take_up
  new_lca_manager-Represents cfg service address s manager h =
      let (created, s') = m.new_node (answering address cfg) s in
      elim (Option-cases created) [
        | inr (e, c) ↦ absurd (ground (arith, c, h))
        | inl c ↦ elim (Bool-cases (same service [])) [
          | inl e ↦ nothing (ground (arith, same_iff service [], e)) (ground (arith, c, e, h))
          | inr e ↦ elim (Option-cases (get_service service s').0.error) [
            | inr (x, a) ↦ absurd (ground (arith, c, e, a, h))
            | inl a ↦
                registered s' (λ n. absurd (ground (arith, e, n, same_iff service []))) a
                  (ground (arith, c, e, a, h))
          ]
        ]
      ]

pub Represents-nothing : (m : Member) (hash : Bytes) → Represents m [] hash → hash ≡ []
Represents-nothing m hash (nothing e h) = h
Represents-nothing m hash (registered s e a h) = absurd (e refl)
