-- ===== src/Boot/Peers.antt =====
-- Which bootstraps and which PSK the node of a program has: main of allocator/allocator.go,
-- proxy/proxy.go and l4-proxy/l4-proxy.go.
use go_code_goes_here.Prelude.{
  ◌≡◌, ◌≢◌, refl, ap, subst, ◌∙◌, Bytes, List, [], ◌∷◌, Option, none, some, Option-cases,
  List-cases, inl, inr,
}
use go_code_goes_here.World.{ok}
use go_code_goes_here.Lca.Config.{NodeConfig}
use go_code_goes_here.Lca.Start.{Start, failed, absent, running}
use go_code_goes_here.Boot.Exits.{
  Started, starting, exiting, >>=-Started, then-Started, settle-Started,
}
use go_code_goes_here.Boot.Host.{
  Os, Config, Flags, Position, ProxyProgram, Mode-cases, proxy_position, l4_position,
}
use go_code_goes_here.Boot.{
  take_flags, some_of, choose_bootstraps, choose_psk, choose_psk_string, start_allocator,
  allocator_program, allocator_main, prepare, proxy_main, l4_main, serve_metrics, run_proxy,
}

-- The command line wins over the configuration file, which wins over the environment; and there is a
-- bootstrap.
pub data Preferred (os : Os) (flags : Flags) : List Bytes → Type 0 where
  by_flags : {bs : List Bytes} → flags.bootstraps ≡ bs → bs ≢ [] → Preferred os flags bs
  by_file :
      {bs : List Bytes} (config : Config)
      → flags.bootstraps ≡ []
      → config.bootstraps ≢ []
      → os.strings_to_multiaddrs config.bootstraps ≡ ok bs
      → bs ≢ []
      → Preferred os flags bs
  by_env :
      {bs : List Bytes}
      → flags.bootstraps ≡ []
      → os.get_env_bootstraps ≡ ok bs
      → bs ≢ []
      → Preferred os flags bs

pub data Keyed (os : Os) (flags : Flags) : Option Bytes → Type 0 where
  by_flag : {k : Bytes} → flags.psk ≡ some k → Keyed os flags (some k)
  by_variable : {k : Option Bytes} → flags.psk ≡ none → os.get_env_psk ≡ ok k → Keyed os flags k

abbrev pub IsConfigured : Os → Flags → NodeConfig → Type 0
IsConfigured os flags c = Preferred os flags c.bootstrap_peers × Keyed os flags c.psk

module _ (os : Os) (flags : Flags) (parses : (s : os.State) → (os.parse_flags s).0 ≡ flags) where
  open os use {State}

  pub take_flags_lem :
      (key_file : Bytes) (s : State) → Started (λ f. f.1 ≡ flags) (take_flags os key_file s)
  unfolding take_flags
  take_flags_lem key_file s =
      then-Started _ _ _
        (λ kf s. then-Started _ _ _ (λ _ s. then-Started _ _ _ (λ _ s. starting (parses s))))

module _ (os : Os) (flags : Flags) (parses : (s : os.State) → (os.parse_flags s).0 ≡ flags)
    (all_known : (b : Bytes) (bs : List Bytes) → os.strings_to_multiaddrs (b ∷ bs) ≢ ok []) where
  open os use {State}

  some_of-Preferred :
      (f : Flags) (env : List Bytes) (s : State)
      → f.bootstraps ≡ []
      → os.get_env_bootstraps ≡ ok env
      → Started (Preferred os f) (some_of os env s)
  unfolding some_of
  some_of-Preferred f [] s e h = exiting
  some_of-Preferred f (b ∷ bs) s e h = starting (by_env e h cc)

  choose_bootstraps-Preferred :
      (f : Flags) (config : Config) (s : State)
      → Started (Preferred os f) (choose_bootstraps os f config s)
  unfolding choose_bootstraps
  choose_bootstraps-Preferred f config s = elim (List-cases f.bootstraps) [
    | inr (b, bs, e) ↦ rw e (starting (by_flags refl cc))
    | inl e ↦ elim (List-cases config.bootstraps) [
      | inr (c, cs, e') ↦
          rw (e, e')
            (settle-Started _ s (λ a h.
              let named : c ∷ cs ≢ [] = cc in
              let known : a ≢ [] = λ n. all_known c cs (h ∙ ap ok n) in
              by_file (record config { bootstraps = c ∷ cs }) refl named h known))
      | inl e' ↦
          rw (e, e')
            (>>=-Started _ _ s
              (settle-Started {P = λ env. os.get_env_bootstraps ≡ ok env} _ s (λ a h. h))
              (λ env s' h. some_of-Preferred _ env s' refl h))
    ]
  ]

  choose_psk-Keyed : (f : Flags) (s : State) → Started (Keyed os f) (choose_psk os f.psk s)
  unfolding choose_psk
  choose_psk-Keyed f s = elim (Option-cases f.psk) [
    | inl e ↦ rw e (settle-Started _ _ (λ a h. by_variable refl h))
    | inr (k, e) ↦ rw e (starting (by_flag refl))
  ]

  prepare-IsConfigured :
      (key_file : Bytes) (position_of : List Bytes → Option Position) (s : State)
      → Started (λ x. IsConfigured os flags x.2) (prepare os key_file position_of s)
  unfolding prepare
  prepare-IsConfigured key_file position_of s =
      >>=-Started _ _ s (take_flags_lem os flags parses key_file s) (λ (key_flags, f) s1 e.
        then-Started _ _ s1 (λ position s2. then-Started _ _ s2 (λ priv s3.
          then-Started _ _ s3 (λ config s4.
            >>=-Started _ _ s4 (choose_bootstraps-Preferred f config s4) (λ bs s5 known.
              >>=-Started _ _ s5 (choose_psk-Keyed f s5) (λ psk s6 keyed.
                starting (
                  subst (λ f. Preferred os f bs) e known,
                  subst (λ f. Keyed os f psk) e keyed,
                )))))))

  serve_metrics-IsConfigured :
      (p : ProxyProgram) (s : State)
      → IsConfigured os flags p.config
      → Started (λ p. IsConfigured os flags p.config) (serve_metrics os p s)
  unfolding serve_metrics
  serve_metrics-IsConfigured p s h = elim (Mode-cases p.position.mode) [
    | inl e ↦ rw e (starting h)
    | inr e ↦ rw e (starting h)
  ]

  choose_psk_string-Keyed :
      (f : Flags) (s : State) → Started (λ x. Keyed os f x.0) (choose_psk_string os f.psk s)
  unfolding choose_psk_string
  choose_psk_string-Keyed f s = elim (Option-cases f.psk) [
    | inl e ↦ rw e (
        >>=-Started _ _ s (settle-Started {P = λ k. os.get_env_psk ≡ ok k} _ s (λ a h. h))
          (λ k s' h. starting (by_variable refl h)))
    | inr (k, e) ↦ rw e (starting (by_flag refl))
  ]

  allocator_program-IsConfigured :
      (c : NodeConfig) (passphrase : Bytes) (start : Start) (s : State)
      → IsConfigured os flags c
      → Started (λ p. IsConfigured os flags p.config) (allocator_program os c passphrase start, s)
  unfolding allocator_program
  allocator_program-IsConfigured c passphrase (failed e) s h = exiting
  allocator_program-IsConfigured c passphrase absent s h = starting h
  allocator_program-IsConfigured c passphrase (running peers) s h = starting h

  allocator_main-IsConfigured :
      (s : State) → Started (λ p. IsConfigured os flags p.config) (allocator_main os s)
  unfolding allocator_main start_allocator
  allocator_main-IsConfigured s =
      >>=-Started _ _ s (take_flags_lem os flags parses _ s) (λ (key_flags, f) s1 e.
        then-Started _ _ s1 (λ priv s2. then-Started _ _ s2 (λ config s3.
          >>=-Started _ _ s3 (choose_bootstraps-Preferred f config s3) (λ bs s4 known.
            >>=-Started _ _ s4 (choose_psk_string-Keyed f s4) (λ (psk, passphrase) s5 keyed.
              allocator_program-IsConfigured _ _ _ _
                (subst (λ f. Preferred os f bs) e known, subst (λ f. Keyed os f psk) e keyed))))))

  -- A program that starts, whichever of the three, has a node with at least one bootstrap: those of the
  -- flags, else those of the configuration file, else those of the environment; and the PSK of the
  -- flags, else the one of the environment. The flags do not depend on the state, and StringsToMultiaddrs
  -- does not turn some strings into no address.
  pub programs-IsConfigured :
      (s : State)
      → Started (λ p. IsConfigured os flags p.config) (allocator_main os s)
        × Started (λ p. IsConfigured os flags p.config) (proxy_main os s)
        × Started (λ p. IsConfigured os flags p.config) (l4_main os s)
  unfolding proxy_main l4_main run_proxy
  programs-IsConfigured s = (
    allocator_main-IsConfigured s,
    >>=-Started _ _ s (prepare-IsConfigured _ proxy_position s) (λ (position, f, config) s1 h.
        then-Started _ _ s1 (λ manager s2. serve_metrics-IsConfigured _ s2 h)),
    >>=-Started _ _ s (prepare-IsConfigured _ l4_position s)
        (λ (position, f, config) s1 h. then-Started _ _ s1 (λ manager s2. starting h)),
  )
