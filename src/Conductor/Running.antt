-- ===== src/Conductor/Running.antt =====
-- That the steps of crates/conductor_lib/src/conductor/base.rs which the admin functions take keep the
-- invariant of the configuration.
use rust_holochain.Base.{ℕ, refl, Option, none, some, List, [], ◌∷◌, Bool-cases, inl, inr}
use rust_holochain.Conductor.Dna.{Dna}
use rust_holochain.Base.Set.{contains}
use rust_holochain.Conductor.Config.{
  Configuration, AgentConfiguration, DnaConfiguration, InterfaceConfiguration,
}
use rust_holochain.Conductor.State.{
  Host, Instance, M, modify, stop_interface_by_id, start_interface, start_interface_by_id,
  stop_instance,
}
use rust_holochain.Conductor.Instances.{
  agent_config_to_id, build_callbacks, build_conductor_api, note_test_agent, check_dna_consistency,
  is_true, check_dna_consistency_from_all_sources, fix_dna, instantiate_from_config,
  insert_instance, for_each_in, get_p2p_config,
}
use rust_holochain.Conductor.Installing.{commit}
use rust_holochain.Conductor.Soundness.{
  Passes, IsSound, After, Keeps, Keeps-bind, Keeps-pure, Keeps-raise, Keeps-some_or, Keeps-unwrap,
  Keeps-guard, Keeps-gets, Keeps-if, Keeps-modify, Keeps-ignore, Keeps-check, Keeps-set_config,
  Keeps-save_config,
}
use rust_holochain.Conductor.Updates.{
  update_agent_address_by_id-Passes, update_dna_hash_by_id-Passes,
}

pub ruleset keeping = (
  Keeps-bind, Keeps-pure, Keeps-raise, Keeps-some_or, Keeps-unwrap, Keeps-guard, Keeps-gets,
  Keeps-if, Keeps-ignore, Keeps-save_config,
)

module _ {host : Host} where
  pub Keeps-commit : (c : Configuration) → Keeps host (commit host c)
  unfolding commit
  Keeps-commit c = Keeps-check c (λ p. Keeps-bind (Keeps-set_config c p) (λ u. Keeps-save_config))

  pub Keeps-stop_interface_by_id : (id : ℕ) → Keeps host (stop_interface_by_id host id)
  unfolding stop_interface_by_id
  Keeps-stop_interface_by_id id = record {
    keeps = λ st s. elim (Bool-cases (contains st.interface_threads id)) [
      | inl e ↦ elim (Bool-cases (host.takes_kill id)) [
        | inl e' ↦ rw (e, e') (record { used = s.used; stored = s.stored })
        | inr e' ↦ rw (e, e') s
      ]
      | inr e ↦ rw e s
    ];
  }

  Keeps-start_interface : (i : InterfaceConfiguration) → Keeps host (start_interface host i)
  unfolding start_interface
  Keeps-start_interface i = record {
    keeps = λ st s. elim (Bool-cases (contains st.interface_threads i.id)) [
      | inl e ↦ rw e s
      | inr e ↦ elim (Bool-cases (host.can_run i)) [
        | inl e' ↦ rw (e, e') (record { used = s.used; stored = s.stored })
        | inr e' ↦ rw (e, e') tt
      ]
    ];
  }

  pub Keeps-start_interface_by_id : (id : ℕ) → Keeps host (start_interface_by_id host id)
  unfolding start_interface_by_id
  Keeps-start_interface_by_id id = search (keeping, Keeps-start_interface)

  pub Keeps-insert_instance : (id : ℕ) (i : Instance) → Keeps host (insert_instance id i)
  unfolding insert_instance
  Keeps-insert_instance id i = record {
    keeps = λ st s. record { used = s.used; stored = s.stored };
  }

  pub Keeps-stop_instance : (id : ℕ) → Keeps host (stop_instance id)
  unfolding stop_instance
  Keeps-stop_instance id = Keeps-bind (Keeps-gets _) λ found.
      Keeps-bind (Keeps-some_or _ _)
        λ i. Keeps-bind (Keeps-guard _ _) λ u. Keeps-modify _ (λ st. refl) (λ st. refl)

  pub Keeps-for_each_in :
      {A : Type 0} (f : A → M (Unit {0})) (xs : List A)
      → ((x : A) → Keeps host (f x))
      → Keeps host (for_each_in f xs)
  unfolding for_each_in
  Keeps-for_each_in f [] k = Keeps-pure tt
  Keeps-for_each_in f (x ∷ xs) k = Keeps-bind (k x) (λ u. Keeps-for_each_in f xs k)

  Keeps-agent_config_to_id : (a : AgentConfiguration) → Keeps host (agent_config_to_id host a)
  unfolding agent_config_to_id
  Keeps-agent_config_to_id a = search keeping

  Keeps-build_callbacks : (a : AgentConfiguration) → Keeps host (build_callbacks host a)
  unfolding build_callbacks
  Keeps-build_callbacks a = search keeping

  pub Keeps-build_conductor_api : (id : ℕ) → Keeps host (build_conductor_api host id)
  unfolding build_conductor_api
  Keeps-build_conductor_api id = search (keeping, Keeps-build_callbacks) depth 20

  -- The configuration is replaced by one that passes.
  Keeps-update :
      (f : Configuration → Configuration)
      → ((c : Configuration) → Passes host c → Passes host (f c))
      → Keeps host (modify (λ st. record st { config = f st.config }))
  unfolding modify
  Keeps-update f p = record {
    keeps = λ st s. record { used = p st.config s.used; stored = s.stored };
  }

  Keeps-note_test_agent :
      (a : AgentConfiguration) (address : ℕ) → Keeps host (note_test_agent host a address)
  unfolding note_test_agent
  Keeps-note_test_agent a address =
      Keeps-if (is_true a.test_agent)
        (Keeps-bind (Keeps-update _ (update_agent_address_by_id-Passes host a.id address))
          (λ u. Keeps-save_config))
        (Keeps-pure tt)

  Keeps-check_dna_consistency : (a b : ℕ) → Keeps host (check_dna_consistency a b)
  unfolding check_dna_consistency
  Keeps-check_dna_consistency a b = search keeping

  Keeps-from_all_sources : (a b c : ℕ) → Keeps host (check_dna_consistency_from_all_sources a b c)
  unfolding check_dna_consistency_from_all_sources
  Keeps-from_all_sources a b c = search keeping

  Keeps-fix_dna :
      (d : DnaConfiguration) (dna : Dna) (uuid : Option ℕ) → Keeps host (fix_dna host d dna uuid)
  unfolding fix_dna
  Keeps-fix_dna d dna (some uuid) =
      Keeps-bind (Keeps-update _ (update_dna_hash_by_id-Passes host d.id _))
        λ u. Keeps-bind Keeps-save_config λ u. Keeps-pure _
  Keeps-fix_dna d dna none = Keeps-bind (by_file (host.load d.file)) λ u. Keeps-pure dna
    where
      by_file :
          (found : Option Dna)
          → Keeps host (elim found [
            | none ↦ check_dna_consistency d.hash (host.address_of dna)
            | some again ↦
                check_dna_consistency_from_all_sources d.hash
                  (host.address_of dna)
                  (host.address_of again)
          ])
      by_file none = Keeps-check_dna_consistency d.hash (host.address_of dna)
      by_file (some again) =
          Keeps-from_all_sources d.hash (host.address_of dna) (host.address_of again)

  Keeps-get_p2p_config : Keeps host get_p2p_config
  unfolding get_p2p_config
  Keeps-get_p2p_config = search keeping

  pub Keeps-instantiate_from_config : (id : ℕ) → Keeps host (instantiate_from_config host id)
  unfolding instantiate_from_config
  Keeps-instantiate_from_config id = Keeps-bind (Keeps-gets _) λ c. Keeps-check c λ p.
      search
        (
          keeping, Keeps-agent_config_to_id, Keeps-note_test_agent, Keeps-build_conductor_api,
          Keeps-fix_dna, Keeps-get_p2p_config,
        )
        depth 40
