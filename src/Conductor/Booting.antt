-- ===== src/Conductor/Booting.antt =====
-- What making an instance keeps of the conductor: the steps of instantiate_from_config of
-- crates/conductor_lib/src/conductor/base.rs.
use rust_holochain.Base.{
  ℕ, ◌≡◌, refl, ap, sym, subst, Bool, true, false, Option, none, some, List, [], ◌∷◌, map, ◌==◌,
  if◌then◌else◌, arith, Bool-cases, inl, inr, All, is_some, ◌∙◌,
}
use rust_holochain.Base.Map
use rust_holochain.Base.Map.{Map, get, get-insert}
use rust_holochain.Conductor.Dna.{Dna}
use rust_holochain.Conductor.Config.{
  Configuration, AgentConfiguration, DnaConfiguration, Bridge, find, agent_by_id, dna_by_id,
  instance_by_id,
}
use rust_holochain.Conductor.State.{
  Host, Instance, Conductor, M, ◌>>=◌, pure, some_or, unwrap, guard, modify, save_config, returned,
  raised, io, Write, whole_write, short_write, failed_write, SavedFile, whole_file, cut_file,
}
use rust_holochain.Conductor.Instances.{
  agent_config_to_id, connect, build_callbacks, note_test_agent, check_dna_consistency, is_true,
  check_dna_consistency_from_all_sources, fix_dna, update_agent_address_by_id,
  update_dna_hash_by_id, set_hash, networks_up, get_p2p_config, build_tracer,
}
use rust_holochain.Conductor.Ending.{
  Ends, Ends-bind, Ends-imp, Ends-pure, Ends-some_or, Ends-unwrap, Ends-guard, Ends-gets,
}

-- What stays of the conductor while its instances are made: the identifiers of instances, agents and
-- DNAs, the references between them, the bridges, the interfaces of both kinds, and the instances there are.
pub record Keeping (st st' : Conductor) : Type 0 where
  pub instances_kept : st'.config.instances ≡ st.config.instances
  pub bridges_kept : st'.config.bridges ≡ st.config.bridges
  pub interfaces_kept : st'.config.interfaces ≡ st.config.interfaces
  pub uis_kept : st'.config.ui_interfaces ≡ st.config.ui_interfaces
  pub agents_kept : (k : ℕ) → is_some (agent_by_id st'.config k) ≡ is_some (agent_by_id st.config k)
  pub dnas_kept : (k : ℕ) → is_some (dna_by_id st'.config k) ≡ is_some (dna_by_id st.config k)
  pub running_kept : st'.instances ≡ st.instances

pub Keeping-refl : (st : Conductor) → Keeping st st
Keeping-refl st = record {
  instances_kept = refl;
  bridges_kept = refl;
  interfaces_kept = refl;
  uis_kept = refl;
  agents_kept = λ k. refl;
  dnas_kept = λ k. refl;
  running_kept = refl;
}

pub Keeping-trans : {st st' st'' : Conductor} → Keeping st st' → Keeping st' st'' → Keeping st st''
Keeping-trans p q = record {
  instances_kept = q.instances_kept ∙ p.instances_kept;
  bridges_kept = q.bridges_kept ∙ p.bridges_kept;
  interfaces_kept = q.interfaces_kept ∙ p.interfaces_kept;
  uis_kept = q.uis_kept ∙ p.uis_kept;
  agents_kept = λ k. q.agents_kept k ∙ p.agents_kept k;
  dnas_kept = λ k. q.dnas_kept k ∙ p.dnas_kept k;
  running_kept = q.running_kept ∙ p.running_kept;
}

pub Keeping-of_same : {st st' : Conductor} → st' ≡ st → Keeping st st'
Keeping-of_same {st} e = subst (Keeping st) (sym e) (Keeping-refl st)

Ends-save_config :
    (host : Host) (st : Conductor) → Ends (λ u st'. Keeping st st') (save_config host st)
unfolding save_config
Ends-save_config host st = elim (Bool-cases (host.can_create st.config)) [
  | inl e ↦ rw e (written (host.write st.config))
  | inr e ↦ rw e tt
]
  where
    saved_as : (file' : SavedFile) → Keeping st (record st { saved = file' })
    saved_as file' = record {
      instances_kept = refl;
      bridges_kept = refl;
      interfaces_kept = refl;
      uis_kept = refl;
      agents_kept = λ k. refl;
      dnas_kept = λ k. refl;
      running_kept = refl;
    }

    written :
        (w : Write)
        → Ends {A = Unit {0}}
            (λ u st'. Keeping st st')
            (elim w [
              | whole_write ↦ returned tt (record st { saved = whole_file st.config })
              | short_write ↦ returned tt (record st { saved = cut_file })
              | failed_write ↦ raised io (record st { saved = cut_file })
            ])
    written whole_write = saved_as (whole_file st.config)
    written short_write = saved_as cut_file
    written failed_write = tt

agents_updated :
    (id address k : ℕ) (xs : List AgentConfiguration)
    → is_some (
        find
          (λ (a : AgentConfiguration). a.id == k)
          (map
            (λ (a : AgentConfiguration).
              if a.id == id then record a { public_address = address } else a)
            xs))
      ≡ is_some (find (λ (a : AgentConfiguration). a.id == k) xs)
agents_updated id address k [] = refl
agents_updated id address k (x ∷ xs) = elim (Bool-cases (x.id == id)) [
  | inl e ↦ rw e (ground (arith, agents_updated id address k xs))
  | inr e ↦ rw e (ground (arith, agents_updated id address k xs))
]

dnas_hashed :
    (id hash k : ℕ) (xs : List DnaConfiguration)
    → is_some (find (λ (d : DnaConfiguration). d.id == k) (set_hash id hash xs))
      ≡ is_some (find (λ (d : DnaConfiguration). d.id == k) xs)
unfolding set_hash
dnas_hashed id hash k [] = refl
dnas_hashed id hash k (x ∷ xs) = elim (Bool-cases (x.id == id)) [
  | inl e ↦ rw e (ground arith)
  | inr e ↦ rw e (ground (arith, dnas_hashed id hash k xs))
]

pub Ends-note_test_agent :
    (host : Host) (a : AgentConfiguration) (address : ℕ) (st : Conductor)
    → Ends (λ u st'. Keeping st st') (note_test_agent host a address st)
unfolding note_test_agent modify update_agent_address_by_id agent_by_id dna_by_id
Ends-note_test_agent host a address st = elim (Bool-cases (is_true a.test_agent)) [
  | inl e ↦ rw e (
      Ends-bind (λ u st'. Keeping st st') (λ u st'. Keeping st st') _ _ st
        (record {
          instances_kept = refl;
          bridges_kept = refl;
          interfaces_kept = refl;
          uis_kept = refl;
          agents_kept = λ k. agents_updated a.id address k st.config.agents;
          dnas_kept = λ k. refl;
          running_kept = refl;
        })
        λ u st' k.
          Ends-imp (λ u. Keeping st') (λ u. Keeping st) (save_config host st')
            (λ u st'' k'. Keeping-trans k k') (Ends-save_config host st'))
  | inr e ↦ rw e (unfold pure in Keeping-refl st)
]

abbrev pub Kept : {A : Type 0} → Conductor → A → Conductor → Type 0
Kept st a st' = Keeping st st'

Ends-check_dna_consistency :
    (a b : ℕ) (st : Conductor) → Ends (Kept st) (check_dna_consistency a b st)
unfolding check_dna_consistency
Ends-check_dna_consistency a b st =
    Ends-imp _ (Kept st) (guard _ _ st) (λ u st' h. Keeping-of_same h.1) (Ends-guard _ _ st)

-- One step after another, each keeping what it finds.
pub Ends-then :
    {A B : Type 0} (m : M A) (f : A → M B) (st : Conductor)
    → Ends (Kept st) (m st)
    → ((a : A) (st' : Conductor) → Ends (Kept st') (f a st'))
    → Ends (Kept st) ((m >>= f) st)
Ends-then m f st h k =
    Ends-bind (Kept st) (Kept st) m f st h (λ a st' q.
      Ends-imp (Kept st') (Kept st) (f a st') (λ b st'' q'. Keeping-trans q q') (k a st'))

Ends-from_all_sources :
    (a b c : ℕ) (st : Conductor) → Ends (Kept st) (check_dna_consistency_from_all_sources a b c st)
unfolding check_dna_consistency_from_all_sources
Ends-from_all_sources a b c st = Ends-then _ _ st (Ends-check_dna_consistency a b st) λ u st'.
    Ends-then _ _ st' (Ends-check_dna_consistency a c st')
      λ u st''. Ends-check_dna_consistency b c st''

Ends-hashed :
    (id hash : ℕ) (st : Conductor)
    → Ends
        (Kept st)
        (modify (λ st. record st { config = update_dna_hash_by_id id hash st.config }) st)
unfolding modify update_dna_hash_by_id agent_by_id dna_by_id
Ends-hashed id hash st = record {
  instances_kept = refl;
  bridges_kept = refl;
  interfaces_kept = refl;
  uis_kept = refl;
  agents_kept = λ k. refl;
  dnas_kept = λ k. dnas_hashed id hash k st.config.dnas;
  running_kept = refl;
}

pub Ends-fix_dna :
    (host : Host) (d : DnaConfiguration) (dna : Dna) (uuid : Option ℕ) (st : Conductor)
    → Ends (Kept st) (fix_dna host d dna uuid st)
unfolding fix_dna
Ends-fix_dna host d dna (some uuid) st = Ends-then _ _ st (Ends-hashed d.id _ st) λ u st'.
    Ends-then _ _ st' (Ends-save_config host st')
      λ u st''. Ends-pure (Kept st'') _ st'' (Keeping-refl st'')
Ends-fix_dna host d dna none st =
    Ends-then _ _ st (by_file (host.load d.file))
      λ u st'. Ends-pure (Kept st') _ st' (Keeping-refl st')
  where
    by_file :
        (found : Option Dna)
        → Ends (Kept st) (
            (elim found as (λ _. M (Unit {0})) [
              | none ↦ check_dna_consistency d.hash (host.address_of dna)
              | some again ↦
                  check_dna_consistency_from_all_sources d.hash
                    (host.address_of dna)
                    (host.address_of again)
            ])
              st)
    by_file none = Ends-check_dna_consistency d.hash (host.address_of dna) st
    by_file (some again) =
        Ends-from_all_sources d.hash (host.address_of dna) (host.address_of again) st

pub Ends-agent_config_to_id :
    (host : Host) (a : AgentConfiguration) (st : Conductor)
    → Ends (Kept st) (agent_config_to_id host a st)
unfolding agent_config_to_id
Ends-agent_config_to_id host a st = elim (Bool-cases (is_true a.holo_remote_key)) [
  | inl e ↦ rw e (Ends-pure (Kept st) _ st (Keeping-refl st))
  | inr e ↦ rw e (
      Ends-imp _ (Kept st) (some_or _ _ st) (λ x st' h. Keeping-of_same h.1)
        (Ends-some_or _ (host.keybundle a.id) st))
]

pub Ends-build_callbacks :
    (host : Host) (a : AgentConfiguration) (st : Conductor)
    → host.has_service_uris ≡ true
    → Ends (Kept st) (build_callbacks host a st)
unfolding build_callbacks
Ends-build_callbacks host a st uris = elim (Bool-cases (is_true a.holo_remote_key)) [
  | inl e ↦
      rw (e, uris)
        (Ends-imp _ (Kept st) (unwrap (some tt) st) (λ x st' h. Keeping-of_same h.1)
          (Ends-unwrap (some tt) st refl))
  | inr e ↦
      rw e
        (Ends-imp _ (Kept st) (guard _ _ st) (λ x st' h. Keeping-of_same h.1) (Ends-guard _ _ st))
]

-- No instance is stopped.
pub Ends-get_p2p_config :
    (st : Conductor) → networks_up st.instances ≡ true → Ends (Kept st) (get_p2p_config st)
unfolding get_p2p_config
Ends-get_p2p_config st up =
    Ends-bind _ (Kept st) _ _ st (Ends-gets (λ s. s.p2p_config) st) λ asked st0 e0.
      Ends-bind _ (Kept st) _ _ st0 (Ends-gets (λ s. s.instances) st0) λ instances st1 e1.
        Ends-imp _ (Kept st) _ (λ u st2 e2. Keeping-of_same (e2 ∙ e1.1 ∙ e0.1))
          (by_asked asked instances st1
            (ap networks_up (e1.0 ∙ ap (λ (s : Conductor). s.instances) e0.1) ∙ up))
  where
    by_asked :
        (asked : Bool) (instances : Map Instance) (st1 : Conductor)
        → networks_up instances ≡ true
        → Ends
            (λ u st2. st2 ≡ st1)
            ((if asked then unwrap (if networks_up instances then some tt else none) else pure tt)
              st1)
    by_asked true instances st1 h = rw h (
        Ends-imp _ (λ u st2. st2 ≡ st1) (unwrap (some tt) st1) (λ u st2 e. e.1)
          (Ends-unwrap (some tt) st1 refl))
    by_asked false instances st1 h = Ends-pure (λ u st2. st2 ≡ st1) tt st1 refl

pub Ends-build_tracer :
    (host : Host) (id : ℕ) (st : Conductor)
    → host.tracer_builds id ≡ true
    → Ends (Kept st) (build_tracer host id st)
unfolding build_tracer
Ends-build_tracer host id st builds = rw builds (
    Ends-imp _ (Kept st) (unwrap (some tt) st) (λ x st' h. Keeping-of_same h.1)
      (Ends-unwrap (some tt) st refl))

-- The callees of these bridges are configured and there.
abbrev pub Connected : Configuration → Map Instance → List Bridge → Type 0
Connected c instances = All λ (b : Bridge).
    (is_some (instance_by_id c b.callee_id) ≡ true) × (is_some (get b.callee_id instances) ≡ true)

pub connect-is_some :
    (c : Configuration) (instances : Map Instance) (bs : List Bridge) (api : Map ℕ)
    → Connected c instances bs
    → is_some (connect c instances bs api) ≡ true
unfolding connect
connect-is_some c instances [] api h = refl
connect-is_some c instances (b ∷ bs) api h =
    rw (h.0.0, h.0.1) (connect-is_some c instances bs (Map.insert b.handle b.callee_id api) h.1)
