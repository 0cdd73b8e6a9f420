-- ===== src/Conductor/Boot.antt =====
-- That instantiate_from_config of crates/conductor_lib/src/conductor/base.rs does not panic where the
-- callees of the instance's bridges are there, every tracer is built and no instance is without network.
use rust_holochain.Base.{
  ℕ, ◌≡◌, refl, ap, sym, subst, true, none, some, List, [], ◌∷◌, map, ◌==◌, ==_iff, arith,
  Bool-cases, inl, inr, All, filter, is_some, ◌∙◌,
}
use rust_holochain.Base.Map.{get}
use rust_holochain.Base.Set.{contains}
use rust_holochain.Base.Distinct.{Distinct}
use rust_holochain.Conductor.Config.{
  Configuration, AgentConfiguration, InstanceConfiguration, Bridge, find, agent_by_id, dna_by_id,
  instance_by_id, instance_ids, bridge_dependencies,
}
use rust_holochain.Conductor.Sorting.{linked, instance_ids_sorted_by_bridge_dependencies}
use rust_holochain.Conductor.Checks.{passed}
use rust_holochain.Conductor.Consistency.{check_consistency, check_sorted}
use rust_holochain.Conductor.Indices.{links}
use rust_holochain.Conductor.Passing.{>>_iff, is_some-find, Found-is_some}
use rust_holochain.Conductor.Validity.{IsRunnable}
use rust_holochain.Conductor.Equivalence.{unsorted, unsorted_iff}
use rust_holochain.Conductor.Soundness.{Passes}
use rust_holochain.Conductor.State.{Host, Instance, Conductor}
use rust_holochain.Conductor.Instances.{build_conductor_api, instantiate_from_config, networks_up}
use rust_holochain.Conductor.Ending.{
  Ends, Ends-bind, Ends-imp, Ends-pure, Ends-gets, Ends-check, Ends-some_or, Ends-unwrap,
  Ends-guard,
}
use rust_holochain.Conductor.Booting.{
  Keeping, Keeping-trans, Keeping-of_same, Kept, Ends-agent_config_to_id, Ends-build_callbacks,
  Ends-note_test_agent, Ends-fix_dna, Ends-get_p2p_config, Ends-build_tracer, Connected,
  connect-is_some,
}

-- The callees of the instance's bridges are there.
abbrev pub CalleesReady : Conductor → ℕ → Type 0
CalleesReady st id =
    (callee : ℕ)
    → linked (links st.config.bridges) id callee ≡ true
    → (contains (instance_ids st.config) callee ≡ true) × (is_some (get callee st.instances) ≡ true)

CalleesReady-Keeping :
    {st st' : Conductor} (id : ℕ) → Keeping st st' → CalleesReady st id → CalleesReady st' id
unfolding instance_ids
CalleesReady-Keeping {st} {st'} id k h callee l =
    let there = h callee (ap (λ bs. linked (links bs) id callee) (sym k.bridges_kept) ∙ l) in
    (
      ap (λ is. contains (map (λ (i : InstanceConfiguration). i.id) is) callee) k.instances_kept
          ∙ there.0,
      ap (λ m. is_some (get callee m)) k.running_kept ∙ there.1,
    )

ready-Connected :
    (st : Conductor) (id : ℕ)
    → CalleesReady st id
    → Connected st.config st.instances (bridge_dependencies st.config id)
unfolding bridge_dependencies instance_ids instance_by_id
ready-Connected st id ready = of_bridges st.config.bridges ready
  where
    of_bridges :
        (bs : List Bridge)
        → ((callee : ℕ)
            → linked (links bs) id callee ≡ true
            → (contains (instance_ids st.config) callee ≡ true)
              × (is_some (get callee st.instances) ≡ true))
        → Connected st.config st.instances (filter (λ (b : Bridge). b.caller_id == id) bs)
    of_bridges [] h = tt
    of_bridges (b ∷ bs) h = elim (Bool-cases (b.caller_id == id)) [
      | inl e ↦
          let there = h b.callee_id (ground arith) in
          rw e (
            (
              is_some-find (λ (i : InstanceConfiguration). i.id) st.config.instances b.callee_id
                  ∙ there.0,
              there.1,
            ),
            of_bridges bs (λ callee l. h callee (ground arith)),
          )
      | inr e ↦ rw e (of_bridges bs (λ callee l. h callee (ground arith)))
    ]

find-key :
    {A : Type 0} (key : A → ℕ) (P : A → Type 0) (xs : List A) (k : ℕ) {x : A}
    → find (λ y. key y == k) xs ≡ some x
    → All P xs
    → (key x ≡ k) × P x
find-key key P [] k h all = cc
find-key key P (y ∷ ys) k {x} h all = elim (Bool-cases (key y == k)) [
  | inl e ↦
      let h' = rw e at h in
      subst (λ z. (key z ≡ k) × P z) (some_inj h') ((==_iff (key y) k).0 e, all.0)
  | inr e ↦ let h' = rw e at h in find-key key P ys k h' all.1
]
  where
    some_inj : {A : Type 0} {a b : A} → some a ≡ some b → a ≡ b
    some_inj {a = a} {b} h = ap (λ o. elim o [ none ↦ a | some c ↦ c ]) h

still_known :
    {st st' : Conductor} {c c' : Configuration} (dna : ℕ)
    → c ≡ st.config
    → c' ≡ st'.config
    → Keeping st st'
    → is_some (dna_by_id c dna) ≡ true
    → is_some (dna_by_id c' dna) ≡ true
still_known dna e e' k h =
    ap (λ x. is_some (dna_by_id x dna)) e'
    ∙ k.dnas_kept dna
    ∙ ap (λ x. is_some (dna_by_id x dna)) (sym e)
    ∙ h

-- What making an instance leaves: all is kept, and the instance has its network.
abbrev pub Made : Conductor → Instance → Conductor → Type 0
Made st i st' = Keeping st st' × (i.network ≡ true)

module _ (host : Host) (uris : host.has_service_uris ≡ true)
    (tracers : (id : ℕ) → host.tracer_builds id ≡ true) where
  Ends-build_conductor_api :
      (id : ℕ) (st : Conductor)
      → CalleesReady st id
      → Ends (Kept st) (build_conductor_api host id st)
  unfolding build_conductor_api instance_by_id
  Ends-build_conductor_api id st ready =
      Ends-bind _ (Kept st) _ _ st (Ends-gets (λ s. s.config) st) λ c st0 e0.
        Ends-bind _ (Kept st) _ _ st0 (Ends-some_or _ _ st0) λ i st1 e1.
          Ends-bind _ (Kept st) _ _ st1 (Ends-some_or _ _ st1) λ a st2 e2.
            Ends-bind (Kept st2) (Kept st) _ _ st2 (Ends-build_callbacks host a st2 uris)
              λ u st3 k3.
                Ends-bind _ (Kept st) _ _ st3 (Ends-gets (λ s. s.instances) st3) λ instances st4 e4.
                  let key =
                    (find-key (λ (x : InstanceConfiguration). x.id) (λ x. Unit {0}) c.instances id
                      e1.0 (units c.instances)).0 in
                  let same : st2 ≡ st = e2.1 ∙ e1.1 ∙ e0.1 in
                  let running : instances ≡ st.instances =
                    e4.0 ∙ k3.running_kept ∙ ap (λ (s : Conductor). s.instances) same in
                  let connected : Connected c instances (bridge_dependencies c i.id) =
                    rw (key, running, e0.0) (ready-Connected st id ready) in
                  Ends-imp _ (Kept st) _
                    (λ api st5 e5.
                      Keeping-trans (Keeping-of_same same)
                        (Keeping-trans k3 (Keeping-of_same (e5.1 ∙ e4.1))))
                    (Ends-unwrap _ st4 (connect-is_some c instances _ [] connected))
    where
      units : {A : Type 0} (xs : List A) → All (λ x. Unit {0}) xs
      units [] = tt
      units (x ∷ xs) = (tt, units xs)

  passing-IsRunnable :
      (c : Configuration) → Passes host c → All (IsRunnable host.load c) c.instances
  unfolding check_consistency unsorted
  passing-IsRunnable c p =
      ((unsorted_iff host.load host.address_of host.toposort c).0 ((>>_iff _ _).0 p).0).0.0.0.0.1

  pub passing-Distinct : (c : Configuration) → Passes host c → Distinct (instance_ids c)
  unfolding check_consistency unsorted
  passing-Distinct c p =
      ((unsorted_iff host.load host.address_of host.toposort c).0
        ((>>_iff _ _).0 p).0).0.0.0.0.0.0.0.1

  pub passing_sorted :
      (c : Configuration)
      → Passes host c
      → check_sorted (instance_ids_sorted_by_bridge_dependencies host.toposort c) ≡ passed
  unfolding check_consistency
  passing_sorted c p = ((>>_iff _ _).0 p).1

  -- What is made of a configuration that passes the check has its agent and its DNA.
  runnable_parts :
      (c : Configuration) (id : ℕ) {i : InstanceConfiguration}
      → Passes host c
      → instance_by_id c id ≡ some i
      → (i.id ≡ id)
        × (is_some (agent_by_id c i.agent) ≡ true)
        × (is_some (dna_by_id c i.dna) ≡ true)
  unfolding instance_by_id agent_by_id
  runnable_parts c id {i} p e =
      let (key, runnable) =
        find-key (λ (x : InstanceConfiguration). x.id) (IsRunnable host.load c) c.instances id e
          (passing-IsRunnable c p) in
      (
        key,
        is_some-find (λ (a : AgentConfiguration). a.id) c.agents i.agent ∙ runnable.0,
        Found-is_some _ (dna_by_id c i.dna) runnable.1,
      )

  -- From the state in which the agent is found; each step keeps what the next one looks up.
  pub Ends-instantiate_from_config :
      (id : ℕ) (st : Conductor)
      → CalleesReady st id
      → networks_up st.instances ≡ true
      → Ends (Made st) (instantiate_from_config host id st)
  unfolding instantiate_from_config
  Ends-instantiate_from_config id st ready up =
      Ends-bind _ (Made st) _ _ st (Ends-gets (λ s. s.config) st) λ c st0 e0.
        Ends-bind _ (Made st) _ _ st0 (Ends-check host c st0) λ u st1 e1.
          Ends-bind _ (Made st) _ _ st1 (Ends-some_or _ _ st1) λ i st2 e2.
            let (key, has_agent, has_dna) = runnable_parts c id e1.0 e2.0 in
            Ends-bind _ (Made st) _ _ st2 (Ends-unwrap _ st2 has_agent) λ a st3 e3.
              let k3 : Keeping st st3 = Keeping-of_same (e3.1 ∙ e2.1 ∙ e1.1 ∙ e0.1) in
              Ends-bind (Kept st3) (Made st) _ _ st3 (Ends-agent_config_to_id host a st3)
                λ address st4 q4.
                  let k4 = Keeping-trans k3 q4 in
                  Ends-bind (Kept st4) (Made st) _ _ st4 (Ends-note_test_agent host a address st4)
                    λ u st5 q5.
                      let k5 = Keeping-trans k4 q5 in
                      let up5 = ap networks_up k5.running_kept ∙ up in
                      Ends-bind (Kept st5) (Made st) _ _ st5 (Ends-get_p2p_config st5 up5)
                        λ u stp qp.
                          Ends-bind (Kept stp) (Made st) _ _ stp
                            (Ends-build_tracer host i.id stp (tracers i.id))
                            λ u stt qt.
                              let kt = Keeping-trans k5 (Keeping-trans qp qt) in
                              Ends-bind _ (Made st) _ _ stt (Ends-guard _ _ stt) λ u st6 e6.
                                let k6 = Keeping-trans kt (Keeping-of_same e6.1) in
                                let ready6 : CalleesReady st6 i.id =
                                  rw key (CalleesReady-Keeping id k6 ready) in
                                Ends-bind (Kept st6) (Made st) _ _ st6
                                  (Ends-build_conductor_api i.id st6 ready6)
                                  λ api st7 q7.
                                    let k7 = Keeping-trans k6 q7 in
                                    Ends-bind _ (Made st) _ _ st7 (Ends-gets (λ s. s.config) st7)
                                      λ c' st8 e8.
                                        let k8 = Keeping-trans k7 (Keeping-of_same e8.1) in
                                        let has_dna' : is_some (dna_by_id c' i.dna) ≡ true =
                                          still_known i.dna e0.0 e8.0 k7 has_dna in
                                        Ends-bind _ (Made st) _ _ st8 (Ends-unwrap _ st8 has_dna')
                                          λ d st9 e9.
                                            Ends-bind _ (Made st) _ _ st9 (Ends-some_or _ _ st9)
                                              λ dna st10 e10.
                                                let k10 =
                                                  Keeping-trans k8
                                                    (Keeping-of_same (e10.1 ∙ e9.1)) in
                                                Ends-bind (Kept st10) (Made st) _ _ st10
                                                  (Ends-fix_dna host d dna d.uuid st10)
                                                  λ dna' st11 q11.
                                                    let k11 = Keeping-trans k10 q11 in
                                                    Ends-bind _ (Made st) _ _ st11
                                                      (Ends-guard _ _ st11)
                                                      λ u st12 e12. Ends-pure (Made st) _ st12 (
                                                        Keeping-trans k11 (Keeping-of_same e12.1),
                                                        refl,
                                                      )
