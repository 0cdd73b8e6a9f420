-- ===== src/Conductor/Bootstrap.antt =====
-- boot_from_config of crates/conductor_lib/src/conductor/base.rs: the loop over the sorted instances never
-- meets the `expect` of build_conductor_api on a callee that is not there yet.
use rust_holochain.Base.{
  ℕ, ◌<◌, ◌≡◌, refl, ap, sym, subst, true, Option, none, List, [], ◌∷◌, arith, is_some, ◌∙◌, length,
}
use rust_holochain.Base.Map.{get}
use rust_holochain.Base.Set.{contains}
use rust_holochain.Conductor.Config.{Configuration, DpkiConfiguration, instance_ids}
use rust_holochain.Conductor.Sorting.{
  Sorts, position, linked, instance_ids_sorted_by_bridge_dependencies,
}
use rust_holochain.Conductor.Indices.{links, renamed}
use rust_holochain.Conductor.Order.{CalleesFirst, instance_ids_sorted_by_bridge_dependencies_lem}
use rust_holochain.Conductor.Soundness.{Passes}
use rust_holochain.Conductor.State.{Host, Conductor, ◌>>=◌, ◌>>◌, gets, M}
use rust_holochain.Conductor.Instances.{
  instantiate_all, sorted_ids, dpki_bootstrap, boot_from_config, networks_up, for_each_in,
  add_static_server,
}
use rust_holochain.Conductor.Servers.{AllConnect, passing-AllConnect, Ends-static_servers}
use rust_holochain.Conductor.Ending.{
  Ends, Ends-bind, Ends-imp, Ends-pure, Ends-gets, Ends-check, Ends-modify,
}
use rust_holochain.Conductor.Boot.{passing-Distinct}
use rust_holochain.Conductor.Progress.{Progress, Ends-instantiate_all, Served-suffix, Ends-sorted}

-- An element that is before another one stands in the list.
contains-position : (xs : List ℕ) (a b : ℕ) → position xs b < position xs a → contains xs b ≡ true
contains-position [] a b h = absurd (omega (arith, h))
contains-position (x ∷ xs) a b h = ground (arith, contains-position xs a b)

-- What the boot ends with.
abbrev AllMade : Configuration → Unit {0} → Conductor → Type 0
AllMade c u st =
    (id : ℕ) → contains (instance_ids c) id ≡ true → is_some (get id st.instances) ≡ true

-- And the interfaces of both kinds are those of the configuration.
abbrev Served : Configuration → Unit {0} → Conductor → Type 0
Served c u st =
    AllMade c u st
    × (st.config.interfaces ≡ c.interfaces)
    × (st.config.ui_interfaces ≡ c.ui_interfaces)

no_bootstrap :
    (host : Host) (dpki : Option DpkiConfiguration) (st : Conductor)
    → dpki ≡ none
    → Ends (λ u st'. st' ≡ st) (dpki_bootstrap host dpki st)
unfolding dpki_bootstrap
no_bootstrap host dpki st e =
    subst (λ d. Ends (λ u st'. st' ≡ st) (dpki_bootstrap host d st)) (sym e)
      (Ends-pure (λ u st'. st' ≡ st) tt st refl)

-- What follows the loop over the instances.
abbrev serve : M (Unit {0})
serve = do booted ← gets (λ st. st.config); for_each_in add_static_server booted.ui_interfaces

Ends-serve :
    (host : Host) (c : Configuration)
    → Passes host c
    → (u : Unit {0}) (st : Conductor) → Served c u st
    → Ends (AllMade c) (serve st)
Ends-serve host c p u st (made, interfaces, uis) =
    Ends-bind (λ (a : Configuration) st'. (a ≡ st.config) × (st' ≡ st)) (AllMade c) _ _ st
      (Ends-gets (λ s. s.config) st)
      λ booted st' e.
        let configured : AllConnect st'.config.interfaces booted.ui_interfaces =
          subst (λ fs. AllConnect fs booted.ui_interfaces)
            (sym (ap (λ (s : Conductor). s.config.interfaces) e.1 ∙ interfaces))
            (subst (AllConnect c.interfaces)
              (sym (ap (λ (x : Configuration). x.ui_interfaces) e.0 ∙ uis))
              (passing-AllConnect host c p)) in
        Ends-imp _ (AllMade c) _ (λ u st'' e'. subst (AllMade c tt) (sym (e' ∙ e.1)) made)
          (Ends-static_servers booted.ui_interfaces st' configured)

module _ (host : Host) (uris : host.has_service_uris ≡ true)
    (tracers : (id : ℕ) → host.tracer_builds id ≡ true) where
  all_made :
      (st : Conductor) (ids : List ℕ) (st' : Conductor)
      → st' ≡ st
      → networks_up st.instances ≡ true
      → CalleesFirst (instance_ids st.config) st.config.bridges ids
      → Ends (Served st.config) (instantiate_all host ids st')
  all_made st ids st' same up order =
      let c = st.config in
      let known : (a b : ℕ)
          → linked (links c.bridges) a b ≡ true
          → contains (instance_ids c) b ≡ true =
        λ a b l. sym (order.members b) ∙ contains-position ids a b (order.callees a b l) in
      let first : Progress host uris tracers c [] st' = record {
        bridges_same = ap (λ (s : Conductor). s.config.bridges) same;
        ids_same = ap (λ (s : Conductor). instance_ids s.config) same;
        interfaces_same = ap (λ (s : Conductor). s.config.interfaces) same;
        uis_same = ap (λ (s : Conductor). s.config.ui_interfaces) same;
        present = λ id h. cc;
        networks = ap (λ (s : Conductor). networks_up s.instances) same ∙ up;
      } in
      Ends-imp (λ u. Progress host uris tracers c ids) (Served c) (instantiate_all host ids st')
        (λ u st'' p. (λ id h. p.present id (order.members id ∙ h), p.interfaces_same, p.uis_same))
        (Ends-instantiate_all host uris tracers c [] ids st'
          (Served-suffix host uris tracers c [] ids order known) first)

  -- The boot after its check.
  Ends-booting :
      (st : Conductor) (dpki : Option DpkiConfiguration)
      → dpki ≡ none
      → networks_up st.instances ≡ true
      → Sorts host.toposort
          (length (instance_ids st.config))
          (renamed (position (instance_ids st.config)) (links st.config.bridges))
      → Passes host st.config
      → Ends (AllMade st.config) (
          (do
            dpki_bootstrap host dpki
            c ← gets (λ st. st.config)
            ids ← sorted_ids (instance_ids_sorted_by_bridge_dependencies host.toposort c)
            instantiate_all host ids
            booted ← gets (λ st. st.config)
            for_each_in add_static_server booted.ui_interfaces)
            st)
  Ends-booting st dpki no_dpki up sound p =
      let made_all = AllMade st.config in
      Ends-bind _ made_all _ _ st (no_bootstrap host dpki st no_dpki) λ u st2 e2.
        Ends-bind _ made_all _ _ st2 (Ends-gets (λ s. s.config) st2) λ c' st3 e3.
          let st3_same : st3 ≡ st = e3.1 ∙ e2 in
          let c'_same : c' ≡ st.config = e3.0 ∙ ap (λ (s : Conductor). s.config) e2 in
          let order =
            instance_ids_sorted_by_bridge_dependencies_lem host.toposort st.config
              (passing-Distinct host uris tracers st.config p) sound in
          subst
            (λ x. Ends made_all (
              (sorted_ids (instance_ids_sorted_by_bridge_dependencies host.toposort x) >>= λ ids.
              instantiate_all host ids >> serve)
                st3))
            (sym c'_same)
            (Ends-bind _ made_all _ _ st3
              (Ends-sorted host uris tracers st.config st3
                (ap (λ (s : Conductor). s.config) st3_same) p order)
              λ ids st4 found.
                Ends-bind (Served st.config) made_all _ _ st4
                  (all_made st ids st4 (found.0 ∙ st3_same) up found.1)
                  (Ends-serve host st.config p))

-- Where the sort of petgraph does what its documentation says, the services' URIs are set, the tracers
-- can be built, no dpki is configured and the instances there are have their networks, the boot meets
-- none of the panics that are modelled: not at a callee that is not there yet, not at an agent, a DNA or
-- an interface that is not configured, and not at an instance without network. If it returns, every
-- configured instance is there.
pub boot_from_config_lem :
    (host : Host) (st : Conductor)
    → host.has_service_uris ≡ true
    → ((id : ℕ) → host.tracer_builds id ≡ true)
    → st.config.dpki ≡ none
    → networks_up st.instances ≡ true
    → Sorts host.toposort
        (length (instance_ids st.config))
        (renamed (position (instance_ids st.config)) (links st.config.bridges))
    → Ends
        (λ u st'.
          (id : ℕ)
          → contains (instance_ids st.config) id ≡ true
          → is_some (get id st'.instances) ≡ true)
        (boot_from_config host st)
unfolding boot_from_config
boot_from_config_lem host st uris tracers no_dpki up sound =
    let made_all = AllMade st.config in
    Ends-bind _ made_all _ _ st (Ends-gets (λ s. s.config) st) λ c st0 e0.
      Ends-bind _ made_all _ _ st0 (Ends-check host c st0) λ u st1 e1.
        Ends-bind _ made_all _ _ st1 (Ends-modify _ st1) λ u st2 e2.
          let same : st1 ≡ st = e1.1 ∙ e0.1 in
          let config_same : st2.config ≡ st.config =
            ap (λ (s : Conductor). s.config) e2 ∙ ap (λ (s : Conductor). s.config) same in
          let running_same : st2.instances ≡ st.instances =
            ap (λ (s : Conductor). s.instances) e2 ∙ ap (λ (s : Conductor). s.instances) same in
          subst
            (λ x. Ends (AllMade x) (
              (do
                dpki_bootstrap host c.dpki
                c' ← gets (λ s. s.config)
                ids ← sorted_ids (instance_ids_sorted_by_bridge_dependencies host.toposort c')
                instantiate_all host ids
                booted ← gets (λ s. s.config)
                for_each_in add_static_server booted.ui_interfaces)
                st2))
            config_same
            (Ends-booting host uris tracers st2 c.dpki (ap (λ x. x.dpki) e0.0 ∙ no_dpki)
              (ap networks_up running_same ∙ up)
              (subst
                (λ x.
                  Sorts host.toposort (length (instance_ids x))
                    (renamed (position (instance_ids x)) (links x.bridges)))
                (sym config_same) sound)
              (subst (Passes host) (e0.0 ∙ sym config_same) e1.0))
