-- ===== src/Conductor/Progress.antt =====
-- The loop of boot_from_config of crates/conductor_lib/src/conductor/base.rs over the sorted instances: it
-- keeps what it has made, and finds the callees of each instance.
use rust_holochain.Base.{
  ℕ, ◌≡◌, refl, ap, sym, subst, Bool, true, false, List, [], ◌∷◌, ◌++◌, map, ◌==◌, ==_iff,
  if◌then◌else◌, arith, Bool-cases, inl, inr, is_some, ◌∙◌,
}
use mathlib.Core.List.{append_assoc, append-nil}
use rust_holochain.Base.Map
use rust_holochain.Base.Map.{Map, get, get-insert}
use rust_holochain.Base.Set.{contains}
use rust_holochain.Base.Distinct.{Distinct, contains-append}
use rust_holochain.Conductor.Config.{Configuration, InstanceConfiguration, instance_ids}
use rust_holochain.Conductor.Sorting.{
  Sorted, sorted, not_found, cyclic, linked, instance_ids_sorted_by_bridge_dependencies,
}
use rust_holochain.Conductor.Checks.{passed}
use rust_holochain.Conductor.Consistency.{check_sorted}
use rust_holochain.Conductor.Positions.{position-append, position-lt-length}
use rust_holochain.Conductor.Indices.{links}
use rust_holochain.Conductor.Order.{CalleesFirst, IsSorting}
use rust_holochain.Conductor.Soundness.{Passes}
use rust_holochain.Conductor.State.{Host, Instance, Conductor, ◌>>=◌, pure}
use rust_holochain.Conductor.Instances.{
  instantiate_from_config, insert_instance, instantiate_all, sorted_ids, networks_up,
}
use rust_holochain.Conductor.Ending.{Ends, Ends-bind, Ends-pure, Ends-gets}
use rust_holochain.Conductor.Booting.{Keeping}
use rust_holochain.Conductor.Boot.{CalleesReady, Made, passing_sorted, Ends-instantiate_from_config}

module _ (host : Host) (uris : host.has_service_uris ≡ true)
    (tracers : (id : ℕ) → host.tracer_builds id ≡ true) where
  networks_up-insert :
      (id : ℕ) (i : Instance) (m : Map Instance)
      → i.network ≡ true
      → networks_up m ≡ true
      → networks_up (Map.insert id i m) ≡ true
  unfolding Map.insert
  networks_up-insert id i [] e up = ground arith
  networks_up-insert id i ((k, j) ∷ m) e up = ground (arith, networks_up-insert id i m e)

  -- The instances made so far are there, all with their network, and the bridges, interfaces and instances configured are the first ones.
  pub record Progress (c : Configuration) (made : List ℕ) (st : Conductor) : Type 0 where
    pub bridges_same : st.config.bridges ≡ c.bridges
    pub interfaces_same : st.config.interfaces ≡ c.interfaces
    pub uis_same : st.config.ui_interfaces ≡ c.ui_interfaces
    pub ids_same : instance_ids st.config ≡ instance_ids c
    pub present : (id : ℕ) → contains made id ≡ true → is_some (get id st.instances) ≡ true
    pub networks : networks_up st.instances ≡ true

  -- The callees of each instance to come are among those made before it.
  pub Served : Configuration → List ℕ → List ℕ → Type 0
  Served c made [] = Unit
  Served c made (id ∷ ids) =
      ((callee : ℕ)
        → linked (links c.bridges) id callee ≡ true
        → (contains made callee ≡ true) × (contains (instance_ids c) callee ≡ true))
      × Served c (made ++ (id ∷ [])) ids

  Progress-Keeping :
      {c : Configuration} {made : List ℕ} {st st' : Conductor}
      → Progress c made st
      → Keeping st st'
      → Progress c made st'
  unfolding instance_ids
  Progress-Keeping p k = record {
    bridges_same = k.bridges_kept ∙ p.bridges_same;
    interfaces_same = k.interfaces_kept ∙ p.interfaces_same;
    uis_same = k.uis_kept ∙ p.uis_same;
    ids_same = ap (map (λ (i : InstanceConfiguration). i.id)) k.instances_kept ∙ p.ids_same;
    present = λ id h. ap (λ m. is_some (get id m)) k.running_kept ∙ p.present id h;
    networks = ap networks_up k.running_kept ∙ p.networks;
  }

  -- One more is there.
  Progress-insert :
      {c : Configuration} {made : List ℕ} {st : Conductor} (id : ℕ) (i : Instance)
      → i.network ≡ true
      → Progress c made st
      → Ends (λ u st'. Progress c (made ++ (id ∷ [])) st') (insert_instance id i st)
  unfolding insert_instance instance_ids
  Progress-insert {made = made} {st} id i up p = record {
    bridges_same = p.bridges_same;
    interfaces_same = p.interfaces_same;
    uis_same = p.uis_same;
    ids_same = p.ids_same;
    present = λ k h. ground (
      arith,
      get-insert id i st.instances k,
      contains-append made (id ∷ []) k,
      p.present k,
      ==_iff id k,
    );
    networks = networks_up-insert id i st.instances up p.networks;
  }

  Progress-there :
      {c : Configuration} {made : List ℕ} {st : Conductor} (id : ℕ)
      → is_some (get id st.instances) ≡ true
      → Progress c made st
      → Progress c (made ++ (id ∷ [])) st
  Progress-there {made = made} {st} id there p = record {
    bridges_same = p.bridges_same;
    interfaces_same = p.interfaces_same;
    uis_same = p.uis_same;
    ids_same = p.ids_same;
    present = λ k h. elim (Bool-cases (id == k)) [
      | inl e ↦ ap (λ n. is_some (get n st.instances)) (sym ((==_iff id k).0 e)) ∙ there
      | inr e ↦ p.present k (ground (arith, contains-append made (id ∷ []) k))
    ];
    networks = p.networks;
  }

  Progress-ready :
      {c : Configuration} {made : List ℕ} {st : Conductor} (id : ℕ)
      → ((callee : ℕ)
          → linked (links c.bridges) id callee ≡ true
          → (contains made callee ≡ true) × (contains (instance_ids c) callee ≡ true))
      → Progress c made st
      → CalleesReady st id
  Progress-ready id served p callee l =
      let both = served callee (ap (λ bs. linked (links bs) id callee) (sym p.bridges_same) ∙ l) in
      (ap (λ ids. contains ids callee) p.ids_same ∙ both.1, p.present callee both.0)

  pub Ends-instantiate_all :
      (c : Configuration) (made ids : List ℕ) (st : Conductor)
      → Served c made ids
      → Progress c made st
      → Ends (λ u st'. Progress c (made ++ ids) st') (instantiate_all host ids st)
  unfolding instantiate_all Served
  Ends-instantiate_all c made [] st served p =
      Ends-pure _ tt st (subst (λ l. Progress c l st) (sym (append-nil made)) p)
  Ends-instantiate_all c made (id ∷ ids) st served p =
      let ending = λ (u : Unit {0}) (st' : Conductor). Progress c (made ++ id ∷ ids) st' in
      Ends-bind _ ending _ _ st (Ends-gets (λ s. is_some (get id s.instances)) st) λ there st0 e0.
        let p0 = subst (Progress c made) (sym e0.1) p in
        Ends-bind (λ u st'. Progress c (made ++ (id ∷ [])) st') ending _ _ st0
          (one there st0 (e0.0 ∙ ap (λ (s : Conductor). is_some (get id s.instances)) (sym e0.1))
            p0)
          λ u st1 p1.
            subst (λ l. Ends (λ u st'. Progress c l st') (instantiate_all host ids st1))
              (append_assoc made (id ∷ []) ids)
              (Ends-instantiate_all c (made ++ (id ∷ [])) ids st1 served.1 p1)
    where
      one :
          (there : Bool) (st : Conductor)
          → there ≡ is_some (get id st.instances)
          → Progress c made st
          → Ends
              (λ u st'. Progress c (made ++ (id ∷ [])) st')
              ((if there then pure tt else (instantiate_from_config host id >>= insert_instance id))
                st)
      one true st e p = Ends-pure _ tt st (Progress-there id (sym e) p)
      one false st e p =
          Ends-bind (Made st) _ _ _ st
            (Ends-instantiate_from_config host uris tracers id st (Progress-ready id served.0 p)
              p.networks)
            λ i st' k. Progress-insert id i k.1 (Progress-Keeping p k.0)

  -- A list with callees first serves each of its elements.
  pub Served-suffix :
      (c : Configuration) (made ids : List ℕ)
      → CalleesFirst (instance_ids c) c.bridges (made ++ ids)
      → ((a b : ℕ) → linked (links c.bridges) a b ≡ true → contains (instance_ids c) b ≡ true)
      → Served c made ids
  unfolding Served
  Served-suffix c made [] order known = tt
  Served-suffix c made (id ∷ ids) order known = (
    λ callee l.
        let earlier = order.callees id callee l in
        (
          ground (
            arith,
            earlier,
            position-append made (id ∷ ids) id,
            position-append made (id ∷ ids) callee,
            position-lt-length made id,
            contains_front made (id ∷ ids) id order.distinct,
          ),
          known id callee l,
        ),
    Served-suffix c (made ++ (id ∷ [])) ids
        (subst (CalleesFirst (instance_ids c) c.bridges) (sym (append_assoc made (id ∷ []) ids))
          order)
        known,
  )
    where
      contains_front :
          (xs ys : List ℕ) (a : ℕ)
          → Distinct (xs ++ ys)
          → contains ys a ≡ true
          → contains xs a ≡ false
      contains_front [] ys a d h = refl
      contains_front (x ∷ xs) ys a d h =
          ground (arith, contains_front xs ys a d.1, contains-append xs ys x, d.0, ==_iff x a)

  -- The boot after its check, without a dpki.
  pub Ends-sorted :
      (c : Configuration) (st : Conductor)
      → st.config ≡ c
      → Passes host c
      → IsSorting
          (instance_ids c)
          c.bridges
          (instance_ids_sorted_by_bridge_dependencies host.toposort c)
      → Ends
          (λ ids st'. (st' ≡ st) × CalleesFirst (instance_ids c) c.bridges ids)
          (sorted_ids (instance_ids_sorted_by_bridge_dependencies host.toposort c) st)
  unfolding sorted_ids
  Ends-sorted c st e p order =
      by_result (instance_ids_sorted_by_bridge_dependencies host.toposort c) order
        (passing_sorted host uris tracers c p)
    where
      by_result :
          (r : Sorted)
          → IsSorting (instance_ids c) c.bridges r
          → check_sorted r ≡ passed
          → Ends
              (λ ids st'. (st' ≡ st) × CalleesFirst (instance_ids c) c.bridges ids)
              (sorted_ids r st)
      by_result (sorted ids) order h = Ends-pure _ ids st (refl, order)
      by_result (not_found a b) order h = cc
      by_result cyclic order h = cc
      by_result Sorted.panicked order h = cc
