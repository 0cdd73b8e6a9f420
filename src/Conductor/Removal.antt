-- ===== src/Conductor/Removal.antt =====
-- Configuration::save_remove_instance of crates/conductor_lib/src/config.rs: when the configuration that it
-- leaves is consistent.
use rust_holochain.Base.{
  ℕ, ◌≡◌, ◌≢◌, ap, true, false, Option, none, some, List, [], ◌∷◌, ◌↔◌, map, ==_iff, arith, All,
}
use rust_holochain.Base.Set.{contains}
use rust_holochain.Conductor.Dna.{Dna}
use rust_holochain.Conductor.Config.{
  Configuration, InterfaceConfiguration, DpkiConfiguration, Bridge, dna_by_id, instance_by_id,
  instance_ids, without_reference, save_remove_instance,
}
use rust_holochain.Conductor.Validity.{
  IsRunnable, IsMet, IsServed, IsInterface, Runs, References, DpkiIsInstance, IsConsistent,
}
use rust_holochain.Conductor.Parts.{Found-known, Found-out}
use rust_holochain.Conductor.Updates.{All-imp, Found-imp}
use rust_holochain.Conductor.Without.{
  DpkiDiffers, IsUnused, other_than, ids_without, Distinct-without, storages_without, All-filter,
  find_without, interface_ids_without, references_without,
}

module _ (load : ℕ → Option Dna) (address_of : Dna → ℕ) (c : Configuration) (id : ℕ) where
  referenced_without :
      (xs : List InterfaceConfiguration)
      → All (References c) xs
      → All (References (save_remove_instance c id)) (map (without_reference id) xs)
  unfolding save_remove_instance instance_ids
  referenced_without [] h = tt
  referenced_without (x ∷ xs) h = (
    references_without id (instance_ids c) (instance_ids (save_remove_instance c id))
        (ids_without id c.instances) x.instances h.0,
    referenced_without xs h.1,
  )

  runs_without :
      (k : ℕ) (P Q : Dna → Type 0)
      → k ≢ id
      → ((dna : Dna) → P dna → Q dna)
      → Runs load address_of c k P
      → Runs load address_of (save_remove_instance c id) k Q
  unfolding save_remove_instance instance_by_id dna_by_id
  runs_without k P Q h f r = rw (find_without id c.instances k h) (
      Found-imp _ _ (instance_by_id c k)
        (λ i. Found-imp _ _ (dna_by_id c i.dna) (λ d. Found-imp P Q (load d.file) f)) r)

  unknown_without : contains (instance_ids (save_remove_instance c id)) id ≡ false
  unfolding save_remove_instance instance_ids
  unknown_without = ground (arith, ids_without id c.instances id)

  known_differs : (k : ℕ) → contains (instance_ids (save_remove_instance c id)) k ≡ true → k ≢ id
  known_differs k h e =
      cc (ap (contains (instance_ids (save_remove_instance c id))) e, h, unknown_without)

  used_after :
      (bs : List Bridge)
      → All (IsMet load address_of (save_remove_instance c id)) bs
      → All (λ (b : Bridge). (b.caller_id ≢ id) × (b.callee_id ≢ id)) bs
  used_after bs =
      let c' = save_remove_instance c id in
      All-imp _ _ bs λ b h. (
        known_differs b.caller_id (Found-known c' b.caller_id _ h),
        known_differs b.callee_id (
            Found-out _ _ (instance_by_id c' b.caller_id)
              (λ i.
                Found-out _ _ (dna_by_id c' i.dna)
                  (λ d. Found-out _ _ (load d.file) (λ dna. Found-known c' b.callee_id _)))
              h),
      )

  dpki_after :
      (dpki : Option DpkiConfiguration)
      → DpkiIsInstance (save_remove_instance c id) dpki
      → DpkiDiffers id dpki
  dpki_after none h = tt
  dpki_after (some dpki) h = known_differs dpki.instance_id h

  dpki_without :
      (dpki : Option DpkiConfiguration)
      → DpkiDiffers id dpki
      → DpkiIsInstance c dpki
      → DpkiIsInstance (save_remove_instance c id) dpki
  unfolding save_remove_instance instance_ids
  dpki_without none h k = tt
  dpki_without (some dpki) h k =
      ground (arith, ids_without id c.instances dpki.instance_id, ==_iff dpki.instance_id id, h)

  IsMet-without :
      All (λ (b : Bridge). (b.caller_id ≢ id) × (b.callee_id ≢ id)) c.bridges
      → All (IsMet load address_of c) c.bridges
      → All (IsMet load address_of (save_remove_instance c id)) c.bridges
  IsMet-without unused met = both c.bridges unused met
    where
      both :
          (bs : List Bridge)
          → All (λ (b : Bridge). (b.caller_id ≢ id) × (b.callee_id ≢ id)) bs
          → All (IsMet load address_of c) bs
          → All (IsMet load address_of (save_remove_instance c id)) bs
      both [] u m = tt
      both (b ∷ bs) u m = (
        runs_without b.caller_id _ _ u.0.0
            (λ caller. runs_without b.callee_id _ _ u.0.1 (λ callee q. q)) m.0,
        both bs u.1 m.1,
      )

-- Removing an instance from a consistent configuration leaves a consistent one exactly when no bridge
-- has the instance at one of its ends and it is not the instance of the dpki: the mentions in bridges and in the
-- dpki stay, and make the configuration inconsistent.
pub save_remove_instance-IsConsistent :
    (load : ℕ → Option Dna) (address_of : Dna → ℕ) (c : Configuration) (id : ℕ)
    → IsConsistent load address_of c
    → IsConsistent load address_of (save_remove_instance c id) ↔ IsUnused id c
unfolding save_remove_instance instance_ids dna_by_id
save_remove_instance-IsConsistent load address_of c id v = (
  λ v'. (
    used_after load address_of c id c.bridges v'.met,
    dpki_after load address_of c id c.dpki v'.dpki_found,
  ),
  λ u. record {
    agents_distinct = v.agents_distinct;
    dnas_distinct = v.dnas_distinct;
    instances_distinct = Distinct-without id c.instances v.instances_distinct;
    storages_distinct = storages_without id c.instances v.storages_distinct;
    interfaces_distinct = rw (interface_ids_without id c.interfaces) v.interfaces_distinct;
    runnable = All-filter (IsRunnable load c) (other_than id) c.instances v.runnable;
    referenced = referenced_without load address_of c id c.interfaces v.referenced;
    met = IsMet-without load address_of c id u.0 v.met;
    served = served_without v.served;
    dpki_found = dpki_without load address_of c id c.dpki u.1 v.dpki_found;
    acyclic = v.acyclic;
  },
)
  where
    served_interface : (o : Option ℕ) → IsInterface c o → IsInterface (save_remove_instance c id) o
    served_interface none h = tt
    served_interface (some k) h = rw (interface_ids_without id c.interfaces) h

    served_without :
        All (IsServed c) c.ui_interfaces
        → All (IsServed (save_remove_instance c id)) c.ui_interfaces
    served_without =
        All-imp _ _ c.ui_interfaces λ ui h. (h.0, served_interface ui.dna_interface h.1)
