-- ===== src/Conductor/Bridging.antt =====
-- When the checks of a bridge in crates/conductor_lib/src/config.rs pass: the loops over zomes, bridge
-- definitions, traits and functions against what Conductor.Validity says without them.
use rust_holochain.Base.{
  ℕ, ◌≡◌, refl, ap, sym, true, Option, none, some, List, [], ◌∷◌, ◌++◌, ◌↔◌, ◌==◌, ==_iff, arith,
  Bool-cases, any, filter, All, ◌∙◌, inl, inr,
}
use rust_holochain.Base.Set.{contains}
use rust_holochain.Conductor.Dna
use rust_holochain.Conductor.Dna.{
  Dna, Zome, Trait, TraitFns, FnDeclaration, BridgeReference, BridgePresence, required, optional,
  declaration_eq, is_required, address, trait,
}
use rust_holochain.Conductor.Config.{Configuration, Bridge, dna_by_id, instance_by_id}
use rust_holochain.Conductor.Checks.{
  passed, Checked, dna_not_found, could_not_load, instance_not_found_in_bridge,
  no_bridge_definition, required_bridge_missing, trait_not_implemented, wrong_callee_address,
}
use rust_holochain.Conductor.Requirements.{
  check_required, check_required_bridges, implements, check_trait, last_definition,
  bridge_definition, with_dna, check_reference, check_bridge_requirements,
}
use rust_holochain.Conductor.Passing.{Any, ensure_iff, for_each_iff, ok_or_iff, any_iff, all_iff}
use rust_holochain.Conductor.Validity.{
  HasRequired, HasRequiredBridges, Implements, HasTrait, definitions, last, Runs, Accepts, IsMet,
}

abbrev pub trans_iff : {A B C : Type 0} → A ↔ B → B ↔ C → A ↔ C
trans_iff p q = (λ a. q.0 (p.0 a), λ c. p.1 (q.1 c))

check_required_iff :
    (c : Configuration) (id : ℕ) (definition : Dna.Bridge)
    → (check_required c id definition ≡ passed) ↔ HasRequired c definition
unfolding check_required
check_required_iff c id definition = by_presence definition.presence refl
  where
    some_bridge :
        (any (λ (b : Bridge). b.handle == definition.handle) c.bridges ≡ true)
        ↔ Any (λ (b : Bridge). b.handle ≡ definition.handle) c.bridges
    some_bridge =
        any_iff (λ (b : Bridge). b.handle == definition.handle)
          (λ (b : Bridge). b.handle ≡ definition.handle) (λ b. ==_iff b.handle definition.handle)
          c.bridges

    by_presence :
        (p : BridgePresence)
        → definition.presence ≡ p
        → (check_required c id definition ≡ passed) ↔ HasRequired c definition
    by_presence required e = rw e (
      λ h _. some_bridge.0 ((ensure_iff _ (required_bridge_missing definition.handle id)).0 h),
      λ h. (ensure_iff _ (required_bridge_missing definition.handle id)).1 (some_bridge.1 (h refl)),
    )
    by_presence optional e = rw e (λ h q. cc, λ h. refl)

pub check_required_bridges_iff :
    (c : Configuration) (id : ℕ) (dna : Dna)
    → (check_required_bridges c id dna ≡ passed) ↔ HasRequiredBridges c dna
unfolding check_required_bridges
check_required_bridges_iff c id dna =
    for_each_iff _ (λ (z : ℕ × Zome). All (HasRequired c) z.1.bridges)
      (λ z.
        for_each_iff (check_required c id) (HasRequired c) (check_required_iff c id) z.1.bridges)
      dna.zomes

implements_iff :
    (expected : ℕ × Trait) (zome : Zome) (offered : ℕ × TraitFns)
    → (implements expected zome offered ≡ true) ↔ Implements expected zome offered
unfolding implements
implements_iff (name, expected) zome (offered_name, offered) =
    let listed =
      all_iff (λ (f : FnDeclaration). contains offered.functions f.name)
        (λ (f : FnDeclaration). contains offered.functions f.name ≡ true) (λ f. (λ h. h, λ h. h))
        expected.functions in
    let declared =
      all_iff (λ (f : FnDeclaration). any (λ g. declaration_eq g f) zome.fn_declarations)
        (λ (f : FnDeclaration). Any (λ g. declaration_eq g f ≡ true) zome.fn_declarations)
        (λ f.
          any_iff (λ g. declaration_eq g f) (λ g. declaration_eq g f ≡ true) (λ g. (λ h. h, λ h. h))
            zome.fn_declarations)
        expected.functions in
    (
      λ h. (ground arith, listed.0 (ground arith), declared.0 (ground arith)),
      λ h.
          let l = listed.1 h.1 in
          let r = declared.1 h.2 in ground (arith, ==_iff offered_name name, h.0),
    )

check_trait_iff :
    (handle caller : ℕ) (callee : Dna) (expected : ℕ × Trait)
    → (check_trait handle caller callee expected ≡ passed) ↔ HasTrait callee expected
unfolding check_trait
check_trait_iff handle caller callee (name, expected) =
    trans_iff (ensure_iff _ (trait_not_implemented handle caller name expected.functions)) (
      any_iff _ (λ (z : ℕ × Zome). Any (Implements (name, expected) z.1) z.1.traits)
        (λ z.
          any_iff (implements (name, expected) z.1) (Implements (name, expected) z.1)
            (implements_iff (name, expected) z.1) z.1.traits)
        callee.zomes)

-- The last element, or what was found before.
abbrev last_or : List Dna.Bridge → Option Dna.Bridge → Option Dna.Bridge
last_or [] before = before
last_or (d ∷ ds) before = last_or ds (some d)

last-last_or : (d : Dna.Bridge) (ds : List Dna.Bridge) → last (d ∷ ds) ≡ last_or ds (some d)
last-last_or d [] = refl
last-last_or d (e ∷ ds) = last-last_or e ds

last_or-append :
    (ds es : List Dna.Bridge) (before : Option Dna.Bridge)
    → last_or (ds ++ es) before ≡ last_or es (last_or ds before)
last_or-append [] es before = refl
last_or-append (d ∷ ds) es before = last_or-append ds es (some d)

last_definition_lem :
    (handle : ℕ) (ds : List Dna.Bridge) (before : Option Dna.Bridge)
    → last_definition handle ds before
      ≡ last_or (filter (λ (d : Dna.Bridge). d.handle == handle) ds) before
unfolding last_definition
last_definition_lem handle [] before = refl
last_definition_lem handle (d ∷ ds) before = elim (Bool-cases (d.handle == handle)) [
  | inl e ↦ rw e (last_definition_lem handle ds (some d))
  | inr e ↦ rw e (last_definition_lem handle ds before)
]

bridge_definition-last_or :
    (handle : ℕ) (zs : List (ℕ × Zome)) (before : Option Dna.Bridge)
    → bridge_definition handle zs before ≡ last_or (definitions handle zs) before
unfolding bridge_definition
bridge_definition-last_or handle [] before = refl
bridge_definition-last_or handle ((name, z) ∷ zs) before =
    bridge_definition-last_or handle zs (last_definition handle z.bridges before)
    ∙ ap (last_or (definitions handle zs)) (last_definition_lem handle z.bridges before)
    ∙ sym (
        last_or-append (filter (λ (d : Dna.Bridge). d.handle == handle) z.bridges)
          (definitions handle zs) before)

bridge_definition_lem :
    (handle : ℕ) (zs : List (ℕ × Zome))
    → bridge_definition handle zs none ≡ last (definitions handle zs)
bridge_definition_lem handle zs =
    bridge_definition-last_or handle zs none ∙ sym (whole (definitions handle zs))
  where
    whole : (ds : List Dna.Bridge) → last ds ≡ last_or ds none
    whole [] = refl
    whole (d ∷ ds) = last-last_or d ds

module _ (load : ℕ → Option Dna) (address_of : Dna → ℕ) where
  with_dna_iff :
      (c : Configuration) (id : ℕ) (k : ℕ → ℕ → Dna → Checked) (P : Dna → Type 0)
      → ((i file : ℕ) (dna : Dna) → (k i file dna ≡ passed) ↔ P dna)
      → (with_dna load address_of c id k ≡ passed) ↔ Runs load address_of c id P
  unfolding with_dna
  with_dna_iff c id k P each =
      ok_or_iff (instance_not_found_in_bridge id) _ _
        (λ i.
          ok_or_iff (dna_not_found i.dna i.id) _ _
            (λ d. ok_or_iff (could_not_load d.file) _ _ (λ dna. each i.id d.file dna) (load d.file))
            (dna_by_id c i.dna))
        (instance_by_id c id)

  check_reference_iff :
      (b : Bridge) (callee : ℕ) (dna : Dna) (definition : Dna.Bridge) (reference : BridgeReference)
      → (check_reference load address_of b callee dna definition reference ≡ passed)
        ↔ Accepts load address_of dna reference
  unfolding check_reference
  check_reference_iff b callee dna definition (address dna_address) =
      trans_iff
        (ensure_iff _
          (wrong_callee_address definition.handle b.caller_id dna_address callee (address_of dna)))
        (==_iff dna_address (address_of dna))
  check_reference_iff b callee dna definition (trait traits) =
      for_each_iff _ (HasTrait dna) (check_trait_iff definition.handle b.caller_id dna) traits

  pub check_bridge_requirements_iff :
      (c : Configuration) (b : Bridge)
      → (check_bridge_requirements load address_of c b ≡ passed) ↔ IsMet load address_of c b
  unfolding check_bridge_requirements
  check_bridge_requirements_iff c b =
      with_dna_iff c b.caller_id _ _ λ caller caller_file caller_dna.
        with_dna_iff c b.callee_id _ _ λ callee callee_file callee_dna.
          rw (bridge_definition_lem b.handle caller_dna.zomes) (
            ok_or_iff (no_bridge_definition b.handle b.caller_id) _ _
              (λ definition.
                check_reference_iff b callee callee_dna definition definition.reference)
              (last (definitions b.handle caller_dna.zomes)))
