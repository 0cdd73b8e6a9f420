-- ===== src/Conductor/Dna.antt =====
-- What the conductor reads of a DNA: crates/core_types/src/dna, the definitions of its zomes, traits,
-- function declarations and bridges. A name, a type and an address is a number; a BTreeMap is the
-- list of its entries in the order of the keys. The fields of a DNA and of a zome that the conductor
-- does not read stand in the DNA's file only.
use rust_holochain.Base.{ℕ, Bool, true, false, List, [], ◌∷◌, ◌&&◌, ◌==◌}

pub record FnParameter : Type 0 where
  pub parameter_type : ℕ
  pub name : ℕ

pub record FnDeclaration : Type 0 where
  pub name : ℕ
  pub inputs : List FnParameter
  pub outputs : List FnParameter

-- The derived `PartialEq` of the two.
unfoldable pub parameters_eq : List FnParameter → List FnParameter → Bool
parameters_eq [] [] = true
parameters_eq [] (q ∷ qs) = false
parameters_eq (p ∷ ps) [] = false
parameters_eq (p ∷ ps) (q ∷ qs) =
    (p.parameter_type == q.parameter_type) && (p.name == q.name) && parameters_eq ps qs

unfoldable pub declaration_eq : FnDeclaration → FnDeclaration → Bool
unfolding parameters_eq
declaration_eq f g =
    (f.name == g.name) && parameters_eq f.inputs g.inputs && parameters_eq f.outputs g.outputs

pub record TraitFns : Type 0 where
  pub functions : List ℕ

pub record Trait : Type 0 where
  pub functions : List FnDeclaration

pub data BridgePresence : Type 0 where
  required : BridgePresence
  optional : BridgePresence

pub data BridgeReference : Type 0 where
  address : ℕ → BridgeReference
  trait : List (ℕ × Trait) → BridgeReference

pub record Bridge : Type 0 where
  pub presence : BridgePresence
  pub handle : ℕ
  pub reference : BridgeReference

pub record Zome : Type 0 where
  pub traits : List (ℕ × TraitFns)
  pub fn_declarations : List FnDeclaration
  pub bridges : List Bridge

pub record Dna : Type 0 where
  pub uuid : ℕ
  pub zomes : List (ℕ × Zome)

-- `bridge.presence == BridgePresence::Required`
abbrev pub is_required : BridgePresence → Bool
is_required required = true
is_required optional = false
