-- ===== src/Conductor/Ending.antt =====
-- The rules by which a do block of crates/conductor_lib/src/conductor is shown not to panic: `Ends Q r`
-- says that a step does not panic and that what it returns meets Q.
use rust_holochain.Base.{◌≡◌, refl, Bool, true, false, Option, none, some, is_some}
use rust_holochain.Conductor.Config.{Configuration}
use rust_holochain.Conductor.Checks.{Checked, passed, failed}
use rust_holochain.Conductor.Consistency.{check_consistency}
use rust_holochain.Conductor.Soundness.{Passes}
use rust_holochain.Conductor.State.{
  Host, Conductor, Error, Step, returned, raised, panicked, M, ◌>>=◌, pure, some_or, unwrap, guard,
  gets, modify, checked, check,
}

abbrev pub Ends : {A : Type 0} → (A → Conductor → Type 0) → Step A → Type 0
Ends Q (returned a st) = Q a st
Ends Q (raised e st) = Unit
Ends Q panicked = ⊥

-- The rule of a do block.
pub Ends-bind :
    {A B : Type 0} (R : A → Conductor → Type 0) (Q : B → Conductor → Type 0) (m : M A) (f : A → M B)
    (st : Conductor)
    → Ends R (m st)
    → ((a : A) (st' : Conductor) → R a st' → Ends Q (f a st'))
    → Ends Q ((m >>= f) st)
unfolding ◌>>=◌
Ends-bind {A} {B} R Q m f st h k = by_step (m st) h
  where
    by_step :
        (r : Step A)
        → Ends R r
        → Ends Q (elim r [
          | returned a st' ↦ f a st'
          | raised e st' ↦ raised e st'
          | panicked ↦ panicked
        ])
    by_step (returned a st') h = k a st' h
    by_step (raised e st') h = tt
    by_step panicked h = absurd h

pub Ends-imp :
    {A : Type 0} (Q R : A → Conductor → Type 0) (r : Step A)
    → ((a : A) (st' : Conductor) → Q a st' → R a st')
    → Ends Q r
    → Ends R r
Ends-imp Q R (returned a st') f h = f a st' h
Ends-imp Q R (raised e st') f h = tt
Ends-imp Q R panicked f h = h

pub Ends-pure :
    {A : Type 0} (Q : A → Conductor → Type 0) (a : A) (st : Conductor) → Q a st → Ends Q (pure a st)
unfolding pure
Ends-pure Q a st q = q

pub Ends-gets :
    {A : Type 0} (f : Conductor → A) (st : Conductor)
    → Ends (λ a st'. (a ≡ f st) × (st' ≡ st)) (gets f st)
unfolding gets
Ends-gets f st = (refl, refl)

pub Ends-modify :
    (f : Conductor → Conductor) (st : Conductor) → Ends (λ u st'. st' ≡ f st) (modify f st)
unfolding modify
Ends-modify f st = refl

pub Ends-check :
    (host : Host) (c : Configuration) (st : Conductor)
    → Ends (λ u st'. Passes host c × (st' ≡ st)) (check host c st)
unfolding checked
Ends-check host c st =
    by_result (check_consistency host.load host.address_of host.toposort c) (λ p. p)
  where
    by_result :
        (r : Checked)
        → (r ≡ passed → Passes host c)
        → Ends (λ u st'. Passes host c × (st' ≡ st)) (checked r st)
    by_result passed p = (p refl, refl)
    by_result (failed e) p = tt

pub Ends-some_or :
    {A : Type 0} (e : Error) (o : Option A) (st : Conductor)
    → Ends (λ a st'. (o ≡ some a) × (st' ≡ st)) (some_or e o st)
unfolding some_or
Ends-some_or e none st = tt
Ends-some_or e (some a) st = (refl, refl)

pub Ends-unwrap :
    {A : Type 0} (o : Option A) (st : Conductor)
    → is_some o ≡ true
    → Ends (λ a st'. (o ≡ some a) × (st' ≡ st)) (unwrap o st)
unfolding unwrap
Ends-unwrap none st h = cc
Ends-unwrap (some a) st h = (refl, refl)

pub Ends-guard :
    (b : Bool) (e : Error) (st : Conductor) → Ends (λ u st'. (b ≡ true) × (st' ≡ st)) (guard b e st)
unfolding guard
Ends-guard true e st = (refl, refl)
Ends-guard false e st = tt
