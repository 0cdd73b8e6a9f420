-- ===== src/Conductor/Servers.antt =====
-- The loop of boot_from_config of crates/conductor_lib/src/conductor/base.rs over the UI interfaces: it never
-- meets the `unwrap` of a DNA interface that is not configured.
use rust_holochain.Base.{
  ℕ, ◌≡◌, refl, sym, subst, true, Option, none, some, List, [], ◌∷◌, ◌==◌, All, is_some, ◌∙◌,
}
use rust_holochain.Conductor.Config.{
  Configuration, InterfaceConfiguration, UiInterfaceConfiguration, find, interface_by_id,
}
use rust_holochain.Conductor.Consistency.{check_consistency}
use rust_holochain.Conductor.Passing.{>>_iff, is_some-find}
use rust_holochain.Conductor.Validity.{IsInterface, IsServed}
use rust_holochain.Conductor.Equivalence.{unsorted, unsorted_iff}
use rust_holochain.Conductor.Soundness.{Passes}
use rust_holochain.Conductor.State.{Host, Conductor}
use rust_holochain.Conductor.Instances.{connected_dna_interface, add_static_server, for_each_in}
use rust_holochain.Conductor.Ending.{
  Ends, Ends-bind, Ends-imp, Ends-pure, Ends-gets, Ends-some_or, Ends-unwrap,
}

-- The DNA interface of a UI interface is configured, if it has one.
abbrev pub Connects : List InterfaceConfiguration → Option ℕ → Type 0
Connects interfaces none = Unit
Connects interfaces (some id) =
    is_some (find (λ (f : InterfaceConfiguration). f.id == id) interfaces) ≡ true

abbrev pub AllConnect : List InterfaceConfiguration → List UiInterfaceConfiguration → Type 0
AllConnect interfaces = All λ (ui : UiInterfaceConfiguration). Connects interfaces ui.dna_interface

pub passing-AllConnect :
    (host : Host) (c : Configuration) → Passes host c → AllConnect c.interfaces c.ui_interfaces
unfolding check_consistency unsorted
passing-AllConnect host c p =
    each c c.ui_interfaces
      ((unsorted_iff host.load host.address_of host.toposort c).0 ((>>_iff _ _).0 p).0).0.1
  where
    one :
        (c : Configuration) (ui : UiInterfaceConfiguration)
        → IsServed c ui
        → Connects c.interfaces ui.dna_interface
    one c ui (bundle, interface) = by_interface c ui.dna_interface interface
      where
        by_interface :
            (c : Configuration) (o : Option ℕ) → IsInterface c o → Connects c.interfaces o
        by_interface c none h = tt
        by_interface c (some id) h =
            is_some-find (λ (f : InterfaceConfiguration). f.id) c.interfaces id ∙ h

    each :
        (c : Configuration) (uis : List UiInterfaceConfiguration)
        → All (IsServed c) uis
        → AllConnect c.interfaces uis
    each c [] h = tt
    each c (ui ∷ uis) h = (one c ui h.0, each c uis h.1)

abbrev Same : {A : Type 0} → Conductor → A → Conductor → Type 0
Same st a st' = st' ≡ st

Ends-connected :
    (c : Configuration) (o : Option ℕ) (st : Conductor)
    → Connects c.interfaces o
    → Ends (Same st) (connected_dna_interface c o st)
unfolding connected_dna_interface interface_by_id
Ends-connected c none st h = Ends-pure (Same st) tt st refl
Ends-connected c (some id) st h =
    rw h (Ends-imp _ (Same st) _ (λ u st' e. e.1) (Ends-unwrap (some tt) st refl))

Ends-add_static_server :
    (ui : UiInterfaceConfiguration) (st : Conductor)
    → Connects st.config.interfaces ui.dna_interface
    → Ends (Same st) (add_static_server ui st)
unfolding add_static_server
Ends-add_static_server ui st h =
    Ends-bind _ (Same st) _ _ st (Ends-gets (λ s. s.config) st) λ c st0 e0.
      Ends-bind _ (Same st) _ _ st0 (Ends-some_or _ _ st0) λ bundle st1 e1.
        Ends-imp _ (Same st) _ (λ u st2 e2. e2 ∙ e1.1 ∙ e0.1)
          (Ends-connected c ui.dna_interface st1
            (subst (λ (x : Configuration). Connects x.interfaces ui.dna_interface) (sym e0.0) h))

pub Ends-static_servers :
    (uis : List UiInterfaceConfiguration) (st : Conductor)
    → AllConnect st.config.interfaces uis
    → Ends (Same st) (for_each_in add_static_server uis st)
unfolding for_each_in
Ends-static_servers [] st h = Ends-pure (Same st) tt st refl
Ends-static_servers (ui ∷ uis) st h =
    Ends-bind (Same st) (Same st) _ _ st (Ends-add_static_server ui st h.0) λ u st' e.
      subst (λ s. Ends (Same st) (for_each_in add_static_server uis s)) (sym e)
        (Ends-static_servers uis st h.1)
