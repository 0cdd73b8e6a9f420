-- ===== src/Conductor/Soundness.antt =====
-- The invariant of the conductor's configuration and the rules by which a do block of
-- crates/conductor_lib/src/conductor keeps it.
use rust_holochain.Base.{
  ◌≡◌, refl, Bool, true, false, Option, none, some, if◌then◌else◌, Bool-cases, inl, inr,
}
use rust_holochain.Conductor.Config.{Configuration}
use rust_holochain.Conductor.Checks.{Checked, passed, failed}
use rust_holochain.Conductor.Consistency.{check_consistency}
use rust_holochain.Conductor.State.{
  Host, Conductor, Error, Step, returned, raised, panicked, M, ◌>>=◌, ◌>>◌, pure, raise, some_or,
  unwrap, guard, ignore, gets, modify, set_config, checked, check, save_config, io, Write,
  whole_write, short_write, failed_write, SavedFile, no_file, whole_file, cut_file,
}

abbrev pub Passes : Host → Configuration → Type 0
Passes host c = check_consistency host.load host.address_of host.toposort c ≡ passed

-- The configuration that a file holds in full passes the check.
abbrev pub FilePasses : Host → SavedFile → Type 0
FilePasses host no_file = Unit
FilePasses host (whole_file c) = Passes host c
FilePasses host cut_file = Unit

-- The configuration in use passes the check, and so does one that the file holds in full.
pub record IsSound (host : Host) (st : Conductor) : Type 0 where
  pub used : Passes host st.config
  pub stored : FilePasses host st.saved

abbrev pub After : {A : Type 0} → Host → Step A → Type 0
After host (returned a st) = IsSound host st
After host (raised e st) = IsSound host st
After host panicked = Unit

pub record Keeps {A : Type 0} (host : Host) (m : M A) : Type 0 where
  pub keeps : (st : Conductor) → IsSound host st → After host (m st)

module _ {host : Host} where
  After-bind :
      {A B : Type 0} (r : Step A) (f : A → M B)
      → After host r
      → ((a : A) → Keeps host (f a))
      → After host
          (elim r [ returned a st' ↦ f a st' | raised e st' ↦ raised e st' | panicked ↦ panicked ])
  After-bind (returned a st) f h k = (k a).keeps st h
  After-bind (raised e st) f h k = h
  After-bind panicked f h k = tt

  pub Keeps-bind :
      {A B : Type 0} {m : M A} {f : A → M B}
      → Keeps host m
      → ((a : A) → Keeps host (f a))
      → Keeps host (m >>= f)
  unfolding ◌>>=◌
  Keeps-bind {m = m} {f} h k = record { keeps = λ st s. After-bind (m st) f (h.keeps st s) k }

  pub Keeps-pure : {A : Type 0} (a : A) → Keeps host (pure a)
  unfolding pure
  Keeps-pure a = record { keeps = λ st s. s }

  pub Keeps-raise : {A : Type 0} (e : Error) → Keeps host (raise {A = A} e)
  unfolding raise
  Keeps-raise e = record { keeps = λ st s. s }

  pub Keeps-some_or : {A : Type 0} (e : Error) (o : Option A) → Keeps host (some_or e o)
  unfolding some_or
  Keeps-some_or e none = record { keeps = λ st s. s }
  Keeps-some_or e (some a) = record { keeps = λ st s. s }

  pub Keeps-unwrap : {A : Type 0} (o : Option A) → Keeps host (unwrap o)
  unfolding unwrap
  Keeps-unwrap none = record { keeps = λ st s. tt }
  Keeps-unwrap (some a) = record { keeps = λ st s. s }

  pub Keeps-guard : (b : Bool) (e : Error) → Keeps host (guard b e)
  unfolding guard
  Keeps-guard true e = record { keeps = λ st s. s }
  Keeps-guard false e = record { keeps = λ st s. s }

  pub Keeps-gets : {A : Type 0} (f : Conductor → A) → Keeps host (gets f)
  unfolding gets
  Keeps-gets f = record { keeps = λ st s. s }

  pub Keeps-if :
      {A : Type 0} {m k : M A} (b : Bool)
      → Keeps host m
      → Keeps host k
      → Keeps host (if b then m else k)
  Keeps-if true h k = h
  Keeps-if false h k = k

  -- A change of anything but the configuration.
  pub Keeps-modify :
      (f : Conductor → Conductor)
      → ((st : Conductor) → (f st).config ≡ st.config)
      → ((st : Conductor) → (f st).saved ≡ st.saved)
      → Keeps host (modify f)
  unfolding modify
  Keeps-modify f same same' = record {
    keeps = λ st s. record { used = rw (same st) s.used; stored = rw (same' st) s.stored };
  }

  pub Keeps-ignore : {m : M (Unit {0})} → Keeps host m → Keeps host (ignore m)
  unfolding ignore
  Keeps-ignore {m} h = record { keeps = λ st s. dropped (m st) (h.keeps st s) }
    where
      dropped :
          (r : Step (Unit {0}))
          → After host r
          → After host (elim r [
            | returned a st' ↦ returned tt st'
            | raised e st' ↦ returned tt st'
            | panicked ↦ panicked
          ])
      dropped (returned a st) h = h
      dropped (raised e st) h = h
      dropped panicked h = tt

  -- What follows a check may use that it passed.
  pub Keeps-check :
      {A : Type 0} (c : Configuration) {m : M A}
      → (Passes host c → Keeps host m)
      → Keeps host (check host c >> m)
  unfolding checked ◌>>=◌
  Keeps-check c {m} k = record {
    keeps = λ st s.
        by_result m st s (check_consistency host.load host.address_of host.toposort c)
          (λ p. (k p).keeps st s);
  }
    where
      by_result :
          {A : Type 0} (m : M A) (st : Conductor)
          → IsSound host st
          → (r : Checked) → (r ≡ passed → After host (m st))
          → After host ((checked r >> m) st)
      by_result m st s passed h = h refl
      by_result m st s (failed e) h = s

  pub Keeps-set_config : (c : Configuration) → Passes host c → Keeps host (set_config c)
  unfolding set_config
  Keeps-set_config c p = record { keeps = λ st s. record { used = p; stored = s.stored } }

  pub Keeps-save_config : Keeps host (save_config host)
  unfolding save_config
  Keeps-save_config = record {
    keeps = λ st s. elim (Bool-cases (host.can_create st.config)) [
      | inl e ↦ rw e (written st s (host.write st.config))
      | inr e ↦ rw e s
    ];
  }
    where
      written :
          (st : Conductor)
          → IsSound host st
          → (w : Write)
          → After {A = Unit {0}} host (elim w [
            | whole_write ↦ returned tt (record st { saved = whole_file st.config })
            | short_write ↦ returned tt (record st { saved = cut_file })
            | failed_write ↦ raised io (record st { saved = cut_file })
          ])
      written st s whole_write = record { used = s.used; stored = s.used }
      written st s short_write = record { used = s.used; stored = tt }
      written st s failed_write = record { used = s.used; stored = tt }
