-- ===== src/Sim2h/Store/Task.antt =====
-- The task of `Store::new` of crates/sim2h/src/sim2h_im_state.rs: the messages that it handles, each
-- with the time and the draws of its moment.
use rust_holochain.Base.{ℕ, ◌≤◌, ◌≡◌, refl, some, List, [], ◌∷◌, arith, All}
use rust_holochain.Sim2h.Sharding.{Lib3h, Moment, IsRng, entry_location}
use rust_holochain.Sim2h.Space.{EntryInfo}
use rust_holochain.Sim2h.Space.Coherent.{IsEntry}
use rust_holochain.Sim2h.Store.{Store, AolEntry, new, at, run}
use rust_holochain.Sim2h.Store.Coherent.{IsStore, new-IsStore}
use rust_holochain.Sim2h.Store.Runs.{mutate-IsStore}

-- Nothing but the deadlines depends on the clock and the draws.
IsEntry-at :
    (lib : Lib3h) (moment : Moment) (e : ℕ) (i : EntryInfo)
    → (IsEntry lib e i → IsEntry (at lib moment) e i)
      × (IsEntry (at lib moment) e i → IsEntry lib e i)
unfolding entry_location
IsEntry-at lib moment e i = (
  λ h. record { hash = h.hash; loc = h.loc; aspects = h.aspects },
  λ h. record { hash = h.hash; loc = h.loc; aspects = h.aspects },
)

pub IsStore-at :
    (lib : Lib3h) (moment : Moment) (st : Store)
    → (IsStore lib st → IsStore (at lib moment) st) × (IsStore (at lib moment) st → IsStore lib st)
IsStore-at lib moment st = (
  λ h. record {
    unique = h.unique;
    spaces = λ k s e.
        let v = h.spaces k s e in
        record {
          coherent = record {
            connections_unique = v.coherent.connections_unique;
            entries_unique = v.coherent.entries_unique;
            keyed = v.coherent.keyed;
            backed = v.coherent.backed;
            entries = λ j i g. (IsEntry-at lib moment j i).0 (v.coherent.entries j i g);
          };
          same_interval = v.same_interval;
        };
  },
  λ h. record {
    unique = h.unique;
    spaces = λ k s e.
        let v = h.spaces k s e in
        record {
          coherent = record {
            connections_unique = v.coherent.connections_unique;
            entries_unique = v.coherent.entries_unique;
            keyed = v.coherent.keyed;
            backed = v.coherent.backed;
            entries = λ j i g. (IsEntry-at lib moment j i).1 (v.coherent.entries j i g);
          };
          same_interval = v.same_interval;
        };
  },
)

-- At each of its messages the draws are as rand documents them.
abbrev pub Draws : Lib3h → List (Moment × AolEntry) → Type 0
Draws lib = All (λ (x : Moment × AolEntry). IsRng (at lib x.0))

run_from :
    (lib : Lib3h) (log : List (Moment × AolEntry)) (st : Store)
    → Draws lib log
    → 4 ≤ st.gossip_interval
    → IsStore lib st
    → (st' : Store) × (run lib log st ≡ some st') × IsStore lib st'
unfolding run
run_from lib [] st rng i h = (st, refl, h)
run_from lib ((moment, e) ∷ log) st (rng, draws) i h =
    let (st', r, done, valid, same) =
      mutate-IsStore (at lib moment) e st rng i ((IsStore-at lib moment st).0 h) in
    let (end, ran, ok) =
      run_from lib log st' draws (omega (arith, same)) ((IsStore-at lib moment st').1 valid) in
    (end, rw (done, run) ran, ok)

-- Whatever messages the server gets, and whenever: with a gossip interval of at least four
-- milliseconds, and draws at each message that are as rand documents them, the store handles all of them without a panic
-- and stays in order.
pub run-IsStore :
    (lib : Lib3h) (log : List (Moment × AolEntry)) (redundancy interval : ℕ)
    → Draws lib log
    → 4 ≤ interval
    → (st : Store) × (run lib log (new redundancy interval) ≡ some st) × IsStore lib st
unfolding new
run-IsStore lib log redundancy interval rng i =
    run_from lib log (new redundancy interval) rng i (new-IsStore lib redundancy interval)
