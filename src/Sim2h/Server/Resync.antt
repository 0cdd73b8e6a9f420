-- ===== src/Sim2h/Server/Resync.antt =====
-- The resync of missing aspects in crates/sim2h/src/lib.rs: `missing_aspects_resync`,
-- `fetch_entry_data` and the cache `EntriesAlreadyFetched`. Times are in milliseconds.
use rust_holochain.Base.{
  ℕ, ◌+◌, ◌-◌, ◌<◌, ◌≡◌, Bool, true, false, none, some, List, [], ◌∷◌, ◌++◌, not, arith, ltb,
  if◌then◌else◌, Option-cases, inl, inr, All, sym, ◌∙◌,
}
use rust_holochain.Base.Map
use rust_holochain.Base.Map.{Map}
use rust_holochain.Base.Set.{Set}
use rust_holochain.Sim2h.Space
use rust_holochain.Sim2h.Store
use rust_holochain.Sim2h.Store.{Store, CheckGossipData}
use rust_holochain.Sim2h.Server.Wire.{Lib3hToClient, lib3h_to_client}
use rust_holochain.Sim2h.Server.Effects.{Sim2hHandle, Effect, send_to_joined}

-- When each entry was last asked for. The cache is keyed by the entry alone, for all spaces.
abbrev pub EntriesAlreadyFetched : Type 0
EntriesAlreadyFetched = Map ℕ

abbrev pub prune : ℕ → EntriesAlreadyFetched → EntriesAlreadyFetched
prune now entries = Map.remove_where (λ _ t. not (ltb (now - t) 1000)) entries

unfoldable pub check : ℕ → ℕ → EntriesAlreadyFetched → Bool × EntriesAlreadyFetched
check now entry entries = elim (Map.get entry (prune now entries)) [
  | some _ ↦ (true, prune now entries)
  | none ↦ (false, Map.insert entry now (prune now entries))
]

-- One entry of the loop of `fetch_entry_data`, past the cache.
unfoldable pub fetch_entry : Sim2hHandle → Store → ℕ → ℕ → List Effect
fetch_entry handle state space_hash entry_hash =
    elim (Store.get_agents_for_query handle.lib handle.shuffle state space_hash entry_hash none) [
      | [] ↦ []
      | query_agent ∷ _ ↦ send_to_joined state space_hash query_agent (
          lib3h_to_client (Lib3hToClient.handle_fetch_entry space_hash query_agent entry_hash none))
    ]

-- Each entry is checked at the time that the clock shows then.
unfoldable pub fetch_entry_data :
    Sim2hHandle
    → Store
    → ℕ
    → (clock : ℕ → ℕ) → Map Set
    → EntriesAlreadyFetched
    → List Effect × EntriesAlreadyFetched
fetch_entry_data handle state space_hash clock [] entries = ([], entries)
fetch_entry_data handle state space_hash clock ((entry_hash, []) ∷ rest) entries =
    fetch_entry_data handle state space_hash clock rest entries
fetch_entry_data handle state space_hash clock ((entry_hash, _ ∷ _) ∷ rest) entries =
    let (fetched, entries') = check (clock entry_hash) entry_hash entries in
    let (effects, entries'') = fetch_entry_data handle state space_hash clock rest entries' in
    (
      if fetched then effects else fetch_entry handle state space_hash entry_hash ++ effects,
      entries'',
    )

unfoldable pub resync_agent :
    Sim2hHandle
    → Store
    → ℕ
    → (clock : ℕ → ℕ) → ℕ
    → EntriesAlreadyFetched
    → List Effect × EntriesAlreadyFetched
resync_agent handle state space_hash clock agent_id entries =
    elim (Map.get space_hash state.spaces) [
      | none ↦ ([], entries)
      | some space ↦
          fetch_entry_data handle state space_hash clock
            (Space.get_gossip_aspects_needed_for_agent handle.lib space agent_id) entries
    ]

-- Each agent is handled with its own read of the store.
unfoldable pub resync_agents :
    Sim2hHandle
    → (views : ℕ → Store) → ℕ
    → (clock : ℕ → ℕ → ℕ) → Set
    → EntriesAlreadyFetched
    → List Effect × EntriesAlreadyFetched
resync_agents handle views space_hash clock [] entries = ([], entries)
resync_agents handle views space_hash clock (agent_id ∷ agents) entries =
    let (effects, entries') =
      resync_agent handle (views agent_id) space_hash (clock agent_id) agent_id entries in
    let (effects', entries'') = resync_agents handle views space_hash clock agents entries' in
    (effects ++ effects', entries'')

unfoldable pub missing_aspects_resync :
    Sim2hHandle
    → (views : ℕ → ℕ → Store) → (clock : ℕ → ℕ → ℕ → ℕ) → CheckGossipData
    → EntriesAlreadyFetched
    → List Effect × EntriesAlreadyFetched
missing_aspects_resync handle views clock [] entries = ([], entries)
missing_aspects_resync handle views clock ((space_hash, agents) ∷ rest) entries =
    let (effects, entries') =
      resync_agents handle (views space_hash) space_hash (clock space_hash) agents entries in
    let (effects', entries'') = missing_aspects_resync handle views clock rest entries' in
    (effects ++ effects', entries'')

-- The questions asked of the cache, one after the other, with their times.
abbrev pub checks : List (ℕ × ℕ) → EntriesAlreadyFetched → EntriesAlreadyFetched
checks [] entries = entries
checks ((now, entry) ∷ log) entries = checks log (check now entry entries).1

module _ (now entry : ℕ) (entries : EntriesAlreadyFetched) (u : Map.Unique entries) where
  get-prune :
      (e : ℕ)
      → Map.get e (prune now entries) ≡ elim (Map.get e entries) [
        | none ↦ none
        | some t ↦ if ltb (now - t) 1000 then some t else none
      ]
  get-prune e = ground (arith, Map.get-remove_where (λ _ t. not (ltb (now - t) 1000)) entries e u)

  check-Unique : Map.Unique (check now entry entries).1
  unfolding check
  check-Unique =
      let u' = Map.Unique-remove_where (λ _ t. not (ltb (now - t) 1000)) entries u in
      elim (Option-cases (Map.get entry (prune now entries))) [
        | inl e ↦ rw (e, check) (Map.Unique-insert entry now (prune now entries) u')
        | inr (t, e) ↦ rw (e, check) u'
      ]

  check-kept :
      (t e : ℕ)
      → now < t + 1000
      → Map.get e entries ≡ some t
      → Map.get e (check now entry entries).1 ≡ some t
  unfolding check
  check-kept t e h known =
      let young : ltb (now - t) 1000 ≡ true = ground arith in
      let still : Map.get e (prune now entries) ≡ some t = ground (arith, get-prune e) in
      elim (Option-cases (Map.get entry (prune now entries))) [
        | inl new ↦ rw (new, check) (ground (arith, Map.get-insert entry now (prune now entries) e))
        | inr (t', old) ↦ rw (old, check) still
      ]

  -- Whether the entry may be asked for: it was not, in the last second.
  check-fetched :
      (check now entry entries).0
      ≡ elim (Map.get entry entries) [ none ↦ false | some t ↦ ltb (now - t) 1000 ]
  unfolding check
  check-fetched = elim (Option-cases (Map.get entry (prune now entries))) [
    | inl e ↦ rw (e, check) (ground (arith, get-prune entry))
    | inr (t, e) ↦ rw (e, check) (ground (arith, get-prune entry))
  ]

  check-asked :
      (check now entry entries).0 ≡ false → Map.get entry (check now entry entries).1 ≡ some now
  unfolding check
  check-asked h = elim (Option-cases (Map.get entry (prune now entries))) [
    | inl e ↦ rw (e, check) (Map.get-insert_self entry now (prune now entries))
    | inr (t, e) ↦ absurd (ground arith)
  ]

abbrev pub Before : ℕ → ℕ × ℕ → Type 0
Before time (now, _) = now < time

checks-kept :
    (t e : ℕ) (log : List (ℕ × ℕ)) (entries : EntriesAlreadyFetched)
    → Map.Unique entries
    → All (Before (t + 1000)) log
    → Map.get e entries ≡ some t
    → Map.Unique (checks log entries) × (Map.get e (checks log entries) ≡ some t)
checks-kept t e [] entries u h known = (u, known)
checks-kept t e ((now, entry) ∷ log) entries u (h, hs) known =
    checks-kept t e log (check now entry entries).1 (check-Unique now entry entries u) hs
      (check-kept now entry entries u t e h known)

-- When the check lets an entry be asked for at a time `t`, in a cache without duplicate keys, the
-- entry was not recorded in the 1000 ms before, and a check of it before `t` + 1000 ms refuses it,
-- whatever other checks are made in between before that time.
pub check_lem :
    (t e t' : ℕ) (log : List (ℕ × ℕ)) (entries : EntriesAlreadyFetched)
    → Map.Unique entries
    → (check t e entries).0 ≡ false
    → All (Before (t + 1000)) log
    → t' < t + 1000
    → (elim (Map.get e entries) [ none ↦ false | some s ↦ ltb (t - s) 1000 ] ≡ false)
      × ((check t' e (checks log (check t e entries).1)).0 ≡ true)
check_lem t e t' log entries u asked hs h =
    let (u', known) =
      checks-kept t e log (check t e entries).1 (check-Unique t e entries u) hs
        (check-asked t e entries u asked) in
    (
      sym (check-fetched t e entries u) ∙ asked,
      ground (arith, check-fetched t' e (checks log (check t e entries).1) u', known),
    )
