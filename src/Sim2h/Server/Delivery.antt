-- ===== src/Sim2h/Server/Delivery.antt =====
-- Who is sent what: `PublishEntry` and `HandleFetchEntryResult` in crates/sim2h/src/lib.rs.
pub mod Grouping
use rust_holochain.Base.{
  ℕ, ◌≡◌, refl, sym, ap, subst, ◌∙◌, inl, inr, Bool, true, false, Option, none, some, List, [], ◌∷◌,
  ◌++◌, ◌&&◌, ◌||◌, arith, ◌==◌, ==_iff, Bool-cases, if◌then◌else◌,
}
use rust_holochain.Base.Map
use rust_holochain.Base.Map.{Map, Unique}
use rust_holochain.Base.Set
use rust_holochain.Base.Set.{Set}
use rust_holochain.Base.Distinct.{Distinct, Distinct-insert}
use rust_holochain.Sim2h.Sharding.{Lib3h}
use rust_holochain.Sim2h.Space
use rust_holochain.Sim2h.Space.{Space, not_holding}
use rust_holochain.Sim2h.Store.{Store, lookup_joined}
use rust_holochain.Sim2h.Server.Wire.{
  WireMessage, Lib3hToClient, FetchEntryResultData, EntryAspectData, multi_send,
}
use rust_holochain.Sim2h.Server.Effects.{
  Sim2hHandle, Effect, sent, mutation, closed, send_to_joined,
}
use rust_holochain.Sim2h.Server.Handlers.{
  get_agents_that_need_aspect, push_for, push_for_all, group_by_agent, send_grouped,
  handle_message_fetch_entry_result,
}
use rust_holochain.Sim2h.Server.Delivery.Grouping.{
  needed_by, pushed, append_empty, get-group_by_agent, Unique-group_by_agent,
}

-- The frames that the effects hold for an agent, with the uris they go to.
abbrev pub frames_for : ℕ → List Effect → List (ℕ × WireMessage)
frames_for a [] = []
frames_for a (sent b uri m ∷ es) = if b == a then (uri, m) ∷ frames_for a es else frames_for a es
frames_for a (mutation _ ∷ es) = frames_for a es
frames_for a (closed _ ∷ es) = frames_for a es

abbrev pub in_one_frame : Option ℕ → List Lib3hToClient → List (ℕ × WireMessage)
in_one_frame none ms = []
in_one_frame (some uri) [] = []
in_one_frame (some uri) (m ∷ ms) = (uri, multi_send (m ∷ ms)) ∷ []

frames_for-append :
    (a : ℕ) (es fs : List Effect) → frames_for a (es ++ fs) ≡ frames_for a es ++ frames_for a fs
frames_for-append a [] fs = refl
frames_for-append a (sent b uri m ∷ es) fs = ground (arith, frames_for-append a es fs)
frames_for-append a (mutation _ ∷ es) fs = frames_for-append a es fs
frames_for-append a (closed _ ∷ es) fs = frames_for-append a es fs

abbrev frame_of : Option (List Lib3hToClient) → Option ℕ → List (ℕ × WireMessage)
frame_of none uri = []
frame_of (some ms) none = []
frame_of (some ms) (some uri) = (uri, multi_send ms) ∷ []

frames_for-one :
    (o : Option ℕ) (b : ℕ) (ms : List Lib3hToClient) (a : ℕ)
    → frames_for a (elim o [ none ↦ [] | some uri ↦ sent b uri (multi_send ms) ∷ [] ])
      ≡ (if b == a then frame_of (some ms) o else [])
frames_for-one none b ms a = ground arith
frames_for-one (some uri) b ms a = ground arith

module _ (state : Store) (space a : ℕ) where
  frames_for-send_to_joined :
      (b : ℕ) (ms : List Lib3hToClient)
      → frames_for a (send_to_joined state space b (multi_send ms))
        ≡ (if b == a then frame_of (some ms) (lookup_joined state space a) else [])
  unfolding send_to_joined
  frames_for-send_to_joined b ms = elim (Bool-cases (b == a)) [
    | inl same ↦
        frames_for-one (lookup_joined state space b) b ms a
        ∙ ap (λ c. if b == a then frame_of (some ms) (lookup_joined state space c) else [])
            ((==_iff b a).0 same)
    | inr other ↦
        frames_for-one (lookup_joined state space b) b ms a
        ∙ ap (λ c. if c then frame_of (some ms) (lookup_joined state space b) else []) other
        ∙ ap (λ c. if c then frame_of (some ms) (lookup_joined state space a) else []) (sym other)
  ]

  frames_for-send_grouped :
      (to_agent : Map (List Lib3hToClient))
      → Unique to_agent
      → frames_for a (send_grouped state space to_agent)
        ≡ frame_of (Map.get a to_agent) (lookup_joined state space a)
  unfolding send_grouped
  frames_for-send_grouped [] u = refl
  frames_for-send_grouped ((b, ms) ∷ rest) (new, u) =
      let joined = lookup_joined state space a in
      frames_for-append a (send_to_joined state space b (multi_send ms))
        (send_grouped state space rest)
      ∙ ap (λ xs. xs ++ frames_for a (send_grouped state space rest))
          (frames_for-send_to_joined b ms)
      ∙ ap (λ xs. (if b == a then frame_of (some ms) joined else []) ++ xs)
          (frames_for-send_grouped rest u)
      ∙ elim (Bool-cases (b == a)) [
        | inl same ↦
            let last : Map.get a rest ≡ none =
              subst (λ c. Map.get c rest ≡ none) ((==_iff b a).0 same) new in
            rw (same, last) (append_empty (frame_of (some ms) joined))
        | inr other ↦ rw other refl
      ]

frame_of-pushed :
    (ms : List Lib3hToClient) (o : Option ℕ) → frame_of (pushed ms) o ≡ in_one_frame o ms
frame_of-pushed [] none = refl
frame_of-pushed [] (some uri) = refl
frame_of-pushed (m ∷ ms) none = refl
frame_of-pushed (m ∷ ms) (some uri) = refl

-- The answer to a fetch, by an agent who answers for himself and for his own space: every agent who
-- is joined there and needs some of the aspects gets exactly one frame, at his uri, with the aspects
-- that he needs in the order of the answer; all others get nothing. Any other answer sends nothing.
pub frames_for-fetch_entry_result :
    (handle : Sim2hHandle) (state : Store) (signer space : ℕ) (d : FetchEntryResultData) (a : ℕ)
    → frames_for a (handle_message_fetch_entry_result handle state signer space d) ≡ (
        if (signer == d.provider_agent_id) && (d.space_address == space)
        then in_one_frame
            (lookup_joined state space a)
            (needed_by handle.lib state space d.entry.entry_address a d.entry.aspect_list)
        else [])
unfolding handle_message_fetch_entry_result
frames_for-fetch_entry_result handle state signer space d a =
    let entry = d.entry.entry_address in
    let aspects = d.entry.aspect_list in
    let joined = lookup_joined state space a in
    let grouped = group_by_agent handle.lib state space entry aspects [] in
    let own = (signer == d.provider_agent_id) && (d.space_address == space) in
    let sent_own =
      frames_for-send_grouped state space a grouped
        (Unique-group_by_agent handle.lib state space entry a aspects [] tt)
      ∙ ap (λ o. frame_of o joined)
          (get-group_by_agent handle.lib state space entry a aspects [] [] refl)
      ∙ frame_of-pushed (needed_by handle.lib state space entry a aspects) joined in
    elim (Bool-cases own) [ inl e ↦ rw e sent_own | inr e ↦ rw e refl ]
