-- ===== src/Sim2h/Store/Query.antt =====
-- The read-only queries of the `Store` of crates/sim2h/src/sim2h_im_state.rs.
use rust_holochain.Base.{
  ℕ, zero, suc, ◌≤◌, ◌≡◌, ◌≢◌, refl, sym, subst, ◌∙◌, inl, inr, Bool, true, false, not, ◌&&◌,
  Option, none, some, List, [], ◌∷◌, arith, ◌==◌, ==_iff, Option-cases, Bool-cases, if◌then◌else◌,
  ◌⊎◌, take, length, length-take-le,
}
use rust_holochain.Base.Map
use rust_holochain.Base.Map.{Map, Unique, holds}
use rust_holochain.Base.Set
use rust_holochain.Base.Set.{Set}
use rust_holochain.Sim2h.Sharding.{Lib3h}
use rust_holochain.Sim2h.Space
use rust_holochain.Sim2h.Space.{Space, or_default}
use rust_holochain.Sim2h.Store.{
  Store, without, query_candidates, get_agents_for_query, get_agents_holding_entry,
  get_agents_that_should_hold_entry,
}

-- What rand documents of `shuffle`: the same elements in another order.
pub record IsShuffle (shuffle : List ℕ → List ℕ) : Type 0 where
  pub same_members : (xs : List ℕ) (a : ℕ) → Set.contains (shuffle xs) a ≡ Set.contains xs a
  pub same_length : (xs : List ℕ) → length (shuffle xs) ≡ length xs

contains-take :
    (n : ℕ) (xs : List ℕ) (a : ℕ) → Set.contains (take n xs) a ≡ true → Set.contains xs a ≡ true
contains-take zero xs a h = absurd (ground arith)
contains-take (suc n) [] a h = h
contains-take (suc n) (x ∷ xs) a h = ground (arith, contains-take n xs a)

length-take-pos : (xs : List ℕ) → 1 ≤ length xs → 1 ≤ length (take 3 xs)
length-take-pos [] h = h
length-take-pos (x ∷ xs) h = omega arith

contains-without :
    (asker : Option ℕ) (s : Set) (b : ℕ)
    → Set.contains (without asker s) b
      ≡ (elim asker [ none ↦ true | some a ↦ not (a == b) ] && Set.contains s b)
contains-without none s b = refl
contains-without (some a) s b = Set.contains-remove s a b

-- Nobody is left without the asker: a member can only be the asker.
only_asker :
    (asker : Option ℕ) (s : Set) (c : ℕ)
    → Set.is_empty (without asker s) ≡ true
    → Set.contains s c ≡ true
    → asker ≡ some c
only_asker none s c e h = absurd (ground (arith, Set.is_empty-contains s c))
only_asker (some a) s c e h =
    ground (arith, Set.is_empty-contains (Set.remove s a) c, Set.contains-remove s a c, ==_iff a c)

abbrev pub among : Option Set → ℕ → Bool
among o b = Set.contains (or_default o) b

-- What is known of a candidate: a holder that does not ask; or one that should hold the entry and
-- does not ask, and nobody else holds it; or the asker, and nobody else holds it or should.
abbrev pub Candidate : Option ℕ → Option Set → Option Set → ℕ → Type 0
Candidate asker holding should b =
    ((among holding b ≡ true) × (asker ≢ some b))
    ⊎ ((among should b ≡ true)
        × (asker ≢ some b)
        × ((c : ℕ) → among holding c ≡ true → asker ≡ some c))
    ⊎ ((asker ≡ some b)
        × ((c : ℕ) → among holding c ≡ true → asker ≡ some c)
        × ((c : ℕ) → among should c ≡ true → asker ≡ some c))

kept_by_without :
    (asker : Option ℕ) (s : Set) (b : ℕ)
    → Set.contains (without asker s) b ≡ true
    → (Set.contains s b ≡ true) × (asker ≢ some b)
kept_by_without none s b h = (h, λ e. ground arith)
kept_by_without (some a) s b h = (
  ground (arith, Set.contains-remove s a b),
  λ e. ground (arith, Set.contains-remove s a b, ==_iff a b),
)

asker_alone :
    (asker : Option ℕ) (out : Set) (b : ℕ)
    → Set.is_empty out ≡ true
    → Set.contains (elim asker [ none ↦ [] | some a ↦ Set.insert out a ]) b ≡ true
    → asker ≡ some b
asker_alone none out b e h = absurd (ground arith)
asker_alone (some a) out b e h =
    ground (arith, Set.contains-insert out a b, Set.is_empty-contains out b, ==_iff a b)

candidates_lem :
    (asker : Option ℕ) (holding : Set) (should : Set) (b : ℕ)
    → Set.contains (query_candidates asker (some holding) (some should)) b ≡ true
    → Candidate asker (some holding) (some should) b
unfolding query_candidates
candidates_lem asker holding should b h = elim (Bool-cases (Set.is_empty (without asker holding))) [
  | inr some_hold ↦ inl (kept_by_without asker holding b (ground arith))
  | inl none_hold ↦ elim (Bool-cases (Set.is_empty (without asker should))) [
    | inr some_should ↦
        let (is, not_asker) = kept_by_without asker should b (ground arith) in
        inr (inl (is, not_asker, λ c. only_asker asker holding c none_hold))
    | inl none_should ↦ inr (
        inr (
          asker_alone asker (without asker should) b none_should (ground arith),
          λ c. only_asker asker holding c none_hold,
          λ c. only_asker asker should c none_should,
        ))
  ]
]

candidates_none :
    (asker : Option ℕ) (b : ℕ)
    → Set.contains (query_candidates asker none none) b ≡ true
    → Candidate asker none none b
unfolding query_candidates Set.remove Set.is_empty
candidates_none none b h = absurd (ground arith)
candidates_none (some a) b h =
    inr (inr (ground (arith, Set.contains-insert [] a b, ==_iff a b), λ c e. cc, λ c e. cc))

length-insert : (s : Set) (a : ℕ) → 1 ≤ length (Set.insert s a)
unfolding Set.insert
length-insert [] a = omega arith
length-insert (x ∷ xs) a = ground arith

length_of_not_empty : (s : Set) → Set.is_empty s ≡ false → 1 ≤ length s
unfolding Set.is_empty
length_of_not_empty [] h = absurd (ground arith)
length_of_not_empty (x ∷ xs) h = omega arith

candidates_pos :
    (a : ℕ) (holding should : Option Set) → 1 ≤ length (query_candidates (some a) holding should)
unfolding query_candidates
candidates_pos a holding should =
    let out = without (some a) (or_default holding) in
    let out' =
      if Set.is_empty out
      then without (some a) (elim should [ none ↦ out | some s ↦ s ])
      else out in
    elim (Bool-cases (Set.is_empty out')) [
      | inl e ↦ rw e (length-insert out' a)
      | inr e ↦ rw e (length_of_not_empty out' e)
    ]

-- A query is sent to at most three agents, for a shuffle that keeps the members and their number.
-- Each of them is known to hold the whole entry and is not the asker; only if no other agent holds
-- it, one that should hold it and is not the asker; and only if there is none of those either, the
-- asker himself. If somebody asks, the answer is not empty.
pub get_agents_for_query_lem :
    (lib : Lib3h) (shuffle : List ℕ → List ℕ) (st : Store) (space entry : ℕ) (asker : Option ℕ)
    → IsShuffle shuffle
    → (length (get_agents_for_query lib shuffle st space entry asker) ≤ 3)
      × ((b : ℕ)
          → Set.contains (get_agents_for_query lib shuffle st space entry asker) b ≡ true
          → Candidate asker
              (get_agents_holding_entry st space entry)
              (get_agents_that_should_hold_entry lib st space entry)
              b)
      × ((a : ℕ)
          → asker ≡ some a
          → 1 ≤ length (get_agents_for_query lib shuffle st space entry asker))
unfolding get_agents_for_query
get_agents_for_query_lem lib shuffle st space entry asker sh =
    let holding = get_agents_holding_entry st space entry in
    let should = get_agents_that_should_hold_entry lib st space entry in
    let all = query_candidates asker holding should in
    (
      length-take-le 3 (shuffle all),
      λ b h.
          let there = sym (sh.same_members all b) ∙ contains-take 3 (shuffle all) b h in
          elim (Option-cases (Map.get space st.spaces)) [
            | inl e ↦
                let nobody : holding ≡ none = ground arith in
                let nobody' : should ≡ none = ground arith in
                rw (nobody, nobody') (candidates_none asker b (rw (nobody, nobody') at there))
            | inr (s, e) ↦
                let h : holding ≡ some (Space.get_agents_holding_entry s entry) = ground arith in
                let h' : should ≡ some (Space.get_agents_that_should_hold_entry lib s entry) =
                  ground arith in
                subst (λ o. Candidate asker o should b) (sym h)
                  (subst (λ o. Candidate asker (some (Space.get_agents_holding_entry s entry)) o b)
                    (sym h') (candidates_lem asker _ _ b (rw (h, h') at there)))
          ],
      λ a e.
          length-take-pos (shuffle all)
            (rw (sh.same_length all, e) (candidates_pos a holding should)),
    )
