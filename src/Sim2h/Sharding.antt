-- ===== src/Sim2h/Sharding.antt =====
-- crates/sim2h/src/naive_sharding.rs, and `should_store` of crates/sim2h/src/sim2h_im_state.rs.
use rust_holochain.Base.{
  ℕ, ◌≤◌, ◌<◌, ◌≡◌, Bool, true, Option, none, some, arith, ltb, leb, ◌==◌, if◌then◌else◌,
}

-- What sim2h takes from the crates lib3h and rand, and from the clock. An identifier (an agent, a
-- uri, a space, an entry or an aspect) is a text that is only compared; it is a number here.
-- A location is the u32 of `lib3h::rrdht_util::Location`. `shard_width n r` is the f64 quotient
-- `ARC_LENGTH_MAX / (n / r)` cast to u32. `hashed_location` is the location of the hcid-encoded
-- hash of a text, which the code unwraps. `gen_range i low high` is the draw that is made for the
-- agent `i`; it is `none` where rand panics.
pub record Lib3h : Type 0 where
  pub calc_location_for_id : ℕ → Option ℕ
  pub hashed_location : ℕ → ℕ
  pub forward_distance : ℕ → ℕ → ℕ
  pub shard_width : ℕ → ℕ → ℕ
  pub gen_range : ℕ → ℕ → ℕ → Option ℕ
  pub now : ℕ

-- What the clock shows and what rand draws while one message is handled.
pub record Moment : Type 0 where
  pub time : ℕ
  pub draw : ℕ → ℕ → ℕ → Option ℕ

-- What rand documents of `gen_range`: a value of the half-open range, and a panic if it is empty.
pub record IsRng (lib : Lib3h) : Type 0 where
  pub in_range :
      (i low high : ℕ)
      → low < high
      → (v : ℕ) × (lib.gen_range i low high ≡ some v) × (low ≤ v) × (v < high)
  pub empty_range : (i low high : ℕ) → high ≤ low → lib.gen_range i low high ≡ none

module _ (lib : Lib3h) where
  unfoldable pub anything_to_location : ℕ → ℕ
  anything_to_location anything = elim (lib.calc_location_for_id anything) [
    | some loc ↦ loc
    | none ↦ lib.hashed_location anything
  ]

  unfoldable pub entry_location : ℕ → ℕ
  unfolding anything_to_location
  entry_location entry_hash = anything_to_location entry_hash

  unfoldable pub naive_sharding_should_store : ℕ → ℕ → ℕ → ℕ → Bool
  naive_sharding_should_store agent_loc data_addr_loc node_count redundant_count =
      if leb node_count redundant_count
      then true
      else ltb (lib.forward_distance agent_loc data_addr_loc)
          (lib.shard_width node_count redundant_count)

  unfoldable pub should_store : ℕ → ℕ → ℕ → ℕ → Bool
  should_store agent_loc entry_loc agent_count redundancy =
      if redundancy == 0
      then true
      else naive_sharding_should_store agent_loc entry_loc agent_count redundancy

  -- A redundancy of zero is full sync: everybody stores everything.
  pub should_store_full :
      (agent_loc entry_loc agent_count redundancy : ℕ)
      → (redundancy == 0) ≡ true
      → should_store agent_loc entry_loc agent_count redundancy ≡ true
  unfolding should_store
  should_store_full agent_loc entry_loc agent_count redundancy h = rw h

  -- With no more agents than copies wanted, everybody stores everything.
  pub should_store_few :
      (agent_loc entry_loc agent_count redundancy : ℕ)
      → agent_count ≤ redundancy
      → should_store agent_loc entry_loc agent_count redundancy ≡ true
  unfolding should_store naive_sharding_should_store
  should_store_few agent_loc entry_loc agent_count redundancy h = ground arith
