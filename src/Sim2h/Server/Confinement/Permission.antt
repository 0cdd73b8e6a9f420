-- ===== src/Sim2h/Server/Confinement/Permission.antt =====
-- What a message from a connection of crates/sim2h/src/lib.rs is allowed to do.
use rust_holochain.Base.{
  ℕ, ◌≡◌, refl, ◌⊎◌, Bool, true, false, Option, none, some, List, [], ◌∷◌, ◌++◌, if◌then◌else◌, All,
}
use rust_holochain.Sim2h.Store.{Store, AolEntry, lookup_joined, get_space_info_from_uri}
use rust_holochain.Sim2h.Server.Wire.{
  WireMessage, join_space, ping, status, debug, hello, client_to_lib3h, lib3h_to_client,
  client_to_lib3h_response,
}
use rust_holochain.Sim2h.Server.Effects.{Effect, sent, mutation, closed}

-- The messages that are handled before a connection has joined a space.
abbrev pub before_joining : WireMessage → Bool
before_joining (lib3h_to_client _) = true
before_joining (client_to_lib3h_response _) = true
before_joining ping = true
before_joining status = true
before_joining debug = true
before_joining (hello _) = true
before_joining (client_to_lib3h (join_space _ _)) = true
before_joining _ = false

-- What a message from `uri` may do, signed by `signer`: a frame goes to the signer himself, or to
-- an agent who is joined, at the uri where a read of the store finds him, in the space that the
-- signer has joined through this uri; a mutation records aspects of the signer in this space; and
-- only this uri is dropped or closed.
abbrev pub Permitted : (ℕ → Store) → ℕ → ℕ → Effect → Type 0
Permitted views uri signer (sent a u m) =
    (space : ℕ) × (get_space_info_from_uri (views 0) uri ≡ some (signer, space))
    × (((a ≡ signer) × (u ≡ uri)) ⊎ ((n : ℕ) × (lookup_joined (views n) space a ≡ some u)))
Permitted views uri signer (mutation (AolEntry.agent_holds_aspects _ space a _ _)) =
    (get_space_info_from_uri (views 0) uri ≡ some (signer, space)) × (a ≡ signer)
Permitted views uri signer (mutation (AolEntry.drop_connection_by_uri _ u)) = u ≡ uri
Permitted views uri signer (mutation (AolEntry.new_connection _ _ _ _)) = false ≡ true
Permitted views uri signer (mutation (AolEntry.check_gossip _)) = false ≡ true
Permitted views uri signer (mutation (AolEntry.check_disconnected _)) = false ≡ true
Permitted views uri signer (closed u) = u ≡ uri

module _ {ℓ κ} {A : Type ℓ} (P : A → Type κ) where
  pub All-append : (xs ys : List A) → All P xs → All P ys → All P (xs ++ ys)
  All-append [] ys h k = k
  All-append (x ∷ xs) ys (h, hs) k = (h, All-append xs ys hs k)

  pub All-if : (b : Bool) (xs : List A) → All P xs → All P (if b then xs else [])
  All-if true xs h = h
  All-if false xs h = tt

  -- `if let Some(x) = o`, and a loop's outcome that is used unless it is empty.
  pub All-some :
      {B : Type 0} (o : Option B) (f : B → List A)
      → ((x : B) → o ≡ some x → All P (f x))
      → All P (elim o [ none ↦ [] | some x ↦ f x ])
  All-some none f h = tt
  All-some (some x) f h = h x refl

  pub All-nonempty :
      {B : Type 0} (xs : List B) (f : B → List B → List A)
      → ((x : B) (rest : List B) → All P (f x rest))
      → All P (elim xs [ [] ↦ [] | x ∷ rest ↦ f x rest ])
  All-nonempty [] f h = tt
  All-nonempty (x ∷ xs) f h = h x xs

-- The effects of a handler that does not panic.
abbrev pub IfReturned : (Effect → Type 0) → Option (List Effect) → Type 0
IfReturned P none = Unit
IfReturned P (some es) = All P es

module _ (P : Effect → Type 0) where
  pub IfReturned-if :
      (b : Bool) (o : Option (List Effect))
      → (b ≡ true → IfReturned P o)
      → IfReturned P (if b then o else some [])
  IfReturned-if true o h = h refl
  IfReturned-if false o h = tt

  pub IfReturned-nonempty :
      {B : Type 0} (xs : List B) (f : B → List B → List Effect)
      → ((x : B) (rest : List B) → All P (f x rest))
      → IfReturned P (elim xs [ [] ↦ none | x ∷ rest ↦ some (f x rest) ])
  IfReturned-nonempty [] f h = tt
  IfReturned-nonempty (x ∷ xs) f h = h x xs
