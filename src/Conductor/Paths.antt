-- ===== src/Conductor/Paths.antt =====
-- Paths in the graph that crates/conductor_lib/src/config.rs sorts and paths along the bridges.
use rust_holochain.Base.{
  ℕ, ◌<◌, ◌≡◌, ap, sym, subst, true, List, [], ◌∷◌, ◌&&◌, inl, inr, ◌==◌, ==_iff, arith, Bool-cases,
  ◌∙◌,
}
use rust_holochain.Base.Set.{contains}
use rust_holochain.Conductor.Config.{Bridge}
use rust_holochain.Conductor.Sorting.{Reach, edge, join, position, linked}
use rust_holochain.Conductor.Positions.{nth-position, nth}
use rust_holochain.Conductor.Indices.{links, renamed}

-- Both ends of every bridge are instances.
abbrev pub Known : List ℕ → List Bridge → Type 0
Known ids bridges =
    (a b : ℕ) → linked (links bridges) a b ≡ true → (contains ids a && contains ids b) ≡ true

-- An edge of the renamed graph is a renamed edge.
pub linked-renamed :
    (f : ℕ → ℕ) (es : List (ℕ × ℕ)) (x y : ℕ)
    → linked (renamed f es) x y ≡ true
    → (a b : ℕ) × (linked es a b ≡ true) × (f a ≡ x) × (f b ≡ y)
linked-renamed f [] x y h = absurd (ground arith)
linked-renamed f ((a, b) ∷ es) x y h = elim (Bool-cases ((f a == x) && (f b == y))) [
  | inl e ↦ (a, b, ground arith, ground (arith, ==_iff (f a) x), ground (arith, ==_iff (f b) y))
  | inr e ↦
      let (u, v, l, p, q) = linked-renamed f es x y (ground arith) in (u, v, ground arith, p, q)
]

pub renamed-linked :
    (f : ℕ → ℕ) (es : List (ℕ × ℕ)) (a b : ℕ)
    → linked es a b ≡ true
    → linked (renamed f es) (f a) (f b) ≡ true
renamed-linked f [] a b h = absurd (ground arith)
renamed-linked f ((x, y) ∷ es) a b h = ground (
  arith,
  renamed-linked f es a b,
  ==_iff x a,
  ==_iff y b,
  ==_iff (f x) (f a),
  ==_iff (f y) (f b),
  λ (p : x ≡ a). ap f p,
  λ (p : y ≡ b). ap f p,
)

-- Places of different instances differ.
pub position-inj :
    (ids : List ℕ) (a b : ℕ)
    → contains ids a ≡ true
    → contains ids b ≡ true
    → position ids a ≡ position ids b
    → a ≡ b
position-inj ids a b ha hb e = sym (nth-position ids a ha) ∙ ap (nth ids) e ∙ nth-position ids b hb

-- A path of places is the path of instances.
Reach-renamed :
    (ids : List ℕ) (bs : List Bridge)
    → Known ids bs
    → {x y : ℕ} → Reach (renamed (position ids) (links bs)) x y
    → (a b : ℕ) × Reach (links bs) a b
      × (position ids a ≡ x)
      × (position ids b ≡ y)
      × ((contains ids a && contains ids b) ≡ true)
Reach-renamed ids bs known {x} {y} (edge h) =
    let (a, b, l, p, q) = linked-renamed (position ids) (links bs) x y h in
    (a, b, edge l, p, q, known a b l)
Reach-renamed ids bs known (join r s) =
    let (a, b, l, p, q, h) = Reach-renamed ids bs known r in
    let (c, d, l', p', q', h') = Reach-renamed ids bs known s in
    let same : b ≡ c = position-inj ids b c (ground arith) (ground arith) (q ∙ sym p') in
    (a, d, join l (subst (λ t. Reach (links bs) t d) (sym same) l'), p, q', ground arith)

pub Reach-renamed_cycle :
    (ids : List ℕ) (bs : List Bridge)
    → Known ids bs
    → (x : ℕ) → Reach (renamed (position ids) (links bs)) x x
    → (id : ℕ) × Reach (links bs) id id
Reach-renamed_cycle ids bs known x r =
    let (a, b, l, p, q, h) = Reach-renamed ids bs known r in
    let same : b ≡ a = position-inj ids b a (ground arith) (ground arith) (q ∙ sym p) in
    (a, subst (λ t. Reach (links bs) a t) same l)

-- Edges that go backward in an order have no cycle.
Reach-backward :
    (es : List (ℕ × ℕ)) (out : List ℕ)
    → ((a b : ℕ) → linked es a b ≡ true → position out b < position out a)
    → {a b : ℕ} → Reach es a b
    → position out b < position out a
Reach-backward es out backward {a} {b} (edge h) = backward a b h
Reach-backward es out backward (join r s) =
    omega (arith, Reach-backward es out backward r, Reach-backward es out backward s)

pub backward_acyclic :
    (es : List (ℕ × ℕ)) (out : List ℕ)
    → ((a b : ℕ) → linked es a b ≡ true → position out b < position out a)
    → (id : ℕ) → ¬ Reach es id id
backward_acyclic es out backward id r = absurd (omega (arith, Reach-backward es out backward r))
