-- ===== src/CoreTypes.antt =====
-- The data of crates/core_types: entries, headers, links and entry aspects. A text (an address, a
-- name, a tag, a signature) is a number, as it is only compared; a payload that the core never
-- looks into is a number too. Messages of errors are left out.
pub mod Aspect
use rust_holochain.Base.{
  ℕ, ◌≡◌, refl, Bool, true, false, ◌&&◌, not, Option, none, some, List, [], ◌∷◌, arith, ◌==◌,
  option_eq, if◌then◌else◌, ◌↔◌,
}

pub data HolochainError : Type 0 where
  error_generic validation_failed not_implemented serialization_error timeout io_error :
      HolochainError

pub data HcResult {ℓ} (A : Type ℓ) : Type ℓ where
  ok : A → HcResult A
  err : HolochainError → HcResult A

infixl 5 ◌>>=◌ ◌>>◌
abbrev pub ◌>>=◌ {ℓ κ} : {A : Type ℓ} {B : Type κ} → HcResult A → (A → HcResult B) → HcResult B
ok a >>= f = f a
err e >>= f = err e

abbrev pub ◌>>◌ {ℓ κ} : {A : Type ℓ} {B : Type κ} → HcResult A → HcResult B → HcResult B
m >> k = m >>= λ _. k

abbrev pub ok_or {ℓ} : {A : Type ℓ} → HolochainError → Option A → HcResult A
ok_or e none = err e
ok_or e (some a) = ok a

pub data EntryType : Type 0 where
  app : ℕ → EntryType
  dna agent_id deletion link_add link_remove link_list chain_header chain_migrate : EntryType
  cap_token_claim cap_token_grant : EntryType

unfoldable pub is_app : EntryType → Bool
is_app (EntryType.app _) = true
is_app _ = false

unfoldable pub is_sys : EntryType → Bool
unfolding is_app
is_sys t = not (is_app t)

-- The derived `==`: the position of the variant, and the name of an app type.
abbrev pub entry_type_code : EntryType → ℕ × ℕ
entry_type_code (EntryType.app n) = (0, n)
entry_type_code EntryType.dna = (1, 0)
entry_type_code EntryType.agent_id = (2, 0)
entry_type_code EntryType.deletion = (3, 0)
entry_type_code EntryType.link_add = (4, 0)
entry_type_code EntryType.link_remove = (5, 0)
entry_type_code EntryType.link_list = (6, 0)
entry_type_code EntryType.chain_header = (7, 0)
entry_type_code EntryType.chain_migrate = (8, 0)
entry_type_code EntryType.cap_token_claim = (9, 0)
entry_type_code EntryType.cap_token_grant = (10, 0)

unfoldable pub entry_type_eq : EntryType → EntryType → Bool
entry_type_eq s t =
    ((entry_type_code s).0 == (entry_type_code t).0)
    && ((entry_type_code s).1 == (entry_type_code t).1)

pub record Provenance : Type 0 where
  pub source : ℕ
  pub signature : ℕ

pub record ChainHeader : Type 0 where
  pub entry_type : EntryType
  pub entry_address : ℕ
  pub provenances : List Provenance
  pub link : Option ℕ
  pub link_same_type : Option ℕ
  pub link_update_delete : Option ℕ
  pub timestamp : ℕ

pub record Link : Type 0 where
  pub base : ℕ
  pub target : ℕ
  pub link_type : ℕ
  pub tag : ℕ

pub data LinkActionKind : Type 0 where
  add remove : LinkActionKind

pub record LinkData : Type 0 where
  pub action_kind : LinkActionKind
  pub link : Link
  pub top_chain_header : ChainHeader
  pub agent_id : ℕ

pub data Entry : Type 0 where
  app : ℕ → ℕ → Entry
  dna agent_id deletion : ℕ → Entry
  link_add : LinkData → Entry
  link_remove : LinkData → List ℕ → Entry
  link_list : List Link → Entry
  chain_header : ChainHeader → Entry
  chain_migrate cap_token_claim cap_token_grant : ℕ → Entry

pub data EntryAspect : Type 0 where
  content : Entry → ChainHeader → EntryAspect
  header : ChainHeader → EntryAspect
  link_add : LinkData → ChainHeader → EntryAspect
  link_remove : LinkData → List ℕ → ChainHeader → EntryAspect
  update : Entry → ChainHeader → EntryAspect
  deletion : ChainHeader → EntryAspect

unfoldable pub entry_type : Entry → EntryType
entry_type (Entry.app name _) = EntryType.app name
entry_type (Entry.dna _) = EntryType.dna
entry_type (Entry.agent_id _) = EntryType.agent_id
entry_type (Entry.deletion _) = EntryType.deletion
entry_type (Entry.link_add _) = EntryType.link_add
entry_type (Entry.link_remove _ _) = EntryType.link_remove
entry_type (Entry.link_list _) = EntryType.link_list
entry_type (Entry.chain_header _) = EntryType.chain_header
entry_type (Entry.chain_migrate _) = EntryType.chain_migrate
entry_type (Entry.cap_token_claim _) = EntryType.cap_token_claim
entry_type (Entry.cap_token_grant _) = EntryType.cap_token_grant

-- The hashes of the crate holochain_persistence: the address of a content. The address of an
-- agent is that of its key.
pub record Hashing : Type 0 where
  pub header_address : ChainHeader → ℕ
  pub agent_address : ℕ → ℕ
  pub content_address : Entry → ℕ
  pub aspect_address : EntryAspect → ℕ

unfoldable pub entry_address : Hashing → Entry → ℕ
entry_address h (Entry.agent_id a) = h.agent_address a
entry_address h (Entry.chain_header c) = h.header_address c
entry_address h e = h.content_address e

unfoldable pub provenances_eq : List Provenance → List Provenance → Bool
provenances_eq [] [] = true
provenances_eq [] (q ∷ qs) = false
provenances_eq (p ∷ ps) [] = false
provenances_eq (p ∷ ps) (q ∷ qs) =
    (p.source == q.source) && ((p.signature == q.signature) && provenances_eq ps qs)

-- The derived `==` of headers.
unfoldable pub header_eq : ChainHeader → ChainHeader → Bool
unfolding entry_type_eq
header_eq c d =
    entry_type_eq c.entry_type d.entry_type
    && ((c.entry_address == d.entry_address)
        && (provenances_eq c.provenances d.provenances
            && (option_eq c.link d.link
                && (option_eq c.link_same_type d.link_same_type
                    && (option_eq c.link_update_delete d.link_update_delete
                        && (c.timestamp == d.timestamp))))))

pub entry_type_eq_lem : (s t : EntryType) → entry_type_eq s t ≡ true → s ≡ t
unfolding entry_type_eq
entry_type_eq_lem s t h = ground arith

provenances_eq_lem : (ps qs : List Provenance) → provenances_eq ps qs ≡ true → ps ≡ qs
unfolding provenances_eq
provenances_eq_lem [] [] h = refl
provenances_eq_lem [] (q ∷ qs) h = absurd (ground arith)
provenances_eq_lem (p ∷ ps) [] h = absurd (ground arith)
provenances_eq_lem (p ∷ ps) (q ∷ qs) h = ground (arith, provenances_eq_lem ps qs)

provenances_eq_self : (ps : List Provenance) → provenances_eq ps ps ≡ true
unfolding provenances_eq
provenances_eq_self [] = refl
provenances_eq_self (p ∷ ps) = ground (arith, provenances_eq_self ps)

option_eq_lem : (a b : Option ℕ) → option_eq a b ≡ true → a ≡ b
option_eq_lem a b h = ground arith

pub header_eq_lem : (c d : ChainHeader) → header_eq c d ≡ true → c ≡ d
unfolding header_eq
header_eq_lem c d h = ground (
  arith,
  entry_type_eq_lem c.entry_type d.entry_type,
  provenances_eq_lem c.provenances d.provenances,
  option_eq_lem c.link d.link,
  option_eq_lem c.link_same_type d.link_same_type,
  option_eq_lem c.link_update_delete d.link_update_delete,
)
