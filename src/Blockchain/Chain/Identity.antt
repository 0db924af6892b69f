-- ===== src/Blockchain/Chain/Identity.antt =====
-- Which rows decide whether an identity is free.
use gis.Base.{
  ℕ, ◌^◌, ◌≤◌, ◌<◌, Bool, true, ◌&&◌, List, [], ◌∷◌, none, some, ◌≡◌, ◌⊎◌, ◌↔◌, All, inl, inr, refl,
  arith, lt_i64, ap, ◌∙◌,
}
use gis.Bytes.{Bytes, same_hash}
use gis.Bytes.Equality.{same_hash_sound, same_hash_refl}
use gis.Blockchain.Env.{Env, Row, PicksRow}
use gis.Blockchain.Chain.State.{Chain, Db, keep_rows}
use gis.Blockchain.Chain.Queries.{is_id_available, rows_before, table}
use mathlib.Core.Logic.Or
use native.Mathlib.Decide.{ℕ_discrete}
use mathlib.Core.List.{Mem, mem-cons, not-mem-nil}

-- Every row of the identity is of this block or a later one.
abbrev pub IdsFrom : ℕ → Bytes → List Row → Type 0
IdsFrom height identity [] = Unit
IdsFrom height identity (r ∷ rs) =
    (r.identity ≡ identity → height ≤ r.id) × (r.id < 2 ^ 63) × IdsFrom height identity rs

keep_rows-IdsFrom :
    (height : ℕ) (identity : Bytes) (rs : List Row)
    → height < 2 ^ 63
    → IdsFrom height identity rs
    → keep_rows (λ r. lt_i64 r.id height && same_hash r.identity identity) rs ≡ []
unfolding keep_rows
keep_rows-IdsFrom height identity [] h u = refl
keep_rows-IdsFrom height identity (r ∷ rs) h u = ground (
  arith,
  u.0,
  u.1,
  same_hash_sound r.identity identity,
  keep_rows-IdsFrom height identity rs h u.2,
)

rows_before-IdsFrom :
    (height : ℕ) (identity : Bytes) (zone : Bool) (db : Db)
    → height < 2 ^ 63
    → IdsFrom height identity (table zone db)
    → rows_before height identity zone db ≡ []
unfolding rows_before
rows_before-IdsFrom height identity zone db h u =
    keep_rows-IdsFrom height identity (table zone db) h u

-- An identity that is registered only in the block `height`, or later, is free for every key at
-- `height`, though the check of the next block asks at the height of the last one.
pub is_id_available_last :
    (env : Env) (height : ℕ) (identity key : Bytes) (zone : Bool) (c : Chain)
    → PicksRow env
    → height < 2 ^ 63
    → IdsFrom height identity (table zone c.db)
    → is_id_available env height identity key zone c ≡ true
unfolding is_id_available
is_id_available_last env height identity key zone c picks h u =
    ground (arith, rows_before-IdsFrom height identity zone c.db h u, picks.pick_empty)

Bytes-set : IsSet Bytes
Bytes-set = hlevel ℕ_discrete

-- Every row that counts is of this owner.
abbrev pub AreOwnedBy : Bytes → List Row → Type 0
AreOwnedBy owner [] = Unit
AreOwnedBy owner (r ∷ rs) = (r.pub_key ≡ owner) × AreOwnedBy owner rs

owner_of_mem :
    (owner : Bytes) (r : Row) (rs : List Row) → AreOwnedBy owner rs → Mem r rs → r.pub_key ≡ owner
owner_of_mem owner r [] u m = absurd (not-mem-nil m)
owner_of_mem owner r (x ∷ rs) u m =
    Or.elim (Bytes-set _ _) (mem-cons.0 m) (λ e. ap (λ (y : Row). y.pub_key) e ∙ u.0)
      (owner_of_mem owner r rs u.1)

available-owned :
    (env : Env) (owner key : Bytes) (rows : List Row)
    → PicksRow env
    → AreOwnedBy owner rows
    → (elim (env.pick_row rows) [ none ↦ true | some r ↦ same_hash r.pub_key key ] ≡ true)
      ↔ ((rows ≡ []) ⊎ (key ≡ owner))
available-owned env owner key [] picks u = (λ _. inl refl, λ _. rw picks.pick_empty refl)
available-owned env owner key (r ∷ rs) picks u =
    let (s, picked) = picks.pick_some r rs in
    let owned = owner_of_mem owner s (r ∷ rs) u (picks.pick_mem (r ∷ rs) s picked) in
    (
      (λ h. ground (arith, same_hash_sound s.pub_key key)),
      (λ h. ground (arith, same_hash_refl key)),
    )

-- The rows of an identity below a height, told apart by what stands in them.
abbrev pub AreSmall : List Row → Type 0
AreSmall rs = All (λ r. r.id < 2 ^ 63) rs

abbrev pub NoneBelow : ℕ → Bytes → List Row → Type 0
NoneBelow height identity rs = All (λ r. r.identity ≡ identity → height ≤ r.id) rs

abbrev pub OwnedBelow : ℕ → Bytes → Bytes → List Row → Type 0
OwnedBelow height identity owner rs =
    All (λ r. r.identity ≡ identity → r.id < height → r.pub_key ≡ owner) rs

abbrev below : ℕ → Bytes → Row → Bool
below height identity r = lt_i64 r.id height && same_hash r.identity identity

NoneBelow-IdsFrom :
    (height : ℕ) (identity : Bytes) (rs : List Row)
    → AreSmall rs
    → NoneBelow height identity rs
    → IdsFrom height identity rs
NoneBelow-IdsFrom height identity [] s u = tt
NoneBelow-IdsFrom height identity (r ∷ rs) s u =
    (u.0, s.0, NoneBelow-IdsFrom height identity rs s.1 u.1)

keep_rows-NoneBelow :
    (height : ℕ) (identity : Bytes) (rs : List Row)
    → height < 2 ^ 63
    → AreSmall rs
    → keep_rows (below height identity) rs ≡ []
    → NoneBelow height identity rs
unfolding keep_rows
keep_rows-NoneBelow height identity [] h s e = tt
keep_rows-NoneBelow height identity (r ∷ rs) h s e = (
  (λ same. ground (arith, s.0, same_hash_refl identity)),
  keep_rows-NoneBelow height identity rs h s.1 (ground arith),
)

keep_rows-AreOwnedBy :
    (height : ℕ) (identity owner : Bytes) (rs : List Row)
    → height < 2 ^ 63
    → AreSmall rs
    → OwnedBelow height identity owner rs
    → AreOwnedBy owner (keep_rows (below height identity) rs)
unfolding keep_rows
keep_rows-AreOwnedBy height identity owner [] h s u = tt
keep_rows-AreOwnedBy height identity owner (r ∷ rs) h s u = ground (
  arith,
  s.0,
  u.0,
  same_hash_sound r.identity identity,
  keep_rows-AreOwnedBy height identity owner rs h s.1 u.1,
)

-- Where the rows of the table that have the identity and a smaller id than the height are all of one
-- owner, and ids and height are below 2 ^ 63: the identity is available to a key exactly when there is
-- no such row or the key is the owner's, whichever row the database answers with.
pub is_id_available_iff :
    (env : Env) (height : ℕ) (identity owner key : Bytes) (zone : Bool) (c : Chain)
    → PicksRow env
    → height < 2 ^ 63
    → AreSmall (table zone c.db)
    → OwnedBelow height identity owner (table zone c.db)
    → (is_id_available env height identity key zone c ≡ true)
      ↔ (NoneBelow height identity (table zone c.db) ⊎ (key ≡ owner))
unfolding is_id_available rows_before
is_id_available_iff env height identity owner key zone c picks h s u =
    let rs = table zone c.db in
    let (to, from) =
      available-owned env owner key (keep_rows (below height identity) rs) picks
        (keep_rows-AreOwnedBy height identity owner rs h s u) in
    (
      (λ free. elim (to free) [
        | inl empty ↦ inl (keep_rows-NoneBelow height identity rs h s empty)
        | inr same ↦ inr same
      ]),
      (λ either. elim either [
        | inl later ↦ from (
            inl (
              keep_rows-IdsFrom height identity rs h
                (NoneBelow-IdsFrom height identity rs s later)))
        | inr same ↦ from (inr same)
      ]),
    )
