-- ===== src/Rotation/Produce/Rows.antt =====
-- The rows that a page reads, one for each of its uuids and in their order.
use file_cipher_core.Prelude.{
  ℕ, ◌+◌, ◌≡◌, Bool-cases, inl, inr, Option, none, some, List, [], ◌∷◌, elem, All, ltb, ◌==◌,
  if◌then◌else◌, arith,
}
use file_cipher_core.Repository.Sql.{latest}
use file_cipher_core.Repository.Sql.Latest.{find, newest, Strict, find-latest, Strict-latest}
use file_cipher_core.Repository.Sql.Uuids.{Above, elem_below}
use file_cipher_core.Decipher.Rows.{find-Strict}

module _ {A : Type 0} (uuid version : A → ℕ) (f : ℕ → Option A) where
  -- `rows` are the values of `f` at `ids`, in their order.
  abbrev pub Zipped : List ℕ → List A → Type 0
  Zipped [] [] = Unit {0}
  Zipped [] (r ∷ rows) = ⊥
  Zipped (id ∷ ids) [] = ⊥
  Zipped (id ∷ ids) (r ∷ rows) = (f id ≡ some r) × Zipped ids rows

  abbrev Defined : ℕ → Type 0
  Defined id = (r : A) × (f id ≡ some r)

  same_head :
      (n i : ℕ) (x : A) (ids : List ℕ) (rows : List A)
      → Above (i + 1) ids
      → Strict uuid version n (x ∷ rows)
      → ((id : ℕ) → find uuid version id (x ∷ rows) ≡ (if elem id (i ∷ ids) then f id else none))
      → Defined i
      → uuid x ≡ i
  same_head n i x ids rows a b h d = elim (Bool-cases (ltb (uuid x) i)) [
    | inl below ↦
        absurd (ground (arith, h (uuid x), elem_below (uuid x) (i + 1) ids a (ground arith)))
    | inr not_below ↦ elim (Bool-cases (ltb i (uuid x))) [
      | inl above ↦ absurd (
          ground
            (arith, h i, d.1, find-Strict uuid version (x) i (uuid x + 1) rows b.1 (ground arith)))
      | inr not_above ↦ ground arith
    ]
  ]

  tail_values :
      (n id i : ℕ) (x : A) (ids : List ℕ) (rows : List A)
      → uuid x ≡ i
      → Above (i + 1) ids
      → Strict uuid version n (x ∷ rows)
      → find uuid version id (x ∷ rows) ≡ (if elem id (i ∷ ids) then f id else none)
      → find uuid version id rows ≡ (if elem id ids then f id else none)
  tail_values n id i x ids rows same a b h = elim (Bool-cases (uuid x == id)) [
    | inl e ↦ ground (
      arith,
      elem_below id (i + 1) ids a (ground arith),
      find-Strict uuid version x id (uuid x + 1) rows b.1 (ground arith),
    )
    | inr e ↦ ground (arith, h)
  ]

  zip_rows :
      (m n : ℕ) (ids : List ℕ) (rows : List A)
      → Above m ids
      → Strict uuid version n rows
      → ((id : ℕ) → find uuid version id rows ≡ (if elem id ids then f id else none))
      → All Defined ids
      → Zipped ids rows
  zip_rows m n [] [] a b h d = tt
  zip_rows m n [] (x ∷ rows) a b h d = absurd (ground (arith, h (uuid x)))
  zip_rows m n (i ∷ ids) [] a b h d = absurd (ground (arith, h i, d.0.1))
  zip_rows m n (i ∷ ids) (x ∷ rows) a b h d =
      let head = same_head n i x ids rows a.1 b h d.0 in
      (
        ground (arith, h i),
        zip_rows (i + 1) (uuid x + 1) ids rows a.1 b.1
            (λ id. tail_values n id i x ids rows head a.1 b (h id)) d.1,
      )

-- The rows that DISTINCT ON finds for the uuids of a page that all have one.
pub latest-Zipped :
    {A : Type 0} (uuid version : A → ℕ) (n : ℕ) (ids : List ℕ) (rows : List A)
    → Above n ids
    → All (λ id. (r : A) × (newest uuid version id rows ≡ some r)) ids
    → Zipped uuid version (λ id. newest uuid version id rows) ids (latest uuid version ids rows)
latest-Zipped uuid version n ids rows a d =
    zip_rows uuid version (λ id. newest uuid version id rows) n 0 ids (latest uuid version ids rows)
      a (Strict-latest uuid version ids rows) (λ id. find-latest uuid version id ids rows) d
