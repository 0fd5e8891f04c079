-- ===== src/Repository/Sql/Delete.antt =====
-- The DELETE of old versions on one table.
use file_cipher_core.Prelude.{
  ℕ, ◌≤◌, ◌<◌, max, ◌≡◌, refl, ap, inl, inr, Bool, true, false, ◌&&◌, Option, none, some, List, [],
  ◌∷◌, ◌==◌, keep, elem, arith, Bool-cases,
}
use file_cipher_core.Repository.Sql.{at_version, max_version, delete_old}
use file_cipher_core.Repository.Sql.Latest.{newest, newer-cases, newest-uuid}

module _ {A : Type 0} (uuid version : A → ℕ) where
  -- The version of a row, or `m` if that is higher.
  abbrev top : ℕ → Option A → ℕ
  top m none = m
  top m (some r) = max m (version r)

  max_version-newest :
      (id m : ℕ) (rows : List A)
      → max_version uuid version id m rows ≡ top m (newest uuid version id rows)
  unfolding max_version
  max_version-newest id m [] = refl
  max_version-newest id m (x ∷ l) =
      ground (arith, max_version-newest id m l, max_version-newest id (version x) l)

  -- The newest of some rows is no newer than the newest of all.
  abbrev AtMost : Option A → Option A → Type 0
  AtMost none o = Unit
  AtMost (some r) none = ⊥
  AtMost (some r) (some m) = version r ≤ version m

  newest-keep-le :
      (id : ℕ) (p : A → Bool) (l : List A)
      → AtMost (newest uuid version id (keep p l)) (newest uuid version id l)
  newest-keep-le id p [] = tt
  newest-keep-le id p (x ∷ l) = ground (arith, newest-keep-le id p l)

  newest-keep :
      (id : ℕ) (p : A → Bool) (l : List A) (r : A)
      → newest uuid version id l ≡ some r
      → p r ≡ true
      → newest uuid version id (keep p l) ≡ some r
  newest-keep id p [] r h k = cc
  newest-keep id p (x ∷ l) r h k = elim (Bool-cases (uuid x == id)) [
    | inr other ↦ ground (arith, newest-keep id p l r)
    | inl same ↦ elim (newer-cases uuid version x r (newest uuid version id l) (rw same at h)) [
      | inl first ↦ ground (arith, ap p first, newest-keep-le id p l, ap version first)
      | inr later ↦ ground (arith, newest-keep id p l r later k)
    ]
  ]

  at_version-drop :
      (id v : ℕ) (p : A → Bool) (l : List A)
      → ((r : A) → uuid r ≡ id → version r ≡ v → p r ≡ false)
      → at_version uuid version id v (keep p l) ≡ none
  unfolding at_version
  at_version-drop id v p [] h = refl
  at_version-drop id v p (x ∷ l) h = elim (Bool-cases (uuid x == id && version x == v)) [
    | inl e ↦ let gone = h x (ground arith) (ground arith) in rw gone (at_version-drop id v p l h)
    | inr e ↦ ground (arith, at_version-drop id v p l h)
  ]

  module _ (ids : List ℕ) (rows : List A) where
    -- Deleting the old versions keeps the newest row of every uuid.
    pub newest-delete_old :
        (id : ℕ) (r : A)
        → newest uuid version id rows ≡ some r
        → newest uuid version id (delete_old uuid version ids rows) ≡ some r
    unfolding delete_old
    newest-delete_old id r h = newest-keep id _ rows r h (
        let u = newest-uuid uuid version id rows r h in
        ground (
          arith,
          max_version-newest (uuid r) (version r) rows,
          ap (λ i. newest uuid version i rows) u,
          h,
        ))

    -- Of a uuid on the list, no version below the newest is left.
    pub delete_old-gone :
        (id v : ℕ) (r : A)
        → elem id ids ≡ true
        → newest uuid version id rows ≡ some r
        → v < version r
        → at_version uuid version id v (delete_old uuid version ids rows) ≡ none
    unfolding delete_old
    delete_old-gone id v r e h lt = at_version-drop id v _ rows λ c u w. ground (
      arith,
      max_version-newest (uuid c) (version c) rows,
      ap (λ i. newest uuid version i rows) u,
      ap (λ i. elem i ids) u,
      h,
    )
