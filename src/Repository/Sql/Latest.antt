-- ===== src/Repository/Sql/Latest.antt =====
-- The latest-version query against a search for the newest row, one uuid at a time.
use file_cipher_core.Prelude.{
  ℕ, ◌+◌, ◌≤◌, ◌<◌, ◌≡◌, ◌≢◌, refl, ap, ◌∙◌, Option, none, some, List, [], ◌∷◌, leb, ◌==◌,
  if◌then◌else◌, elem, arith, Bool-cases, ◌⊎◌, inl, inr,
}
use file_cipher_core.Repository.Sql.{
  where_any, insert_row, order_by, distinct_after, distinct_on, latest,
}

module _ {A : Type 0} (uuid version : A → ℕ) where
  -- The first row of a uuid.
  abbrev pub find : ℕ → List A → Option A
  find id [] = none
  find id (x ∷ l) = let rest = find id l in if uuid x == id then some x else rest

  -- Of two rows the one with the higher version; of equal versions, the first.
  abbrev pub newer : A → Option A → Option A
  newer r none = some r
  newer r (some m) = if leb (version m) (version r) then some r else some m

  -- The row of a uuid with the highest version in the table.
  abbrev pub newest : ℕ → List A → Option A
  newest id [] = none
  newest id (r ∷ rows) = let rest = newest id rows in if uuid r == id then newer r rest else rest

  -- uuids that ascend, from `n` on
  abbrev pub Ascends : ℕ → List A → Type 0
  Ascends n [] = Unit {0}
  Ascends n (x ∷ l) = (n ≤ uuid x) × Ascends (uuid x) l

  find_below : (id n : ℕ) (l : List A) → Ascends n l → id < n → find id l ≡ none
  find_below id n [] a h = refl
  find_below id n (x ∷ l) a h = ground (arith, find_below id (uuid x) l a.1)

  Ascends-insert_row :
      (n : ℕ) (r : A) (l : List A)
      → n ≤ uuid r
      → Ascends n l
      → Ascends n (insert_row uuid version r l)
  unfolding insert_row
  Ascends-insert_row n r [] h a = (h, tt)
  Ascends-insert_row n r (x ∷ l) h a = ground (arith, Ascends-insert_row (uuid x) r l)

  find-insert_row :
      (id n : ℕ) (r : A) (l : List A)
      → Ascends n l
      → find id (insert_row uuid version r l)
        ≡ (if uuid r == id then newer r (find id l) else find id l)
  unfolding insert_row
  find-insert_row id n r [] a = ground arith
  find-insert_row id n r (x ∷ l) a =
      ground (arith, find-insert_row id (uuid x) r l a.1, find_below id (uuid x) l a.1)

  Ascends-order_by : (rows : List A) → Ascends 0 (order_by uuid version rows)
  unfolding order_by
  Ascends-order_by [] = tt
  Ascends-order_by (r ∷ rows) = Ascends-insert_row 0 r _ (omega arith) (Ascends-order_by rows)

  find-order_by : (id : ℕ) (rows : List A) → find id (order_by uuid version rows) ≡ newest id rows
  unfolding order_by
  find-order_by id [] = refl
  find-order_by id (r ∷ rows) =
      find-insert_row id 0 r (order_by uuid version rows) (Ascends-order_by rows)
      ∙ rw (find-order_by id rows)

  find-distinct_after :
      (id u : ℕ) (l : List A) → u ≢ id → find id (distinct_after uuid version u l) ≡ find id l
  unfolding distinct_after
  find-distinct_after id u [] h = refl
  find-distinct_after id u (x ∷ l) h =
      ground (arith, find-distinct_after id u l h, find-distinct_after id (uuid x) l)

  find-distinct_on : (id : ℕ) (l : List A) → find id (distinct_on uuid version l) ≡ find id l
  unfolding distinct_on
  find-distinct_on id [] = refl
  find-distinct_on id (x ∷ l) = ground (arith, find-distinct_after id (uuid x) l)

  newest-where_any :
      (id : ℕ) (ids : List ℕ) (rows : List A)
      → newest id (where_any uuid version ids rows) ≡ (if elem id ids then newest id rows else none)
  newest-where_any id ids [] = ground arith
  newest-where_any id ids (r ∷ rows) = elim (Bool-cases (uuid r == id)) [
    | inl e ↦
        let same : uuid r ≡ id = ground arith in
        ground (arith, ap (λ u. elem u ids) same, newest-where_any id ids rows)
    | inr e ↦ ground (arith, newest-where_any id ids rows)
  ]

  pub find-latest :
      (id : ℕ) (ids : List ℕ) (rows : List A)
      → find id (latest uuid version ids rows) ≡ (if elem id ids then newest id rows else none)
  unfolding latest
  find-latest id ids rows =
      find-distinct_on id (order_by uuid version (where_any uuid version ids rows))
      ∙ find-order_by id (where_any uuid version ids rows)
      ∙ newest-where_any id ids rows

  -- Strictly ascending: each uuid stands once.
  abbrev pub Strict : ℕ → List A → Type 0
  Strict n [] = Unit {0}
  Strict n (x ∷ l) = (n ≤ uuid x) × Strict (uuid x + 1) l

  Strict-distinct_after :
      (u : ℕ) (l : List A) → Ascends u l → Strict (u + 1) (distinct_after uuid version u l)
  unfolding distinct_after
  Strict-distinct_after u [] a = tt
  Strict-distinct_after u (x ∷ l) a =
      ground (arith, Strict-distinct_after u l, Strict-distinct_after (uuid x) l a.1)

  Strict-distinct_on : (l : List A) → Ascends 0 l → Strict 0 (distinct_on uuid version l)
  unfolding distinct_on
  Strict-distinct_on [] a = tt
  Strict-distinct_on (x ∷ l) a = (omega arith, Strict-distinct_after (uuid x) l a.1)

  pub Strict-latest : (ids : List ℕ) (rows : List A) → Strict 0 (latest uuid version ids rows)
  unfolding latest
  Strict-latest ids rows = Strict-distinct_on _ (Ascends-order_by (where_any uuid version ids rows))

  pub newer-cases : (x r : A) (o : Option A) → newer x o ≡ some r → (x ≡ r) ⊎ (o ≡ some r)
  newer-cases x r none h = inl (ground arith)
  newer-cases x r (some m) h = ground arith

  pub newest-uuid : (id : ℕ) (rows : List A) (r : A) → newest id rows ≡ some r → uuid r ≡ id
  newest-uuid id [] r h = cc
  newest-uuid id (x ∷ rows) r h = elim (Bool-cases (uuid x == id)) [
    | inr e ↦ newest-uuid id rows r (ground arith)
    | inl e ↦ elim (newer-cases x r (newest id rows) (rw e at h)) [
      | inl same ↦ ground (arith, ap uuid same)
      | inr rest ↦ newest-uuid id rows r rest
    ]
  ]
