-- ===== src/Roundtrip/Table.antt =====
-- A table after a batch of new rows, whose uuids ascend, has been copied into it.
use file_cipher_core.Prelude.{
  ℕ, ◌+◌, ◌≡◌, refl, ap, ◌∙◌, Bool, true, false, ◌||◌, Bool-cases, inl, inr, none, some, List, [],
  ◌∷◌, map, keep, elem, All, ◌==◌, arith,
}
use file_cipher_core.Repository.Sql.{has_key, copy_from}
use file_cipher_core.Repository.Sql.Latest.{find, newest}
use file_cipher_core.Repository.Sql.Uuids.{Above, elem_below}

module _ {A : Type 0} (uuid version : A → ℕ) where
  -- COPY puts one row after the other before the rows that are there.
  abbrev rev_onto : List A → List A → List A
  rev_onto [] t = t
  rev_onto (r ∷ rows) t = rev_onto rows (r ∷ t)

  copied_rows :
      (rows t t' : List A) → copy_from uuid version rows t ≡ some t' → t' ≡ rev_onto rows t
  unfolding copy_from
  copied_rows [] t t' e = cc
  copied_rows (r ∷ rows) t t' e = elim (Bool-cases (has_key uuid version r t)) [
    | inl dup ↦ let e' = rw dup at e in cc
    | inr new ↦ copied_rows rows (r ∷ t) t' (rw new at e)
  ]

  newest_absent :
      (id : ℕ) (rows t : List A)
      → elem id (map uuid rows) ≡ false
      → newest uuid version id (rev_onto rows t) ≡ newest uuid version id t
  newest_absent id [] t h = refl
  newest_absent id (r ∷ rows) t h = newest_absent id rows (r ∷ t) (ground arith) ∙ ground arith

  newest_found :
      (id n : ℕ) (rows t : List A)
      → Above n (map uuid rows)
      → newest uuid version id t ≡ none
      → newest uuid version id (rev_onto rows t) ≡ find uuid version id rows
  newest_found id n [] t a h = h
  newest_found id n (r ∷ rows) t a h = elim (Bool-cases (uuid r == id)) [
    | inl e ↦
        newest_absent id rows (r ∷ t)
          (elem_below id (uuid r + 1) (map uuid rows) a.1 (ground arith))
        ∙ rw (e, h) refl
    | inr e ↦ newest_found id (uuid r + 1) rows (r ∷ t) a.1 (rw e h) ∙ rw e refl
  ]

  newest-none :
      (id : ℕ) (t : List A) → elem id (map uuid t) ≡ false → newest uuid version id t ≡ none
  newest-none id [] h = refl
  newest-none id (r ∷ t) h = ground (arith, newest-none id t)

  -- A uuid that is new to the table reads as its row of the batch.
  pub newest-copy_from :
      (id n : ℕ) (rows t t' : List A)
      → copy_from uuid version rows t ≡ some t'
      → Above n (map uuid rows)
      → elem id (map uuid t) ≡ false
      → newest uuid version id t' ≡ find uuid version id rows
  newest-copy_from id n rows t t' e a h =
      ap (newest uuid version id) (copied_rows rows t t' e)
      ∙ newest_found id n rows t a (newest-none id t h)

  module _ (p : A → Bool) where
    elem_kept :
        (v : ℕ) (rows t : List A)
        → All (λ r. p r ≡ true) rows
        → elem v (map uuid (keep p (rev_onto rows t)))
          ≡ (elem v (map uuid rows) || elem v (map uuid (keep p t)))
    elem_kept v [] t h = refl
    elem_kept v (r ∷ rows) t h = elem_kept v rows (r ∷ t) h.1 ∙ ground (arith, h.0)

    kept_none : (t : List A) → All (λ r. p r ≡ false) t → keep p t ≡ []
    kept_none [] h = refl
    kept_none (r ∷ t) h = rw h.0 (kept_none t h.1)

    -- The uuids of the rows with `p`, if the batch has it and the table before had not.
    pub elem-copy_from :
        (v : ℕ) (rows t t' : List A)
        → copy_from uuid version rows t ≡ some t'
        → All (λ r. p r ≡ true) rows
        → All (λ r. p r ≡ false) t
        → elem v (map uuid (keep p t')) ≡ elem v (map uuid rows)
    elem-copy_from v rows t t' e h k =
        ap (λ l. elem v (map uuid (keep p l))) (copied_rows rows t t' e)
        ∙ elem_kept v rows t h
        ∙ rw (kept_none t k) (ground arith)
