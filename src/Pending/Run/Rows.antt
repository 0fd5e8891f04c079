-- ===== src/Pending/Run/Rows.antt =====
-- Which rows SaveKeys and SaveData leave in a table.
use file_cipher_core.Prelude.{
  ℕ, ◌≡◌, refl, subst, ◌⊎◌, inl, inr, Bool-cases, true, Option, none, some, List, [], ◌∷◌, All,
}
use file_cipher_core.Env.{
  ok, Fault, answered, refused, broken, System, head_outcome, spend, committed,
}
use file_cipher_core.Env.Keeps.{Keeps}
use file_cipher_core.Retry.{RetryConfig, retry_do}
use file_cipher_core.Retry.Keeps.{retry_do-Keeps}
use file_cipher_core.Repository.Sql.{has_key, copy_from}
use file_cipher_core.Repository.Tables.{copied, save_rows}
use file_cipher_core.Repository.Save.{all_honest, retried_save}

abbrev pub HasRow : {A : Type 0} → A → List A → Type 0
HasRow r [] = ⊥
HasRow r (x ∷ l) = (x ≡ r) ⊎ HasRow r l

-- A batch for COPY: all of it new, or all of it there already.
abbrev pub Clean : {A : Type 0} → (uuid version : A → ℕ) → List A → List A → Type 0
Clean {A = A} uuid version rows l =
    ((l' : List A) × (copy_from uuid version rows l ≡ some l')) ⊎ All (λ r. HasRow r l) rows

module _ {A : Type 0} (uuid version : A → ℕ) where
  copy-HasRow :
      (r : A) (rows l l' : List A)
      → copy_from uuid version rows l ≡ some l'
      → HasRow r l
      → HasRow r l'
  unfolding copy_from
  copy-HasRow r [] l l' e h = let q : l ≡ l' = cc in subst (HasRow r) q h
  copy-HasRow r (x ∷ rows) l l' e h = elim (Bool-cases (has_key uuid version x l)) [
    | inl dup ↦ let e' = rw dup at e in cc
    | inr new ↦ copy-HasRow r rows (x ∷ l) l' (rw new at e) (inr h)
  ]

  copy-All :
      (rows l l' : List A) → copy_from uuid version rows l ≡ some l' → All (λ r. HasRow r l') rows
  unfolding copy_from
  copy-All [] l l' e = tt
  copy-All (x ∷ rows) l l' e = elim (Bool-cases (has_key uuid version x l)) [
    | inl dup ↦ let e' = rw dup at e in cc
    | inr new ↦ (
      copy-HasRow x rows (x ∷ l) l' (rw new at e) (inl refl),
      copy-All rows (x ∷ l) l' (rw new at e),
    )
  ]

module _ {A : Type 0} (uuid version : A → ℕ) (table : System → List A)
    (put : List A → System → System) (got : (l : List A) (s : System) → table (put l s) ≡ l)
    (put_script : (l : List A) (s : System) → (put l s).script ≡ s.script)
    (spent : (s : System) → table (spend s) ≡ table s)
    (timed : (s : System) (n : ℕ) → table (record s { now = n }) ≡ table s) where
  abbrev Present : A → System → Type 0
  Present x s = HasRow x (table s)

  module _ (x : A) (rows : List A) where
    copied_keeps :
        (f : Fault) (o : Option (List A)) (u : System)
        → copy_from uuid version rows (table u) ≡ o
        → Present x u
        → Present x (committed f (copied uuid version table put o u) u).1
    copied_keeps (refused e) o u c h = h
    copied_keeps answered none u c h = h
    copied_keeps (broken n e) none u c h = h
    copied_keeps answered (some m) u c h =
        rw (got m u) (copy-HasRow uuid version x rows (table u) m c h)
    copied_keeps (broken n e) (some m) u c h =
        rw (got m u) (copy-HasRow uuid version x rows (table u) m c h)

    save-Keeps : Keeps (Present x) (save_rows uuid version table put rows)
    unfolding save_rows
    save-Keeps = record {
      at = λ s h. copied_keeps (head_outcome s.script).fault _ (spend s) refl (rw (spent s) h);
    }

    -- A row that is in the table stays in it.
    pub retried-Keeps :
        (cfg : RetryConfig)
        → Keeps (Present x) (retry_do cfg (save_rows uuid version table put rows))
    retried-Keeps cfg =
        retry_do-Keeps (λ s n h. rw (timed s n) h) cfg (save_rows uuid version table put rows)
          save-Keeps

  all_kept :
      (cfg : RetryConfig) (rows some_rows : List A) (s : System)
      → All (λ r. Present r s) some_rows
      → All (λ r. Present r (retry_do cfg (save_rows uuid version table put rows) s).1) some_rows
  all_kept cfg rows [] s h = tt
  all_kept cfg rows (x ∷ l) s (h, h') =
      ((retried-Keeps x rows cfg).at s h, all_kept cfg rows l s h')

  -- A success leaves every row of a clean batch in the table.
  pub retried_all :
      (cfg : RetryConfig) (rows : List A) (s : System)
      → all_honest s.script ≡ true
      → Clean uuid version rows (table s)
      → (retry_do cfg (save_rows uuid version table put rows) s).0 ≡ ok tt
      → All (λ r. Present r (retry_do cfg (save_rows uuid version table put rows) s).1) rows
  retried_all cfg rows s fair (inr there) r = all_kept cfg rows rows s there
  retried_all cfg rows s fair (inl (l', new)) r =
      let (_, full) =
        retried_save uuid version table put got put_script spent timed rows (table s) l' new cfg s
          fair (inl refl) in
      rw (full r) (copy-All uuid version rows (table s) l' new)
