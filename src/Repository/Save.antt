-- ===== src/Repository/Save.antt =====
-- SaveKeys and SaveData of internal/repository under retries.
use file_cipher_core.Prelude.{
  ℕ, ◌≡◌, refl, ap, ◌∙◌, ◌⊎◌, inl, inr, Bool, true, not, ◌&&◌, Bool-cases, Option, none, some, List,
  [], ◌∷◌, arith,
}
use file_cipher_core.Env.{
  Error, ok, err, Fault, answered, refused, broken, Outcome, System, Exec, head_outcome,
  tail_outcomes, spend, committed,
}
use file_cipher_core.Env.Keeps.{Keeps}
use file_cipher_core.Retry.{RetryConfig, retry_do}
use file_cipher_core.Retry.Keeps.{retry_do-Keeps, retry_do_from}
use file_cipher_core.Repository.Sql.{has_key, copy_from}
use file_cipher_core.Repository.Tables.{is_unique_violation, ignore_duplicates, copied, save_rows}

-- The faults of a database that is asked: only a COPY that meets a duplicate reports one.
abbrev pub honest : Fault → Bool
honest answered = true
honest (refused e) = not (is_unique_violation e)
honest (broken n e) = not (is_unique_violation e)

abbrev pub all_honest : List Outcome → Bool
all_honest [] = true
all_honest (o ∷ rest) = honest o.fault && all_honest rest

honest-head : (l : List Outcome) → all_honest l ≡ true → honest (head_outcome l).fault ≡ true
honest-head [] h = refl
honest-head (o ∷ rest) h = ground arith

honest-tail : (l : List Outcome) → all_honest l ≡ true → all_honest (tail_outcomes l) ≡ true
honest-tail [] h = refl
honest-tail (o ∷ rest) h = ground arith

honest_error : (e : Error) → not (is_unique_violation e) ≡ true → ignore_duplicates (err e) ≡ err e
unfolding ignore_duplicates
honest_error e h = ground arith

module _ {A : Type 0} (uuid version : A → ℕ) where
  pub has_key-copy :
      (r : A) (rows l l' : List A)
      → has_key uuid version r l ≡ true
      → copy_from uuid version rows l ≡ some l'
      → has_key uuid version r l' ≡ true
  unfolding has_key copy_from
  has_key-copy r [] l l' h e = cc
  has_key-copy r (x ∷ rows) l l' h e = elim (Bool-cases (has_key uuid version x l)) [
    | inl dup ↦ let e' = rw dup at e in cc
    | inr new ↦ has_key-copy r rows (x ∷ l) l' (ground arith) (rw new at e)
  ]

  -- A batch that has been copied is in the table: it meets duplicates, or it is empty.
  pub copy_again :
      (rows l l' : List A)
      → copy_from uuid version rows l ≡ some l'
      → (copy_from uuid version rows l' ≡ none) ⊎ (l ≡ l')
  unfolding has_key copy_from
  copy_again [] l l' e = inr cc
  copy_again (x ∷ rows) l l' e = elim (Bool-cases (has_key uuid version x l)) [
    | inl dup ↦ let e' = rw dup at e in cc
    | inr new ↦
        let found = has_key-copy x rows (x ∷ l) l' (ground arith) (rw new at e) in
        inl (rw found refl)
  ]

module _ {A : Type 0} (uuid version : A → ℕ) (table : System → List A)
    (put : List A → System → System) (got : (l : List A) (s : System) → table (put l s) ≡ l)
    (put_script : (l : List A) (s : System) → (put l s).script ≡ s.script)
    (spent : (s : System) → table (spend s) ≡ table s)
    (timed : (s : System) (n : ℕ) → table (record s { now = n }) ≡ table s) (rows l l' : List A)
    (new : copy_from uuid version rows l ≡ some l') where
  -- The table before or after the batch.
  abbrev OneOf : System → Type 0
  OneOf s = (table s ≡ l) ⊎ (table s ≡ l')

  record Saving (s : System) : Type 0 where
    pub honest_script : all_honest s.script ≡ true
    pub one_of : OneOf s

  copy_cases :
      (u : System)
      → OneOf u
      → (copy_from uuid version rows (table u) ≡ some l')
        ⊎ ((copy_from uuid version rows (table u) ≡ none) × (table u ≡ l'))
  copy_cases u (inl e) = inl (rw e new)
  copy_cases u (inr e) = elim (copy_again uuid version rows l l' new) [
    | inl dup ↦ inr (rw e dup, e)
    | inr same ↦ inl (rw (e, ← same) (rw (← same) at new))
  ]

  saved_table :
      (f : Fault) (o : Option (List A)) (u : System)
      → OneOf u
      → (o ≡ some l') ⊎ ((o ≡ none) × (table u ≡ l'))
      → OneOf (committed f (copied uuid version table put o u) u).1
  saved_table (refused e) o u h c = h
  saved_table answered none u h c = h
  saved_table (broken n e) none u h c = h
  saved_table answered (some m) u h (inl c) = inr (got m u ∙ cc)
  saved_table answered (some m) u h (inr (c, d)) = cc
  saved_table (broken n e) (some m) u h (inl c) = inr (got m u ∙ cc)
  saved_table (broken n e) (some m) u h (inr (c, d)) = cc

  saved_script :
      (f : Fault) (o : Option (List A)) (u : System)
      → (committed f (copied uuid version table put o u) u).1.script ≡ u.script
  saved_script (refused e) o u = refl
  saved_script answered none u = refl
  saved_script (broken n e) none u = refl
  saved_script answered (some m) u = put_script m u
  saved_script (broken n e) (some m) u = put_script m u

  saved_ok :
      (f : Fault) (o : Option (List A)) (u : System)
      → honest f ≡ true
      → (o ≡ some l') ⊎ ((o ≡ none) × (table u ≡ l'))
      → ignore_duplicates (committed f (copied uuid version table put o u) u).0 ≡ ok tt
      → table (committed f (copied uuid version table put o u) u).1 ≡ l'
  saved_ok (refused e) o u h c r = let x = honest_error e h in cc
  saved_ok (broken n e) o u h c r = let x = honest_error e h in cc
  saved_ok answered none u h (inr (c, d)) r = d
  saved_ok answered none u h (inl c) r = cc
  saved_ok answered (some m) u h (inl c) r = got m u ∙ cc
  saved_ok answered (some m) u h (inr (c, d)) r = cc

  save : Exec (Unit {0})
  save = save_rows uuid version table put rows

  spent_one : (s : System) → OneOf s → OneOf (spend s)
  spent_one s (inl e) = inl (spent s ∙ e)
  spent_one s (inr e) = inr (spent s ∙ e)

  save-Keeps : Keeps Saving save
  unfolding save save_rows
  save-Keeps = record {
    at = λ s h.
        let one = spent_one s h.one_of in
        record {
          honest_script =
              rw (saved_script (head_outcome s.script).fault _ (spend s))
                (honest-tail s.script h.honest_script);
          one_of =
              saved_table (head_outcome s.script).fault _ (spend s) one (copy_cases (spend s) one);
        };
  }

  save_ok : (s t : System) → Saving s → save s ≡ (ok tt, t) → table t ≡ l'
  unfolding save save_rows
  save_ok s t h r = rw (← ap (λ p. p.1) r) (
      saved_ok (head_outcome s.script).fault _ (spend s) (honest-head s.script h.honest_script)
        (copy_cases (spend s) (spent_one s h.one_of)) (ap (λ p. p.0) r))

  timeless : (s : System) (n : ℕ) → Saving s → Saving (record s { now = n })
  timeless s n h = record {
    honest_script = h.honest_script;
    one_of = elim h.one_of [ inl e ↦ inl (timed s n ∙ e) | inr e ↦ inr (timed s n ∙ e) ];
  }

  -- A retried save: the table has the whole batch or nothing of it, and after a success the batch.
  pub retried_save :
      (cfg : RetryConfig) (s : System)
      → all_honest s.script ≡ true
      → OneOf s
      → OneOf (retry_do cfg (save_rows uuid version table put rows) s).1
        × ((retry_do cfg (save_rows uuid version table put rows) s).0 ≡ ok tt
            → table (retry_do cfg (save_rows uuid version table put rows) s).1 ≡ l')
  unfolding save
  retried_save cfg s fair one =
      let start : Saving s = record { honest_script = fair; one_of = one } in
      (
        ((retry_do-Keeps timeless cfg save save-Keeps).at s start).one_of,
        λ r.
            let (u, h, e) =
              retry_do_from timeless cfg save save-Keeps s tt (retry_do cfg save s).1 start
                (ap (λ o. (o, (retry_do cfg save s).1)) r) in
            save_ok u (retry_do cfg save s).1 h e,
      )
