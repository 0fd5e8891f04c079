-- ===== src/Channels/Places.antt =====
-- Where the jobs of the producer are: a job that moves from one place to another is neither lost nor
-- doubled.
use mathlib.Core.List.{Permᴰ, map-append}
use mathlib.Core.List.Permᴰ.{middle, append_left, symm}
use file_cipher_core.Prelude.{sym, subst, List, [], ◌∷◌, ◌++◌, map, append-nil, append_assoc, All}
use file_cipher_core.Channels.{Made, Pipe}

module _ {ℓ} {A : Type ℓ} where
  -- `l` is `rest` with `a` somewhere in it.
  Floats : A → List A → List A → Type ℓ
  Floats a l rest = Permᴰ l (a ∷ rest)

  under : (a : A) (xs l rest : List A) → Floats a l rest → Floats a (xs ++ l) (xs ++ rest)
  unfolding Floats
  under a xs l rest f = Permᴰ.trans (append_left xs f) (middle a xs rest)

  within : (a : A) (xs ys zs : List A) → Floats a ((xs ++ a ∷ ys) ++ zs) ((xs ++ ys) ++ zs)
  unfolding Floats
  within a xs ys zs =
      subst (λ l. Permᴰ l (a ∷ ((xs ++ ys) ++ zs))) (sym (append_assoc xs (a ∷ ys) zs))
        (subst (λ l. Permᴰ (xs ++ a ∷ (ys ++ zs)) (a ∷ l)) (sym (append_assoc xs ys zs))
          (middle a xs (ys ++ zs)))

  last : (a : A) (xs zs : List A) → Floats a ((xs ++ a ∷ []) ++ zs) (xs ++ zs)
  last a xs zs =
      subst (λ l. Floats a ((xs ++ a ∷ []) ++ zs) (l ++ zs)) (append-nil xs) (within a xs [] zs)

  moved : (a : A) (l k rest : List A) → Floats a l rest → Floats a k rest → Permᴰ l k
  unfolding Floats
  moved a l k rest f g = Permᴰ.trans f (symm g)

  pub All-Permᴰ {κ} : (P : A → Type κ) (l k : List A) → Permᴰ l k → All P l → All P k
  All-Permᴰ P l k Permᴰ.nil h = h
  All-Permᴰ P l k (Permᴰ.cons {l₁ = l'} {l₂ = k'} e d) (p, h) = (subst P e p, All-Permᴰ P l' k' d h)
  All-Permᴰ P l k (Permᴰ.swap e e') (p, (q, h)) = (subst P e' q, (subst P e p, h))
  All-Permᴰ P l k (Permᴰ.trans {l₂ = m} d d') h = All-Permᴰ P m k d' (All-Permᴰ P l m d h)

module _ {J : Type 0} where
  abbrev pub jobs_of : List (Made J) → List J
  jobs_of = map (λ m. m.job)

  abbrev pub parts :
      List J → List J → List (Made J) → List J → List (Made J) → List (Made J) → List J
  parts todo jobs held lost items got =
      todo ++ (jobs ++ (jobs_of held ++ (lost ++ (jobs_of items ++ jobs_of got))))

  -- Where each job of the producer is.
  abbrev pub all_parts : Pipe J → List J
  all_parts p = parts p.todo p.jobs p.held p.lost p.items p.got

  -- An item moves: out of the middle of one list, to the end or the front of another.
  pub sent_perm :
      (j : J) (rest jobs : List J) (held : List (Made J)) (lost : List J)
      (items got : List (Made J))
      → Permᴰ
          (parts (j ∷ rest) jobs held lost items got)
          (parts rest (jobs ++ j ∷ []) held lost items got)
  sent_perm j rest jobs held lost items got =
      moved j _ _ _ (within j [] rest _) (under j rest _ _ (last j jobs _))

  pub made_perm :
      (todo : List J) (m : Made J) (rest : List J) (held : List (Made J)) (lost : List J)
      (items got : List (Made J))
      → Permᴰ
          (parts todo (m.job ∷ rest) held lost items got)
          (parts todo rest (m ∷ held) lost items got)
  made_perm todo m rest held lost items got = append_left todo (
      moved m.job _ _ _ (within m.job [] rest _)
        (under m.job rest _ _ (within m.job [] (jobs_of held) _)))

  pub spoiled_perm :
      (todo : List J) (j : J) (rest : List J) (held : List (Made J)) (lost : List J)
      (items got : List (Made J))
      → Permᴰ
          (parts todo (j ∷ rest) held lost items got)
          (parts todo rest held (j ∷ lost) items got)
  spoiled_perm todo j rest held lost items got = append_left todo (
      moved j _ _ _ (within j [] rest _)
        (under j rest _ _ (under j (jobs_of held) _ _ (within j [] lost _))))

  held_split :
      (xs : List (Made J)) (m : Made J) (ys : List (Made J)) (zs : List J)
      → Floats m.job (jobs_of (xs ++ m ∷ ys) ++ zs) (jobs_of (xs ++ ys) ++ zs)
  held_split xs m ys zs =
      rw (map-append (λ (x : Made J). x.job) xs (m ∷ ys), map-append (λ (x : Made J). x.job) xs ys)
        (within m.job (jobs_of xs) (jobs_of ys) zs)

  items_snoc :
      (m : Made J) (items : List (Made J)) (zs : List J)
      → Floats m.job (jobs_of (items ++ m ∷ []) ++ zs) (jobs_of items ++ zs)
  items_snoc m items zs =
      subst (λ l. Floats m.job (jobs_of (items ++ m ∷ []) ++ zs) (jobs_of l ++ zs))
        (append-nil items) (held_split items m [] zs)

  pub passed_perm :
      (todo jobs : List J) (xs : List (Made J)) (m : Made J) (ys : List (Made J)) (lost : List J)
      (items got : List (Made J))
      → Permᴰ
          (parts todo jobs (xs ++ m ∷ ys) lost items got)
          (parts todo jobs (xs ++ ys) lost (items ++ m ∷ []) got)
  passed_perm todo jobs xs m ys lost items got = append_left todo (
      append_left jobs (
        moved m.job _ _ _ (held_split xs m ys _) (
          under m.job (jobs_of (xs ++ ys)) _ _
            (under m.job lost _ _ (items_snoc m items (jobs_of got))))))

  pub dropped_perm :
      (todo jobs : List J) (xs : List (Made J)) (m : Made J) (ys : List (Made J)) (lost : List J)
      (items got : List (Made J))
      → Permᴰ
          (parts todo jobs (xs ++ m ∷ ys) lost items got)
          (parts todo jobs (xs ++ ys) (m.job ∷ lost) items got)
  dropped_perm todo jobs xs m ys lost items got = append_left todo (
      append_left jobs (
        moved m.job _ _ _ (held_split xs m ys _)
          (under m.job (jobs_of (xs ++ ys)) _ _ (within m.job [] lost _))))

  pub received_perm :
      (todo jobs : List J) (held : List (Made J)) (lost : List J) (m : Made J)
      (items got : List (Made J))
      → Permᴰ
          (parts todo jobs held lost (m ∷ items) got)
          (parts todo jobs held lost items (got ++ m ∷ []))
  received_perm todo jobs held lost m items got = append_left todo (
      append_left jobs (
        append_left (jobs_of held) (
          append_left lost (
            moved m.job _ _ _ (within m.job [] (jobs_of items) _) (
              under m.job (jobs_of items) _ _ (
                subst (λ l. Floats m.job l (jobs_of got)) (append-nil _)
                  (subst (λ l. Floats m.job (jobs_of (got ++ m ∷ []) ++ []) l)
                    (append-nil (jobs_of got)) (items_snoc m got []))))))))
