-- ===== src/Repository/Sql/Uuids.antt =====
-- The page query on uuids: a strictly ascending list, of which a page is what follows the cursor.
use file_cipher_core.Prelude.{
  ℕ, zero, suc, ◌+◌, ◌≤◌, ◌<◌, ◌≡◌, refl, sym, ap, ap₂, ◌∙◌, Bool, false, ◌&&◌, ◌||◌, List, [], ◌∷◌,
  ltb, ◌==◌, keep, elem, take, drop, arith, Bool-cases, inl, inr, map,
}
use file_cipher_core.Repository.Sql.{insert_uuid, distinct_uuids}

-- Each uuid is at least `n`, and larger than the one before it.
abbrev pub Above : ℕ → List ℕ → Type 0
Above n [] = Unit {0}
Above n (x ∷ l) = (n ≤ x) × Above (x + 1) l

pub elem_below : (u n : ℕ) (l : List ℕ) → Above n l → u < n → elem u l ≡ false
elem_below u n [] a h = refl
elem_below u n (x ∷ l) a h = ground (arith, elem_below u (x + 1) l a.1)

Above-mono : (m n : ℕ) (l : List ℕ) → m ≤ n → Above n l → Above m l
Above-mono m n [] h a = tt
Above-mono m n (x ∷ l) h a = (omega arith, a.1)

Above-insert_uuid : (n u : ℕ) (l : List ℕ) → n ≤ u → Above n l → Above n (insert_uuid u l)
unfolding insert_uuid
Above-insert_uuid n u [] h a = (h, tt)
Above-insert_uuid n u (x ∷ l) h a =
    ground (arith, Above-insert_uuid (x + 1) u l, Above-mono (u + 1) (x + 1) l)

pub Above-distinct_uuids : (l : List ℕ) → Above 0 (distinct_uuids l)
unfolding distinct_uuids
Above-distinct_uuids [] = tt
Above-distinct_uuids (u ∷ l) = Above-insert_uuid 0 u _ (omega arith) (Above-distinct_uuids l)

elem-insert_uuid : (v u : ℕ) (l : List ℕ) → elem v (insert_uuid u l) ≡ (v == u || elem v l)
unfolding insert_uuid
elem-insert_uuid v u [] = refl
elem-insert_uuid v u (x ∷ l) = ground (arith, elem-insert_uuid v u l)

pub elem-distinct_uuids : (v : ℕ) (l : List ℕ) → elem v (distinct_uuids l) ≡ elem v l
unfolding distinct_uuids
elem-distinct_uuids v [] = refl
elem-distinct_uuids v (u ∷ l) =
    ground (arith, elem-insert_uuid v u (distinct_uuids l), elem-distinct_uuids v l)

same_tail :
    (x y v : ℕ) (xs ys : List ℕ)
    → Above (x + 1) xs
    → Above (y + 1) ys
    → x ≡ y
    → elem v (x ∷ xs) ≡ elem v (y ∷ ys)
    → elem v xs ≡ elem v ys
same_tail x y v xs ys a b e h = ground (arith, elem_below v (x + 1) xs a, elem_below v (y + 1) ys b)

-- Strictly ascending lists with the same members are equal.
pub Above-ext :
    (m n : ℕ) (xs ys : List ℕ)
    → Above m xs
    → Above n ys
    → ((v : ℕ) → elem v xs ≡ elem v ys)
    → xs ≡ ys
Above-ext m n [] [] a b h = refl
Above-ext m n [] (y ∷ ys) a b h = absurd (ground (arith, h y))
Above-ext m n (x ∷ xs) [] a b h = absurd (ground (arith, h x))
Above-ext m n (x ∷ xs) (y ∷ ys) a b h =
    ap₂ (λ u l. u ∷ l) heads
      (Above-ext (x + 1) (y + 1) xs ys a.1 b.1 (λ v. same_tail x y v xs ys a.1 b.1 heads (h v)))
  where
    heads : x ≡ y
    heads = ground (arith, h x, h y, elem_below x (y + 1) ys b.1, elem_below y (x + 1) xs a.1)

-- WHERE … AND uuid > c
abbrev pub after : ℕ → List ℕ → List ℕ
after c = keep (λ u. ltb c u)

pub elem-keep : (p : ℕ → Bool) (v : ℕ) (l : List ℕ) → elem v (keep p l) ≡ (elem v l && p v)
elem-keep p v [] = refl
elem-keep p v (x ∷ l) = elim (Bool-cases (v == x)) [
  | inl e ↦ let same : v ≡ x = ground arith in ground (arith, ap p same, elem-keep p v l)
  | inr e ↦ ground (arith, elem-keep p v l)
]

Above-keep : (p : ℕ → Bool) (n : ℕ) (l : List ℕ) → Above n l → Above n (keep p l)
Above-keep p n [] a = tt
Above-keep p n (x ∷ l) a =
    ground (arith, Above-keep p (x + 1) l a.1, Above-mono n (x + 1) (keep p l))

pub Above-take : (m n : ℕ) (l : List ℕ) → Above m l → Above m (take n l)
Above-take m zero l a = tt
Above-take m (suc n) [] a = tt
Above-take m (suc n) (x ∷ l) a = (a.0, Above-take (x + 1) n l a.1)

pub Above-after : (c m : ℕ) (l : List ℕ) → Above m l → Above (c + 1) (after c l)
Above-after c m [] a = tt
Above-after c m (x ∷ l) a =
    ground (arith, Above-keep (λ u. ltb c u) (x + 1) l a.1, Above-after c (x + 1) l a.1)

elem-after_rows :
    {A : Type 0} (uuid : A → ℕ) (p : A → Bool) (c v : ℕ) (rows : List A)
    → elem v (map uuid (keep (λ r. p r && ltb c (uuid r)) rows))
      ≡ (elem v (map uuid (keep p rows)) && ltb c v)
elem-after_rows uuid p c v [] = refl
elem-after_rows uuid p c v (r ∷ rows) = ground (arith, elem-after_rows uuid p c v rows)

-- A row condition `uuid > c` picks, from the uuids without it, those after `c`.
pub after-distinct_uuids :
    {A : Type 0} (uuid : A → ℕ) (p : A → Bool) (c : ℕ) (rows : List A)
    → distinct_uuids (map uuid (keep (λ r. p r && ltb c (uuid r)) rows))
      ≡ after c (distinct_uuids (map uuid (keep p rows)))
after-distinct_uuids uuid p c rows =
    Above-ext 0 0 _ _ (Above-distinct_uuids _)
      (Above-keep (λ u. ltb c u) 0 _ (Above-distinct_uuids _))
      λ v.
        elem-distinct_uuids v _
        ∙ elem-after_rows uuid p c v rows
        ∙ sym (elem-keep (λ u. ltb c u) v _ ∙ ap (λ b. b && ltb c v) (elem-distinct_uuids v _))

-- ids[len(ids)-1], over the cursor before the page
abbrev pub last_or : ℕ → List ℕ → ℕ
last_or d [] = d
last_or d (x ∷ l) = last_or x l

pub last_or-ge : (d : ℕ) (l : List ℕ) → Above (d + 1) l → d ≤ last_or d l
last_or-ge d [] a = omega arith
last_or-ge d (x ∷ l) a = omega (arith, last_or-ge x l a.1)

after_all : (x : ℕ) (l : List ℕ) → Above (x + 1) l → after x l ≡ l
after_all x [] a = refl
after_all x (y ∷ l) a =
    ground (arith, after_all x l (Above-mono (x + 1) (y + 1) l (omega arith) a.1))

-- Behind a page's last uuid stands the rest of the list.
pub after-last_or :
    (n x : ℕ) (l : List ℕ) → Above (x + 1) l → after (last_or x (take n l)) l ≡ drop n l
after-last_or zero x l a = after_all x l a
after-last_or (suc n) x [] a = refl
after-last_or (suc n) x (y ∷ l) a =
    ground (arith, after-last_or n y l a.1, last_or-ge y (take n l) (Above-take (y + 1) n l a.1))

pub after-after : (c d : ℕ) (l : List ℕ) → c ≤ d → after d (after c l) ≡ after d l
after-after c d [] h = refl
after-after c d (x ∷ l) h = ground (arith, after-after c d l h)
