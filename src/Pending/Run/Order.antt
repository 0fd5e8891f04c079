-- ===== src/Pending/Run/Order.antt =====
-- The ids of the stream ascend: which entries XREADGROUP gives, and which one an id names.
use file_cipher_core.Prelude.{
  ℕ, zero, suc, ◌+◌, ◌≤◌, ◌<◌, ◌≡◌, refl, sym, ap, subst, ◌⊎◌, inl, inr, Bool, Bool-cases, true,
  false, not, List, [], ◌∷◌, ◌++◌, map, keep, take, elem, All, ◌==◌, arith,
}
use file_cipher_core.Entity.{PendingItem}
use file_cipher_core.Env.{Delivery}
use file_cipher_core.Repository.Stream.{entry_ids, last_id}

-- Where an entry is in a list.
abbrev pub In : PendingItem → List PendingItem → Type 0
In e [] = ⊥
In e (x ∷ l) = (e ≡ x) ⊎ In e l

-- The ids ascend, from `b` on, and are below `n`.
abbrev pub Ascends : ℕ → ℕ → List PendingItem → Type 0
Ascends b n [] = b ≤ n
Ascends b n (e ∷ l) = (b ≤ e.id) × Ascends (e.id + 1) n l

pub In-before : (e : PendingItem) (l m : List PendingItem) → In e l → In e (l ++ m)
In-before e [] m h = absurd h
In-before e (x ∷ l) m (inl h) = inl h
In-before e (x ∷ l) m (inr h) = inr (In-before e l m h)

pub In-snoc : (e x : PendingItem) (l : List PendingItem) → In e (l ++ x ∷ []) → In e l ⊎ (e ≡ x)
In-snoc e x [] (inl h) = inr h
In-snoc e x [] (inr h) = absurd h
In-snoc e x (y ∷ l) (inl h) = inl (inl h)
In-snoc e x (y ∷ l) (inr h) = elim (In-snoc e x l h) [ inl k ↦ inl (inr k) | inr k ↦ inr k ]

pub Ascends-snoc :
    (b n : ℕ) (l : List PendingItem) (x : PendingItem)
    → x.id ≡ n
    → Ascends b n l
    → Ascends b (n + 1) (l ++ x ∷ [])
Ascends-snoc b n [] x e h = (omega arith, omega arith)
Ascends-snoc b n (y ∷ l) x e (h, h') = (h, Ascends-snoc (y.id + 1) n l x e h')

low : (b n : ℕ) (l : List PendingItem) → Ascends b n l → b ≤ n
low b n [] h = h
low b n (x ∷ l) (h, h') = let k = low (x.id + 1) n l h' in omega arith

pub In-bounds :
    (b n : ℕ) (l : List PendingItem) (e : PendingItem)
    → Ascends b n l
    → In e l
    → (b ≤ e.id) × (e.id < n)
In-bounds b n [] e h m = absurd m
In-bounds b n (x ∷ l) e (h, h') (inl m) = rw m (h, omega (arith, low (x.id + 1) n l h'))
In-bounds b n (x ∷ l) e (h, h') (inr m) =
    let (low', high) = In-bounds (x.id + 1) n l e h' m in (omega arith, high)

-- An id names one entry.
pub In-unique :
    (b n : ℕ) (l : List PendingItem) (e f : PendingItem)
    → Ascends b n l
    → In e l
    → In f l
    → e.id ≡ f.id
    → e ≡ f
In-unique b n [] e f h m k q = absurd m
In-unique b n (x ∷ l) e f (h, h') (inl m) (inl k) q = cc
In-unique b n (x ∷ l) e f (h, h') (inr m) (inr k) q = In-unique (x.id + 1) n l e f h' m k q
In-unique b n (x ∷ l) e f (h, h') (inl m) (inr k) q =
    let (above, _) = In-bounds (x.id + 1) n l f h' k in
    let same = ap (λ y. y.id) m in absurd (omega arith)
In-unique b n (x ∷ l) e f (h, h') (inr m) (inl k) q =
    let (above, _) = In-bounds (x.id + 1) n l e h' m in
    let same = ap (λ y. y.id) k in absurd (omega arith)

Ascends-weaken : (b c n : ℕ) (l : List PendingItem) → b ≤ c → Ascends c n l → Ascends b n l
Ascends-weaken b c n [] k h = omega arith
Ascends-weaken b c n (x ∷ l) k (h, h') = (omega arith, h')

pub Ascends-keep :
    (p : PendingItem → Bool) (b n : ℕ) (l : List PendingItem)
    → Ascends b n l
    → Ascends b n (keep p l)
Ascends-keep p b n [] h = h
Ascends-keep p b n (x ∷ l) (h, h') = elim (Bool-cases (p x)) [
  | inl e ↦ rw e (h, Ascends-keep p (x.id + 1) n l h')
  | inr e ↦
      rw e
        (Ascends-weaken b (x.id + 1) n (keep p l) (omega arith) (Ascends-keep p (x.id + 1) n l h'))
]

pub In-keep :
    (p : PendingItem → Bool) (e : PendingItem) (l : List PendingItem)
    → p e ≡ true
    → In e l
    → In e (keep p l)
In-keep p e [] h m = absurd m
In-keep p e (x ∷ l) h (inl m) = rw (← m, h) (inl refl)
In-keep p e (x ∷ l) h (inr m) = elim (Bool-cases (p x)) [
  | inl y ↦ rw y (inr (In-keep p e l h m))
  | inr y ↦ rw y (In-keep p e l h m)
]

pub keep-In :
    (p : PendingItem → Bool) (e : PendingItem) (l : List PendingItem) → In e (keep p l) → In e l
keep-In p e [] m = m
keep-In p e (x ∷ l) m = elim (Bool-cases (p x)) [
  | inl y ↦ elim (rw y at m) [ inl h ↦ inl h | inr h ↦ inr (keep-In p e l h) ]
  | inr y ↦ inr (keep-In p e l (rw y at m))
]

pub take-In : (k : ℕ) (e : PendingItem) (l : List PendingItem) → In e (take k l) → In e l
take-In zero e l m = absurd m
take-In (suc k) e [] m = m
take-In (suc k) e (x ∷ l) (inl m) = inl m
take-In (suc k) e (x ∷ l) (inr m) = inr (take-In k e l m)

-- The entries up to the last id that was given out have been given out.
pub delivered :
    (k b n d : ℕ) (l : List PendingItem) (e : PendingItem)
    → Ascends b n l
    → In e l
    → d < e.id
    → e.id ≤ last_id d (entry_ids (take k l))
    → elem e.id (entry_ids (take k l)) ≡ true
delivered zero b n d l e h m k q = absurd (omega arith)
delivered (suc c) b n d [] e h m k q = absurd m
delivered (suc c) b n d (x ∷ l) e (h, h') (inl m) k q = rw m (ground arith)
delivered (suc c) b n d (x ∷ l) e (h, h') (inr m) k q =
    let (above, _) = In-bounds (x.id + 1) n l e h' m in
    let rest = delivered c (x.id + 1) n x.id l e h' m (omega arith) q in ground arith

pub last_id-below :
    (b n d : ℕ) (l : List PendingItem) → d < n → All (λ e. e.id < n) l → last_id d (entry_ids l) < n
last_id-below b n d [] h a = h
last_id-below b n d (x ∷ l) h (a, a') = last_id-below b n x.id l a a'

-- The entry that an id of a batch names.
pub named :
    (i : ℕ) (l : List PendingItem)
    → elem i (entry_ids l) ≡ true
    → (x : PendingItem) × In x l × (i ≡ x.id)
named i [] h = cc
named i (x ∷ l) h = elim (Bool-cases (i == x.id)) [
  | inl e ↦ (x, inl refl, ground arith)
  | inr e ↦ let (y, m, q) = named i l (ground arith) in (y, inr m, q)
]

pub All-at {κ} :
    (P : PendingItem → Type κ) (l : List PendingItem) (e : PendingItem) → All P l → In e l → P e
All-at P [] e a m = absurd m
All-at P (x ∷ l) e (a, a') (inl m) = subst P (sym m) a
All-at P (x ∷ l) e (a, a') (inr m) = All-at P l e a' m

pub All-each {κ} :
    (P : PendingItem → Type κ) (l : List PendingItem) → ((e : PendingItem) → In e l → P e) → All P l
All-each P [] f = tt
All-each P (x ∷ l) f = (f x (inl refl), All-each P l (λ e h. f e (inr h)))

abbrev pub pending_ids : List Delivery → List ℕ
pending_ids = map (λ d. d.id)

pub elem-before :
    (i : ℕ) (l m : List Delivery)
    → elem i (pending_ids l) ≡ true
    → elem i (pending_ids (l ++ m)) ≡ true
elem-before i [] m h = cc
elem-before i (x ∷ l) m h = ground (arith, elem-before i l m)

pub elem-behind :
    (i : ℕ) (l m : List Delivery)
    → elem i (pending_ids m) ≡ true
    → elem i (pending_ids (l ++ m)) ≡ true
elem-behind i [] m h = h
elem-behind i (x ∷ l) m h = let rest = elem-behind i l m h in ground arith

pub elem-acked :
    (i : ℕ) (ids : List ℕ) (l : List Delivery)
    → elem i ids ≡ false
    → elem i (pending_ids l) ≡ true
    → elem i (pending_ids (keep (λ d. not (elem d.id ids)) l)) ≡ true
elem-acked i ids [] h k = k
elem-acked i ids (x ∷ l) h k = elim (Bool-cases (i == x.id)) [
  | inl e ↦
      let same : i ≡ x.id = ground arith in
      let free : elem x.id ids ≡ false = rw (← same) h in rw free (ground arith)
  | inr e ↦
      let rest = elem-acked i ids l h (ground arith) in
      elim (Bool-cases (elem x.id ids)) [ inl y ↦ rw y rest | inr y ↦ rw y (ground arith) ]
]
