-- ===== src/Rotation/Produce/Jobs.antt =====
-- The jobs that a page is turned into.
use file_cipher_core.Prelude.{
  ℕ, ◌+◌, ◌≤◌, ◌≡◌, refl, ap, ◌∙◌, Bool, true, Bool-cases, inl, inr, Option, none, some, List, [],
  ◌∷◌, ◌++◌, map, keep, elem, drop, length, All, leb, ◌==◌, arith,
}
use file_cipher_core.Entity.{Uuid, ChunkData, ChunkKey}
use file_cipher_core.Env.{ok}
use file_cipher_core.Cipher.{Send, sent}
use file_cipher_core.Repository.Sql.{latest}
use file_cipher_core.Repository.Sql.Latest.{
  find, newer, newest, newest-uuid, Strict, find-latest, Strict-latest,
}
use file_cipher_core.Repository.Tables.{key_uuid, key_version, data_uuid, data_version, scan_data}
use file_cipher_core.Decipher.{index_by}
use file_cipher_core.Decipher.Rows.{find-Strict}
use file_cipher_core.Rotation.{RotationJob}
use file_cipher_core.Rotation.Produce.{get_key, send_jobs, cons_job}
use file_cipher_core.Rotation.Produce.Rows.{Zipped}

-- The jobs are, in their order, the newest row of each uuid and its newest key.
abbrev pub JobsFor : List ChunkData → List ChunkKey → List Uuid → List RotationJob → Type 0
JobsFor chunks keys [] [] = Unit {0}
JobsFor chunks keys [] (j ∷ jobs) = ⊥
JobsFor chunks keys (id ∷ ids) [] = ⊥
JobsFor chunks keys (id ∷ ids) (j ∷ jobs) =
    ((c : ChunkData) × (newest data_uuid data_version id chunks ≡ some c)
      × (j.current ≡ scan_data c))
    × (newest key_uuid key_version id keys ≡ some j.old_key)
    × JobsFor chunks keys ids jobs

pub JobsFor-append :
    (chunks : List ChunkData) (keys : List ChunkKey) (xs ys : List Uuid) (js ks : List RotationJob)
    → JobsFor chunks keys xs js
    → JobsFor chunks keys ys ks
    → JobsFor chunks keys (xs ++ ys) (js ++ ks)
JobsFor-append chunks keys [] ys [] ks h k = k
JobsFor-append chunks keys [] ys (j ∷ js) ks h k = absurd h
JobsFor-append chunks keys (x ∷ xs) ys [] ks h k = absurd h
JobsFor-append chunks keys (x ∷ xs) ys (j ∷ js) ks h k =
    (h.0, h.1, JobsFor-append chunks keys xs ys js ks h.2 k)

abbrev or_else : Option ChunkKey → Option ChunkKey → Option ChunkKey
or_else none o = o
or_else (some k) o = some k

get_key-index_by :
    (id n : ℕ) (l m : List ChunkKey)
    → Strict key_uuid key_version n l
    → get_key (index_by key_uuid l m) id ≡ or_else (find key_uuid key_version id l) (get_key m id)
unfolding index_by get_key
get_key-index_by id n [] m a = refl
get_key-index_by id n (k ∷ l) m a = ground (
  arith,
  get_key-index_by id (k.uuid + 1) l (k ∷ m) a.1,
  find-Strict key_uuid key_version k id (k.uuid + 1) l a.1,
)

newest_key_in_page :
    (id : ℕ) (ids : List ℕ) (keys : List ChunkKey) (k : ChunkKey)
    → elem id ids ≡ true
    → newest key_uuid key_version id keys ≡ some k
    → get_key (index_by key_uuid (latest key_uuid key_version ids keys) []) id ≡ some k
newest_key_in_page id ids keys k h e =
    get_key-index_by id 0 (latest key_uuid key_version ids keys) []
      (Strict-latest key_uuid key_version ids keys)
    ∙ rw (find-latest key_uuid key_version id ids keys, h, e) refl

module _ {A : Type 0} (uuid version : A → ℕ) (p : A → Bool) where
  newer-some : (x : A) (o : Option A) → (r : A) × (newer uuid version x o ≡ some r)
  newer-some x none = (x, refl)
  newer-some x (some m) = elim (Bool-cases (leb (version m) (version x))) [
    | inl e ↦ (x, rw e refl)
    | inr e ↦ (m, rw e refl)
  ]

  pub newest-some :
      (id : ℕ) (rows : List A)
      → elem id (map uuid (keep p rows)) ≡ true
      → (r : A) × (newest uuid version id rows ≡ some r)
  newest-some id [] h = cc
  newest-some id (x ∷ rows) h = elim (Bool-cases (uuid x == id)) [
    | inl e ↦ let (r, e') = newer-some x (newest uuid version id rows) in (r, rw e e')
    | inr e ↦ let (r, e') = newest-some id rows (ground arith) in (r, rw e e')
  ]

module _ (chunks : List ChunkData) (keys : List ChunkKey) (page : List Uuid) where
  abbrev pub Keyed : Uuid → Type 0
  Keyed id =
      (elem id page ≡ true) × ((k : ChunkKey) × (newest key_uuid key_version id keys ≡ some k))

  pub send_jobs-All :
      (ids : List Uuid) (rows : List ChunkData) (sends : List Send)
      → Zipped data_uuid data_version (λ id. newest data_uuid data_version id chunks) ids rows
      → All Keyed ids
      → All (λ c. c ≡ sent) sends
      → length ids ≤ length sends
      → (jobs : List RotationJob) × (send_jobs
            (index_by key_uuid (latest key_uuid key_version page keys) [])
            (map scan_data rows)
            sends
          ≡ (ok tt, jobs, drop (length ids) sends))
        × JobsFor chunks keys ids jobs
  unfolding send_jobs
  send_jobs-All [] [] sends z k a n = ([], refl, tt)
  send_jobs-All [] (r ∷ rows) sends z k a n = absurd z
  send_jobs-All (id ∷ ids) [] sends z k a n = absurd z
  send_jobs-All (id ∷ ids) (r ∷ rows) [] z k a n = absurd (omega arith)
  send_jobs-All (id ∷ ids) (r ∷ rows) (c ∷ sends) z k a n =
      let (key, has_key) = k.0.1 in
      let found : get_key (index_by key_uuid (latest key_uuid key_version page keys) []) r.uuid
          ≡ some key =
        ap (get_key (index_by key_uuid (latest key_uuid key_version page keys) []))
          (newest-uuid data_uuid data_version id chunks r z.0)
        ∙ newest_key_in_page id page keys key k.0.0 has_key in
      let (jobs, e, js) = send_jobs-All ids rows sends z.1 k.1 a.1 (omega arith) in
      (
        record { current = scan_data r; old_key = key } ∷ jobs,
        rw (a.0, found) (ap (cons_job (record { current = scan_data r; old_key = key })) e),
        ((r, z.0, refl), has_key, js),
      )
