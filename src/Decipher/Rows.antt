-- ===== src/Decipher/Rows.antt =====
-- What the page's two maps hold: the newest row of each uuid.
use mathlib.Core.Option
use file_cipher_core.Prelude.{
  ℕ, ◌+◌, ◌<◌, ◌≡◌, refl, ap, ◌∙◌, true, Option, none, some, List, [], ◌∷◌, map, elem, arith,
}
use file_cipher_core.Entity.{Uuid, ChunkData, ChunkKey, zero_data, zero_key}
use file_cipher_core.Repository.Sql.{latest}
use file_cipher_core.Repository.Sql.Latest.{find, newest, Strict, find-latest, Strict-latest}
use file_cipher_core.Repository.Tables.{key_uuid, key_version, data_uuid, data_version, scan_data}
use file_cipher_core.Decipher.{index_by, get_or_zero}

abbrev pub or_zero {ℓ} : {A : Type ℓ} → Option A → A → A
or_zero none z = z
or_zero (some a) z = a

module _ {A : Type 0} (uuid version : A → ℕ) (z : A) where
  pub find-Strict :
      (id n : ℕ) (l : List A) → Strict uuid version n l → id < n → find uuid version id l ≡ none
  find-Strict id n [] a h = refl
  find-Strict id n (x ∷ l) a h = ground (arith, find-Strict id (uuid x + 1) l a.1)

  get_or_zero-index_by :
      (id n : ℕ) (l m : List A)
      → Strict uuid version n l
      → get_or_zero uuid z (index_by uuid l m) id
        ≡ or_zero (find uuid version id l) (get_or_zero uuid z m id)
  unfolding index_by get_or_zero
  get_or_zero-index_by id n [] m a = refl
  get_or_zero-index_by id n (x ∷ l) m a =
      ground (
        arith,
        get_or_zero-index_by id (uuid x + 1) l (x ∷ m) a.1,
        find-Strict id (uuid x + 1) l a.1,
      )

  pub newest_in_page :
      (id : ℕ) (ids : List ℕ) (rows : List A)
      → elem id ids ≡ true
      → get_or_zero uuid z (index_by uuid (latest uuid version ids rows) []) id
        ≡ or_zero (newest uuid version id rows) z
  newest_in_page id ids rows h =
      get_or_zero-index_by id 0 (latest uuid version ids rows) []
        (Strict-latest uuid version ids rows)
      ∙ rw (find-latest uuid version id ids rows, h) (unfold get_or_zero in refl)

module _ (id : Uuid) where
  find-scan :
      (l : List ChunkData)
      → find data_uuid data_version id (map scan_data l)
        ≡ Option.map scan_data (find data_uuid data_version id l)
  find-scan [] = refl
  find-scan (x ∷ l) = ground (arith, find-scan l)

  Strict-scan :
      (n : ℕ) (l : List ChunkData)
      → Strict data_uuid data_version n l
      → Strict data_uuid data_version n (map scan_data l)
  Strict-scan n [] a = tt
  Strict-scan n (x ∷ l) a = (a.0, Strict-scan (x.uuid + 1) l a.1)

  -- The page's key map, at a uuid of the page.
  pub key_in_page :
      (ids : List Uuid) (keys : List ChunkKey) (k : ChunkKey)
      → elem id ids ≡ true
      → newest key_uuid key_version id keys ≡ some k
      → get_or_zero key_uuid zero_key
          (index_by key_uuid (latest key_uuid key_version ids keys) [])
          id
        ≡ k
  key_in_page ids keys k h e =
      newest_in_page key_uuid key_version zero_key id ids keys h ∙ ap (λ o. or_zero o zero_key) e

  -- The page's chunk map, at a uuid of the page.
  pub chunk_in_page :
      (ids : List Uuid) (chunks : List ChunkData) (c : ChunkData)
      → elem id ids ≡ true
      → newest data_uuid data_version id chunks ≡ some c
      → get_or_zero data_uuid zero_data
          (index_by data_uuid (map scan_data (latest data_uuid data_version ids chunks)) [])
          id
        ≡ scan_data c
  chunk_in_page ids chunks c h e =
      get_or_zero-index_by data_uuid data_version zero_data id 0
        (map scan_data (latest data_uuid data_version ids chunks)) []
        (Strict-scan 0 _ (Strict-latest data_uuid data_version ids chunks))
      ∙ rw (find-scan, find-latest data_uuid data_version id ids chunks, h, e) refl
