-- ===== src/Roundtrip/Pieces.antt =====
-- The jobs of an upload and the items that the workers make of them.
use file_cipher_core.Prelude.{
  ℕ, ◌+◌, ◌<◌, ◌≡◌, refl, ap₂, ◌∙◌, true, Bool-cases, inl, inr, some, List, [], ◌∷◌, ◌++◌, map,
  elem, All, ◌==◌, if◌then◌else◌, arith,
}
use file_cipher_core.Entity.{Uuid, Bytes, ChunkData, ChunkKey, FlushItem}
use file_cipher_core.Env.{ok}
use file_cipher_core.Crypto.{Gcm, IsGcm, decrypt}
use file_cipher_core.Cipher.{EncryptJob, encrypt_job}
use file_cipher_core.Workers.Made.{MadeOf}
use file_cipher_core.Cipher.Split.{joined, Numbered}
use file_cipher_core.Cipher.Encrypt.{encrypt_job-opens}
use file_cipher_core.Repository.Sql.Latest.{find}
use file_cipher_core.Repository.Sql.Uuids.{Above}
use file_cipher_core.Repository.Stream.{stored}
use file_cipher_core.Repository.Tables.{key_uuid, key_version, data_uuid, data_version}
use file_cipher_core.Decipher.Complete.{contents}

abbrev pub chunk_ids : List EncryptJob → List Uuid
chunk_ids = map (λ j. j.chunk_id)

-- The plaintext of a chunk.
abbrev pub piece : List EncryptJob → Uuid → Bytes
piece [] id = []
piece (j ∷ jobs) id = let rest = piece jobs id in if j.chunk_id == id then j.plaintext else rest

-- Each item is what encryptWorker made of its job, in some state.
abbrev pub Encrypted : Gcm → List EncryptJob → List FlushItem → Type 0
Encrypted g = MadeOf (encrypt_job g)

abbrev pub keys_of : List FlushItem → List ChunkKey
keys_of = map (λ i. (stored i).key)

abbrev pub rows_of : List FlushItem → List ChunkData
rows_of = map (λ i. (stored i).chunk)

pub Above-Numbered :
    (n file_id : ℕ) (uuids : List Uuid) (jobs : List EncryptJob)
    → Above n uuids
    → Numbered file_id uuids jobs
    → Above n (chunk_ids jobs)
Above-Numbered n file_id uuids [] a h = tt
Above-Numbered n file_id [] (j ∷ jobs) a h = absurd h
Above-Numbered n file_id (u ∷ us) (j ∷ jobs) a h =
    (omega (arith, h.0), rw h.0 (Above-Numbered (u + 1) file_id us jobs a.1 h.2))

contents-ext :
    (p q : Uuid → Bytes) (ids : List Uuid)
    → All (λ v. p v ≡ q v) ids
    → contents p ids ≡ contents q ids
contents-ext p q [] h = refl
contents-ext p q (v ∷ ids) h = ap₂ (λ a b. a ++ b) h.0 (contents-ext p q ids h.1)

piece_later :
    (n m : ℕ) (j : EncryptJob) (jobs : List EncryptJob) (ids : List Uuid)
    → j.chunk_id < n
    → Above n ids
    → All (λ v. piece (j ∷ jobs) v ≡ piece jobs v) ids
piece_later n m j jobs [] h a = tt
piece_later n m j jobs (v ∷ ids) h a =
    (ground arith, piece_later (v + 1) m j jobs ids (omega arith) a.1)

-- The plaintexts of the chunks, in the order of their uuids, are the jobs' in their order.
pub contents-piece :
    (n : ℕ) (jobs : List EncryptJob)
    → Above n (chunk_ids jobs)
    → contents (piece jobs) (chunk_ids jobs) ≡ joined jobs
contents-piece n [] a = refl
contents-piece n (j ∷ jobs) a =
    ap₂ (λ a b. a ++ b) (ground arith)
      (contents-ext (piece (j ∷ jobs)) (piece jobs) (chunk_ids jobs)
          (piece_later (j.chunk_id + 1) n j jobs (chunk_ids jobs) (omega arith) a.1)
        ∙ contents-piece (j.chunk_id + 1) jobs a.1)

module _ (g : Gcm) (law : IsGcm g) where
  -- The rows of a chunk among those of the items.
  pub record Found (jobs : List EncryptJob) (items : List FlushItem) (id : Uuid) : Type 0 where
    pub chunk : ChunkData
    pub key : ChunkKey
    pub has_chunk : find data_uuid data_version id (rows_of items) ≡ some chunk
    pub has_key : find key_uuid key_version id (keys_of items) ≡ some key
    pub same : chunk.version ≡ key.version
    pub opens : decrypt g key.key chunk.ciphertext chunk.nonce ≡ ok (piece jobs id)

  pub Encrypted-Found :
      (jobs : List EncryptJob) (items : List FlushItem) (id : Uuid)
      → Encrypted g jobs items
      → elem id (chunk_ids jobs) ≡ true
      → Found jobs items id
  unfolding stored
  Encrypted-Found [] [] id e h = cc
  Encrypted-Found [] (i ∷ items) id e h = absurd e
  Encrypted-Found (j ∷ jobs) [] id e h = absurd e
  Encrypted-Found (j ∷ jobs) (i ∷ items) id ((s, t, made), e) h =
      let seals = encrypt_job-opens g law j s i t made in
      elim (Bool-cases (j.chunk_id == id)) [
        | inl here ↦ record {
          chunk = (stored i).chunk;
          key = (stored i).key;
          has_chunk = ground (arith, seals.data_uuid);
          has_key = ground (arith, seals.data_uuid);
          same = refl;
          opens = rw here seals.opens;
        }
        | inr later ↦
            let found = Encrypted-Found jobs items id e (ground arith) in
            record {
              chunk = found.chunk;
              key = found.key;
              has_chunk = ground (arith, seals.data_uuid, found.has_chunk);
              has_key = ground (arith, seals.data_uuid, found.has_key);
              same = found.same;
              opens = rw later found.opens;
            }
      ]

  pub map-Encrypted :
      (jobs : List EncryptJob) (items : List FlushItem)
      → Encrypted g jobs items
      → (map data_uuid (rows_of items) ≡ chunk_ids jobs)
        × (map key_uuid (keys_of items) ≡ chunk_ids jobs)
  unfolding stored
  map-Encrypted [] [] e = (refl, refl)
  map-Encrypted [] (i ∷ items) e = absurd e
  map-Encrypted (j ∷ jobs) [] e = absurd e
  map-Encrypted (j ∷ jobs) (i ∷ items) ((s, t, made), e) =
      let head = (encrypt_job-opens g law j s i t made).data_uuid in
      let (rows, keys) = map-Encrypted jobs items e in
      (ap₂ (λ u l. u ∷ l) head rows, ap₂ (λ u l. u ∷ l) head keys)

  -- Every row is one of the file.
  pub file-Encrypted :
      (file_id : ℕ) (uuids : List Uuid) (jobs : List EncryptJob) (items : List FlushItem)
      → Encrypted g jobs items
      → Numbered file_id uuids jobs
      → All (λ r. (r.file_id == file_id) ≡ true) (rows_of items)
  unfolding stored
  file-Encrypted file_id uuids [] [] e n = tt
  file-Encrypted file_id uuids [] (i ∷ items) e n = absurd e
  file-Encrypted file_id uuids (j ∷ jobs) [] e n = absurd e
  file-Encrypted file_id [] (j ∷ jobs) (i ∷ items) e n = absurd n
  file-Encrypted file_id (u ∷ us) (j ∷ jobs) (i ∷ items) ((s, t, made), e) n =
      let head = (encrypt_job-opens g law j s i t made).data_file in
      (ground (arith, head, n.1), file-Encrypted file_id us jobs items e n.2)
