-- ===== src/Roundtrip/Download.antt =====
-- The tables after an upload, and a download of them.
use file_cipher_core.Prelude.{
  ℕ, ◌+◌, ◌<◌, ◌≡◌, ◌≢◌, refl, sym, ap, ◌∙◌, true, false, inl, some, List, [], ◌∷◌, map, elem,
  length, All, ◌==◌, Bool-cases, inr, arith,
}
use file_cipher_core.Entity.{Uuid, nil_uuid, ChunkData, ChunkKey, FlushItem}
use file_cipher_core.Env.{ok, System}
use file_cipher_core.Env.Quiet.{Quiet}
use file_cipher_core.Crypto.{Gcm, IsGcm}
use file_cipher_core.Retry.{pos}
use file_cipher_core.Cipher.{EncryptJob, Source, Send, read}
use file_cipher_core.Cipher.Split.{Numbered, Cuts, read-Cuts}
use file_cipher_core.Repository.Sql.{copy_from}
use file_cipher_core.Repository.Sql.Uuids.{
  Above, after, Above-ext, Above-distinct_uuids, elem-distinct_uuids,
}
use file_cipher_core.Repository.Tables.{key_uuid, key_version, data_uuid, data_version}
use file_cipher_core.Repository.Pages.{file_uuids}
use file_cipher_core.Decipher.{DecipherConfig, stream_file}
use file_cipher_core.Decipher.Readable.{Readable}
use file_cipher_core.Decipher.Complete.{contents, sent, stream_file_complete}
use file_cipher_core.Roundtrip.Table.{newest-copy_from, elem-copy_from}
use file_cipher_core.Roundtrip.Pieces.{
  chunk_ids, piece, Encrypted, keys_of, rows_of, Above-Numbered, contents-piece, Encrypted-Found,
  map-Encrypted, file-Encrypted,
}

-- How the file came into the tables of `s`: `read` has cut the upload, its uuids ascend, a worker has
-- encrypted each job, and the rows of the items have been copied into tables that knew neither the
-- file nor the uuids.
pub record Uploaded (g : Gcm) (file_id : Uuid) (src : Source) (s : System) : Type 0 where
  pub size : ℕ
  pub rounds : ℕ
  pub uuids : List Uuid
  pub sends : List Send
  pub jobs : List EncryptJob
  pub cut : read size file_id rounds uuids sends src ≡ (ok tt, jobs)
  pub ascending : Above 1 uuids
  pub items : List FlushItem
  pub encrypted : Encrypted g jobs items
  pub keys : List ChunkKey
  pub chunks : List ChunkData
  pub new_keys : copy_from key_uuid key_version (keys_of items) keys ≡ some s.keys
  pub new_chunks : copy_from data_uuid data_version (rows_of items) chunks ≡ some s.chunks
  pub unknown_keys : All (λ u. elem u (map key_uuid keys) ≡ false) uuids
  pub unknown_chunks : All (λ u. elem u (map data_uuid chunks) ≡ false) uuids
  pub unknown_file : All (λ r. (r.file_id == file_id) ≡ false) chunks

unknown_id :
    (known : List Uuid) (file_id : ℕ) (uuids : List Uuid) (jobs : List EncryptJob) (v : Uuid)
    → Numbered file_id uuids jobs
    → All (λ u. elem u known ≡ false) uuids
    → elem v (chunk_ids jobs) ≡ true
    → elem v known ≡ false
unknown_id known file_id uuids [] v n a h = cc
unknown_id known file_id [] (j ∷ jobs) v n a h = absurd n
unknown_id known file_id (u ∷ us) (j ∷ jobs) v n a h = elim (Bool-cases (v == j.chunk_id)) [
  | inl e ↦ let same : v ≡ u = ground (arith, n.0) in rw same a.0
  | inr e ↦ unknown_id known file_id us jobs v n.2 a.1 (ground arith)
]

length-chunk_ids : (jobs : List EncryptJob) → length (chunk_ids jobs) ≡ length jobs
length-chunk_ids [] = refl
length-chunk_ids (j ∷ jobs) = omega (arith, length-chunk_ids jobs)

after_nil : (n : ℕ) (l : List Uuid) → 0 < n → Above n l → after nil_uuid l ≡ l
after_nil n [] p a = refl
after_nil n (x ∷ l) p a = ground (arith, after_nil (x + 1) l (omega arith) a.1)

module _ (g : Gcm) (law : IsGcm g) (file_id : Uuid) (src : Source) (s : System)
    (u : Uploaded g file_id src s) where
  cuts : Cuts u.size file_id u.uuids src u.jobs
  cuts = read-Cuts u.size file_id u.rounds u.uuids u.sends src u.jobs u.cut

  ids-Above : Above 1 (chunk_ids u.jobs)
  ids-Above = Above-Numbered 1 file_id u.uuids u.jobs u.ascending cuts.numbered

  file_uuids-jobs : file_uuids file_id s.chunks ≡ chunk_ids u.jobs
  unfolding file_uuids
  file_uuids-jobs = Above-ext 0 1 _ (chunk_ids u.jobs) (Above-distinct_uuids _) ids-Above λ v.
      elem-distinct_uuids v _
      ∙ elem-copy_from data_uuid data_version (λ r. r.file_id == file_id) v (rows_of u.items)
          u.chunks s.chunks u.new_chunks
          (file-Encrypted g law file_id u.uuids u.jobs u.items u.encrypted cuts.numbered)
          u.unknown_file
      ∙ ap (elem v) (map-Encrypted g law u.jobs u.items u.encrypted).0

  readable_piece :
      (id : Uuid)
      → elem id (chunk_ids u.jobs) ≡ true
      → Readable g s.chunks s.keys id (piece u.jobs id)
  readable_piece id h =
      let found = Encrypted-Found g law u.jobs u.items id u.encrypted h in
      let (rows, keys) = map-Encrypted g law u.jobs u.items u.encrypted in
      record {
        top_chunk = found.chunk;
        top_key = found.key;
        chunk = found.chunk;
        key = found.key;
        has_chunk =
            newest-copy_from data_uuid data_version id 1 (rows_of u.items) u.chunks s.chunks
              u.new_chunks (rw rows ids-Above)
              (unknown_id _ file_id u.uuids u.jobs id cuts.numbered u.unknown_chunks h)
            ∙ found.has_chunk;
        has_key =
            newest-copy_from key_uuid key_version id 1 (keys_of u.items) u.keys s.keys u.new_keys
              (rw keys ids-Above)
              (unknown_id _ file_id u.uuids u.jobs id cuts.numbered u.unknown_keys h)
            ∙ found.has_key;
        chosen = inl (found.same, refl, refl);
        opens = found.opens;
      }

  all_chunks : after nil_uuid (file_uuids file_id s.chunks) ≡ chunk_ids u.jobs
  all_chunks =
      ap (after nil_uuid) file_uuids-jobs ∙ after_nil 1 (chunk_ids u.jobs) (omega arith) ids-Above

  whole : contents (piece u.jobs) (chunk_ids u.jobs) ≡ src.bytes
  whole = contents-piece 1 u.jobs ids-Above ∙ cuts.whole

  -- Download inverts upload. Once the rows of all items of an upload have been copied, as one
  -- batch, into tables that knew neither the file nor its uuids, which ascend, a download without
  -- faults, with a positive page size and attempts that are not negative, sends exactly the
  -- uploaded bytes, if there are any, and returns nil, provided that AES-GCM keeps its laws; more
  -- fuel than the upload has chunks is enough.
  pub upload_download :
      (cfg : DecipherConfig) (fuel tries : ℕ)
      → Quiet s
      → 0 < cfg.page_size
      → cfg.retry.attempts ≡ pos tries
      → src.bytes ≢ []
      → length u.jobs < fuel
      → stream_file g fuel cfg file_id s ≡ (ok tt, sent s src.bytes)
  upload_download cfg fuel tries quiet page retry some_byte enough =
      stream_file_complete g cfg (piece u.jobs) fuel file_id s
        (record {
          quiet = quiet;
          page_pos = page;
          tries = tries;
          attempts = retry;
          readable = λ id h. readable_piece id (rw file_uuids-jobs at h);
        })
        (λ e. some_byte (sym whole ∙ ap (contents (piece u.jobs)) (sym all_chunks ∙ e)))
        (rw all_chunks (omega (arith, length-chunk_ids u.jobs)))
      ∙ ap (λ l. (ok tt, sent s (contents (piece u.jobs) l))) all_chunks
      ∙ ap (λ b. (ok tt, sent s b)) whole
