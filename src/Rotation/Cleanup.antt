-- ===== src/Rotation/Cleanup.antt =====
-- The clean-up behind a rotation, and what it does to the rows that a download reads.
use file_cipher_core.Prelude.{
  ℕ, zero, suc, ◌<◌, min, ◌≡◌, ap, inl, inr, true, some, List, [], ◌∷◌, elem, arith,
}
use file_cipher_core.Entity.{Uuid, nil_uuid, Bytes, ChunkData, ChunkKey}
use file_cipher_core.Env.{
  System, ok, spend, ◌>>◌, wrapping, get_chunk_uuids, delete_old_data as at_delete_old_data,
  delete_old_keys as at_delete_old_keys,
}
use file_cipher_core.Env.Keeps.{
  Keeps, Keeps-pure, Keeps-wrapping, Keeps-bind, Keeps-query, Keeps-commit,
}
use file_cipher_core.Crypto.{Gcm}
use file_cipher_core.Repository.Sql.{delete_old}
use file_cipher_core.Repository.Sql.Latest.{newest}
use file_cipher_core.Repository.Sql.Uuids.{last_or}
use file_cipher_core.Repository.Sql.Delete.{newest-delete_old, delete_old-gone}
use file_cipher_core.Repository.Tables.{
  deleting_keys, deleting_data, key_uuid, key_version, data_uuid, data_version, page_of,
  delete_old_data, delete_old_keys, get_chunk_uuids_by_file_id,
}
use file_cipher_core.Decipher.Readable.{Readable}
use file_cipher_core.Rotation.{RotatorConfig, delete_pages, delete_old_versions}

module _ (id : Uuid) (c : ChunkData) (k : ChunkKey) where
  -- `c` and `k` are the newest rows of the uuid.
  pub record Newest (s : System) : Type 0 where
    pub newest_data : newest data_uuid data_version id s.chunks ≡ some c
    pub newest_key : newest key_uuid key_version id s.keys ≡ some k

  stable : (s : System) → Newest s → Newest (spend s)
  stable s h = record { newest_data = h.newest_data; newest_key = h.newest_key }

  data_kept : (ids : List Uuid) → Keeps Newest (delete_old_data ids)
  unfolding delete_old_data
  data_kept ids = Keeps-commit stable (deleting_data ids) (record {
    at = λ s h. record {
      newest_data = newest-delete_old data_uuid data_version ids s.chunks id c h.newest_data;
      newest_key = h.newest_key;
    };
  })

  keys_kept : (ids : List Uuid) → Keeps Newest (delete_old_keys ids)
  unfolding delete_old_keys
  keys_kept ids = Keeps-commit stable (deleting_keys ids) (record {
    at = λ s h. record {
      newest_data = h.newest_data;
      newest_key = newest-delete_old key_uuid key_version ids s.keys id k h.newest_key;
    };
  })

  page_kept :
      (file_id cursor limit : ℕ) → Keeps Newest (get_chunk_uuids_by_file_id file_id cursor limit)
  unfolding get_chunk_uuids_by_file_id
  page_kept file_id cursor limit =
      Keeps-query stable (λ s. ok (page_of file_id cursor limit s.chunks))

  module _ (cfg : RotatorConfig) (file_id : Uuid) where
    delete_pages-Newest : (fuel cursor : ℕ) → Keeps Newest (delete_pages cfg file_id fuel cursor)
    unfolding delete_pages
    delete_pages-Newest zero cursor = record { at = λ s h. h }
    delete_pages-Newest (suc fuel) cursor =
        Keeps-bind
          (wrapping get_chunk_uuids (get_chunk_uuids_by_file_id file_id cursor cfg.page_size)) _
          (Keeps-wrapping get_chunk_uuids (get_chunk_uuids_by_file_id file_id cursor cfg.page_size)
            (page_kept file_id cursor cfg.page_size))
          (elim [
            | [] ↦ Keeps-pure tt
            | x ∷ rest ↦
                Keeps-bind
                  (wrapping at_delete_old_data (delete_old_data (x ∷ rest))
                    >> wrapping at_delete_old_keys (delete_old_keys (x ∷ rest)))
                  (λ _. delete_pages cfg file_id fuel (last_or x rest))
                  (Keeps-bind (wrapping at_delete_old_data (delete_old_data (x ∷ rest)))
                    (λ _. wrapping at_delete_old_keys (delete_old_keys (x ∷ rest)))
                    (Keeps-wrapping at_delete_old_data (delete_old_data (x ∷ rest))
                      (data_kept (x ∷ rest)))
                    (λ _.
                      Keeps-wrapping at_delete_old_keys (delete_old_keys (x ∷ rest))
                        (keys_kept (x ∷ rest))))
                  (λ _. delete_pages-Newest fuel (last_or x rest))
          ])

-- However the clean-up ends, a readable chunk whose newest rows have one version stays readable,
-- with the same plaintext.
pub delete_old_versions-Readable :
    (g : Gcm) (cfg : RotatorConfig) (file_id fuel id : ℕ) (plain : Bytes) (s : System)
    → (r : Readable g s.chunks s.keys id plain) → r.top_chunk.version ≡ r.top_key.version
    → Readable g
        (delete_old_versions cfg file_id fuel s).1.chunks
        (delete_old_versions cfg file_id fuel s).1.keys
        id
        plain
unfolding delete_old_versions
delete_old_versions-Readable g cfg file_id fuel id plain s r same = elim r.chosen [
  | inr (differ, _, _) ↦ absurd (differ same)
  | inl (v, ec, ek) ↦ record {
    top_chunk = r.top_chunk;
    top_key = r.top_key;
    chunk = r.chunk;
    key = r.key;
    has_chunk = kept.newest_data;
    has_key = kept.newest_key;
    chosen = inl (v, ec, ek);
    opens = r.opens;
  }
]
  where
    kept : Newest id r.top_chunk r.top_key (delete_pages cfg file_id fuel nil_uuid s).1
    kept =
        (delete_pages-Newest id r.top_chunk r.top_key cfg file_id fuel nil_uuid).at s
          (record { newest_data = r.has_chunk; newest_key = r.has_key })

-- The two DELETEs of a clean-up, on a chunk that they name and whose newest key has a higher
-- version than its newest ciphertext, as while a rotation is half stored, make the chunk
-- unreadable.
pub cleanup_strands :
    (g : Gcm) (ids : List Uuid) (id : Uuid) (c : ChunkData) (k : ChunkKey) (plain : Bytes)
    (chunks : List ChunkData) (keys : List ChunkKey)
    → elem id ids ≡ true
    → newest data_uuid data_version id chunks ≡ some c
    → newest key_uuid key_version id keys ≡ some k
    → c.version < k.version
    → ¬ Readable g
        (delete_old data_uuid data_version ids chunks)
        (delete_old key_uuid key_version ids keys)
        id
        plain
cleanup_strands g ids id c k plain chunks keys listed hc hk lt r = elim r.chosen [
  | inl (v, _, _) ↦ absurd (omega (arith, ap data_version top_c, ap key_version top_k))
  | inr (_, _, found) ↦
      let gone =
        delete_old-gone key_uuid key_version ids keys id (min r.top_chunk.version r.top_key.version)
          k listed hk (omega (arith, ap data_version top_c)) in
      cc (gone, found)
]
  where
    top_c : r.top_chunk ≡ c
    top_c = cc (r.has_chunk, newest-delete_old data_uuid data_version ids chunks id c hc)

    top_k : r.top_key ≡ k
    top_k = cc (r.has_key, newest-delete_old key_uuid key_version ids keys id k hk)
