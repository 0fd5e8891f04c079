-- ===== src/Decipher/Untouched.antt =====
-- StreamFile and the flag of the trackingWriter: before the first write nothing has been sent.
use mathlib.Core.Option
use file_cipher_core.Prelude.{
  ℕ, zero, suc, ◌+◌, ◌≡◌, refl, Option-cases, Bool-cases, inl, inr, true, false, List, [], ◌∷◌,
  ◌==◌, length, not, map, min, if◌then◌else◌,
}
use file_cipher_core.Entity.{Uuid, nil_uuid, Bytes, ChunkData, ChunkKey, zero_data, zero_key}
use file_cipher_core.Env.{
  Site, Exec, Fault, answered, refused, broken, System, Result, ok, ctx_err, lift, raise, pure,
  wrapping, write_chunk, get_data_version, get_key_version, get_chunk_uuids, ids_not_found,
  get_latest_data as at_latest_data, get_latest_keys as at_latest_keys, spend, head_outcome, query,
}
use file_cipher_core.Env.Keeps.{
  Keeps, Keeps-pure, Keeps-wrapping, Keeps-bind, Keeps-query, chain_keeps,
}
use file_cipher_core.Crypto.{Gcm}
use file_cipher_core.Retry.{RetryConfig, retry_do}
use file_cipher_core.Retry.Keeps.{retry_do-Keeps}
use file_cipher_core.Repository.Sql.{latest, at_version}
use file_cipher_core.Repository.Tables.{
  key_uuid, key_version, data_uuid, data_version, scan_data, row, page_of,
  get_chunk_uuids_by_file_id, get_latest_data, get_latest_keys, get_data_by_version,
  get_key_by_version,
}
use file_cipher_core.Repository.Sql.Uuids.{last_or}
use file_cipher_core.Decipher.{
  DecipherConfig, get_or_zero, written, write_out, get_consistent_version, decrypt_chunk,
  stream_chunk, stream_ids, stream_page, stream_pages, stream_file,
}

-- If the response has not been written to, the client has received `o`.
pub record Untouched (o : Bytes) (s : System) : Type 0 where
  pub sent_before : s.wrote ≡ false → s.output ≡ o

module _ (o : Bytes) where
  Untouched-spend : (s : System) → Untouched o s → Untouched o (spend s)
  Untouched-spend s h = record { sent_before = h.sent_before }

  Untouched-now : (s : System) (n : ℕ) → Untouched o s → Untouched o (record s { now = n })
  Untouched-now s n h = record { sent_before = h.sent_before }

  Untouched-written :
      (f : Fault) (p : Bytes) (s : System) → s.wrote ≡ true → Untouched o (written f p s).1
  Untouched-written answered p s h = record { sent_before = λ e. cc }
  Untouched-written (refused x) p s h = record { sent_before = λ e. cc }
  Untouched-written (broken n x) p s h = record { sent_before = λ e. cc }

  write_out-Keeps : (p : Bytes) → Keeps (Untouched o) (write_out p)
  unfolding write_out
  write_out-Keeps p = record {
    at = λ s h.
        Untouched-written (head_outcome s.script).fault p (record (spend s) { wrote = true }) refl;
  }

  lift-Keeps {ℓ} : {A : Type ℓ} (r : Result A) → Keeps (Untouched o) (lift r)
  lift-Keeps r = record { at = λ s h. h }

  get_data_by_version-Keeps :
      (id v : ℕ) → Keeps (Untouched o) (wrapping (get_data_version id) (get_data_by_version id v))
  unfolding get_data_by_version
  get_data_by_version-Keeps id v = Keeps-wrapping (get_data_version id) (get_data_by_version id v) (
      Keeps-query Untouched-spend
        (λ s. row (Option.map scan_data (at_version data_uuid data_version id v s.chunks))))

  get_key_by_version-Keeps :
      (id v : ℕ) → Keeps (Untouched o) (wrapping (get_key_version id) (get_key_by_version id v))
  unfolding get_key_by_version
  get_key_by_version-Keeps id v =
      Keeps-wrapping (get_key_version id) (get_key_by_version id v)
        (Keeps-query Untouched-spend (λ s. row (at_version key_uuid key_version id v s.keys)))

  get_consistent_version-Keeps :
      (id : Uuid) (c : ChunkData) (k : ChunkKey)
      → Keeps (Untouched o) (get_consistent_version id c k)
  unfolding get_consistent_version
  get_consistent_version-Keeps id c k =
      let v = min c.version k.version in
      Keeps-bind (wrapping (get_data_version id) (get_data_by_version id v)) _
        (get_data_by_version-Keeps id v)
        (λ c'.
          Keeps-bind (wrapping (get_key_version id) (get_key_by_version id v)) _
            (get_key_by_version-Keeps id v) (λ k'. Keeps-pure (c', k')))

  chosen-Keeps :
      (id : Uuid) (c : ChunkData) (k : ChunkKey)
      → Keeps
          (Untouched o)
          (if not (c.version == k.version) then get_consistent_version id c k else pure (c, k))
  chosen-Keeps id c k = elim (Bool-cases (not (c.version == k.version))) [
    | inl e ↦ rw e (get_consistent_version-Keeps id c k)
    | inr e ↦ rw e (Keeps-pure (c, k))
  ]

  module _ (g : Gcm) where
    stream_chunk-Keeps :
        (id : Uuid) (c : ChunkData) (k : ChunkKey) → Keeps (Untouched o) (stream_chunk g id c k)
    unfolding stream_chunk
    stream_chunk-Keeps id c k =
        Keeps-bind
          (if not (c.version == k.version) then get_consistent_version id c k else pure (c, k)) _
          (chosen-Keeps id c k)
          (λ p.
            Keeps-bind (lift (decrypt_chunk g id p.0 p.1)) _
              (lift-Keeps (decrypt_chunk g id p.0 p.1))
              (λ plain. Keeps-wrapping (write_chunk id) (write_out plain) (write_out-Keeps plain)))

    stream_ids-Keeps :
        (cs : List ChunkData) (ks : List ChunkKey) (ids : List Uuid)
        → Keeps (Untouched o) (stream_ids g cs ks ids)
    unfolding stream_ids
    stream_ids-Keeps cs ks [] = Keeps-pure tt
    stream_ids-Keeps cs ks (id ∷ ids) =
        Keeps-bind
          (stream_chunk g id (get_or_zero (λ c. c.uuid) zero_data cs id)
            (get_or_zero (λ k. k.uuid) zero_key ks id))
          _ (stream_chunk-Keeps id _ _) (λ _. stream_ids-Keeps cs ks ids)

    asked-Keeps {ℓ} :
        {A : Type ℓ} (site : Site) (cfg : RetryConfig) (q : System → Result A)
        → Keeps (Untouched o) (wrapping site (retry_do cfg (query q)))
    asked-Keeps site cfg q =
        Keeps-wrapping site (retry_do cfg (query q))
          (retry_do-Keeps Untouched-now cfg (query q) (Keeps-query Untouched-spend q))

    stream_page-Keeps :
        (cfg : DecipherConfig) (ids : List Uuid) → Keeps (Untouched o) (stream_page g cfg ids)
    unfolding stream_page get_latest_data get_latest_keys
    stream_page-Keeps cfg ids =
        Keeps-bind (wrapping at_latest_data (retry_do cfg.retry (get_latest_data ids))) _
          (asked-Keeps at_latest_data cfg.retry
            (λ t. ok (map scan_data (latest data_uuid data_version ids t.chunks))))
          (λ cs.
            Keeps-bind (wrapping at_latest_keys (retry_do cfg.retry (get_latest_keys ids))) _
              (asked-Keeps at_latest_keys cfg.retry
                (λ t. ok (latest key_uuid key_version ids t.keys)))
              (λ ks. stream_ids-Keeps _ _ ids))

    nothing_left :
        (total : ℕ)
        → Keeps {A = Unit {0}} (Untouched o) (if total == 0 then raise ids_not_found else pure tt)
    nothing_left total = elim (Bool-cases (total == 0)) [
      | inl e ↦ rw e (record { at = λ s h. h })
      | inr e ↦ rw e (Keeps-pure tt)
    ]

    page-Keeps :
        (empty : Exec (Unit {0})) (more : Uuid → List Uuid → Exec (Unit {0})) (ids : List Uuid)
        → Keeps (Untouched o) empty
        → ((id : Uuid) (rest : List Uuid) → Keeps (Untouched o) (more id rest))
        → Keeps (Untouched o) (elim ids [ [] ↦ empty | id ∷ rest ↦ more id rest ])
    page-Keeps empty more [] k l = k
    page-Keeps empty more (id ∷ rest) k l = l id rest

    stream_pages-Keeps :
        (fuel : ℕ) (cfg : DecipherConfig) (file_id cursor : Uuid) (total : ℕ)
        → Keeps (Untouched o) (stream_pages g fuel cfg file_id cursor total)
    unfolding stream_pages get_chunk_uuids_by_file_id
    stream_pages-Keeps zero cfg file_id cursor total = record { at = λ s h. h }
    stream_pages-Keeps (suc fuel) cfg file_id cursor total = record {
      at = λ s h. elim (Option-cases (ctx_err s)) [
        | inr (x, dead) ↦ rw (dead, stream_pages) h
        | inl alive ↦
            rw (alive, stream_pages)
              (chain_keeps
                (wrapping get_chunk_uuids
                  (retry_do cfg.retry (get_chunk_uuids_by_file_id file_id cursor cfg.page_size)) s)
                _
                ((asked-Keeps get_chunk_uuids cfg.retry
                    (λ t. ok (page_of file_id cursor cfg.page_size t.chunks))).at
                  s h)
                (λ ids. page-Keeps _ _ ids (nothing_left total) (λ id rest.
                  Keeps-bind (stream_page g cfg (id ∷ rest)) _ (stream_page-Keeps cfg (id ∷ rest))
                    (λ _.
                      stream_pages-Keeps fuel cfg file_id (last_or id rest)
                        (total + length (id ∷ rest))))))
      ];
    }

    -- However a download ends, if nothing was written before it and its writer was not used, then
    -- nothing has been sent.
    pub stream_file-Untouched :
        (fuel : ℕ) (cfg : DecipherConfig) (file_id : Uuid) (s : System)
        → s.output ≡ o
        → Untouched o (stream_file g fuel cfg file_id s).1
    unfolding stream_file
    stream_file-Untouched fuel cfg file_id s h =
        (stream_pages-Keeps fuel cfg file_id nil_uuid 0).at s (record { sent_before = λ _. h })
