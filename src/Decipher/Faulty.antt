-- ===== src/Decipher/Faulty.antt =====
-- internal/service/decipher_file.go under whatever faults: one chunk, and one page.
use mathlib.Core.Option
use file_cipher_core.Prelude.{
  ◌<◌, min, ◌≡◌, ◌≢◌, refl, sym, ◌∙◌, inl, inr, true, false, some, List, [], ◌∷◌, ◌++◌, map, elem,
  All, ◌==◌, arith,
}
use file_cipher_core.Entity.{Uuid, Bytes, ChunkData, ChunkKey}
use file_cipher_core.Env.{
  ok, System, Result, wrapping, get_data_version, get_key_version, write_chunk,
  get_latest_data as at_latest_data, get_latest_keys as at_latest_keys,
}
use file_cipher_core.Crypto.{Gcm, decrypt}
use file_cipher_core.Repository.Sql.{latest, at_version}
use file_cipher_core.Repository.Sql.Latest.{newest-uuid}
use file_cipher_core.Repository.Tables.{
  key_uuid, key_version, data_uuid, data_version, scan_data, row, get_latest_data, get_latest_keys,
  get_data_by_version, get_key_by_version,
}
use file_cipher_core.Decipher.{
  DecipherConfig, index_by, get_consistent_version, write_out, stream_chunk, stream_ids,
  stream_page,
}
use file_cipher_core.Decipher.Rows.{key_in_page, chunk_in_page}
use file_cipher_core.Decipher.Readable.{Readable, at_version-row, decrypt_chunk_ok}
use file_cipher_core.Decipher.Complete.{contents}
use file_cipher_core.Decipher.Sends.{
  Frame, Sends, Sends-nothing, Sends-chain, Sends-wrapping, write_out-Sends, Asks, Asks-bind,
  Asks-wrapping, Asks-pure, Asks-query, Asks-retry, Asks-chain,
}

module _ (g : Gcm) (keys : List ChunkKey) (chunks : List ChunkData) where
  chunk_sent :
      (id : Uuid) (plain o : Bytes) (s : System)
      → Frame keys chunks o s
      → Sends keys chunks o plain (wrapping (write_chunk id) (write_out plain) s)
  chunk_sent id plain o s f =
      Sends-wrapping keys chunks o plain (write_chunk id) (write_out plain s)
        (write_out-Sends keys chunks o plain s f)

  same_version_sent :
      (id : Uuid) (c : ChunkData) (k : ChunkKey) (plain o : Bytes) (s : System)
      → 0 < id
      → c.uuid ≡ id
      → k.uuid ≡ id
      → c.version ≡ k.version
      → decrypt g k.key c.ciphertext c.nonce ≡ ok plain
      → Frame keys chunks o s
      → Sends keys chunks o plain (stream_chunk g id (scan_data c) k s)
  unfolding stream_chunk
  same_version_sent id c k plain o s h cu ku v e f =
      let test : (c.version == k.version) ≡ true = ground arith in
      rw test (rw (decrypt_chunk_ok g id c k plain h cu ku v e) (chunk_sent id plain o s f))

  consistent_version :
      (id : Uuid) (c0 : ChunkData) (k0 : ChunkKey) (c : ChunkData) (k : ChunkKey) (o : Bytes)
      (s : System)
      → at_version data_uuid data_version id (min c0.version k0.version) chunks ≡ some c
      → at_version key_uuid key_version id (min c0.version k0.version) keys ≡ some k
      → Frame keys chunks o s
      → Asks keys chunks o (scan_data c, k) (get_consistent_version id (scan_data c0) k0 s)
  unfolding get_consistent_version get_data_by_version get_key_by_version
  consistent_version id c0 k0 c k o s hc hk f =
      let v = min c0.version k0.version in
      let chunk_of : System → Result ChunkData =
        λ t. row (Option.map scan_data (at_version data_uuid data_version id v t.chunks)) in
      let key_of : System → Result ChunkKey =
        λ t. row (at_version key_uuid key_version id v t.keys) in
      Asks-bind keys chunks o (scan_data c) (scan_data c, k) _ _
        (Asks-wrapping keys chunks o (scan_data c) (get_data_version id) _ (
          Asks-query keys chunks o (scan_data c) chunk_of (λ u h. rw (h.same_chunks, hc) refl) s f))
        (λ t ft.
          Asks-bind keys chunks o k (scan_data c, k) _ _
            (Asks-wrapping keys chunks o k (get_key_version id) _
              (Asks-query keys chunks o k key_of (λ u h. rw (h.same_keys, hk) refl) t ft))
            (λ u fu. Asks-pure keys chunks o (scan_data c, k) u fu))

  lagging_version_sent :
      (id : Uuid) (c0 : ChunkData) (k0 : ChunkKey) (c : ChunkData) (k : ChunkKey) (plain o : Bytes)
      (s : System)
      → 0 < id
      → c0.version ≢ k0.version
      → at_version data_uuid data_version id (min c0.version k0.version) chunks ≡ some c
      → at_version key_uuid key_version id (min c0.version k0.version) keys ≡ some k
      → decrypt g k.key c.ciphertext c.nonce ≡ ok plain
      → Frame keys chunks o s
      → Sends keys chunks o plain (stream_chunk g id (scan_data c0) k0 s)
  unfolding stream_chunk
  lagging_version_sent id c0 k0 c k plain o s h differ hc hk e f =
      let test : (c0.version == k0.version) ≡ false = ground arith in
      let cr = at_version-row data_uuid data_version id _ chunks c hc in
      let kr = at_version-row key_uuid key_version id _ keys k hk in
      rw test (
        Asks-chain keys chunks o plain (scan_data c, k)
          (get_consistent_version id (scan_data c0) k0 s) _
          (consistent_version id c0 k0 c k o s hc hk f)
          (λ t ft.
            rw (decrypt_chunk_ok g id c k plain h cr.0 kr.0 (cr.1 ∙ sym kr.1) e)
              (chunk_sent id plain o t ft)))

  readable_sent :
      (id : Uuid) (plain o : Bytes) (s : System)
      → 0 < id
      → (r : Readable g chunks keys id plain) → Frame keys chunks o s
      → Sends keys chunks o plain (stream_chunk g id (scan_data r.top_chunk) r.top_key s)
  readable_sent id plain o s h r f = elim r.chosen [
    | inl (v, ec, ek) ↦
        same_version_sent id r.top_chunk r.top_key plain o s h
          (newest-uuid data_uuid data_version id chunks r.top_chunk r.has_chunk)
          (newest-uuid key_uuid key_version id keys r.top_key r.has_key) v (rw (ec, ek) at r.opens)
          f
    | inr (differ, hc, hk) ↦
        lagging_version_sent id r.top_chunk r.top_key r.chunk r.key plain o s h differ hc hk r.opens
          f
  ]

  module _ (cfg : DecipherConfig) (plain : Uuid → Bytes) where
    abbrev pub InPage : List Uuid → Uuid → Type 0
    InPage page id = (elem id page ≡ true) × (0 < id) × Readable g chunks keys id (plain id)

    ids_sent :
        (page ids : List Uuid) (o : Bytes) (s : System)
        → All (InPage page) ids
        → Frame keys chunks o s
        → Sends keys chunks o (contents plain ids) (
            stream_ids g
              (index_by data_uuid (map scan_data (latest data_uuid data_version page chunks)) [])
              (index_by key_uuid (latest key_uuid key_version page keys) [])
              ids
              s)
    unfolding stream_ids
    ids_sent page [] o s h f = Sends-nothing keys chunks o s f
    ids_sent page (id ∷ ids) o s ((here, large, r), h) f =
        rw (chunk_in_page id page chunks r.top_chunk here r.has_chunk) (
          rw (key_in_page id page keys r.top_key here r.has_key) (
            Sends-chain keys chunks o (plain id) (contents plain ids) _ _
              (readable_sent id (plain id) o s large r f)
              (λ t ft. ids_sent page ids (o ++ plain id) t h ft)))

    pub page_sent :
        (page : List Uuid) (o : Bytes) (s : System)
        → All (InPage page) page
        → Frame keys chunks o s
        → Sends keys chunks o (contents plain page) (stream_page g cfg page s)
    unfolding stream_page get_latest_data get_latest_keys
    page_sent page o s h f =
        let rows = map scan_data (latest data_uuid data_version page chunks) in
        let newest_keys = latest key_uuid key_version page keys in
        Asks-chain keys chunks o (contents plain page) rows _ _
          (Asks-wrapping keys chunks o rows at_latest_data _ (
            Asks-retry keys chunks o rows
              (λ t. ok (map scan_data (latest data_uuid data_version page t.chunks)))
              (λ u h'. rw h'.same_chunks refl) cfg.retry s f))
          (λ t ft.
            Asks-chain keys chunks o (contents plain page) newest_keys _ _
              (Asks-wrapping keys chunks o newest_keys at_latest_keys _ (
                Asks-retry keys chunks o newest_keys
                  (λ u. ok (latest key_uuid key_version page u.keys)) (λ u h'. rw h'.same_keys refl)
                  cfg.retry t ft))
              (λ u fu. ids_sent page page o u h fu))
