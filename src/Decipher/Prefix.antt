-- ===== src/Decipher/Prefix.antt =====
-- StreamFile of internal/service/decipher_file.go under whatever faults.
use file_cipher_core.Prelude.{
  ℕ, zero, suc, ◌+◌, ◌-◌, ◌<◌, ◌≡◌, refl, sym, ap, ◌∙◌, Bool-cases, Option-cases, inl, inr, true,
  List, [], ◌∷◌, ◌++◌, elem, elem-take, take, drop, take-append-drop, length, All, ◌==◌, arith,
}
use file_cipher_core.Entity.{Uuid, nil_uuid, Bytes, ChunkData, ChunkKey}
use file_cipher_core.Env.{ok, System, ctx_err, get_chunk_uuids, wrapping}
use file_cipher_core.Retry.{retry_do}
use file_cipher_core.Crypto.{Gcm}
use file_cipher_core.Repository.Sql.Uuids.{after, last_or, elem-keep}
use file_cipher_core.Repository.Tables.{page_of, get_chunk_uuids_by_file_id}
use file_cipher_core.Repository.Pages.{file_uuids, page_of-after, rest_of_file}
use file_cipher_core.Decipher.{DecipherConfig, stream_page, stream_pages, stream_file}
use file_cipher_core.Decipher.Readable.{Readable}
use file_cipher_core.Decipher.Complete.{contents, contents-append, All-elem}
use file_cipher_core.Decipher.Sends.{
  Frame, Sends, Sends-err, Sends-blocked, Sends-nothing, Sends-chain, Sends-text, Asks,
  Asks-wrapping, Asks-retry, Asks-chain,
}
use file_cipher_core.Decipher.Faulty.{InPage, page_sent}

module _ (g : Gcm) (keys : List ChunkKey) (chunks : List ChunkData) (cfg : DecipherConfig)
    (plain : Uuid → Bytes) (file_id : Uuid)
    (readable : (id : Uuid)
      → elem id (file_uuids file_id chunks) ≡ true
      → Readable g chunks keys id (plain id)) where
  page_readable :
      (c n : ℕ) (rem : List Uuid)
      → after c (file_uuids file_id chunks) ≡ rem
      → All (InPage g keys chunks cfg plain (take n rem)) (take n rem)
  page_readable c n rem e =
      All-elem (InPage g keys chunks cfg plain (take n rem)) (take n rem) λ v h.
        let inside = rw (← e) at (elem-take v n rem h) in
        let both = rw elem-keep at inside in (h, ground arith, readable v (ground arith))

  next_page :
      (c m : ℕ) (o : Bytes) (s : System) (rem : List Uuid)
      → cfg.page_size ≡ suc m
      → after c (file_uuids file_id chunks) ≡ rem
      → Frame keys chunks o s
      → Asks keys chunks o (take (suc m) rem) (
          wrapping get_chunk_uuids
            (retry_do cfg.retry (get_chunk_uuids_by_file_id file_id c cfg.page_size))
            s)
  unfolding get_chunk_uuids_by_file_id
  next_page c m o s rem size e f =
      Asks-wrapping keys chunks o (take (suc m) rem) get_chunk_uuids _ (
        Asks-retry keys chunks o (take (suc m) rem)
          (λ t. ok (page_of file_id c cfg.page_size t.chunks))
          (λ u h.
            rw (h.same_chunks, size)
              (ap ok (page_of-after file_id c (suc m) chunks ∙ ap (take (suc m)) e)))
          cfg.retry s f)

  pages_sent :
      (fuel c total m : ℕ) (o : Bytes) (s : System) (rem : List Uuid)
      → cfg.page_size ≡ suc m
      → after c (file_uuids file_id chunks) ≡ rem
      → Frame keys chunks o s
      → Sends keys chunks o (contents plain rem) (stream_pages g fuel cfg file_id c total s)
  unfolding stream_pages
  pages_sent zero c total m o s rem size e f = Sends-blocked keys chunks o (contents plain rem) s f
  pages_sent (suc fuel) c total m o s [] size e f = elim (Option-cases (ctx_err s)) [
    | inr (x, dead) ↦ rw (dead, stream_pages) (Sends-err keys chunks o [] x s f)
    | inl alive ↦
        rw (alive, stream_pages)
          (Asks-chain keys chunks o [] [] _ _ (next_page c m o s [] size e f) (λ t ft.
            elim (Bool-cases (total == 0)) [
              | inl none_sent ↦ rw none_sent (Sends-err keys chunks o [] _ t ft)
              | inr some_sent ↦ rw some_sent (Sends-nothing keys chunks o t ft)
            ]))
  ]
  pages_sent (suc fuel) c total m o s (y ∷ rem) size e f = elim (Option-cases (ctx_err s)) [
    | inr (x, dead) ↦ rw (dead, stream_pages) (Sends-err keys chunks o _ x s f)
    | inl alive ↦
        rw (alive, stream_pages)
          (Asks-chain keys chunks o (contents plain (y ∷ rem)) page _ _
            (next_page c m o s (y ∷ rem) size e f)
            (λ t ft.
              Sends-text keys chunks o (contents plain page ++ contents plain (drop m rem))
                (contents plain (y ∷ rem)) _ joined
                (Sends-chain keys chunks o (contents plain page) (contents plain (drop m rem))
                  (stream_page g cfg page t) _
                  (page_sent g keys chunks cfg plain page o t (page_readable c (suc m) (y ∷ rem) e)
                    ft)
                  (λ u fu.
                    pages_sent fuel (last_or y (take m rem)) (total + length page) m
                      (o ++ contents plain page) u (drop m rem) size
                      (rest_of_file file_id c m y chunks rem e) fu))))
  ]
    where
      page : List Uuid
      page = y ∷ take m rem

      joined : contents plain page ++ contents plain (drop m rem) ≡ contents plain (y ∷ rem)
      joined =
          sym (contents-append plain page (drop m rem))
          ∙ ap (λ l. contents plain (y ∷ l)) (take-append-drop m rem)

  -- Whatever faults a download meets, if every chunk of the file is readable and the page size is
  -- positive: what the client has received is a prefix of the file's plaintext, the tables are as
  -- before, and if StreamFile returns nil then the client has all of it.
  pub stream_file-Sends :
      (fuel : ℕ) (o : Bytes) (s : System)
      → 0 < cfg.page_size
      → Frame keys chunks o s
      → Sends keys chunks o
          (contents plain (after nil_uuid (file_uuids file_id chunks)))
          (stream_file g fuel cfg file_id s)
  unfolding stream_file
  stream_file-Sends fuel o s page f =
      pages_sent fuel nil_uuid 0 (cfg.page_size - 1) o s _ (omega arith) refl f
