-- ===== src/Decipher/Complete.antt =====
-- StreamFile of internal/service/decipher_file.go with no faults.
use file_cipher_core.Prelude.{
  ℕ, zero, suc, ◌+◌, ◌-◌, ==_ne, take-append-drop, ◌<◌, ◌≡◌, ◌≢◌, refl, sym, ap, ◌∙◌, true, false,
  List, [], ◌∷◌, ◌++◌, map, elem, elem-take, take, drop, length, length-drop, All, append-nil,
  append_assoc, ◌==◌, arith,
}
use file_cipher_core.Entity.{Uuid, nil_uuid, Bytes}
use file_cipher_core.Env.{ok, err, System, ids_not_found}
use file_cipher_core.Env.Quiet.{Quiet, query_quiet}
use file_cipher_core.Crypto.{Gcm}
use file_cipher_core.Retry.{pos}
use file_cipher_core.Retry.Laws.{retry_quiet}
use file_cipher_core.Repository.Sql.{latest}
use file_cipher_core.Repository.Sql.Uuids.{after, last_or, elem-keep}
use file_cipher_core.Repository.Tables.{
  key_uuid, key_version, data_uuid, data_version, scan_data, get_latest_data, get_latest_keys,
}
use file_cipher_core.Repository.Pages.{file_uuids, page_quiet, rest_of_file}
use file_cipher_core.Decipher.{
  DecipherConfig, index_by, stream_ids, stream_page, stream_pages, stream_file,
}
use file_cipher_core.Decipher.Rows.{key_in_page, chunk_in_page}
use file_cipher_core.Decipher.Readable.{Readable, stream_chunk_quiet}

abbrev pub contents : (Uuid → Bytes) → List Uuid → Bytes
contents plain [] = []
contents plain (id ∷ ids) = plain id ++ contents plain ids

abbrev pub sent : System → Bytes → System
sent s b = record s { output = s.output ++ b; wrote = true }

sent-append : (s : System) (a b : Bytes) → sent (sent s a) b ≡ sent s (a ++ b)
sent-append s a b = ap (λ o. record s { output = o; wrote = true }) (append_assoc s.output a b)

pub contents-append :
    (plain : Uuid → Bytes) (xs ys : List Uuid)
    → contents plain (xs ++ ys) ≡ contents plain xs ++ contents plain ys
contents-append plain [] ys = refl
contents-append plain (x ∷ xs) ys =
    ap (λ b. plain x ++ b) (contents-append plain xs ys)
    ∙ sym (append_assoc (plain x) (contents plain xs) (contents plain ys))

pub All-elem : (P : ℕ → Type 0) (l : List ℕ) → ((v : ℕ) → elem v l ≡ true → P v) → All P l
All-elem P [] h = tt
All-elem P (x ∷ l) h = (h x (ground arith), All-elem P l (λ v e. h v (ground arith)))

-- The state behind the chunks `ids`: without one nothing is written.
abbrev sent_ids : (Uuid → Bytes) → System → List Uuid → System
sent_ids plain s [] = s
sent_ids plain s (id ∷ ids) = sent s (contents plain (id ∷ ids))

sent_ids-sent :
    (plain : Uuid → Bytes) (s : System) (a : Bytes) (ids : List Uuid)
    → sent_ids plain (sent s a) ids ≡ sent s (a ++ contents plain ids)
sent_ids-sent plain s a [] = ap (sent s) (sym (append-nil a))
sent_ids-sent plain s a (id ∷ ids) = sent-append s a (contents plain (id ∷ ids))

sent_ids-some :
    (plain : Uuid → Bytes) (s : System) (ids : List Uuid)
    → ids ≢ []
    → sent_ids plain s ids ≡ sent s (contents plain ids)
sent_ids-some plain s [] h = absurd (h refl)
sent_ids-some plain s (id ∷ ids) h = refl

module _ (g : Gcm) (cfg : DecipherConfig) (plain : Uuid → Bytes) where
  abbrev InPage : List Uuid → System → Uuid → Type 0
  InPage page s id = (elem id page ≡ true) × (0 < id) × Readable g s.chunks s.keys id (plain id)

  stream_ids_quiet :
      (page ids : List Uuid) (s : System)
      → s.script ≡ []
      → All (InPage page s) ids
      → stream_ids g
          (index_by data_uuid (map scan_data (latest data_uuid data_version page s.chunks)) [])
          (index_by key_uuid (latest key_uuid key_version page s.keys) [])
          ids
          s
        ≡ (ok tt, sent_ids plain s ids)
  unfolding stream_ids
  stream_ids_quiet page [] s q h = refl
  stream_ids_quiet page (id ∷ ids) s q ((here, large, r), h) =
      rw (chunk_in_page id page s.chunks r.top_chunk here r.has_chunk) (
        rw (key_in_page id page s.keys r.top_key here r.has_key) (
          rw (stream_chunk_quiet g s id (plain id) large q r) (
            stream_ids_quiet page ids (sent s (plain id)) q h
            ∙ ap (λ t. (ok tt, t)) (sent_ids-sent plain s (plain id) ids))))

  stream_page_quiet :
      (n : ℕ) (page : List Uuid) (s : System)
      → cfg.retry.attempts ≡ pos n
      → s.script ≡ []
      → All (InPage page s) page
      → stream_page g cfg page s ≡ (ok tt, sent_ids plain s page)
  unfolding stream_page get_latest_data get_latest_keys
  stream_page_quiet n page s a q h =
      rw
        (retry_quiet cfg.retry n (get_latest_data page) s s _ a
          (query_quiet (λ t. ok (map scan_data (latest data_uuid data_version page t.chunks))) s q))
        (rw
          (retry_quiet cfg.retry n (get_latest_keys page) s s _ a
            (query_quiet (λ t. ok (latest key_uuid key_version page t.keys)) s q))
          (stream_ids_quiet page page s q h))

  -- What the hypotheses of a download say of its state.
  pub record Downloadable (file_id : Uuid) (s : System) : Type 0 where
    pub quiet : Quiet s
    pub page_pos : 0 < cfg.page_size
    pub tries : ℕ
    pub attempts : cfg.retry.attempts ≡ pos tries
    pub readable :
        (id : Uuid)
        → elem id (file_uuids file_id s.chunks) ≡ true
        → Readable g s.chunks s.keys id (plain id)

  page_in_file :
      (file_id c n : ℕ) (s : System) (page rem : List Uuid)
      → Downloadable file_id s
      → after c (file_uuids file_id s.chunks) ≡ rem
      → page ≡ take n rem
      → All (InPage page s) page
  page_in_file file_id c n s page rem d e pe = All-elem (InPage page s) page λ v h.
      let inside = rw (← e) at (elem-take v n rem (rw pe at h)) in
      let both = rw elem-keep at inside in (h, ground arith, d.readable v (ground arith))

  Downloadable-sent :
      (file_id : Uuid) (s : System) (b : Bytes)
      → Downloadable file_id s
      → Downloadable file_id (sent s b)
  Downloadable-sent file_id s b d = record {
    quiet = record { answers = d.quiet.answers; alive = d.quiet.alive };
    page_pos = d.page_pos;
    tries = d.tries;
    attempts = d.attempts;
    readable = d.readable;
  }

  sent-contents :
      (xs ys zs : List Uuid) (s : System)
      → xs ++ ys ≡ zs
      → sent_ids plain (sent s (contents plain xs)) ys ≡ sent s (contents plain zs)
  sent-contents xs ys zs s e =
      sent_ids-sent plain s (contents plain xs) ys
      ∙ ap (sent s) (sym (contents-append plain xs ys) ∙ ap (contents plain) e)

  stream_pages_quiet :
      (fuel file_id c total m : ℕ) (s : System) (rem : List Uuid)
      → cfg.page_size ≡ suc m
      → Downloadable file_id s
      → after c (file_uuids file_id s.chunks) ≡ rem
      → length rem < fuel
      → (total ≡ 0 → rem ≢ [])
      → stream_pages g fuel cfg file_id c total s ≡ (ok tt, sent_ids plain s rem)
  unfolding stream_pages
  stream_pages_quiet zero file_id c total m s rem size d e f t = absurd (omega arith)
  stream_pages_quiet (suc fuel) file_id c total m s [] size d e f t =
      let more : (total == 0) ≡ false = ==_ne total 0 (λ z. t z refl) in
      rw (d.quiet.alive, stream_pages)
        (rw (page_quiet cfg.retry d.tries file_id c cfg.page_size s [] d.attempts d.quiet.answers e)
          (rw size (rw more refl)))
  stream_pages_quiet (suc fuel) file_id c total m s (x ∷ rem) size d e f t =
      rw (d.quiet.alive, stream_pages)
        (rw
          (page_quiet cfg.retry d.tries file_id c cfg.page_size s (x ∷ rem) d.attempts
            d.quiet.answers e)
          (rw size (
            rw
              (stream_page_quiet d.tries page s d.attempts d.quiet.answers
                (page_in_file file_id c (suc m) s page (x ∷ rem) d e refl))
              (stream_pages_quiet fuel file_id (last_or x (take m rem)) (total + length page) m
                  (sent s (contents plain page)) (drop m rem) size
                  (Downloadable-sent file_id s (contents plain page) d)
                  (rest_of_file file_id c m x s.chunks rem e) (omega (arith, length-drop {0} m rem))
                  (λ z. absurd (omega arith))
                ∙ ap (λ u. (ok tt, u)) (sent-contents page (drop m rem) (x ∷ rem) s joined)))))
    where
      page : List Uuid
      page = x ∷ take m rem

      joined : page ++ drop m rem ≡ x ∷ rem
      joined = ap (λ l. x ∷ l) (take-append-drop m rem)

  -- Let no call fail, the context be alive, the page size be positive and the attempts not
  -- negative. A download of a file that has a chunk, and whose chunks are all readable, sends
  -- exactly the plaintexts of its chunks, in the order of their uuids, returns nil, and changes
  -- nothing else. More fuel than the file has chunks is enough, whatever the page size.
  pub stream_file_complete :
      (fuel file_id : ℕ) (s : System)
      → Downloadable file_id s
      → after nil_uuid (file_uuids file_id s.chunks) ≢ []
      → length (after nil_uuid (file_uuids file_id s.chunks)) < fuel
      → stream_file g fuel cfg file_id s
        ≡ (ok tt, sent s (contents plain (after nil_uuid (file_uuids file_id s.chunks))))
  unfolding stream_file
  stream_file_complete fuel file_id s d some_chunk enough =
      stream_pages_quiet fuel file_id nil_uuid 0 (cfg.page_size - 1) s _
        (let h = d.page_pos in omega arith) d refl enough (λ _. some_chunk)
      ∙ ap (λ t. (ok tt, t)) (sent_ids-some plain s _ some_chunk)

  -- Let no call fail, the context be alive, the page size be positive and the attempts not
  -- negative. A file of which no chunk is stored is reported as ErrIDsNotFound, and nothing is
  -- sent.
  pub stream_file_unknown :
      (fuel file_id : ℕ) (s : System)
      → Downloadable file_id s
      → after nil_uuid (file_uuids file_id s.chunks) ≡ []
      → stream_file g (suc fuel) cfg file_id s ≡ (err ids_not_found, s)
  unfolding stream_file stream_pages
  stream_file_unknown fuel file_id s d e =
      let size : cfg.page_size ≡ suc (cfg.page_size - 1) = (let h = d.page_pos in omega arith) in
      rw (d.quiet.alive, stream_pages)
        (rw
          (page_quiet cfg.retry d.tries file_id nil_uuid cfg.page_size s [] d.attempts
            d.quiet.answers e)
          (rw size refl))
