-- ===== src/Rotation/Produce/Whole.antt =====
-- What a rotation hands to its workers when no call fails.
use file_cipher_core.Prelude.{
  ℕ, zero, suc, ◌+◌, ◌≤◌, ◌<◌, ◌≡◌, refl, sym, ap, ◌∙◌, true, some, List, [], ◌∷◌, ◌++◌, map, elem,
  elem-take, take, drop, length, length-take, length-drop, take-append-drop, All, All-take,
  All-drop, subst, ◌==◌, arith,
}
use file_cipher_core.Entity.{Uuid, ChunkData, ChunkKey}
use file_cipher_core.Env.{ok, System}
use file_cipher_core.Env.Quiet.{query_quiet, commit_quiet}
use file_cipher_core.Retry.{pos}
use file_cipher_core.Retry.Laws.{retry_quiet}
use file_cipher_core.Cipher.{Send, sent}
use file_cipher_core.Repository.Sql.{latest}
use file_cipher_core.Repository.Sql.Latest.{newest}
use file_cipher_core.Repository.Sql.Uuids.{
  after, last_or, Above-take, elem-keep, elem-distinct_uuids,
}
use file_cipher_core.Repository.Tables.{
  key_uuid, key_version, data_uuid, data_version, scan_data, get_latest_data, get_latest_keys,
}
use file_cipher_core.Repository.Pages.{file_uuids, page_quiet, left-Above, rest_of_file}
use file_cipher_core.Repository.Cursors.{find_cursor, load_cursor, save_cursor, setting}
use file_cipher_core.Rotation.{RotationJob, RotatorConfig}
use file_cipher_core.Rotation.Produce.{read_page, produce_pages, produce, or_nil}
use file_cipher_core.Rotation.Produce.Rows.{latest-Zipped}
use file_cipher_core.Rotation.Produce.Jobs.{
  JobsFor, JobsFor-append, newest-some, Keyed, send_jobs-All,
}

load_cursor_quiet :
    (op : Uuid) (s : System)
    → s.script ≡ []
    → load_cursor op s ≡ (ok (find_cursor s.now op s.cursors), s)
unfolding load_cursor
load_cursor_quiet op s q = query_quiet (λ u. ok (find_cursor u.now op u.cursors)) s q

module _ (cfg : RotatorConfig) (ttl file_id tries m : ℕ) (attempts : cfg.retry.attempts ≡ pos tries)
    (size : cfg.page_size ≡ suc m) where
  abbrev pub HasKey : System → Uuid → Type 0
  HasKey s id = (k : ChunkKey) × (newest key_uuid key_version id s.keys ≡ some k)

  read_page_quiet :
      (c : Uuid) (s : System) (x : Uuid) (rem : List Uuid)
      → s.script ≡ []
      → after c (file_uuids file_id s.chunks) ≡ x ∷ rem
      → let page = x ∷ take m rem in
        read_page cfg ttl file_id c s ≡ (
          ok (record {
            ids = page;
            chunks = map scan_data (latest data_uuid data_version page s.chunks);
            keys = latest key_uuid key_version page s.keys;
          }),
          s,
        )
  unfolding read_page get_latest_data get_latest_keys
  read_page_quiet c s x rem q e =
      let page = x ∷ take m rem in
      rw (page_quiet cfg.retry tries file_id c cfg.page_size s (x ∷ rem) attempts q e) (
        rw size (
          rw
            (retry_quiet {0} cfg.retry tries (get_latest_data page) s s _ attempts (
              query_quiet (λ t. ok (map scan_data (latest data_uuid data_version page t.chunks))) s
                q))
            (rw
              (retry_quiet {0} cfg.retry tries (get_latest_keys page) s s _ attempts
                (query_quiet (λ t. ok (latest key_uuid key_version page t.keys)) s q))
              refl)))

  read_page_end :
      (c : Uuid) (s : System)
      → s.script ≡ []
      → after c (file_uuids file_id s.chunks) ≡ []
      → read_page cfg ttl file_id c s ≡ (ok (record { ids = []; chunks = []; keys = [] }), s)
  unfolding read_page
  read_page_end c s q e =
      rw (page_quiet cfg.retry tries file_id c cfg.page_size s [] attempts q e) (rw size refl)

  saved_state : Uuid → System → System
  saved_state c s = record s { cursors = (setting ttl file_id c s).1.cursors }

  save_cursor_quiet :
      (c : Uuid) (s : System) → s.script ≡ [] → (save_cursor ttl file_id c s).1 ≡ saved_state c s
  unfolding save_cursor saved_state
  save_cursor_quiet c s q = ap (λ p. p.1) (commit_quiet (setting ttl file_id c) s q)

  abbrev Made : ℕ → Uuid → List Send → System → List Uuid → Type 0
  Made fuel c sends s rem =
      (jobs : List RotationJob) × (t : System) × (produce_pages cfg ttl file_id fuel c sends s
        ≡ ((ok tt, jobs), t))
      × JobsFor s.chunks s.keys rem jobs

  All-Keyed :
      (s : System) (page ids : List Uuid)
      → ((v : Uuid) → elem v ids ≡ true → elem v page ≡ true)
      → All (HasKey s) ids
      → All (Keyed s.chunks s.keys page) ids
  All-Keyed s page [] sub h = tt
  All-Keyed s page (id ∷ ids) sub h =
      ((sub id (ground arith), h.0), All-Keyed s page ids (λ v e. sub v (ground arith)) h.1)

  has_rows :
      (c : ℕ) (s : System) (rem ids : List Uuid)
      → after c (file_uuids file_id s.chunks) ≡ rem
      → ((v : Uuid) → elem v ids ≡ true → elem v rem ≡ true)
      → All (λ id. (r : ChunkData) × (newest data_uuid data_version id s.chunks ≡ some r)) ids
  unfolding file_uuids
  has_rows c s rem [] e sub = tt
  has_rows c s rem (id ∷ ids) e sub =
      let left = rw (← e) at (sub id (ground arith)) in
      let both = rw elem-keep at left in
      (
        newest-some data_uuid data_version (λ d. d.file_id == file_id) id s.chunks
            (sym (elem-distinct_uuids id _) ∙ ground (arith, both)),
        has_rows c s rem ids e (λ v h. sub v (ground arith)),
      )

  produce_pages_quiet :
      (fuel c : ℕ) (sends : List Send) (s : System) (rem : List Uuid)
      → s.script ≡ []
      → after c (file_uuids file_id s.chunks) ≡ rem
      → length rem < fuel
      → All (λ x. x ≡ sent) sends
      → length rem ≤ length sends
      → All (HasKey s) rem
      → Made fuel c sends s rem
  unfolding produce_pages saved_state
  produce_pages_quiet zero c sends s rem q e f a n k = absurd (omega arith)
  produce_pages_quiet (suc fuel) c sends s [] q e f a n k =
      ([], s, rw (read_page_end c s q e) refl, tt)
  produce_pages_quiet (suc fuel) c sends s (x ∷ rem) q e f a n k =
      let page = x ∷ take m rem in
      let rows = latest data_uuid data_version page s.chunks in
      let (jobs, e₁, js) =
        send_jobs-All s.chunks s.keys page page rows sends
          (latest-Zipped data_uuid data_version (c + 1) page s.chunks
            (Above-take (c + 1) (suc m) (x ∷ rem) (left-Above file_id c s.chunks (x ∷ rem) e))
            (has_rows c s (x ∷ rem) page e (λ v h. elem-take v (suc m) (x ∷ rem) h)))
          (All-Keyed s page page (λ v h. h) (All-take (HasKey s) (suc m) (x ∷ rem) k)) a
          (omega (arith, length-take {0} m rem)) in
      let next = last_or x (take m rem) in
      let (more, t, e₂, ks) =
        produce_pages_quiet fuel next (drop (length page) sends) (saved_state next s) (drop m rem) q
          (rest_of_file file_id c m x s.chunks rem e) (omega (arith, length-drop {0} m rem))
          (All-drop (λ x'. x' ≡ sent) (length page) sends a)
          (omega (
            arith,
            length-drop {0} m rem,
            length-drop {0} (length page) sends,
            length-take {0} m rem,
          ))
          (All-drop (HasKey s) m rem k.1) in
      (
        jobs ++ more,
        t,
        rw (read_page_quiet c s x rem q e) (rw e₁ (rw (save_cursor_quiet next s q) (rw e₂ refl))),
        subst (λ l. JobsFor s.chunks s.keys l (jobs ++ more))
            (ap (λ l. x ∷ l) (take-append-drop m rem))
            (JobsFor-append s.chunks s.keys page (drop m rem) jobs more js ks),
      )

  -- Let no call fail, a worker take every job, the page size be positive and the attempts not
  -- negative. If each chunk of the file behind the saved cursor (of the whole file, if no cursor is
  -- saved) has a key, produce returns nil and hands out the newest row and the newest key of each
  -- of these chunks, in the order of their uuids, and no other job; more fuel than there are chunks
  -- is enough.
  pub produce-JobsFor :
      (fuel : ℕ) (sends : List Send) (s : System) (rem : List Uuid)
      → s.script ≡ []
      → after
          (or_nil cfg ttl file_id (find_cursor s.now file_id s.cursors))
          (file_uuids file_id s.chunks)
        ≡ rem
      → length rem < fuel
      → All (λ x. x ≡ sent) sends
      → length rem ≤ length sends
      → All (HasKey s) rem
      → (jobs : List RotationJob) × (t : System) × (produce cfg ttl file_id fuel sends s
          ≡ ((ok tt, jobs), t))
        × JobsFor s.chunks s.keys rem jobs
  unfolding produce
  produce-JobsFor fuel sends s rem q e f a n k =
      let (jobs, t, made, js) = produce_pages_quiet fuel _ sends s rem q e f a n k in
      (jobs, t, rw (load_cursor_quiet file_id s q) made, js)
