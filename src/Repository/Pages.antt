-- ===== src/Repository/Pages.antt =====
-- A file's chunks page by page: what GetChunkUUIDsByFileID answers behind a cursor.
use file_cipher_core.Prelude.{
  ℕ, ◌+◌, ◌≡◌, sym, ap, ◌∙◌, List, [], ◌∷◌, map, keep, take, drop, ◌==◌, arith,
}
use file_cipher_core.Entity.{Uuid, ChunkData}
use file_cipher_core.Env.{ok, System}
use file_cipher_core.Env.Quiet.{query_quiet}
use file_cipher_core.Retry.{RetryConfig, pos, retry_do}
use file_cipher_core.Retry.Laws.{retry_quiet}
use file_cipher_core.Repository.Sql.{distinct_uuids}
use file_cipher_core.Repository.Sql.Uuids.{
  after, Above, last_or, after-distinct_uuids, after-last_or, after-after, Above-after,
  Above-distinct_uuids, last_or-ge, Above-take,
}
use file_cipher_core.Repository.Tables.{data_uuid, page_of, get_chunk_uuids_by_file_id}

-- The file's chunks in the order of their uuids, which is the order of their creation.
unfoldable pub file_uuids : Uuid → List ChunkData → List Uuid
file_uuids file_id chunks = distinct_uuids (map data_uuid (keep (λ d. d.file_id == file_id) chunks))

file_uuids-Above : (file_id : Uuid) (chunks : List ChunkData) → Above 0 (file_uuids file_id chunks)
unfolding file_uuids
file_uuids-Above file_id chunks = Above-distinct_uuids _

pub page_of-after :
    (file_id c n : ℕ) (chunks : List ChunkData)
    → page_of file_id c n chunks ≡ take n (after c (file_uuids file_id chunks))
unfolding page_of file_uuids
page_of-after file_id c n chunks =
    ap (take n) (after-distinct_uuids data_uuid (λ d. d.file_id == file_id) c chunks)

-- The page behind the cursor `c`, where `rem` is what is left of the file.
pub page_quiet :
    (retry : RetryConfig) (tries file_id c limit : ℕ) (s : System) (rem : List Uuid)
    → retry.attempts ≡ pos tries
    → s.script ≡ []
    → after c (file_uuids file_id s.chunks) ≡ rem
    → retry_do retry (get_chunk_uuids_by_file_id file_id c limit) s ≡ (ok (take limit rem), s)
unfolding get_chunk_uuids_by_file_id
page_quiet retry tries file_id c limit s rem a q e =
    retry_quiet retry tries _ s s _ a (query_quiet (λ t. ok (page_of file_id c limit t.chunks)) s q)
    ∙ ap (λ l. (ok l, s)) (page_of-after file_id c limit s.chunks ∙ ap (take limit) e)

pub left-Above :
    (file_id c : ℕ) (chunks : List ChunkData) (rem : List Uuid)
    → after c (file_uuids file_id chunks) ≡ rem
    → Above (c + 1) rem
left-Above file_id c chunks rem e =
    rw e at (Above-after c 0 (file_uuids file_id chunks) (file_uuids-Above file_id chunks))

-- What is left behind that page.
pub rest_of_file :
    (file_id c m x : ℕ) (chunks : List ChunkData) (rem : List Uuid)
    → after c (file_uuids file_id chunks) ≡ x ∷ rem
    → after (last_or x (take m rem)) (file_uuids file_id chunks) ≡ drop m rem
rest_of_file file_id c m x chunks rem e =
    let above = left-Above file_id c chunks (x ∷ rem) e in
    let large = last_or-ge x (take m rem) (Above-take (x + 1) m rem above.1) in
    sym (after-after c (last_or x (take m rem)) (file_uuids file_id chunks) (omega arith))
    ∙ rw e (ground (arith, after-last_or m x rem above.1))
