-- ===== src/Tests/Group.antt =====
-- EncryptFile and Run on a small file, with one worker.
use file_cipher_core.Prelude.{
  ◌*◌, ◌+◌, ◌≤◌, ◌≡◌, refl, true, Option, none, some, List, [], ◌∷◌, ◌++◌, length, All, arith,
}
use file_cipher_core.Entity.{FlushItem}
use file_cipher_core.Env.{Error, canceled, Result, ok, err, System, Exec}
use file_cipher_core.Crypto.{generate_key, encrypt, decrypt}
use file_cipher_core.Item.{new_item}
use file_cipher_core.Repository.Sql.{distinct_uuids, delete_old}
use file_cipher_core.Repository.Tables.{
  scan_data, get_chunk_uuids_by_file_id, page_of, get_latest_data, get_latest_keys, delete_old_data,
  delete_old_keys,
}
use file_cipher_core.Decipher.{index_by}
use file_cipher_core.Cipher.{
  EncryptJob, Source, sent, done, read, read_end, read_round, encrypt_job,
}
use file_cipher_core.Cipher.Split.{Cuts}
use file_cipher_core.Flusher.{
  FlusherConfig, Event, received, closed, ctx_done, shut_down, run, on_pick, flush, write,
}
use file_cipher_core.Retry.{retry_do}
use file_cipher_core.Repository.Stream.{add_batch}
use file_cipher_core.Channels.{
  Pipe, Made, running, finished, start, Step, Runs, here, more, own, all_over, producer_sends,
  producer_returns, worker_makes, worker_sends, worker_returns, waiter_returns, flusher_receives,
  flusher_returns, flusher_stops, failed, parent_cancels,
}
use file_cipher_core.Channels.Progress.{group_moves, workerless, workerless_stuck}
use mathlib.Core.List.{Permᴰ}
use file_cipher_core.Channels.Places.{jobs_of}
use file_cipher_core.Channels.Whole.{IsMade, group_whole}
use file_cipher_core.Channels.Returns.{Goes, group_returns}
use file_cipher_core.Repository.Cursors.{find_cursor, load_cursor, save_cursor, delete_cursor}
use file_cipher_core.Rotation.{RotationJob, RotatorConfig, rotate_job, delete_old_versions}
use file_cipher_core.Rotation.Produce.{produce, produce_pages, read_page, send_jobs, get_key}
use file_cipher_core.Rotation.Tables.{SameTables}
use file_cipher_core.Rotation.Run.{finish, RotatorRun, Resealed, Deletes, rotator_run_keeps}
use file_cipher_core.Workers.Ends.{encrypt_job-Ends}
use file_cipher_core.Upload.{CipherConfig, EncryptFile}
use file_cipher_core.Upload.Kept.{Sealed, encrypt_file_keeps}
use file_cipher_core.Tests.{
  tag, toy, toy-IsGcm, key_bytes, nonce_bytes, key_row, data_row, retries, world,
}

abbrev pub small : Source
small = record { bytes = 9 ∷ []; failure = none }

abbrev pub small_job : EncryptJob
small_job = record { file_id = 7; chunk_id = 3; plaintext = 9 ∷ [] }

abbrev pub small_item : FlushItem
small_item = new_item 3 7 1 key_bytes (tag ++ 9 ∷ []) nonce_bytes 10

abbrev pub one : CipherConfig
one = record { chunk_size = 2; workers = 1 }

-- The way of a single job.
module _ {J : Type 0} (job : J) (item : FlushItem) where
  abbrev made : Made J
  made = record { job = job; item = item }

  abbrev sends : Pipe J
  sends = record (workerless []) { jobs = job ∷ []; idle = 1; waiter = running; flusher = running }

  abbrev makes : Pipe J
  makes = record sends { jobs = []; idle = 0; held = made ∷ [] }

  abbrev read_all : Pipe J
  read_all = record makes { producer = finished }

  abbrev passes : Pipe J
  passes = record read_all { idle = 1; held = []; items = made ∷ [] }

  abbrev worked : Pipe J
  worked = record passes { idle = 0 }

  abbrev waited_for : Pipe J
  waited_for = record worked { waiter = finished }

  abbrev gets : Pipe J
  gets = record waited_for { items = []; got = made ∷ [] }

  abbrev pub done_all : Pipe J
  done_all = record gets { flusher = finished }

  module _ (step : J → Exec FlushItem) (s t : System) (e : step job s ≡ (ok item, t)) where
    half : Runs 1 step none (start 1 step none (job ∷ [])) 2 makes
    half =
        more 1 sends makes
          (more 0 _ sends here (own sends (producer_sends job [] refl refl (omega arith))))
          (own makes (worker_makes 0 job [] item s t refl refl e))

    pub single : Runs 1 step none (start 1 step none (job ∷ [])) 8 done_all
    single =
        more 7 gets done_all
          (more 6 waited_for gets
            (more 5 worked waited_for
              (more 4 passes worked
                (more 3 read_all passes
                  (more 2 makes read_all half (own read_all (producer_returns refl refl)))
                  (own passes (worker_sends [] made [] refl (omega arith))))
                (own worked (worker_returns 0 refl refl refl)))
              (own waited_for (waiter_returns refl refl refl)))
            (own gets (flusher_receives made [] refl refl)))
          (own done_all (flusher_returns refl refl refl))

pub encrypts : encrypt_job toy small_job world ≡ (ok small_item, record world { drawn = 44 })
unfolding encrypt_job generate_key encrypt
encrypts = refl

group_moves_example :
    (q : Pipe EncryptJob) × Step 1 (encrypt_job toy) none (makes small_job small_item) q
group_moves_example =
    group_moves 1 (encrypt_job toy) none (encrypt_job-Ends toy) (omega arith) (small_job ∷ []) 2
      (makes small_job small_item)
      (half small_job small_item (encrypt_job toy) world (record world { drawn = 44 }) encrypts)
      refl

group_returns_example :
    (2 ≤ 8 * length (small_job ∷ []) + 1 + 4)
    × (q : Pipe EncryptJob) × Goes 1 (encrypt_job toy) none (makes small_job small_item) q
    × (all_over q ≡ true)
group_returns_example =
    group_returns 1 (encrypt_job toy) none (encrypt_job-Ends toy) (omega arith) (small_job ∷ []) 2
      (makes small_job small_item)
      (half small_job small_item (encrypt_job toy) world (record world { drawn = 44 }) encrypts)

workerless_stuck_example :
    Runs 0
      (encrypt_job toy)
      none
      (start 0 (encrypt_job toy) none (small_job ∷ []))
      2
      (workerless (small_job ∷ []))
    × ((q : Pipe EncryptJob) → ¬ Step 0 (encrypt_job toy) none (workerless (small_job ∷ [])) q)
workerless_stuck_example = workerless_stuck (encrypt_job toy) none small_job []

abbrev pub batches : FlusherConfig
batches = record { batch_size = 2; flush_time = 5; shutdown_flush_timeout = 9; retry = retries }

abbrev picks : List Event
picks =
    record { waited = 1; pick = received small_item } ∷ record { waited = 0; pick = closed } ∷ []

unfoldable pub call :
    EncryptFile toy one batches 7 small none world
      (record world { now = 11; stream = record { id = 1; item = small_item } ∷ []; next_id = 2 })
unfolding read read_end read_round run on_pick flush write retry_do add_batch new_item
call = record {
  rounds = 2;
  uuids = 3 ∷ [];
  sends = sent ∷ [];
  jobs = small_job ∷ [];
  ending = none;
  reads = refl;
  events = 8;
  pipe = done_all small_job small_item;
  runs = single small_job small_item (encrypt_job toy) world (record world { drawn = 44 }) encrypts;
  over = refl;
  picks = picks;
  arrivals = refl;
  flushed = ok tt;
  flushes = refl;
  same_end = refl;
  returns = refl;
}

abbrev pub after_upload : System
after_upload = record world {
  now = 11;
  stream = record { id = 1; item = small_item } ∷ [];
  next_id = 2;
}

encrypt_file_keeps_example :
    Cuts 2 7 (3 ∷ []) small (small_job ∷ []) × All (Sealed toy after_upload) (small_job ∷ [])
unfolding call
encrypt_file_keeps_example =
    encrypt_file_keeps toy toy-IsGcm one batches 7 small world after_upload call (omega arith)

-- A rotation from behind chunk 1 on.
abbrev rotation : RotatorConfig
rotation = record { page_size = 1; workers = 1; retry = retries }

abbrev resumed : System
resumed = record world { cursors = record { op = 7; last = 1; expires = some 20 } ∷ [] }

abbrev rotated_item : FlushItem
rotated_item = new_item 2 7 2 key_bytes (tag ++ 2 ∷ []) nonce_bytes 10

abbrev chunk_2 : RotationJob
chunk_2 = record { current = scan_data (data_row 2 1); old_key = key_row 2 2 }

rotates : rotate_job toy chunk_2 world ≡ (ok rotated_item, record world { drawn = 44 })
unfolding rotate_job generate_key encrypt decrypt
rotates = refl

abbrev read_to_end : System
read_to_end = record world { cursors = record { op = 7; last = 2; expires = some 70 } ∷ [] }

abbrev rotated_picks : List Event
rotated_picks =
    record { waited = 1; pick = received rotated_item } ∷ record { waited = 0; pick = closed } ∷ []

abbrev stored_new : System
stored_new = record read_to_end {
  now = 11;
  stream = record { id = 1; item = rotated_item } ∷ [];
  next_id = 2;
}

abbrev cleaned : System
cleaned = record stored_new { keys = key_row 2 2 ∷ key_row 1 1 ∷ []; cursors = [] }

rotation_call : RotatorRun rotation 7 toy 60 batches none resumed stored_new (ok tt) cleaned
unfolding produce produce_pages read_page send_jobs load_cursor save_cursor delete_cursor run
    on_pick flush write retry_do add_batch finish delete_old_versions get_chunk_uuids_by_file_id
    page_of distinct_uuids find_cursor get_latest_data get_latest_keys index_by delete_old_data
    delete_old_keys delete_old new_item get_key
rotation_call = record {
  pages = 2;
  sends = sent ∷ [];
  jobs = chunk_2 ∷ [];
  ending = none;
  read = read_to_end;
  produces = refl;
  events = 8;
  pipe = done_all chunk_2 rotated_item;
  runs = single chunk_2 rotated_item (rotate_job toy) world (record world { drawn = 44 }) rotates;
  over = refl;
  returns = refl;
  picks = rotated_picks;
  arrivals = refl;
  flushed = ok tt;
  flushes = refl;
  same_end = refl;
  fuel = 3;
  finishes = refl;
}

rotator_run_keeps_example :
    SameTables resumed stored_new
    × ((e : Error)
        → ◌≡◌ {A = Option Error} none (some e)
        → ◌≡◌ {A = Result (Unit {0})} (ok tt) (err e) × (cleaned ≡ stored_new))
    × (◌≡◌ {A = Option Error} none none
        → ◌≡◌ {A = Option Error} none none
          × All (Resealed toy stored_new) (chunk_2 ∷ [])
          × Deletes rotation 7 3 stored_new (ok tt) cleaned)
unfolding rotation_call
rotator_run_keeps_example =
    rotator_run_keeps toy toy-IsGcm rotation 7 60 batches none resumed stored_new (ok tt) cleaned
      rotation_call (omega arith)

-- The context is done before the first job is sent: nothing is deleted.
abbrev told : Pipe RotationJob
told = record (start 1 (rotate_job toy) (some canceled) []) { parent_done = true }

abbrev produced : Pipe RotationJob
produced = record told { producer = failed canceled; error = some canceled }

abbrev unmanned : Pipe RotationJob
unmanned = record produced { idle = 0 }

abbrev waited_out : Pipe RotationJob
waited_out = record unmanned { waiter = finished }

abbrev stopped : Pipe RotationJob
stopped = record waited_out { flusher = failed canceled }

stopped_call :
    RotatorRun rotation 7 toy 60 batches (some canceled) resumed resumed (err canceled) resumed
unfolding produce produce_pages read_page send_jobs load_cursor run on_pick shut_down finish
    get_chunk_uuids_by_file_id page_of distinct_uuids find_cursor get_latest_data get_latest_keys
    index_by get_key retry_do
stopped_call = record {
  pages = 2;
  sends = done ∷ [];
  jobs = [];
  ending = some canceled;
  read = resumed;
  produces = refl;
  events = 5;
  pipe = stopped;
  runs =
      more 4 waited_out stopped
        (more 3 unmanned waited_out
          (more 2 produced unmanned
            (more 1 told produced (more 0 _ told here (parent_cancels refl))
              (own produced (producer_returns refl refl)))
            (own unmanned (worker_returns 0 refl refl refl)))
          (own waited_out (waiter_returns refl refl refl)))
        (own stopped (flusher_stops refl refl));
  over = refl;
  returns = refl;
  picks = record { waited = 0; pick = ctx_done } ∷ [];
  arrivals = refl;
  flushed = err canceled;
  flushes = refl;
  same_end = refl;
  fuel = 3;
  finishes = refl;
}

group_whole_example :
    Permᴰ (small_job ∷ []) (jobs_of (done_all small_job small_item).got)
    × All (IsMade 1 (encrypt_job toy) none) (done_all small_job small_item).got
group_whole_example =
    group_whole 1 (encrypt_job toy) none (small_job ∷ []) 8 (done_all small_job small_item)
      (omega arith)
      (single small_job small_item (encrypt_job toy) world (record world { drawn = 44 }) encrypts)
      refl refl
