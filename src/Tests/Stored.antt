-- ===== src/Tests/Stored.antt =====
-- Batches on their way into the stream and into the databases.
use file_cipher_core.Prelude.{◌≡◌, refl, inl, true, none, some, List, [], ◌∷◌}
use file_cipher_core.Entity.{ChunkData, ChunkKey, FlushItem, PendingItem}
use file_cipher_core.Env.{refused, external, canceled, err, ok, broken, Delivery, System}
use file_cipher_core.Retry.{retry_do, retry_rounds, retry_more, settle, sleep_ctx, wait, grow}
use file_cipher_core.Repository.Sql.{copy_from, has_key}
use file_cipher_core.Repository.Tables.{is_unique_violation}
use file_cipher_core.Repository.Stream.{stored, append_entry, append_entries, add_batch, read_group}
use file_cipher_core.Flusher.{
  FlusherConfig, Event, received, closed, ctx_done, timer, write, flush, on_pick, run,
}
use file_cipher_core.Flusher.Delivery.{AllStored, run_stores_all}
use file_cipher_core.Flusher.Exact.{Gets, run-Gets}
use file_cipher_core.Pending.{PendingWorkerConfig, Fork, process}
use file_cipher_core.Pending.Loops.{read_loop, read_rounds, read_turn, claim_loop}
use file_cipher_core.Pending.Loops.Stops.{Stops, loops-Stops}
use file_cipher_core.Pending.Process.{Delivered}
use file_cipher_core.Pending.Drops.{process_drops}
use file_cipher_core.Tests.{key_row, data_row, entry, retries, world}

abbrev batches : FlusherConfig
batches = record { batch_size = 2; flush_time = 5; shutdown_flush_timeout = 9; retry = retries }

abbrev item_5 : FlushItem
item_5 = record { key = key_row 5 1; chunk = data_row 5 1 }

abbrev item_6 : FlushItem
item_6 = record { key = key_row 6 1; chunk = data_row 6 1 }

abbrev until_closed : List Event
until_closed =
    record { waited = 1; pick = received item_5 }
    ∷ record { waited = 1; pick = received item_6 }
    ∷ record { waited = 1; pick = received item_5 }
    ∷ record { waited = 0; pick = closed }
    ∷ []

-- The pipeline of the full batch breaks after its first entry, so that entry is stored twice.
abbrev broken_once : System
broken_once = record world { script = record { takes = 0; fault = broken 1 (external 1) } ∷ [] }

abbrev items_after : List PendingItem
items_after =
    record { id = 1; item = item_5 }
    ∷ record { id = 2; item = item_5 }
    ∷ record { id = 3; item = item_6 }
    ∷ record { id = 4; item = item_5 }
    ∷ []

run_stores_all_example :
    AllStored
      (item_5 ∷ item_6 ∷ item_5 ∷ [])
      (record world { now = 14; stream = items_after; next_id = 5 })
unfolding run on_pick flush write add_batch append_entries append_entry stored retry_do retry_rounds
    retry_more settle sleep_ctx
run_stores_all_example =
    run_stores_all batches until_closed [] broken_once
      (record world { now = 14; stream = items_after; next_id = 5 }) refl

-- The context is cancelled while the third item waits for its batch.
abbrev until_cancelled : List Event
until_cancelled =
    record { waited = 1; pick = received item_5 }
    ∷ record { waited = 1; pick = received item_6 }
    ∷ record { waited = 1; pick = timer }
    ∷ record { waited = 1; pick = received item_5 }
    ∷ record { waited = 0; pick = ctx_done }
    ∷ []

abbrev cancelled : System
cancelled = record world { cancel_at = some 14 }

run-Gets_example :
    Gets (item_5 ∷ item_6 ∷ item_5 ∷ []) cancelled (run batches [] until_cancelled cancelled).1
run-Gets_example = run-Gets batches 2 refl until_cancelled [] cancelled refl refl

abbrev settings : PendingWorkerConfig
settings = record {
  amount = 2;
  claim_interval = 4;
  claim_min_idle = 4;
  retry = retries;
  read_backoff = 1;
  read_backoff_max = 8;
}

-- The COPY of the keys is committed, but its answer is lost.
abbrev lost_answer : Fork
lost_answer = record {
  keys_script = record { takes = 0; fault = broken 0 (external 1) } ∷ [];
  data_script = [];
  keys_cancel = none;
  data_cancel = none;
  keys_first = true;
}

abbrev pending : List Delivery
pending =
    record { id = 1; consumer = 1; since = 3 }
    ∷ record { id = 2; consumer = 1; since = 3 }
    ∷ record { id = 3; consumer = 1; since = 3 }
    ∷ []

abbrev waiting : System
waiting = record world { pel = pending }

abbrev two_entries : List PendingItem
two_entries = entry 1 5 ∷ entry 2 6 ∷ []

abbrev keys_after : List ChunkKey
keys_after = key_row 6 1 ∷ key_row 5 1 ∷ world.keys

abbrev chunks_after : List ChunkData
chunks_after = data_row 6 1 ∷ data_row 5 1 ∷ world.chunks

unfoldable delivered : Delivered lost_answer two_entries waiting
unfolding copy_from has_key is_unique_violation
delivered = record {
  keys = world.keys;
  keys' = keys_after;
  chunks = world.chunks;
  chunks' = chunks_after;
  new_keys = refl;
  new_chunks = refl;
  keys_before = inl refl;
  chunks_before = inl refl;
  honest_keys = refl;
  honest_data = refl;
}

abbrev written : System
written = record waiting {
  now = 11;
  keys = keys_after;
  chunks = chunks_after;
  pel = record { id = 3; consumer = 1; since = 3 } ∷ [];
}

abbrev answering : Fork
answering = record lost_answer { keys_script = [] }

-- The rows of chunk 1 are there already, those of chunk 5 are new and get lost.
process_drops_example :
    process settings answering (entry 1 1 ∷ entry 2 5 ∷ []) waiting
    ≡ (ok tt, record waiting { pel = record { id = 3; consumer = 1; since = 3 } ∷ [] })
unfolding copy_from has_key
process_drops_example =
    process_drops settings answering (entry 1 1 ∷ entry 2 5 ∷ []) 2 waiting refl refl refl refl refl
      refl

-- The first read fails, and the context ends during the pause behind it.
abbrev failing : System
failing = record world {
  cancel_at = some 11;
  script = record { takes = 0; fault = refused (external 1) } ∷ [];
}

loops-Stops_example :
    Stops (read_loop settings 1 9 [] failing) × Stops (claim_loop settings 1 9 [] failing)
loops-Stops_example = loops-Stops settings 1 9 [] failing

abbrev slow_worker : PendingWorkerConfig
slow_worker = record settings { read_backoff = 5 }

-- With a pause that outlasts the context, readLoop returns when the context is done.
read_loop_returns :
    read_loop slow_worker 1 9 [] failing
    ≡ (err canceled, record world { now = 11; cancel_at = some 11 })
unfolding read_loop read_rounds read_turn read_group wait grow sleep_ctx
read_loop_returns = refl
