-- ===== src/Tests/Worker.antt =====
-- A batch on its way: the write to chunk_data fails, the entries are claimed and written again.
use file_cipher_core.Prelude.{◌≡◌, refl, true, none, some, List, [], ◌∷◌}
use file_cipher_core.Entity.{ChunkData, ChunkKey, FlushItem}
use file_cipher_core.Env.{Outcome, answered, refused, broken, external, System}
use file_cipher_core.Retry.{retry_do, retry_rounds, retry_more, settle, sleep_ctx}
use file_cipher_core.Repository.Sql.{has_key, copy_from}
use file_cipher_core.Repository.Tables.{
  save_keys, save_data, save_rows, ignore_duplicates, is_unique_violation,
}
use file_cipher_core.Repository.Stream.{
  stored, append_entry, append_entries, add_batch, read_group, ack, claim,
}
use file_cipher_core.Pending.{PendingWorkerConfig, Fork, first_error, write_both}
use file_cipher_core.Pending.Run.{
  reads, claims, fetches, writes, acks, stops, Action, adds, passes, does, returned, fetch, move,
  act, turns, begin,
}
use file_cipher_core.Tests.{key_row, data_row, retries, world}

abbrev settings : PendingWorkerConfig
settings = record {
  amount = 2;
  claim_interval = 4;
  claim_min_idle = 4;
  retry = retries;
  read_backoff = 1;
  read_backoff_max = 8;
}

abbrev fine : Outcome
fine = record { takes = 1; fault = answered }

abbrev refuses : Outcome
refuses = record { takes = 1; fault = refused (external 1) }

abbrev items : List FlushItem
items =
    record { key = key_row 5 1; chunk = data_row 5 1 }
    ∷ record { key = key_row 6 1; chunk = data_row 6 1 }
    ∷ []

-- No write to chunk_data goes through; the COPY of the keys does, but its answer is lost once.
abbrev half : Fork
half = record {
  keys_script = record { takes = 1; fault = broken 1 (external 2) } ∷ [];
  data_script = refuses ∷ refuses ∷ refuses ∷ [];
  keys_cancel = none;
  data_cancel = none;
  keys_first = true;
}

abbrev whole : Fork
whole = record {
  keys_script = [];
  data_script = [];
  keys_cancel = none;
  data_cancel = none;
  keys_first = true;
}

abbrev actions : List Action
actions =
    adds items fine
    ∷ does reads (fetches fine)
    ∷ does reads (writes half)
    ∷ passes 5
    ∷ does claims (fetches fine)
    ∷ does claims (writes whole)
    ∷ does claims (acks fine)
    ∷ does claims stops
    ∷ does reads stops
    ∷ []

abbrev closing : System
closing = record world { cancel_at = some 20 }

abbrev keys_after : List ChunkKey
keys_after = key_row 6 1 ∷ key_row 5 1 ∷ closing.keys

abbrev chunks_after : List ChunkData
chunks_after = data_row 6 1 ∷ data_row 5 1 ∷ closing.chunks

arrives :
    let w = turns settings 9 actions (begin closing) in
    (w.system.keys ≡ keys_after)
    × (w.system.chunks ≡ chunks_after)
    × (w.system.pel ≡ [])
    × (w.reading ≡ returned)
    × (w.claiming ≡ returned)
unfolding turns act move begin fetch add_batch append_entries append_entry stored read_group ack
    claim write_both first_error save_keys save_data save_rows ignore_duplicates is_unique_violation
    retry_do retry_rounds retry_more settle sleep_ctx has_key copy_from
arrives = (refl, refl, refl, refl, refl)

-- The entry of an upload is read, written and acknowledged.
abbrev one_turn : List Action
one_turn = does reads (fetches fine) ∷ does reads (writes whole) ∷ does reads (acks fine) ∷ []
