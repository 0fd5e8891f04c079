-- ===== src/Roundtrip/Arrives.antt =====
-- From the nil of EncryptFile to the tables: its flusher's entries and PendingWorker.Run.
use file_cipher_core.Prelude.{◌≡◌, []}
use file_cipher_core.Entity.{FlushItem}
use file_cipher_core.Env.{System}
use file_cipher_core.Crypto.{Gcm}
use file_cipher_core.Cipher.{EncryptJob}
use file_cipher_core.Item.{Seals}
use file_cipher_core.Repository.Stream.{stored, undelivered}
use file_cipher_core.Pending.Run.Rows.{HasRow}

-- The job's chunk is in both tables: a key of its own, and a ciphertext that opens under it.
pub record Arrived (g : Gcm) (u : System) (j : EncryptJob) : Type 0 where
  pub item : FlushItem
  pub seals : Seals g j.chunk_id j.file_id 1 j.plaintext item
  pub key : HasRow (stored item).key u.keys
  pub chunk : HasRow (stored item).chunk u.chunks

-- Nothing is left to do for the group: all of the stream is given out, and acknowledged.
pub record Drained (u : System) : Type 0 where
  pub given : undelivered u ≡ []
  pub acknowledged : u.pel ≡ []
