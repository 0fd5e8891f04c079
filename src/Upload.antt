-- ===== src/Upload.antt =====
-- EncryptFile of internal/service/cipher_file.go as a whole: its reader, workers and flusher.
pub mod Kept
use file_cipher_core.Prelude.{ℕ, ◌≡◌, true, Option, none, some, List, [], map}
use file_cipher_core.Entity.{Uuid}
use file_cipher_core.Env.{Error, Result, ok, err, blocked, System}
use file_cipher_core.Crypto.{Gcm}
use file_cipher_core.Cipher.{EncryptJob, Source, Send, read, encrypt_job}
use file_cipher_core.Flusher.{FlusherConfig, Event, run}
use file_cipher_core.Flusher.Delivery.{arrived}
use file_cipher_core.Channels.{Ending, running, finished, failed, Pipe, start, Runs, all_over}

pub record CipherConfig : Type 0 where
  pub chunk_size : ℕ
  pub workers : ℕ

abbrev pub as_result : Option Error → Result (Unit {0})
as_result none = ok tt
as_result (some e) = err e

-- The flusher's goroutine of the group ends as its loop does.
abbrev pub SameEnd : Ending → Result (Unit {0}) → Type 0
SameEnd running r = r ≡ blocked
SameEnd finished r = r ≡ ok tt
SameEnd (failed e) r = r ≡ err e

-- A call of EncryptFile that has returned `as_result error`, and took the state from `s` to `t`. The
-- reader had `jobs` to send and would then end with `ending`; the goroutines ran as `runs`; and the
-- flusher's loop took `picks`, among them the items that it received.
pub record EncryptFile (g : Gcm) (cfg : CipherConfig) (fl : FlusherConfig) (file_id : Uuid)
    (src : Source) (error : Option Error) (s t : System) : Type 0 where
  pub rounds : ℕ
  pub uuids : List Uuid
  pub sends : List Send
  pub jobs : List EncryptJob
  pub ending : Option Error
  pub reads : read cfg.chunk_size file_id rounds uuids sends src ≡ (as_result ending, jobs)
  pub events : ℕ
  pub pipe : Pipe EncryptJob
  pub runs :
      Runs cfg.workers
        (encrypt_job g)
        ending
        (start cfg.workers (encrypt_job g) ending jobs)
        events
        pipe
  pub over : all_over pipe ≡ true
  pub picks : List Event
  pub arrivals : arrived picks ≡ map (λ m. m.item) pipe.got
  pub flushed : Result (Unit {0})
  pub flushes : run fl [] picks s ≡ (flushed, t)
  pub same_end : SameEnd pipe.flusher flushed
  pub returns : pipe.error ≡ error
