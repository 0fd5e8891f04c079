-- ===== src/Lib.antt =====
-- file-cipher-core stores files as encrypted chunks. An upload is cut into chunks, each is sealed
-- with AES-256-GCM under a key of its own, and the pairs of key and ciphertext go through a Redis
-- stream into two Postgres databases, one for the keys and one for the ciphertexts. A download reads
-- both and decrypts chunk by chunk; a rotation seals every chunk again under a new key, as its next
-- version, and deletes the old versions at the end.
--
-- Which file models which part:
--   Entity         internal/entity: ChunkData, ChunkKey, FlushItem, PendingItem.
--   Env            the state that calls read and change: both tables, the Redis stream with its
--                  consumer group, the cursors, the response, the clock, the context, the bytes of
--                  crypto/rand. Env/Quiet, Env/Keeps and Env/Binds reason about calls without
--                  faults, about invariants, and about a chain that has succeeded.
--   Crypto, Item   internal/crypto/cipher.go: GenerateKey, Encrypt, Decrypt, newGCM; the item that
--                  the workers build from their results.
--   Retry          internal/service/retry.go: retryDo (retry_do), sleepCtx, canceled, loopBackoff.
--   Repository     internal/repository: Sql has the clauses of the SQL texts over tables as lists of
--                  rows, Tables the methods of KeyRepository and DataRepository, Stream those of
--                  PendingStore on typed entries, Message the same on entries of texts, with
--                  parsePendingItem and its helpers, Group is CursorInit, Cursors has the methods of
--                  CursorStore; Save is about SaveKeys and SaveData under retries, Pages about a
--                  file's chunks page by page.
--   Strconv        the decimal texts of the standard library's strconv.
--   Cipher         internal/service/cipher_file.go: read, and one job of encryptWorker.
--   Flusher        internal/service/batch_flusher.go: Run (run, on_pick), flush, write.
--   Pending        internal/service/pending_worker.go: process; Pending/Loops has readLoop and
--                  claimLoop, Pending/Run is Run, with the calls of both loops interleaved.
--   Decipher       internal/service/decipher_file.go: StreamFile, streamPage, getConsistentVersion,
--                  decryptChunk.
--   Rotation       internal/service/cipher_rotation.go: one job of rotationWorker, and
--                  deleteOldVersions; Rotation/Produce has produce, Rotation/Run is Run.
--   Workers        the loops of encryptWorker and rotationWorker around one job.
--   Channels       the errgroup of EncryptFile and Rotator.Run with its two channels: the steps of the
--                  producer, the workers, the goroutine that waits for these, and the flusher.
--   Upload         EncryptFile: these steps with read, encryptWorker and the flusher's Run.
--   Http           internal/handler/http: Download with its trackingWriter, Rotate and Encrypt of
--                  v1, the statusRecorder and Logging of middleware.
--   Config         internal/config/config.go: the settings, their defaults, ConnectionString.
--   Server         cmd/server/main.go: the configurations of the services, newPool.
--   Roundtrip      the way of a file from the upload through both tables to a download.
--   Tests          runs of the definitions and instances of the theorems.
--   Prelude        Boolean tests and lists over the native numbers.
--
-- How the parts meet: `read` makes the jobs of `encrypt_job`, whose items `run` of Flusher collects
-- and writes with `add_batch`; `process` takes entries of the stream and calls `save_keys`,
-- `save_data` and `ack`; `stream_file` and `delete_old_versions` read and change the same tables;
-- `produce` makes the jobs of `rotate_job`, whose items go the way of the uploaded ones.
--
-- A call of an external system is a function of the state that returns a result and the next state.
-- `script` says how the coming calls end: answered, refused without an effect, or broken after an
-- effect, when the caller sees an error although the server has done the work (a pipeline of Redis
-- may have done a part of it). `cancel_at` is when the context is done, and `timer_first` which case
-- of a select is taken when both are ready. The picks of a channel's select are a list of events.
-- The two goroutines of `process` are a Fork: a script and a cancellation for each. They write
-- different tables, so their order does not matter.
--
-- Bounds and fuel: a loop that is not structural takes fuel, and a run that has used it up, or the
-- events that it selects from, is `blocked`: it has not returned. For StreamFile more fuel than the
-- file has chunks is enough, for `read` more than the upload has bytes. Versions and durations are
-- natural numbers and do not wrap: a version is an INTEGER column, so it stays below 2^31, and the
-- durations of the configuration stay far below 2^62 nanoseconds.
--
-- A run of EncryptFile's goroutines is a sequence of events: the steps that they can take of their own,
-- a failed write of the flusher, and the end of the request's context. The capacity of the channels is
-- the number of workers, as in the code. An item carries its job beside it, for the theorems only.
--
-- What is not modelled: the error texts (an error keeps its kind and the chain of its wrappings),
-- logging, the headers of responses, the flushing of the response after each write (each write
-- reaches the client at once), the reading of the environment (github.com/caarlos0/env), and main's
-- goroutines and shutdown. internal/service/pipeline.go is commented out. pgxpool is a parameter,
-- Postgres, AES-GCM is one, Gcm, with the laws IsGcm that crypto/cipher documents, and so are the
-- String and Parse of uuid.UUID, UuidText, with the law IsUuidText.
pub mod Strconv
pub mod Prelude
pub mod Entity
pub mod Env
pub mod Crypto
pub mod Item
pub mod Retry
pub mod Repository
pub mod Decipher
pub mod Flusher
pub mod Pending
pub mod Cipher
pub mod Rotation
pub mod Workers
pub mod Channels
pub mod Upload
pub mod Http
pub mod Config
pub mod Server
pub mod Roundtrip
pub mod Tests
