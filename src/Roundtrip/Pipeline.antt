-- ===== src/Roundtrip/Pipeline.antt =====
-- The way of a file from the request body to the response of a later download.
use mathlib.Core.List.{map-map}
use file_cipher_core.Prelude.{
  ℕ, ◌<◌, ◌≡◌, ◌≢◌, sym, ap, subst, ◌∙◌, false, some, List, [], ◌++◌, map, append-nil, elem, length,
  All, ◌==◌,
}
use file_cipher_core.Entity.{Uuid, FlushItem, PendingItem}
use file_cipher_core.Env.{ok, System}
use file_cipher_core.Env.Quiet.{Quiet}
use file_cipher_core.Crypto.{Gcm, IsGcm}
use file_cipher_core.Retry.{pos}
use file_cipher_core.Cipher.{EncryptJob, Source, Send, read, encrypt_job}
use file_cipher_core.Workers.{Take, encrypt_worker}
use file_cipher_core.Workers.Made.{MadeOf, taken, workers-Makes}
use file_cipher_core.Repository.Sql.{copy_from}
use file_cipher_core.Repository.Sql.Uuids.{Above}
use file_cipher_core.Repository.Stream.{stored}
use file_cipher_core.Repository.Tables.{key_uuid, key_version, data_uuid, data_version}
use file_cipher_core.Pending.{PendingWorkerConfig, Fork, process}
use file_cipher_core.Pending.Process.{Delivered, process_ok}
use file_cipher_core.Decipher.{DecipherConfig, stream_file}
use file_cipher_core.Decipher.Complete.{sent}
use file_cipher_core.Roundtrip.Download.{Uploaded, upload_download}

-- `read` cuts the upload into jobs, `encryptWorker` makes the items of them, entries of the stream
-- carry the items, and `process` has written these entries, which takes the state from `s` to `t`.
-- The tables knew neither the file nor its uuids, which ascend.
pub record Passed (g : Gcm) (file_id : Uuid) (src : Source) (s t : System) : Type 0 where
  pub size : ℕ
  pub rounds : ℕ
  pub uuids : List Uuid
  pub sends : List Send
  pub jobs : List EncryptJob
  pub cut : read size file_id rounds uuids sends src ≡ (ok tt, jobs)
  pub ascending : Above 1 uuids
  pub takes : List (Take EncryptJob)
  pub item_sends : List Send
  pub before : System
  pub after : System
  pub items : List FlushItem
  pub took : taken (encrypt_job g) takes ≡ jobs
  pub encrypted : encrypt_worker g takes item_sends before ≡ ((ok tt, items), after)
  pub entries : List PendingItem
  pub carried : map (λ e. e.item) entries ≡ map stored items
  pub settings : PendingWorkerConfig
  pub fork : Fork
  pub delivered : Delivered fork entries s
  pub processed : process settings fork entries s ≡ (ok tt, t)
  pub unknown_keys : All (λ u. elem u (map key_uuid delivered.keys) ≡ false) uuids
  pub unknown_chunks : All (λ u. elem u (map data_uuid delivered.chunks) ≡ false) uuids
  pub unknown_file : All (λ r. (r.file_id == file_id) ≡ false) delivered.chunks

module _ (g : Gcm) (law : IsGcm g) (file_id : Uuid) (src : Source) (s t : System)
    (p : Passed g file_id src s t) where
  carried_as {ℓ} :
      {B : Type ℓ} (f : FlushItem → B)
      → map (λ e. f e.item) p.entries ≡ map (λ i. f (stored i)) p.items
  carried_as f =
      sym (map-map f (λ e. e.item) p.entries) ∙ ap (map f) p.carried ∙ map-map f stored p.items

  items_made : MadeOf (encrypt_job g) p.jobs p.items
  items_made =
      let m = (workers-Makes g p.item_sends p.before p.takes []).0 in
      let all =
        sym (append-nil m.first)
        ∙ ap (λ l. m.first ++ l) (sym (m.whole (ap (λ w. w.0.0) p.encrypted)))
        ∙ m.split
        ∙ p.took in
      subst (λ l. MadeOf (encrypt_job g) l p.items) all
        (subst (λ i. MadeOf (encrypt_job g) m.first i) (ap (λ w. w.0.1) p.encrypted) m.made)

  uploaded : Uploaded g file_id src t
  uploaded =
      let (keys_written, chunks_written, _) =
        process_ok p.settings p.fork p.entries s t p.delivered p.processed in
      record {
        size = p.size;
        rounds = p.rounds;
        uuids = p.uuids;
        sends = p.sends;
        jobs = p.jobs;
        cut = p.cut;
        ascending = p.ascending;
        items = p.items;
        encrypted = items_made;
        keys = p.delivered.keys;
        chunks = p.delivered.chunks;
        new_keys =
            ap (λ l. copy_from key_uuid key_version l p.delivered.keys)
              (sym (carried_as (λ i. i.key)))
            ∙ p.delivered.new_keys
            ∙ ap some (sym keys_written);
        new_chunks =
            ap (λ l. copy_from data_uuid data_version l p.delivered.chunks)
              (sym (carried_as (λ i. i.chunk)))
            ∙ p.delivered.new_chunks
            ∙ ap some (sym chunks_written);
        unknown_keys = p.unknown_keys;
        unknown_chunks = p.unknown_chunks;
        unknown_file = p.unknown_file;
      }

  -- The code's parts together keep a file. Suppose that `read`, a worker and `process` have
  -- returned nil on the upload, whatever faults they met on the way; that the entries carry the
  -- worker's items, and are a batch of new rows as in `Delivered`; that the tables knew neither the
  -- file nor its uuids, which ascend; and that AES-GCM keeps its laws. Then a download of the
  -- resulting state without faults, with a positive page size and attempts that are not negative,
  -- sends exactly the uploaded bytes, if there are any, and returns nil; more fuel than the upload
  -- has chunks is enough.
  pub pipeline_keeps_file :
      (cfg : DecipherConfig) (fuel tries : ℕ)
      → Quiet t
      → 0 < cfg.page_size
      → cfg.retry.attempts ≡ pos tries
      → src.bytes ≢ []
      → length p.jobs < fuel
      → stream_file g fuel cfg file_id t ≡ (ok tt, sent t src.bytes)
  unfolding uploaded
  pipeline_keeps_file cfg fuel tries quiet page retry some_byte enough =
      upload_download g law file_id src t uploaded cfg fuel tries quiet page retry some_byte enough
