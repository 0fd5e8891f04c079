-- ===== src/Upload/Kept.antt =====
-- What EncryptFile promises with nil.
use file_cipher_core.Prelude.{◌<◌, ◌≡◌, ap, ◌∙◌, subst, Option, none, List, [], ◌∷◌, All, arith}
use file_cipher_core.Entity.{Uuid, FlushItem}
use file_cipher_core.Env.{Error, ok, System}
use file_cipher_core.Crypto.{Gcm, IsGcm}
use file_cipher_core.Cipher.{EncryptJob, Source, encrypt_job}
use file_cipher_core.Cipher.Split.{Cuts, read-Cuts}
use file_cipher_core.Item.{Seals}
use file_cipher_core.Cipher.Encrypt.{encrypt_job-opens}
use file_cipher_core.Repository.Stream.{stored}
use file_cipher_core.Flusher.{FlusherConfig}
use file_cipher_core.Flusher.Delivery.{Holds}
use file_cipher_core.Channels.{finished}
use file_cipher_core.Channels.Invariant.{runs-Inv}
use file_cipher_core.Channels.Stored.{InStream, group_stores}
use file_cipher_core.Upload.{CipherConfig, as_result, SameEnd, EncryptFile}

-- The stream holds an item with the job's chunk under a key of its own.
pub record Sealed (g : Gcm) (s : System) (j : EncryptJob) : Type 0 where
  pub item : FlushItem
  pub seals : Seals g j.chunk_id j.file_id 1 j.plaintext item
  pub held : Holds (stored item) s.stream

module _ (g : Gcm) (law : IsGcm g) (cfg : CipherConfig) (fl : FlusherConfig) (file_id : Uuid)
    (src : Source) (s t : System) where
  all-Sealed :
      (ending : Option Error) (jobs : List EncryptJob)
      → All (InStream cfg.workers (encrypt_job g) ending t) jobs
      → All (Sealed g t) jobs
  all-Sealed ending [] h = tt
  all-Sealed ending (j ∷ jobs) (i, h) = (
    record {
      item = i.item;
      seals = encrypt_job-opens g law j i.before i.item i.after i.made;
      held = i.held;
    },
    all-Sealed ending jobs h,
  )

  -- When EncryptFile returns nil the upload is safe in the stream: the body has ended, with io.EOF or
  -- with io.ErrUnexpectedEOF, and what it gave is cut, whole and in order, into the jobs; and for each job, in whatever order
  -- the workers and the flusher got to it and whatever failures the calls met and retried, the
  -- stream holds an item whose ciphertext opens under the item's key to the job's plaintext. There
  -- is at least one worker, and AES-GCM keeps its laws.
  pub encrypt_file_keeps :
      (c : EncryptFile g cfg fl file_id src none s t)
      → 0 < cfg.workers
      → Cuts cfg.chunk_size file_id c.uuids src c.jobs × All (Sealed g t) c.jobs
  encrypt_file_keeps c workers =
      let inv = runs-Inv cfg.workers (encrypt_job g) c.ending c.jobs c.events c.pipe c.runs in
      let clean : c.ending ≡ none = (let o = c.over in let r = c.returns in ground (arith, inv)) in
      let done : c.pipe.flusher ≡ finished =
        (let o = c.over in let r = c.returns in ground (arith, inv)) in
      let nil : c.flushed ≡ ok tt = subst (λ e. SameEnd e c.flushed) done c.same_end in
      (
        read-Cuts cfg.chunk_size file_id c.rounds c.uuids c.sends src c.jobs
            (c.reads ∙ ap (λ e. (as_result e, c.jobs)) clean),
        all-Sealed c.ending c.jobs (
            group_stores cfg.workers (encrypt_job g) c.ending c.jobs c.events c.pipe fl c.picks s t
              workers c.runs c.over c.returns c.arrivals (c.flushes ∙ ap (λ r. (r, t)) nil)),
      )
