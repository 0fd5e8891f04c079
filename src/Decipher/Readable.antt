-- ===== src/Decipher/Readable.antt =====
-- A chunk that can be read: the rows that streamPage chooses for it, and its plaintext.
use mathlib.Core.Option.{Option}
use mathlib.Core.Option
use file_cipher_core.Prelude.{
  ℕ, ◌<◌, min, ◌≡◌, ◌≢◌, refl, sym, true, false, ◌∙◌, ap, ◌⊎◌, inl, inr, Bool-cases, ◌&&◌, some,
  List, [], ◌∷◌, ◌++◌, ◌==◌, arith,
}
use file_cipher_core.Entity.{Uuid, Bytes, ChunkData, ChunkKey}
use file_cipher_core.Env.{head_outcome, ok, System}
use file_cipher_core.Env.Quiet.{spend_quiet, query_quiet}
use file_cipher_core.Crypto.{Gcm, decrypt}
use file_cipher_core.Repository.Sql.{at_version}
use file_cipher_core.Repository.Sql.Latest.{newest, newest-uuid}
use file_cipher_core.Repository.Tables.{
  key_uuid, key_version, data_uuid, data_version, scan_data, get_data_by_version,
  get_key_by_version, row,
}
use file_cipher_core.Decipher.{
  decrypt_chunk, stream_chunk, written, write_out, get_consistent_version,
}

-- The rows read: the newest ones if they have one version, else those of the lower version.
abbrev pub Chosen :
    List ChunkData → List ChunkKey → Uuid → ChunkData → ChunkKey → ChunkData → ChunkKey → Type 0
Chosen chunks keys id top_chunk top_key chunk key =
    ((top_chunk.version ≡ top_key.version) × (chunk ≡ top_chunk) × (key ≡ top_key))
    ⊎ ((top_chunk.version ≢ top_key.version)
        × (at_version data_uuid data_version id (min top_chunk.version top_key.version) chunks
            ≡ some chunk)
        × (at_version key_uuid key_version id (min top_chunk.version top_key.version) keys
            ≡ some key))

pub record Readable (g : Gcm) (chunks : List ChunkData) (keys : List ChunkKey) (id : Uuid)
    (plain : Bytes) : Type 0 where
  pub top_chunk : ChunkData
  pub top_key : ChunkKey
  pub chunk : ChunkData
  pub key : ChunkKey
  pub has_chunk : newest data_uuid data_version id chunks ≡ some top_chunk
  pub has_key : newest key_uuid key_version id keys ≡ some top_key
  pub chosen : Chosen chunks keys id top_chunk top_key chunk key
  pub opens : decrypt g key.key chunk.ciphertext chunk.nonce ≡ ok plain

module _ {A : Type 0} (uuid version : A → ℕ) where
  pub at_version-row :
      (id v : ℕ) (rows : List A) (r : A)
      → at_version uuid version id v rows ≡ some r
      → (uuid r ≡ id) × (version r ≡ v)
  unfolding at_version
  at_version-row id v [] r h = cc
  at_version-row id v (x ∷ rows) r h = elim (Bool-cases (uuid x == id && version x == v)) [
    | inl e ↦ let same : x ≡ r = ground (arith, e) in ground (arith, ap uuid same, ap version same)
    | inr e ↦ at_version-row id v rows r (rw e at h)
  ]

module _ (g : Gcm) where
  pub decrypt_chunk_ok :
      (id : Uuid) (c : ChunkData) (k : ChunkKey) (plain : Bytes)
      → 0 < id
      → c.uuid ≡ id
      → k.uuid ≡ id
      → c.version ≡ k.version
      → decrypt g k.key c.ciphertext c.nonce ≡ ok plain
      → decrypt_chunk g id (scan_data c) k ≡ ok plain
  unfolding decrypt_chunk
  decrypt_chunk_ok id c k plain h cu ku v e = rw e (ground arith)

write_out_quiet :
    (p : Bytes) (s : System)
    → s.script ≡ []
    → write_out p s ≡ (ok tt, record s { output = s.output ++ p; wrote = true })
unfolding write_out
write_out_quiet p s h =
    ap (λ v. written (head_outcome s.script).fault p (record v { wrote = true })) (spend_quiet s h)
    ∙ ap (λ l. written (head_outcome l).fault p (record s { wrote = true })) h

get_data_by_version_quiet :
    (id v : ℕ) (s : System) (c : ChunkData)
    → s.script ≡ []
    → at_version data_uuid data_version id v s.chunks ≡ some c
    → get_data_by_version id v s ≡ (ok (scan_data c), s)
unfolding get_data_by_version
get_data_by_version_quiet id v s c h e =
    query_quiet (λ t. row (Option.map scan_data (at_version data_uuid data_version id v t.chunks)))
      s h
    ∙ ap (λ o. (row (Option.map scan_data o), s)) e

get_key_by_version_quiet :
    (id v : ℕ) (s : System) (k : ChunkKey)
    → s.script ≡ []
    → at_version key_uuid key_version id v s.keys ≡ some k
    → get_key_by_version id v s ≡ (ok k, s)
unfolding get_key_by_version
get_key_by_version_quiet id v s k h e =
    query_quiet (λ t. row (at_version key_uuid key_version id v t.keys)) s h
    ∙ ap (λ o. (row o, s)) e

module _ (g : Gcm) (s : System) (id : Uuid) (plain : Bytes) (h : 0 < id) (q : s.script ≡ []) where
  same_version :
      (c : ChunkData) (k : ChunkKey)
      → c.uuid ≡ id
      → k.uuid ≡ id
      → c.version ≡ k.version
      → decrypt g k.key c.ciphertext c.nonce ≡ ok plain
      → stream_chunk g id (scan_data c) k s
        ≡ (ok tt, record s { output = s.output ++ plain; wrote = true })
  unfolding stream_chunk
  same_version c k cu ku v e =
      let test : (c.version == k.version) ≡ true = ground arith in
      rw test
        (rw (decrypt_chunk_ok g id c k plain h cu ku v e) (rw (write_out_quiet plain s q) refl))

  lagging_version :
      (c0 : ChunkData) (k0 : ChunkKey) (c : ChunkData) (k : ChunkKey)
      → c0.version ≢ k0.version
      → at_version data_uuid data_version id (min c0.version k0.version) s.chunks ≡ some c
      → at_version key_uuid key_version id (min c0.version k0.version) s.keys ≡ some k
      → decrypt g k.key c.ciphertext c.nonce ≡ ok plain
      → stream_chunk g id (scan_data c0) k0 s
        ≡ (ok tt, record s { output = s.output ++ plain; wrote = true })
  unfolding stream_chunk get_consistent_version
  lagging_version c0 k0 c k differ hc hk e =
      let test : (c0.version == k0.version) ≡ false = ground arith in
      let cr = at_version-row data_uuid data_version id _ s.chunks c hc in
      let kr = at_version-row key_uuid key_version id _ s.keys k hk in
      rw test (
        rw (get_data_by_version_quiet id _ s c q hc) (
          rw (get_key_by_version_quiet id _ s k q hk) (
            rw (decrypt_chunk_ok g id c k plain h cr.0 kr.0 (cr.1 ∙ sym kr.1) e)
              (rw (write_out_quiet plain s q) refl))))

  -- Without faults a readable chunk is appended to the response, and nothing else changes.
  pub stream_chunk_quiet :
      (r : Readable g s.chunks s.keys id plain)
      → stream_chunk g id (scan_data r.top_chunk) r.top_key s
        ≡ (ok tt, record s { output = s.output ++ plain; wrote = true })
  stream_chunk_quiet r = elim r.chosen [
    | inl (v, ec, ek) ↦
        same_version r.top_chunk r.top_key
          (newest-uuid data_uuid data_version id s.chunks r.top_chunk r.has_chunk)
          (newest-uuid key_uuid key_version id s.keys r.top_key r.has_key) v
          (rw (ec, ek) at r.opens)
    | inr (differ, hc, hk) ↦
        lagging_version r.top_chunk r.top_key r.chunk r.key differ hc hk r.opens
  ]
