-- ===== src/Cipher/Encrypt.antt =====
-- crypto.Encrypt against crypto.Decrypt, and the items of encryptWorker.
use file_cipher_core.Prelude.{ℕ, ◌≡◌, sym, ap, subst, ◌∙◌, length}
use file_cipher_core.Entity.{Bytes, FlushItem}
use file_cipher_core.Env.{ok, System, lift, generate_key as at_generate_key, encrypt_chunk}
use file_cipher_core.Env.Binds.{ok-injective, chain-ok, wrapping-chain-ok, commit-ok}
use file_cipher_core.Crypto.{
  Gcm, IsGcm, key_size, nonce_size, generate_key, encrypt, decrypt, decrypt-seal, draw, read_random,
  length-random_bytes, new_gcm,
}
use file_cipher_core.Item.{Seals, new_item-Seals}
use file_cipher_core.Cipher.{EncryptJob, encrypt_job}

read_random-length :
    (n : ℕ) (s : System) (b : Bytes) (t : System) → read_random n s ≡ (ok b, t) → length b ≡ n
read_random-length n s b t h =
    let e = ok-injective _ b _ t (commit-ok (draw n) s b t h) in
    sym (ap (length {0}) e.0) ∙ length-random_bytes s.random s.drawn n

-- A key that was generated has the size that AES-256 wants.
pub generate_key-length :
    (s : System) (key : Bytes) (t : System) → generate_key s ≡ (ok key, t) → length key ≡ key_size
unfolding generate_key
generate_key-length s key t h = read_random-length key_size s key t h

module _ (g : Gcm) (law : IsGcm g) where
  -- If AES-GCM keeps its laws, Decrypt inverts Encrypt: what Encrypt returned for a key of 32
  -- bytes, under whatever faults, opens under that key.
  pub decrypt-encrypt :
      (key plain : Bytes) (s : System) (c n : Bytes) (t : System)
      → length key ≡ key_size
      → encrypt g key plain s ≡ (ok (c, n), t)
      → decrypt g key c n ≡ ok plain
  unfolding encrypt
  decrypt-encrypt key plain s c n t k h =
      let (a, s₁, e₁, h₁) = chain-ok (lift (new_gcm key) s) _ (c, n) t h in
      let (nonce, s₂, e₂, h₂) = chain-ok (read_random nonce_size s₁) _ (c, n) t h₁ in
      let e = (ok-injective (g.seal key nonce plain, nonce) (c, n) s₂ t h₂).0 in
      subst (λ (p : Bytes × Bytes). decrypt g key p.0 p.1 ≡ ok plain) e
        (decrypt-seal g key nonce plain law k (read_random-length nonce_size s₁ nonce s₂ e₂))

  -- If AES-GCM keeps its laws, an item that encryptWorker makes has a key of AES-256 size, version
  -- 1 and the chunk's uuid on both sides, and its ciphertext opens under that key to the job's
  -- plaintext, whatever faults the calls met.
  pub encrypt_job-opens :
      (j : EncryptJob) (s : System) (item : FlushItem) (t : System)
      → encrypt_job g j s ≡ (ok item, t)
      → Seals g j.chunk_id j.file_id 1 j.plaintext item
  unfolding encrypt_job
  encrypt_job-opens j s item t h =
      let (key, s₁, e₁, h₁) =
        wrapping-chain-ok (at_generate_key j.chunk_id) generate_key s _ item t h in
      let (sealed, s₂, e₂, h₂) =
        wrapping-chain-ok (encrypt_chunk j.chunk_id) (encrypt g key j.plaintext) s₁ _ item t h₁ in
      let k = generate_key-length s key s₁ e₁ in
      subst (Seals g j.chunk_id j.file_id 1 j.plaintext) (ok-injective _ item s₂ t h₂).0 (
        new_item-Seals g j.chunk_id j.file_id 1 key sealed.0 sealed.1 j.plaintext s₂.now
          (decrypt-encrypt key j.plaintext s₁ sealed.0 sealed.1 s₂ k e₂) k)
