-- ===== src/Rotation/Reseal.antt =====
-- What a rotation worker makes of a chunk.
use file_cipher_core.Prelude.{◌+◌, ◌≡◌, subst}
use file_cipher_core.Entity.{Bytes, FlushItem}
use file_cipher_core.Env.{ok, System, decrypt_chunk, generate_key as at_generate_key, encrypt_chunk}
use file_cipher_core.Env.Binds.{ok-injective, wrapped-chain-ok, wrapping-chain-ok}
use file_cipher_core.Crypto.{Gcm, IsGcm, generate_key, encrypt, decrypt}
use file_cipher_core.Item.{Seals, new_item-Seals}
use file_cipher_core.Cipher.Encrypt.{decrypt-encrypt, generate_key-length}
use file_cipher_core.Rotation.{RotationJob, rotate_job}

module _ (g : Gcm) (law : IsGcm g) where
  -- If AES-GCM keeps its laws, a rotated item is the next version of its chunk: a key of AES-256
  -- size, the same uuid and file, version one higher on both sides, and a ciphertext that opens
  -- under the new key to what the old one opened to under the old key. A chunk that does not open
  -- is never re-encrypted.
  pub rotate_job-reseals :
      (j : RotationJob) (s : System) (item : FlushItem) (t : System)
      → rotate_job g j s ≡ (ok item, t)
      → (plain : Bytes) × (decrypt g j.old_key.key j.current.ciphertext j.current.nonce ≡ ok plain)
        × Seals g j.current.uuid j.current.file_id (j.current.version + 1) plain item
  unfolding rotate_job
  rotate_job-reseals j s item t h =
      let uuid = j.current.uuid in
      let version = j.current.version + 1 in
      let (plain, opened, h₀) =
        wrapped-chain-ok (decrypt_chunk uuid)
          (decrypt g j.old_key.key j.current.ciphertext j.current.nonce) s _ item t h in
      let (key, s₁, e₁, h₁) = wrapping-chain-ok (at_generate_key uuid) generate_key s _ item t h₀ in
      let (sealed, s₂, e₂, h₂) =
        wrapping-chain-ok (encrypt_chunk uuid) (encrypt g key plain) s₁ _ item t h₁ in
      let k = generate_key-length s key s₁ e₁ in
      (
        plain,
        opened,
        subst (Seals g uuid j.current.file_id version plain) (ok-injective _ item s₂ t h₂).0 (
            new_item-Seals g uuid j.current.file_id version key sealed.0 sealed.1 plain s₂.now
              (decrypt-encrypt g law key plain s₁ sealed.0 sealed.1 s₂ k e₂) k),
      )
