-- ===== src/Crypto.antt =====
-- internal/crypto/cipher.go. AES-GCM itself is a parameter: `Gcm` is its Seal and Open.
use file_cipher_core.Prelude.{
  ℕ, zero, suc, ◌+◌, ◌≡◌, refl, Option, none, some, [], ◌∷◌, length, ltb, ◌==◌, ◌||◌, not,
  if◌then◌else◌, arith,
}
use file_cipher_core.Entity.{Bytes}
use file_cipher_core.Env.{
  short_ciphertext, invalid_nonce, key_size as bad_key_size, auth_failed, Result, ok, err, blocked,
  Exec, ◌>>=◌, ◌>>◌, pure, lift, commit,
}

-- Seal and Open of cipher.AEAD: key, nonce, text.
pub record Gcm : Type 0 where
  pub seal : Bytes → Bytes → Bytes → Bytes
  pub unseal : Bytes → Bytes → Bytes → Option Bytes

-- What the documentation of cipher.AEAD promises.
pub record IsGcm (g : Gcm) : Type 0 where
  pub unseal-seal :
      (key nonce plain : Bytes) → g.unseal key nonce (g.seal key nonce plain) ≡ some plain
  pub length-seal : (key nonce plain : Bytes) → length (g.seal key nonce plain) ≡ length plain + 16

abbrev pub key_size : ℕ
key_size = 32

abbrev pub nonce_size : ℕ
nonce_size = 12

abbrev pub overhead : ℕ
overhead = 16

-- rand.Read fills a buffer of `n` bytes.
abbrev pub random_bytes : (ℕ → ℕ) → ℕ → ℕ → Bytes
random_bytes random from zero = []
random_bytes random from (suc n) = random from ∷ random_bytes random (from + 1) n

pub length-random_bytes : (random : ℕ → ℕ) (from n : ℕ) → length (random_bytes random from n) ≡ n
length-random_bytes random from zero = refl
length-random_bytes random from (suc n) = omega (arith, length-random_bytes random (from + 1) n)

abbrev pub draw : ℕ → Exec Bytes
draw n s = (ok (random_bytes s.random s.drawn n), record s { drawn = s.drawn + n })

abbrev pub read_random : ℕ → Exec Bytes
read_random n = commit (draw n)

unfoldable pub generate_key : Exec Bytes
generate_key = read_random key_size

-- aes.NewCipher takes keys of 16, 24 or 32 bytes.
unfoldable pub new_gcm : Bytes → Result (Unit {0})
new_gcm key =
    let n = length key in if n == 16 || n == 24 || n == 32 then ok tt else err bad_key_size

module _ (g : Gcm) where
  unfoldable pub encrypt : Bytes → Bytes → Exec (Bytes × Bytes)
  unfolding new_gcm
  encrypt key plaintext = do
    lift (new_gcm key)
    nonce ← read_random nonce_size
    pure (g.seal key nonce plaintext, nonce)

  abbrev opened : Option Bytes → Result Bytes
  opened none = err auth_failed
  opened (some p) = ok p

  unfoldable pub decrypt : Bytes → Bytes → Bytes → Result Bytes
  unfolding new_gcm
  decrypt key ciphertext nonce = elim (new_gcm key) [
    | err e ↦ err e
    | blocked ↦ blocked
    | ok _ ↦
        if ltb (length ciphertext) overhead
        then err short_ciphertext
        else if not (length nonce == nonce_size)
        then err invalid_nonce
        else opened (g.unseal key nonce ciphertext)
  ]

  -- What is sealed under a key of the right size and a nonce of the right size opens again.
  pub decrypt-seal :
      (key nonce plain : Bytes)
      → IsGcm g
      → length key ≡ key_size
      → length nonce ≡ nonce_size
      → decrypt key (g.seal key nonce plain) nonce ≡ ok plain
  unfolding decrypt new_gcm
  decrypt-seal key nonce plain law k n =
      ground (arith, law.unseal-seal key nonce plain, law.length-seal key nonce plain)
