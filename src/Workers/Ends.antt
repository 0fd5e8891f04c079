-- ===== src/Workers/Ends.antt =====
-- The work of the two kinds of workers comes to an end.
use file_cipher_core.Prelude.{◌≡◌, refl, true, false, none, [], arith}
use file_cipher_core.Entity.{Bytes, FlushItem}
use file_cipher_core.Env.{Result, ok, err, blocked, System}
use file_cipher_core.Crypto.{Gcm, new_gcm, generate_key, encrypt, decrypt}
use file_cipher_core.Cipher.{EncryptJob, encrypt_job}
use file_cipher_core.Rotation.{RotationJob, rotate_job}
use file_cipher_core.Channels.Progress.{Ends, makes, breaks}

-- A state in which every call is answered.
abbrev calm : System
calm = record {
  now = 0;
  cancel_at = none;
  timer_first = λ _. true;
  script = [];
  random = λ _. 0;
  drawn = 0;
  keys = [];
  chunks = [];
  stream = [];
  next_id = 1;
  last_delivered = 0;
  pel = [];
  cursors = [];
  output = [];
  wrote = false;
}

-- The work on a job comes to an end.
pub encrypt_job-Ends : (g : Gcm) (j : EncryptJob) → Ends (encrypt_job g) j
unfolding encrypt_job generate_key encrypt
encrypt_job-Ends g j = makes _ calm _ refl

decrypt_returns :
    (g : Gcm) (key ciphertext nonce : Bytes) → decrypt g key ciphertext nonce ≡ blocked → ⊥
unfolding decrypt new_gcm
decrypt_returns g key ciphertext nonce h = ground arith

rotate_job_returns :
    (g : Gcm) (j : RotationJob) (r : Result Bytes) (t : System)
    → decrypt g j.old_key.key j.current.ciphertext j.current.nonce ≡ r
    → rotate_job g j calm ≡ (blocked, t)
    → ⊥
unfolding rotate_job generate_key encrypt
rotate_job_returns g j (ok plain) t e h = let h' = rw e at h in cc
rotate_job_returns g j (err x) t e h = let h' = rw e at h in cc
rotate_job_returns g j blocked t e h = absurd (decrypt_returns g _ _ _ e)

pub rotate_job-Ends : (g : Gcm) (j : RotationJob) → Ends (rotate_job g) j
rotate_job-Ends g j = by (rotate_job g j calm) refl
  where
    by : (p : Result FlushItem × System) → rotate_job g j calm ≡ p → Ends (rotate_job g) j
    by (ok i, t) e = makes i calm t e
    by (err x, t) e = breaks x calm t e
    by (blocked, t) e = absurd (rotate_job_returns g j _ t refl e)
