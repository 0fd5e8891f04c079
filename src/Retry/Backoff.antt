-- ===== src/Retry/Backoff.antt =====
-- The pauses of loopBackoff in internal/service/retry.go.
use native.Mathlib.Nat.{pow-suc}
use file_cipher_core.Prelude.{ℕ, zero, suc, ◌*◌, ◌^◌, ◌≤◌, ◌<◌, min, ◌≡◌, refl, arith}
use file_cipher_core.Retry.{LoopBackoff, grow, reset}

-- The pauses of `k` waits in a row.
pub grow_times : ℕ → LoopBackoff → LoopBackoff
grow_times zero b = b
grow_times (suc k) b = grow (grow_times k b)

grow_fixed :
    (k : ℕ) (b : LoopBackoff) → ((grow_times k b).base ≡ b.base) × ((grow_times k b).cap ≡ b.cap)
unfolding grow_times grow
grow_fixed zero b = (refl, refl)
grow_fixed (suc k) b = ground (arith, grow_fixed k b)

pow-pos : (k : ℕ) → 0 < 2 ^ k
pow-pos zero = omega arith
pow-pos (suc k) = omega (arith, pow-suc 2 k, pow-pos k)

grow_doubles :
    (b : LoopBackoff) (base cap x : ℕ)
    → (b.base ≡ base) × (b.cap ≡ cap)
    → base ≤ cap
    → 0 < base
    → 0 < x
    → b.cur ≡ min cap (base * x)
    → (grow b).cur ≡ min cap (base * (x * 2))
unfolding grow
grow_doubles b base cap x fixed le h hx e = grind arith

-- After a reset the pauses double from the base up to the cap: wait number k (from 0) sleeps for
-- min(cap, base · 2^k), when 0 < base ≤ cap.
pub cur-grow_times :
    (k : ℕ) (b : LoopBackoff)
    → 0 < b.base
    → b.base ≤ b.cap
    → (grow_times (suc k) (reset b)).cur ≡ min b.cap (b.base * 2 ^ k)
unfolding grow_times reset
cur-grow_times zero b h le = unfold grow in omega arith
cur-grow_times (suc k) b h le = rw (pow-suc 2 k) (
    grow_doubles (grow_times (suc k) (reset b)) b.base b.cap (2 ^ k) (grow_fixed (suc k) (reset b))
      le h (pow-pos k) (cur-grow_times k b h le))
