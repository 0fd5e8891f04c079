-- ===== src/Env/Keeps.antt =====
-- Invariants of calls: one rule for each way to build a call.
use file_cipher_core.Env.{
  Site, Result, ok, err, blocked, Fault, answered, refused, broken, System, Exec, ◌>>=◌, pure,
  chain, committed, wrapping, query, commit, spend, head_outcome,
}

-- `m` keeps `P`, however it ends.
pub record Keeps {ℓ κ} {A : Type ℓ} (P : System → Type κ) (m : Exec A) : Type (ℓ ⊔ κ) where
  pub at : (s : System) → P s → P (m s).1

module _ {κ} {P : System → Type κ} where
  pub Keeps-pure {ℓ} : {A : Type ℓ} (a : A) → Keeps P (pure a)
  Keeps-pure a = record { at = λ s h. h }

  pub Keeps-wrapping {ℓ} :
      {A : Type ℓ} (site : Site) (m : Exec A) → Keeps P m → Keeps P (wrapping site m)
  Keeps-wrapping site m k = record { at = k.at }

  pub chain_keeps {ℓ μ} :
      {A : Type ℓ} {B : Type μ} (p : Result A × System) (f : A → Exec B)
      → P p.1
      → ((a : A) → Keeps P (f a))
      → P (chain p f).1
  chain_keeps (ok a, s) f h k = (k a).at s h
  chain_keeps (err e, s) f h k = h
  chain_keeps (blocked, s) f h k = h

  pub Keeps-bind {ℓ μ} :
      {A : Type ℓ} {B : Type μ} (m : Exec A) (f : A → Exec B)
      → Keeps P m
      → ((a : A) → Keeps P (f a))
      → Keeps P (m >>= f)
  Keeps-bind m f k l = record { at = λ s h. chain_keeps (m s) f (k.at s h) l }

  -- `P` says nothing of the script and the clock.
  module _ (stable : (s : System) → P s → P (spend s)) where
    pub Keeps-query {ℓ} : {A : Type ℓ} (q : System → Result A) → Keeps P (query q)
    Keeps-query q = record { at = stable }

    committed_keeps {ℓ} :
        {A : Type ℓ} (f : Fault) (p : Result A × System) (s : System)
        → P s
        → P p.1
        → P (committed f p s).1
    committed_keeps answered p s h k = k
    committed_keeps (refused e) p s h k = h
    committed_keeps (broken n e) p s h k = k

    pub Keeps-commit {ℓ} : {A : Type ℓ} (m : Exec A) → Keeps P m → Keeps P (commit m)
    Keeps-commit m k = record {
      at = λ s h.
          committed_keeps (head_outcome s.script).fault (m (spend s)) (spend s) (stable s h)
            (k.at (spend s) (stable s h));
    }
