-- ===== src/Env/Binds.antt =====
-- What a successful chain of calls says of its parts.
use file_cipher_core.Prelude.{◌≡◌, refl, ap}
use file_cipher_core.Env.{
  Site, Result, ok, err, blocked, Fault, answered, refused, broken, System, Exec, chain, lift,
  wrapping, wrapped, commit, committed, spend, head_outcome,
}

module _ {ℓ κ} {A : Type ℓ} {B : Type κ} where
  pub chain-ok :
      (p : Result A × System) (f : A → Exec B) (b : B) (t : System)
      → chain p f ≡ (ok b, t)
      → (a : A) × (s : System) × (p ≡ (ok a, s)) × (f a s ≡ (ok b, t))
  chain-ok (ok a, s) f b t h = (a, s, refl, h)
  chain-ok (err e, s) f b t h = cc
  chain-ok (blocked, s) f b t h = cc

module _ {ℓ} {A : Type ℓ} where
  -- What a call returns, and in which state, if two ways to write it agree.
  pub ok-injective :
      (a b : A) (s t : System) → ◌≡◌ {A = Result A × System} (ok a, s) (ok b, t) → (a ≡ b) × (s ≡ t)
  ok-injective a b s t h = (cc (ap (λ p. p.0) h), ap (λ p. p.1) h)

  wrapped_pair-ok :
      (site : Site) (p : Result A × System) (a : A) (t : System)
      → ◌≡◌ {A = Result A × System} (wrapped site p.0, p.1) (ok a, t)
      → p ≡ (ok a, t)
  wrapped_pair-ok site (ok b, s) a t h = h
  wrapped_pair-ok site (err e, s) a t h = cc
  wrapped_pair-ok site (blocked, s) a t h = cc

  -- A wrapped call succeeds only as the call does.
  pub wrapping-ok :
      (site : Site) (m : Exec A) (s : System) (a : A) (t : System)
      → wrapping site m s ≡ (ok a, t)
      → m s ≡ (ok a, t)
  wrapping-ok site m s a t h = wrapped_pair-ok site (m s) a t h

  committed-ok :
      (f : Fault) (p : Result A × System) (s : System) (a : A) (t : System)
      → committed f p s ≡ (ok a, t)
      → p ≡ (ok a, t)
  committed-ok answered p s a t h = h
  committed-ok (refused e) p s a t h = cc
  committed-ok (broken n e) p s a t h = cc

  -- A call that changes the state succeeds only if it was answered.
  pub commit-ok :
      (m : Exec A) (s : System) (a : A) (t : System)
      → commit m s ≡ (ok a, t)
      → m (spend s) ≡ (ok a, t)
  commit-ok m s a t h = committed-ok (head_outcome s.script).fault (m (spend s)) (spend s) a t h

module _ {ℓ κ} {A : Type ℓ} {B : Type κ} where
  -- Inversion of a `do` block whose first step is a wrapped call.
  pub wrapping-chain-ok :
      (site : Site) (m : Exec A) (s : System) (f : A → Exec B) (b : B) (t : System)
      → chain (wrapping site m s) f ≡ (ok b, t)
      → (a : A) × (s' : System) × (m s ≡ (ok a, s')) × (f a s' ≡ (ok b, t))
  wrapping-chain-ok site m s f b t h =
      let (a, s', e, h') = chain-ok (wrapping site m s) f b t h in
      (a, s', wrapping-ok site m s a s' e, h')

  -- The same where the first step is a pure call.
  pub wrapped-chain-ok :
      (site : Site) (r : Result A) (s : System) (f : A → Exec B) (b : B) (t : System)
      → chain (lift (wrapped site r) s) f ≡ (ok b, t)
      → (a : A) × (r ≡ ok a) × (f a s ≡ (ok b, t))
  wrapped-chain-ok site (ok a) s f b t h = (a, refl, h)
  wrapped-chain-ok site (err e) s f b t h = cc
  wrapped-chain-ok site blocked s f b t h = cc
