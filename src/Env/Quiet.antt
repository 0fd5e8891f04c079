-- ===== src/Env/Quiet.antt =====
-- A state in which every external call is answered at once and the context is alive.
use file_cipher_core.Prelude.{◌≡◌, refl, none, [], arith}
use file_cipher_core.Env.{Result, System, ctx_err, spend, query, commit, Exec}

pub record Quiet (s : System) : Type 0 where
  pub answers : s.script ≡ []
  pub alive : ctx_err s ≡ none

pub spend_quiet : (s : System) → s.script ≡ [] → spend s ≡ s
spend_quiet s h = ground arith

pub query_quiet {ℓ} :
    {A : Type ℓ} (q : System → Result A) (s : System) → s.script ≡ [] → query q s ≡ (q s, s)
query_quiet q s h = rw (spend_quiet s h, h) refl

pub commit_quiet {ℓ} : {A : Type ℓ} (m : Exec A) (s : System) → s.script ≡ [] → commit m s ≡ m s
commit_quiet m s h = rw (spend_quiet s h, h) refl
