-- ===== src/Flusher.antt =====
-- internal/service/batch_flusher.go: items are collected into batches, and each batch goes to Redis.
pub mod Keeps
pub mod Delivery
pub mod Exact
use file_cipher_core.Prelude.{
  ℕ, suc, ◌+◌, Option, none, some, List, [], ◌∷◌, ◌++◌, length, leb, if◌then◌else◌,
}
use file_cipher_core.Entity.{FlushItem}
use file_cipher_core.Env.{
  Error, canceled, flush_pending, Result, ok, err, blocked, System, Exec, ◌>>=◌, ◌>>◌, pure, chain,
  wrapping, ctx_err,
}
use file_cipher_core.Retry.{RetryConfig, retry_do, or_canceled}
use file_cipher_core.Repository.Stream.{add_batch}

pub record FlusherConfig : Type 0 where
  pub batch_size : ℕ
  pub flush_time : ℕ
  pub shutdown_flush_timeout : ℕ
  pub retry : RetryConfig

-- What the select of Run takes: ctx.Done(), an item, the closed channel, or the timer.
pub data Pick : Type 0 where
  ctx_done : Pick
  received : FlushItem → Pick
  closed : Pick
  timer : Pick

-- Before a pick the select has waited for some time. When the timer fires is left open: it only
-- decides how the items are cut into batches.
pub record Event : Type 0 where
  pub waited : ℕ
  pub pick : Pick

module _ (cfg : FlusherConfig) where
  unfoldable pub write : List FlushItem → Exec (Unit {0})
  write items = wrapping flush_pending (retry_do cfg.retry (add_batch items >> pure tt))

  -- The closure `flush`; if it succeeds the batch is empty.
  unfoldable pub flush : List FlushItem → Exec (Unit {0})
  unfolding write
  flush [] = pure tt
  flush (x ∷ items) = write (x ∷ items)

  -- context.WithTimeout(context.Background(), d) around a call
  abbrev pub with_timeout {ℓ} : {A : Type ℓ} → ℕ → Exec A → Exec A
  with_timeout d m s =
      let (r, s') = m (record s { cancel_at = some (s.now + d) }) in
      (r, record s' { cancel_at = s.cancel_at })

  -- The case of ctx.Done(): the batch is written in a context of its own, an error is only logged.
  unfoldable pub shut_down : List FlushItem → Exec (Unit {0})
  unfolding write
  shut_down [] s = (err (or_canceled (ctx_err s)), s)
  shut_down (x ∷ items) s =
      let (r, s') = with_timeout cfg.shutdown_flush_timeout (write (x ∷ items)) s in
      (err (or_canceled (ctx_err s')), s')

  -- The cases of the select in Run; `items` is the batch, `next` is the loop from here on.
  unfoldable pub on_pick :
      Pick → List FlushItem → (List FlushItem → Exec (Unit {0})) → Exec (Unit {0})
  on_pick ctx_done items next s = shut_down items s
  on_pick closed items next s = flush items s
  on_pick timer items next s = chain (flush items s) (λ _. next [])
  on_pick (received v) items next s =
      let batch = items ++ v ∷ [] in
      if leb cfg.batch_size (length batch)
      then chain (flush batch s) (λ _. next [])
      else next batch s

  -- The loop of Run over the picks of its select.
  unfoldable pub run : List FlushItem → List Event → Exec (Unit {0})
  unfolding on_pick
  run items [] s = (blocked, s)
  run items (e ∷ es) s =
      on_pick e.pick items (λ batch. run batch es) (record s { now = s.now + e.waited })
