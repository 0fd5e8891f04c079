-- ===== src/Flusher/Keeps.antt =====
-- What the flusher's Run keeps: an invariant of AddBatch that neither the clock nor the end of the
-- context touches.
use file_cipher_core.Prelude.{
  ℕ, ◌+◌, inl, inr, Bool-cases, Option, some, List, [], ◌∷◌, ◌++◌, length, leb,
}
use file_cipher_core.Entity.{FlushItem}
use file_cipher_core.Env.{System, Exec, flush_pending}
use file_cipher_core.Env.Keeps.{Keeps, Keeps-pure, Keeps-wrapping, Keeps-bind, chain_keeps}
use file_cipher_core.Retry.Keeps.{retry_do-Keeps}
use file_cipher_core.Repository.Stream.{add_batch}
use file_cipher_core.Flusher.{
  FlusherConfig, Event, Pick, ctx_done, received, closed, timer, write, flush, shut_down, on_pick,
  run,
}

module _ {κ} {P : System → Type κ}
    (timeless : (s : System) (n : ℕ) → P s → P (record s { now = n }))
    (recancel : (s : System) (c : Option ℕ) → P s → P (record s { cancel_at = c }))
    (batch : (items : List FlushItem) → Keeps P (add_batch items)) (cfg : FlusherConfig) where
  pub write-Keeps : (items : List FlushItem) → Keeps P (write cfg items)
  unfolding write
  write-Keeps items = Keeps-wrapping flush_pending _ (
      retry_do-Keeps timeless cfg.retry _
        (Keeps-bind (add_batch items) _ (batch items) (λ _. Keeps-pure tt)))

  pub flush-Keeps : (items : List FlushItem) → Keeps P (flush cfg items)
  unfolding flush
  flush-Keeps [] = Keeps-pure tt
  flush-Keeps (i ∷ items) = write-Keeps (i ∷ items)

  shut_down-Keeps : (items : List FlushItem) → Keeps P (shut_down cfg items)
  unfolding shut_down
  shut_down-Keeps [] = record { at = λ s h. h }
  shut_down-Keeps (i ∷ items) = record {
    at = λ s h.
        let own = record s { cancel_at = some (s.now + cfg.shutdown_flush_timeout) } in
        recancel (write cfg (i ∷ items) own).1 s.cancel_at (
          (write-Keeps (i ∷ items)).at own
            (recancel s (some (s.now + cfg.shutdown_flush_timeout)) h));
  }

  on_pick-Keeps :
      (p : Pick) (items : List FlushItem) (next : List FlushItem → Exec (Unit {0})) (s : System)
      → P s
      → ((later : List FlushItem) → Keeps P (next later))
      → P (on_pick cfg p items next s).1
  unfolding on_pick
  on_pick-Keeps ctx_done items next s h k = (shut_down-Keeps items).at s h
  on_pick-Keeps closed items next s h k = (flush-Keeps items).at s h
  on_pick-Keeps timer items next s h k = chain_keeps _ _ ((flush-Keeps items).at s h) (λ _. k [])
  on_pick-Keeps (received v) items next s h k =
      elim (Bool-cases (leb cfg.batch_size (length (items ++ v ∷ [])))) [
        | inl full ↦ rw full (chain_keeps _ _ ((flush-Keeps (items ++ v ∷ [])).at s h) (λ _. k []))
        | inr room ↦ rw room ((k (items ++ v ∷ [])).at s h)
      ]

  pub run-Keeps : (es : List Event) (items : List FlushItem) → Keeps P (run cfg items es)
  unfolding run
  run-Keeps [] items = record { at = λ s h. h }
  run-Keeps (e ∷ es) items = record {
    at = λ s h. on_pick-Keeps e.pick items _ _ (timeless s _ h) (λ later. run-Keeps es later);
  }
