-- ===== src/Flusher/Exact.antt =====
-- Run of internal/service/batch_flusher.go when Redis answers every call.
use mathlib.Core.List.{map-append}
use file_cipher_core.Prelude.{
  ℕ, ◌+◌, ◌≡◌, refl, sym, ap, ◌∙◌, Bool, true, false, Bool-cases, inl, inr, some, List, [], ◌∷◌,
  ◌++◌, map, append-nil, append_assoc, length, leb,
}
use file_cipher_core.Entity.{FlushItem}
use file_cipher_core.Env.{ok, System, Exec, ◌>>◌, pure}
use file_cipher_core.Env.Quiet.{spend_quiet}
use file_cipher_core.Retry.{pos}
use file_cipher_core.Retry.Laws.{retry_quiet}
use file_cipher_core.Repository.Stream.{stored, append_entry, append_entries, add_batch}
use file_cipher_core.Flusher.{
  FlusherConfig, Event, Pick, ctx_done, received, closed, timer, write, flush, shut_down, on_pick,
  run,
}
use file_cipher_core.Flusher.Delivery.{arrived, arrived_by}

-- Run leaves its loop within these events.
abbrev pub leaves : Pick → Bool → Bool
leaves ctx_done rest = true
leaves closed rest = true
leaves timer rest = rest
leaves (received v) rest = rest

abbrev pub leaves_in : List Event → Bool
leaves_in [] = false
leaves_in (e ∷ es) = leaves e.pick (leaves_in es)

abbrev pub stream_items : System → List FlushItem
stream_items s = map (λ e. e.item) s.stream

-- From `s` to `t` the stream gets `items`, each once and in their order, and no call is disturbed.
pub record Gets (items : List FlushItem) (s t : System) : Type 0 where
  pub appended : stream_items t ≡ stream_items s ++ map stored items
  pub answers : t.script ≡ []

append_entries-Gets :
    (items : List FlushItem) (s : System) → s.script ≡ [] → Gets items s (append_entries items s)
unfolding append_entries append_entry
append_entries-Gets [] s q = record { appended = sym (append-nil (stream_items s)); answers = q }
append_entries-Gets (x ∷ items) s q =
    let rest = append_entries-Gets items (append_entry x s) q in
    record {
      appended =
          rest.appended
          ∙ ap (λ l. l ++ map stored items) (map-append (λ e. e.item) s.stream _)
          ∙ append_assoc (stream_items s) (stored x ∷ []) (map stored items);
      answers = rest.answers;
    }

Gets-trans :
    (xs ys : List FlushItem) (s t u : System) → Gets xs s t → Gets ys t u → Gets (xs ++ ys) s u
Gets-trans xs ys s t u g h = record {
  appended =
      h.appended
      ∙ ap (λ l. l ++ map stored ys) g.appended
      ∙ append_assoc (stream_items s) (map stored xs) (map stored ys)
      ∙ ap (λ l. stream_items s ++ l) (sym (map-append stored xs ys));
  answers = h.answers;
}

module _ (cfg : FlusherConfig) (n : ℕ) (attempts : cfg.retry.attempts ≡ pos n) where
  write_quiet :
      (items : List FlushItem) (s : System)
      → s.script ≡ []
      → write cfg items s ≡ (ok tt, append_entries items s)
  unfolding write add_batch
  write_quiet items s q =
      rw
        (retry_quiet {0} cfg.retry n (add_batch items >> pure tt) s (append_entries items s) tt
          attempts (rw (spend_quiet s q, q) refl))
        refl

  write-Gets :
      (items : List FlushItem) (s : System) → s.script ≡ [] → Gets items s (write cfg items s).1
  write-Gets items s q = rw (write_quiet items s q) (append_entries-Gets items s q)

  flush-Gets :
      (items : List FlushItem) (s : System)
      → s.script ≡ []
      → (t : System) × (flush cfg items s ≡ (ok tt, t)) × Gets items s t
  unfolding flush
  flush-Gets [] s q =
      (s, refl, record { appended = sym (append-nil (stream_items s)); answers = q })
  flush-Gets (x ∷ items) s q = (_, write_quiet (x ∷ items) s q, append_entries-Gets (x ∷ items) s q)

  shut_down-Gets :
      (items : List FlushItem) (s : System) → s.script ≡ [] → Gets items s (shut_down cfg items s).1
  unfolding shut_down
  shut_down-Gets [] s q = record { appended = sym (append-nil (stream_items s)); answers = q }
  shut_down-Gets (x ∷ items) s q =
      let u : System = record s { cancel_at = some (s.now + cfg.shutdown_flush_timeout) } in
      let got = write-Gets (x ∷ items) u q in
      record { appended = got.appended; answers = got.answers }

  on_pick-Gets :
      (p : Pick) (items rest : List FlushItem) (last : Bool)
      (next : List FlushItem → Exec (Unit {0})) (s : System)
      → s.script ≡ []
      → leaves p last ≡ true
      → ((batch : List FlushItem) (u : System)
          → u.script ≡ []
          → last ≡ true
          → Gets (batch ++ rest) u (next batch u).1)
      → Gets (items ++ arrived_by p rest) s (on_pick cfg p items next s).1
  unfolding on_pick
  on_pick-Gets ctx_done items rest last next s q l k =
      rw (append-nil items) (shut_down-Gets items s q)
  on_pick-Gets closed items rest last next s q l k =
      let (t, e, g) = flush-Gets items s q in rw (append-nil items) (rw e g)
  on_pick-Gets timer items rest last next s q l k =
      let (t, e, g) = flush-Gets items s q in
      rw e (Gets-trans items rest s t _ g (k [] t g.answers l))
  on_pick-Gets (received v) items rest last next s q l k =
      let (t, e, g) = flush-Gets (items ++ v ∷ []) s q in
      rw (← append_assoc items (v ∷ []) rest)
        (elim (Bool-cases (leb cfg.batch_size (length (items ++ v ∷ [])))) [
          | inl full ↦ rw (full, e) (Gets-trans (items ++ v ∷ []) rest s t _ g (k [] t g.answers l))
          | inr room ↦ rw room (k (items ++ v ∷ []) s q l)
        ])

  -- If Redis answers every call and the attempts are not negative, Run appends each item that it
  -- receives to the stream exactly once and in the order of arrival, whether the channel is closed
  -- or the context is cancelled in the end, and whatever the batch size and the timer make of the
  -- batches.
  pub run-Gets :
      (es : List Event) (items : List FlushItem) (s : System)
      → s.script ≡ []
      → leaves_in es ≡ true
      → Gets (items ++ arrived es) s (run cfg items es s).1
  unfolding run
  run-Gets [] items s q l = cc
  run-Gets (e ∷ es) items s q l =
      let t : System = record s { now = s.now + e.waited } in
      let got =
        on_pick-Gets e.pick items (arrived es) (leaves_in es) (λ batch. run cfg batch es) t q l
          (λ batch u q' l'. run-Gets es batch u q' l') in
      record { appended = got.appended; answers = got.answers }
