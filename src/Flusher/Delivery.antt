-- ===== src/Flusher/Delivery.antt =====
-- Run of internal/service/batch_flusher.go under whatever faults.
use file_cipher_core.Prelude.{
  ℕ, ◌≡◌, ◌≢◌, refl, ap, ◌⊎◌, inl, inr, Bool-cases, List, [], ◌∷◌, ◌++◌, take, append-nil,
  append_assoc, length, leb,
}
use file_cipher_core.Entity.{FlushItem, PendingItem}
use file_cipher_core.Env.{
  ok, Fault, answered, refused, broken, System, Exec, ◌>>◌, pure, chain, head_outcome, spend,
  flush_pending,
}
use file_cipher_core.Env.Keeps.{Keeps}
use file_cipher_core.Env.Binds.{chain-ok, wrapping-ok, ok-injective}
use file_cipher_core.Retry.{retry_do}
use file_cipher_core.Retry.Keeps.{retry_do-ok}
use file_cipher_core.Repository.Stream.{stored, append_entry, append_entries, piped, add_batch}
use file_cipher_core.Flusher.{
  FlusherConfig, Event, Pick, ctx_done, received, closed, timer, write, flush, shut_down, on_pick,
  run,
}
use file_cipher_core.Flusher.Keeps.{run-Keeps}

-- The items that the channel hands over before Run leaves its loop.
abbrev pub arrived_by : Pick → List FlushItem → List FlushItem
arrived_by ctx_done rest = []
arrived_by closed rest = []
arrived_by timer rest = rest
arrived_by (received v) rest = v ∷ rest

abbrev pub arrived : List Event → List FlushItem
arrived [] = []
arrived (e ∷ es) = arrived_by e.pick (arrived es)

abbrev pub Holds : FlushItem → List PendingItem → Type 0
Holds x [] = ⊥
Holds x (e ∷ l) = (e.item ≡ x) ⊎ Holds x l

Holds-before : (x : FlushItem) (l m : List PendingItem) → Holds x l → Holds x (l ++ m)
Holds-before x [] m h = absurd h
Holds-before x (e ∷ l) m (inl h) = inl h
Holds-before x (e ∷ l) m (inr h) = inr (Holds-before x l m h)

Holds-last :
    (x : FlushItem) (l : List PendingItem) (e : PendingItem) → e.item ≡ x → Holds x (l ++ e ∷ [])
Holds-last x [] e h = inl h
Holds-last x (d ∷ l) e h = inr (Holds-last x l e h)

abbrev Has : FlushItem → System → Type 0
Has x s = Holds x s.stream

module _ (x : FlushItem) where
  append_entries_keeps :
      (items : List FlushItem) (s : System) → Has x s → Has x (append_entries items s)
  unfolding append_entries append_entry
  append_entries_keeps [] s h = h
  append_entries_keeps (i ∷ items) s h =
      append_entries_keeps items (append_entry i s) (Holds-before x s.stream _ h)

  piped_keeps :
      (f : Fault) (items : List FlushItem) (s : System) → Has x s → Has x (piped f items s).1
  piped_keeps answered items s h = append_entries_keeps items s h
  piped_keeps (refused e) items s h = h
  piped_keeps (broken n e) items s h = append_entries_keeps (take n items) s h

  add_batch-Keeps : (items : List FlushItem) → Keeps (Has x) (add_batch items)
  unfolding add_batch
  add_batch-Keeps items = record {
    at = λ s h. piped_keeps (head_outcome s.script).fault items (spend s) h;
  }

  module _ (cfg : FlusherConfig) where
    run-Has : (es : List Event) (items : List FlushItem) → Keeps (Has x) (run cfg items es)
    run-Has = run-Keeps (λ s n h. h) (λ s c h. h) add_batch-Keeps cfg

abbrev pub AllStored : List FlushItem → System → Type 0
AllStored [] s = Unit {0}
AllStored (x ∷ items) s = Holds (stored x) s.stream × AllStored items s

AllStored-append :
    (xs ys : List FlushItem) (s : System) → AllStored xs s → AllStored ys s → AllStored (xs ++ ys) s
AllStored-append [] ys s h k = k
AllStored-append (x ∷ xs) ys s (h, h') k = (h, AllStored-append xs ys s h' k)

Keeps-all :
    (m : Exec (Unit {0}))
    → ((x : FlushItem) → Keeps (Has (stored x)) m)
    → (xs : List FlushItem) (s : System) → AllStored xs s
    → AllStored xs (m s).1
Keeps-all m k [] s h = tt
Keeps-all m k (x ∷ xs) s (h, h') = ((k x).at s h, Keeps-all m k xs s h')

append_entries_all :
    (items : List FlushItem) (s : System) → AllStored items (append_entries items s)
unfolding append_entries append_entry
append_entries_all [] s = tt
append_entries_all (i ∷ items) s = (
  append_entries_keeps (stored i) items (append_entry i s) (Holds-last _ s.stream _ refl),
  append_entries_all items (append_entry i s),
)

piped_ok :
    (f : Fault) (items : List FlushItem) (s t : System) (ids : List ℕ)
    → piped f items s ≡ (ok ids, t)
    → AllStored items t
piped_ok answered items s t ids h = rw (← (ok-injective _ ids _ t h).1) (append_entries_all items s)
piped_ok (refused e) items s t ids h = cc
piped_ok (broken n e) items s t ids h = cc

module _ (cfg : FlusherConfig) where
  write_ok :
      (items : List FlushItem) (s t : System) → write cfg items s ≡ (ok tt, t) → AllStored items t
  unfolding write add_batch
  write_ok items s t h =
      let call : Exec (Unit {0}) = add_batch items >> pure tt in
      let (u, e) =
        retry_do-ok call cfg.retry s tt t
          (wrapping-ok flush_pending (retry_do cfg.retry call) s tt t h) in
      let (ids, v, e', e'') = chain-ok (add_batch items u) (λ _. pure tt) tt t e in
      rw (← (ok-injective tt tt v t e'').1) (piped_ok _ items (spend u) v ids e')

  flush_ok :
      (items : List FlushItem) (s t : System) → flush cfg items s ≡ (ok tt, t) → AllStored items t
  unfolding flush
  flush_ok [] s t h = tt
  flush_ok (i ∷ items) s t h = write_ok (i ∷ items) s t h

  shut_down_fails : (items : List FlushItem) (s t : System) → shut_down cfg items s ≢ (ok tt, t)
  unfolding shut_down
  shut_down_fails [] s t h = cc
  shut_down_fails (i ∷ items) s t h = cc

  flushed :
      (next : Exec (Unit {0})) (batch rest : List FlushItem) (s t : System)
      → chain (flush cfg batch s) (λ _. next) ≡ (ok tt, t)
      → ((x : FlushItem) → Keeps (Has (stored x)) next)
      → ((u : System) → next u ≡ (ok tt, t) → AllStored rest t)
      → AllStored (batch ++ rest) t
  flushed next batch rest s t h k l =
      let (_, u, e, e') = chain-ok (flush cfg batch s) (λ _. next) tt t h in
      AllStored-append batch rest t
        (rw (ap (λ p. p.1) e') at (Keeps-all next k batch u (flush_ok batch s u e))) (l u e')

  on_pick_stores :
      (p : Pick) (items rest : List FlushItem) (next : List FlushItem → Exec (Unit {0}))
      (s t : System)
      → on_pick cfg p items next s ≡ (ok tt, t)
      → ((x : FlushItem) (batch : List FlushItem) → Keeps (Has (stored x)) (next batch))
      → ((batch : List FlushItem) (u : System)
          → next batch u ≡ (ok tt, t)
          → AllStored (batch ++ rest) t)
      → AllStored (items ++ arrived_by p rest) t
  unfolding on_pick
  on_pick_stores ctx_done items rest next s t h k l = absurd (shut_down_fails items s t h)
  on_pick_stores closed items rest next s t h k l = rw (append-nil items) (flush_ok items s t h)
  on_pick_stores timer items rest next s t h k l =
      flushed (next []) items rest s t h (λ x. k x []) (l [])
  on_pick_stores (received v) items rest next s t h k l =
      rw (← append_assoc items (v ∷ []) rest)
        (elim (Bool-cases (leb cfg.batch_size (length (items ++ v ∷ [])))) [
          | inl full ↦
              flushed (next []) (items ++ v ∷ []) rest s t (rw full at h) (λ x. k x []) (l [])
          | inr room ↦ l (items ++ v ∷ []) s (rw room at h)
        ])

  -- If Run returns nil, every item that it has received from the channel is in the stream, however
  -- the picks cut the items into batches and whatever failures, retries and pauses the writes had.
  pub run_stores_all :
      (es : List Event) (items : List FlushItem) (s t : System)
      → run cfg items es s ≡ (ok tt, t)
      → AllStored (items ++ arrived es) t
  unfolding run
  run_stores_all [] items s t h = cc
  run_stores_all (e ∷ es) items s t h =
      on_pick_stores e.pick items (arrived es) _ _ t h (λ x batch. run-Has (stored x) cfg es batch)
        (λ batch u. run_stores_all es batch u t)
