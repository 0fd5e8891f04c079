-- ===== src/Channels.antt =====
-- EncryptFile of internal/service/cipher_file.go and Run of cipher_rotation.go: a goroutine that makes
-- jobs, the workers and the flusher, joined by two channels and an errgroup.
pub mod Invariant
pub mod Progress
pub mod Returns
pub mod Places
pub mod Whole
pub mod Stored
use file_cipher_core.Prelude.{
  ℕ, zero, suc, ◌<◌, ◌≡◌, Bool, true, false, ◌||◌, ◌&&◌, Option, none, some, List, [], ◌∷◌, ◌++◌,
  length,
}
use file_cipher_core.Entity.{FlushItem}
use file_cipher_core.Env.{Error, canceled, ok, err, System, Exec}

-- A goroutine of the group: it runs, has returned nil, or an error.
pub data Ending : Type 0 where
  running : Ending
  finished : Ending
  failed : Error → Ending

abbrev pub is_over : Ending → Bool
is_over running = false
is_over finished = true
is_over (failed e) = true

-- An item, and the job that a worker made it of; the job is no part of what is sent.
pub record Made (J : Type 0) : Type 0 where
  pub job : J
  pub item : FlushItem

pub record Pipe (J : Type 0) : Type 0 where
  -- what `read` or `produce` has still to send, and the channel of jobs, closed when it is over
  pub todo : List J
  pub jobs : List J
  pub producer : Ending
  -- the workers that wait for a job, the items of those that wait to send, the first error of the
  -- inner group, and the jobs of the workers that have stopped
  pub idle : ℕ
  pub held : List (Made J)
  pub worker_error : Option Error
  pub lost : List J
  -- the channel of items, closed when the goroutine that waits for the workers is over
  pub items : List (Made J)
  pub waiter : Ending
  -- what the flusher has received
  pub got : List (Made J)
  pub flusher : Ending
  -- the first error of the group, which cancels its context, and whether the parent's is done
  pub error : Option Error
  pub parent_done : Bool

abbrev pub first : Option Error → Error → Option Error
first none e = some e
first (some e) e' = some e

abbrev pub is_some {ℓ} : {A : Type ℓ} → Option A → Bool
is_some none = false
is_some (some a) = true

abbrev pub is_canceled : {J : Type 0} → Pipe J → Bool
is_canceled p = is_some p.error || p.parent_done

abbrev pub are_canceled : {J : Type 0} → Pipe J → Bool
are_canceled p = is_some p.worker_error || is_canceled p

abbrev pub ended : Option Error → Ending
ended none = finished
ended (some e) = failed e

abbrev pub noted : Option Error → Option Error → Option Error
noted e none = e
noted e (some e') = first e e'

-- g.Wait has returned.
abbrev pub all_over : {J : Type 0} → Pipe J → Bool
all_over p = is_over p.producer && is_over p.waiter && is_over p.flusher

-- `cap` is the capacity of both channels and the number of workers; `step` is what a worker does
-- with a job, and `ending` the error with which the producer ends once it has sent all.
module _ {J : Type 0} (cap : ℕ) (step : J → Exec FlushItem) (ending : Option Error) where
  abbrev pub start : List J → Pipe J
  start todo = record {
    todo = todo;
    jobs = [];
    producer = running;
    idle = cap;
    held = [];
    worker_error = none;
    lost = [];
    items = [];
    waiter = running;
    got = [];
    flusher = running;
    error = none;
    parent_done = false;
  }

  -- What the goroutines can do. Where a select has more than one case ready, it takes any.
  pub data Step (p : Pipe J) : Pipe J → Type 0 where
    producer_sends :
        (j : J) (rest : List J)
        → p.producer ≡ running
        → p.todo ≡ j ∷ rest
        → length p.jobs < cap
        → Step p (record p { todo = rest; jobs = p.jobs ++ j ∷ [] })
    producer_returns :
        p.producer ≡ running
        → p.todo ≡ []
        → Step p (record p { producer = ended ending; error = noted p.error ending })
    producer_stops :
        p.producer ≡ running
        → is_canceled p ≡ true
        → Step p (record p { producer = failed canceled; error = first p.error canceled })
    worker_makes :
        (n : ℕ) (j : J) (rest : List J) (i : FlushItem) (s t : System)
        → p.idle ≡ suc n
        → p.jobs ≡ j ∷ rest
        → step j s ≡ (ok i, t)
        → Step p (record p { idle = n; jobs = rest; held = record { job = j; item = i } ∷ p.held })
    worker_fails :
        (n : ℕ) (j : J) (rest : List J) (e : Error) (s t : System)
        → p.idle ≡ suc n
        → p.jobs ≡ j ∷ rest
        → step j s ≡ (err e, t)
        → Step p (record p {
          idle = n;
          jobs = rest;
          lost = j ∷ p.lost;
          worker_error = first p.worker_error e;
        })
    worker_sends :
        (before : List (Made J)) (m : Made J) (behind : List (Made J))
        → p.held ≡ before ++ m ∷ behind
        → length p.items < cap
        → Step p
            (record p { idle = suc p.idle; held = before ++ behind; items = p.items ++ m ∷ [] })
    worker_returns :
        (n : ℕ)
        → p.idle ≡ suc n
        → p.jobs ≡ []
        → is_over p.producer ≡ true
        → Step p (record p { idle = n })
    worker_stops :
        (n : ℕ)
        → p.idle ≡ suc n
        → are_canceled p ≡ true
        → Step p (record p { idle = n; worker_error = first p.worker_error canceled })
    worker_drops :
        (before : List (Made J)) (m : Made J) (behind : List (Made J))
        → p.held ≡ before ++ m ∷ behind
        → are_canceled p ≡ true
        → Step p (record p {
          held = before ++ behind;
          lost = m.job ∷ p.lost;
          worker_error = first p.worker_error canceled;
        })
    waiter_returns :
        p.waiter ≡ running
        → p.idle ≡ 0
        → p.held ≡ []
        → Step p (record p { waiter = ended p.worker_error; error = noted p.error p.worker_error })
    flusher_receives :
        (m : Made J) (rest : List (Made J))
        → p.flusher ≡ running
        → p.items ≡ m ∷ rest
        → Step p (record p { items = rest; got = p.got ++ m ∷ [] })
    flusher_returns :
        p.flusher ≡ running
        → p.items ≡ []
        → is_over p.waiter ≡ true
        → Step p (record p { flusher = finished })
    flusher_stops :
        p.flusher ≡ running
        → is_canceled p ≡ true
        → Step p (record p { flusher = failed canceled; error = first p.error canceled })

  -- What comes from outside: a write of the flusher fails, or the parent's context is done.
  pub data Event (p : Pipe J) : Pipe J → Type 0 where
    own : (q : Pipe J) → Step p q → Event p q
    flusher_fails :
        (e : Error)
        → p.flusher ≡ running
        → Event p (record p { flusher = failed e; error = first p.error e })
    parent_cancels : p.parent_done ≡ false → Event p (record p { parent_done = true })

  -- Runs of `n` events.
  pub data Runs (p : Pipe J) : ℕ → Pipe J → Type 0 where
    here : Runs p 0 p
    more : (n : ℕ) (q r : Pipe J) → Runs p n q → Event q r → Runs p (suc n) r
