-- ===== src/Channels/Stored.antt =====
-- The group with the loop of the flusher: what the stream holds when both have returned nil.
use mathlib.Core.List.Permᴰ as PermD
use file_cipher_core.Prelude.{ℕ, ◌<◌, ◌≡◌, subst, true, Option, none, List, [], ◌∷◌, map, All}
use file_cipher_core.Entity.{FlushItem}
use file_cipher_core.Env.{Error, ok, System, Exec}
use file_cipher_core.Repository.Stream.{stored}
use file_cipher_core.Flusher.{FlusherConfig, Event, run}
use file_cipher_core.Flusher.Delivery.{arrived, AllStored, Holds, run_stores_all}
use file_cipher_core.Channels.{Made, Pipe, start, Runs, all_over}
use file_cipher_core.Channels.Places.{jobs_of, All-Permᴰ}
use file_cipher_core.Channels.Whole.{IsMade, group_whole}

module _ {J : Type 0} (cap : ℕ) (step : J → Exec FlushItem) (ending : Option Error) where
  -- The stream holds an item that a worker made of the job.
  pub record InStream (s : System) (j : J) : Type 0 where
    pub item : FlushItem
    pub before : System
    pub after : System
    pub made : step j before ≡ (ok item, after)
    pub held : Holds (stored item) s.stream

  all-InStream :
      (s : System) (got : List (Made J))
      → All (IsMade cap step ending) got
      → AllStored (map (λ m. m.item) got) s
      → All (InStream s) (jobs_of got)
  all-InStream s [] made kept = tt
  all-InStream s (m ∷ got) ((u, v, e), made) (h, kept) = (
    record { item = m.item; before = u; after = v; made = e; held = h },
    all-InStream s got made kept,
  )

  -- If the group returns nil and so does the flusher's loop over the items that it received, then
  -- for every job of the producer the stream holds an item made of it.
  pub group_stores :
      (todo : List J) (n : ℕ) (p : Pipe J) (fl : FlusherConfig) (picks : List Event) (s t : System)
      → 0 < cap
      → Runs cap step ending (start cap step ending todo) n p
      → all_over p ≡ true
      → p.error ≡ none
      → arrived picks ≡ map (λ m. m.item) p.got
      → run fl [] picks s ≡ (ok tt, t)
      → All (InStream t) todo
  group_stores todo n p fl picks s t workers runs over fine same ran =
      let (perm, made) = group_whole cap step ending todo n p workers runs over fine in
      All-Permᴰ (InStream t) (jobs_of p.got) todo (PermD.symm perm) (
        all-InStream t p.got made
          (subst (λ l. AllStored l t) same (run_stores_all fl picks [] s t ran)))
