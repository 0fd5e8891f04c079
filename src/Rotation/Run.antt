-- ===== src/Rotation/Run.antt =====
-- cipher_rotation.go, Rotator.Run as a whole: the group, and what follows it.
use file_cipher_core.Prelude.{
  ℕ, ◌<◌, ◌≡◌, ◌≢◌, ◌+◌, sym, ap, ◌∙◌, subst, true, Option, none, some, List, [], ◌∷◌, map, All,
  arith,
}
use file_cipher_core.Entity.{Uuid, Bytes, FlushItem}
use file_cipher_core.Env.{Error, Result, ok, err, blocked, System, Exec, ◌>>=◌, raise, chain}
use file_cipher_core.Env.Binds.{chain-ok}
use file_cipher_core.Crypto.{Gcm, IsGcm, decrypt}
use file_cipher_core.Item.{Seals}
use file_cipher_core.Cipher.{Send}
use file_cipher_core.Repository.Stream.{stored}
use file_cipher_core.Repository.Cursors.{delete_cursor}
use file_cipher_core.Flusher.{FlusherConfig, Event, run}
use file_cipher_core.Flusher.Delivery.{Holds, arrived}
use file_cipher_core.Channels.{finished, all_over, Pipe, start, Runs}
use file_cipher_core.Channels.Invariant.{runs-Inv}
use file_cipher_core.Channels.Stored.{InStream, group_stores}
use file_cipher_core.Upload.{as_result, SameEnd}
use file_cipher_core.Rotation.{RotationJob, RotatorConfig, rotate_job, delete_old_versions}
use file_cipher_core.Rotation.Reseal.{rotate_job-reseals}
use file_cipher_core.Rotation.Produce.{produce}
use file_cipher_core.Rotation.Tables.{SameTables, run-SameTables, produce-SameTables}

-- An error that is only logged.
abbrev pub logged : Result (Unit {0}) → Result (Unit {0})
logged (ok v) = ok tt
logged (err e) = ok tt
logged blocked = blocked

module _ (cfg : RotatorConfig) (file_id : Uuid) where
  -- Behind g.Wait, which has returned `as_result error`.
  unfoldable pub finish : ℕ → Option Error → Exec (Unit {0})
  finish fuel (some e) = raise e
  finish fuel none = delete_old_versions cfg file_id fuel >>= λ _ s.
      (logged (delete_cursor file_id s).0, (delete_cursor file_id s).1)

  -- A call of Run: its group has returned `as_result error`. The producer, which reads the tables and
  -- moves the cursor, took the state from `s` to `read`, and the flusher, which writes the stream,
  -- from there to `u`; behind g.Wait Run took it to `t`, and has returned `result`. `produces` is what
  -- the producer did, so where its context was done before it had sent all, `ending` says so.
  pub record RotatorRun (g : Gcm) (ttl : ℕ) (fl : FlusherConfig) (error : Option Error)
      (s u : System) (result : Result (Unit {0})) (t : System) : Type 0 where
    pub pages : ℕ
    pub sends : List Send
    pub jobs : List RotationJob
    pub ending : Option Error
    pub read : System
    pub produces : produce cfg ttl file_id pages sends s ≡ ((as_result ending, jobs), read)
    pub events : ℕ
    pub pipe : Pipe RotationJob
    pub runs :
        Runs cfg.workers
          (rotate_job g)
          ending
          (start cfg.workers (rotate_job g) ending jobs)
          events
          pipe
    pub over : all_over pipe ≡ true
    pub returns : pipe.error ≡ error
    pub picks : List Event
    pub arrivals : arrived picks ≡ map (λ m. m.item) pipe.got
    pub flushed : Result (Unit {0})
    pub flushes : run fl [] picks read ≡ (flushed, u)
    pub same_end : SameEnd pipe.flusher flushed
    pub fuel : ℕ
    pub finishes : finish fuel error u ≡ (result, t)

-- The stream holds the next version of the job's chunk, with the text that the old one opens to.
pub record Resealed (g : Gcm) (s : System) (j : RotationJob) : Type 0 where
  pub item : FlushItem
  pub plain : Bytes
  pub opens : decrypt g j.old_key.key j.current.ciphertext j.current.nonce ≡ ok plain
  pub seals : Seals g j.current.uuid j.current.file_id (j.current.version + 1) plain item
  pub held : Holds (stored item) s.stream

logged_never : (r : Result (Unit {0})) (e : Error) → logged r ≢ err e
logged_never (ok v) e h = cc
logged_never (err x) e h = cc
logged_never blocked e h = cc

-- What Run does behind a group that has returned nil: Run ends as deleteOldVersions does, and the
-- cursor goes only behind a success of it.
pub record Deletes (cfg : RotatorConfig) (file_id : Uuid) (fuel : ℕ) (u : System)
    (result : Result (Unit {0})) (t : System) : Type 0 where
  pub succeeds :
      result ≡ ok tt
      → (v : System) × (delete_old_versions cfg file_id fuel u ≡ (ok tt, v))
        × (t ≡ (delete_cursor file_id v).1)
  pub fails : (e : Error) → result ≡ err e → delete_old_versions cfg file_id fuel u ≡ (err e, t)

module _ (cfg : RotatorConfig) (file_id : Uuid) (fuel : ℕ) (u : System) (result : Result (Unit {0}))
    (t : System) where
  stops_at :
      (e : Error) → finish cfg file_id fuel (some e) u ≡ (result, t) → (result ≡ err e) × (t ≡ u)
  unfolding finish
  stops_at e h = (sym (ap (λ p. p.0) h), sym (ap (λ p. p.1) h))

  logged_fails :
      (p q : Result (Unit {0}) × System) (e : Error)
      → chain p (λ _ s. (logged (delete_cursor file_id s).0, (delete_cursor file_id s).1)) ≡ q
      → q.0 ≡ err e
      → p ≡ (err e, q.1)
  logged_fails (err e', s) q e h r = cc
  logged_fails (blocked, s) q e h r = cc
  logged_fails (ok v, s) q e h r =
      absurd (logged_never (delete_cursor file_id s).0 e (ap (λ p. p.0) h ∙ r))

  finish-Deletes :
      finish cfg file_id fuel none u ≡ (result, t) → Deletes cfg file_id fuel u result t
  unfolding finish
  finish-Deletes h = record {
    succeeds = λ done.
        let (v, w, deleted, rest) =
          chain-ok (delete_old_versions cfg file_id fuel u) _ tt t (h ∙ ap (λ r. (r, t)) done) in
        (w, deleted, sym (ap (λ x. x.1) rest));
    fails = λ e bad. logged_fails (delete_old_versions cfg file_id fuel u) (result, t) e h bad;
  }

module _ (g : Gcm) (law : IsGcm g) (cfg : RotatorConfig) (file_id : Uuid) (ttl : ℕ)
    (fl : FlusherConfig) (error : Option Error) (s u : System) (result : Result (Unit {0}))
    (t : System) where
  all-Resealed :
      (ending : Option Error) (jobs : List RotationJob)
      → All (InStream cfg.workers (rotate_job g) ending u) jobs
      → All (Resealed g u) jobs
  all-Resealed ending [] h = tt
  all-Resealed ending (j ∷ jobs) (i, h) =
      let (plain, opens, seals) = rotate_job-reseals g law j i.before i.item i.after i.made in
      (
        record { item = i.item; plain = plain; opens = opens; seals = seals; held = i.held },
        all-Resealed ending jobs h,
      )

  -- Run deletes old versions only behind a group that has returned nil, and then the new ones are in
  -- the stream. The group itself changes neither table. If g.Wait has returned an error, Run returns
  -- this error, and the state is the one that the group left: no version and no cursor is deleted. If
  -- it has returned nil, the producer
  -- has ended without an error, and the state in which deleteOldVersions starts has in its stream,
  -- for every job of the producer, the next version of the chunk, sealed under a new key and with
  -- the text that the old version opens to. Run then returns nil only if deleteOldVersions does, and
  -- only then the cursor is deleted, where a failure is no error; an error of Run is one of
  -- deleteOldVersions. There is at least one worker, and AES-GCM keeps its laws.
  pub rotator_run_keeps :
      (c : RotatorRun cfg file_id g ttl fl error s u result t)
      → 0 < cfg.workers
      → SameTables s u
        × ((e : Error) → error ≡ some e → (result ≡ err e) × (t ≡ u))
        × (error ≡ none
            → (c.ending ≡ none) × All (Resealed g u) c.jobs × Deletes cfg file_id c.fuel u result t)
  rotator_run_keeps c workers =
      let inv = runs-Inv cfg.workers (rotate_job g) c.ending c.jobs c.events c.pipe c.runs in
      (
        subst (SameTables s) (ap (λ p. p.1) c.flushes) (
            (run-SameTables s fl c.picks []).at c.read (
              subst (SameTables s) (ap (λ p. p.1) c.produces)
                (produce-SameTables s cfg ttl file_id c.pages c.sends))),
        λ e failed.
            stops_at cfg file_id c.fuel u result t e
              (ap (λ x. finish cfg file_id c.fuel x u) (sym failed) ∙ c.finishes),
        λ fine.
            let quiet : c.pipe.error ≡ none = c.returns ∙ fine in
            let clean : c.ending ≡ none = (let o = c.over in ground (arith, inv)) in
            let done : c.pipe.flusher ≡ finished = (let o = c.over in ground (arith, inv)) in
            let nil : c.flushed ≡ ok tt = subst (λ e. SameEnd e c.flushed) done c.same_end in
            (
              clean,
              all-Resealed c.ending c.jobs (
                  group_stores cfg.workers (rotate_job g) c.ending c.jobs c.events c.pipe fl c.picks
                    c.read u workers c.runs c.over quiet c.arrivals
                    (c.flushes ∙ ap (λ r. (r, u)) nil)),
              finish-Deletes cfg file_id c.fuel u result t
                  (ap (λ x. finish cfg file_id c.fuel x u) (sym fine) ∙ c.finishes),
            ),
      )
