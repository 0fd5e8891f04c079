-- ===== src/Http/Answers.antt =====
-- The status of each answer of the handlers, and the one that Logging writes down.
use file_cipher_core.Prelude.{ℕ, ◌≡◌, refl, false, Bool-cases, inl, inr, Option, none, some}
use file_cipher_core.Entity.{Uuid, Bytes}
use file_cipher_core.Env.{Error, Result, ok, err, blocked, System, Exec}
use file_cipher_core.Repository.Message.{UuidText}
use file_cipher_core.Http.{
  Server, server, recorder, Response, Served, write_header, hijack, hijacked, implied,
  is_ids_not_found, with_id, http_error, download_failed, streamed, finish, download, rotated,
  rotate, encrypted, encrypt, logging,
}
use file_cipher_core.Http.Download.{new_response}

-- The status that was sent is the recorded one.
abbrev pub Recorded : Served → Type 0
Recorded none = Unit {0}
Recorded (some (r, t)) = r.status ≡ some r.recorded

hijacked_recorded :
    (o : Option Error) (r : Response) (s : System)
    → r.status ≡ some r.recorded
    → Recorded (finish (some (hijacked o r, s)))
hijacked_recorded none r s h = rw h refl
hijacked_recorded (some e) r s h = rw h refl

module _ (c : Server) where
  download_failed-Recorded :
      (e : Error) (s : System)
      → Recorded (finish (download_failed (recorder (server c)) e (implied s.wrote new_response) s))
  unfolding download_failed http_error write_header hijack
  download_failed-Recorded e s = elim (Bool-cases s.wrote) [
    | inl used ↦ simp used (hijacked_recorded (hijack (recorder (server c))) _ s refl)
    | inr unused ↦ elim (Bool-cases (is_ids_not_found e)) [
      | inl missing ↦ rw (unused, missing) refl
      | inr other ↦ rw (unused, other) refl
    ]
  ]

  streamed-Recorded :
      (p : Result (Unit {0}) × System)
      → Recorded (finish (streamed (recorder (server c)) p new_response))
  unfolding streamed
  streamed-Recorded (blocked, s) = tt
  streamed-Recorded (err e, s) = download_failed-Recorded e s
  streamed-Recorded (ok v, s) = elim (Bool-cases s.wrote) [
    | inl used ↦ simp used refl
    | inr unused ↦ simp unused refl
  ]

  rotated-Recorded :
      (p : Result (Unit {0}) × System)
      → Recorded (finish (rotated (recorder (server c)) p new_response))
  unfolding rotated
  rotated-Recorded (blocked, s) = tt
  rotated-Recorded (err e, s) = refl
  rotated-Recorded (ok v, s) = refl

  encrypted-Recorded :
      (u : UuidText) (id : Uuid) (p : Result (Unit {0}) × System)
      → Recorded (finish (encrypted u id (recorder (server c)) p new_response))
  unfolding encrypted
  encrypted-Recorded u id (blocked, s) = tt
  encrypted-Recorded u id (err e, s) = refl
  encrypted-Recorded u id (ok v, s) = refl

  with_id-Recorded :
      (r : Result Uuid) (s : System) (go : Uuid → Served)
      → ((id : Uuid) → Recorded (finish (go id)))
      → Recorded (finish (with_id (recorder (server c)) r new_response s go))
  unfolding http_error write_header
  with_id-Recorded (ok id) s go h = h id
  with_id-Recorded (err e) s go h = refl
  with_id-Recorded blocked s go h = tt

  encrypt-Recorded :
      (u : UuidText) (encrypt_file : Uuid → Exec (Unit {0})) (new_id : Option Uuid) (s : System)
      → Recorded (finish (encrypt u encrypt_file new_id (recorder (server c)) new_response s))
  unfolding encrypt http_error write_header
  encrypt-Recorded u encrypt_file none s = refl
  encrypt-Recorded u encrypt_file (some id) s = encrypted-Recorded u id (encrypt_file id s)

  -- Logging writes down the status that the client gets: for each of the three handlers, whatever
  -- its service does and whatever the server's writer can do, if the handler returns, a status has
  -- been sent, and it is the recorder's.
  pub logging-Recorded :
      (u : UuidText) (path : Bytes) (new_id : Option Uuid) (service : Uuid → Exec (Unit {0}))
      (s : System)
      → Recorded (logging (download u service path) c s)
        × Recorded (logging (rotate u service path) c s)
        × Recorded (logging (encrypt u service new_id) c s)
  unfolding logging download rotate
  logging-Recorded u path new_id service s = (
    with_id-Recorded (u.of_text path) s _
        (λ id. streamed-Recorded (service id (record s { wrote = false }))),
    with_id-Recorded (u.of_text path) s _ (λ id. rotated-Recorded (service id s)),
    encrypt-Recorded u service new_id s,
  )

-- What Rotate and Encrypt answer for a result of their service.
abbrev pub Tells : ℕ → Result (Unit {0}) → Served → Type 0
Tells success (ok v) none = ⊥
Tells success (ok v) (some (r, t)) = r.status ≡ some success
Tells success (err e) none = ⊥
Tells success (err e) (some (r, t)) = r.status ≡ some 500
Tells success blocked none = Unit {0}
Tells success blocked (some (r, t)) = ⊥

rotated-Tells :
    (c : Server) (p : Result (Unit {0}) × System)
    → Tells 200 p.0 (finish (rotated (recorder (server c)) p new_response))
unfolding rotated
rotated-Tells c (ok v, s) = refl
rotated-Tells c (err e, s) = refl
rotated-Tells c (blocked, s) = tt

encrypted-Tells :
    (c : Server) (u : UuidText) (id : Uuid) (p : Result (Unit {0}) × System)
    → Tells 201 p.0 (finish (encrypted u id (recorder (server c)) p new_response))
unfolding encrypted
encrypted-Tells c u id (ok v, s) = refl
encrypted-Tells c u id (err e, s) = refl
encrypted-Tells c u id (blocked, s) = tt

-- Behind Logging, Rotate and Encrypt return exactly when their service does. Where the path is the
-- text of a uuid, Rotate answers 200 if Run returned nil and 500 if it returned an error; where a
-- uuid could be made, Encrypt answers 201 if EncryptFile returned nil and 500 if it returned an
-- error.
pub handlers-Tells :
    (c : Server) (u : UuidText) (path : Bytes) (id : Uuid) (service : Uuid → Exec (Unit {0}))
    (s : System)
    → u.of_text path ≡ ok id
    → Tells 200 (service id s).0 (logging (rotate u service path) c s)
      × Tells 201 (service id s).0 (logging (encrypt u service (some id)) c s)
unfolding logging rotate encrypt
handlers-Tells c u path id service s names =
    (rw names (rotated-Tells c (service id s)), encrypted-Tells c u id (service id s))
