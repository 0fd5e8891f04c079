-- ===== src/Http/Download.antt =====
-- decipher.go, Download: what the client can take for the file.
use file_cipher_core.Prelude.{
  ℕ, ◌<◌, ◌≡◌, inl, inr, refl, sym, ap, ◌∙◌, true, false, Bool-cases, none, some, List, [], subst,
  ◌++◌, append-nil, take, drop, take-append-drop, elem,
}
use file_cipher_core.Entity.{Uuid, nil_uuid, Bytes, ChunkData, ChunkKey}
use file_cipher_core.Env.{
  Error, Result, ok, err, blocked, Fault, answered, refused, broken, System, spend, head_outcome,
}
use file_cipher_core.Crypto.{Gcm}
use file_cipher_core.Repository.Message.{UuidText}
use file_cipher_core.Repository.Sql.Uuids.{after}
use file_cipher_core.Repository.Pages.{file_uuids}
use file_cipher_core.Decipher.{DecipherConfig, written, stream_file}
use file_cipher_core.Decipher.Readable.{Readable}
use file_cipher_core.Decipher.Complete.{contents}
use file_cipher_core.Decipher.Sends.{Frame, Sends}
use file_cipher_core.Decipher.Prefix.{stream_file-Sends}
use file_cipher_core.Decipher.Untouched.{Untouched, stream_file-Untouched}
use file_cipher_core.Http.{
  Server, server, recorder, Response, Served, write_header, hijack, implied, is_ids_not_found,
  codes, put, http_error, download_failed, streamed, finish, download, logging,
}

-- `xs` is a prefix of `ys`.
abbrev pub Begins : Bytes → Bytes → Type 0
Begins xs ys = (rest : Bytes) × (xs ++ rest ≡ ys)

-- What a client sees of the download of a file whose text is `whole`: all of it with the status 200;
-- or the status 404 or 500 with a part of that error's text and no byte of the file; or a
-- connection that was closed behind a prefix of the file.
pub data Honest (whole : Bytes) (r : Response) (t : System) : Type 0 where
  complete : r.status ≡ some 200 → r.cut ≡ false → t.output ≡ whole → Honest whole r t
  not_found : r.status ≡ some 404 → Begins t.output (codes "File not found\n") → Honest whole r t
  failed : r.status ≡ some 500 → Begins t.output (codes "download failed\n") → Honest whole r t
  broken_off : r.cut ≡ true → Begins t.output whole → Honest whole r t

written-Begins :
    (f : Fault) (p : Bytes) (s : System) → s.output ≡ [] → Begins (written f p s).1.output p
written-Begins answered p s h = ([], append-nil _ ∙ ap (λ l. l ++ p) h)
written-Begins (refused e) p s h = (p, ap (λ l. l ++ p) h)
written-Begins (broken n e) p s h =
    (drop n p, ap (λ l. (l ++ take n p) ++ drop n p) h ∙ take-append-drop n p)

put-Begins : (p : Bytes) (s : System) → s.output ≡ [] → Begins (put p s).output p
put-Begins p s h =
    written-Begins (head_outcome s.script).fault p (record (spend s) { wrote = true }) h

abbrev pub new_response : Response
new_response = record { status = none; recorded = 200; cut = false }

module _ (whole : Bytes) where
  abbrev Fair : Served → Type 0
  Fair none = Unit
  Fair (some (r, t)) = Honest whole r t

  module _ (c : Server) (can : c.hijacker ≡ true) (does : c.hijack_error ≡ none) where
    failed_untouched :
        (e : Error) (s : System)
        → s.wrote ≡ false
        → s.output ≡ []
        → Fair (finish (download_failed (recorder (server c)) e (implied s.wrote new_response) s))
    unfolding download_failed http_error write_header
    failed_untouched e s unused empty = elim (Bool-cases (is_ids_not_found e)) [
      | inl missing ↦ rw (unused, missing) (not_found refl (put-Begins _ s empty))
      | inr other ↦ rw (unused, other) (failed refl (put-Begins _ s empty))
    ]

    failed_partial :
        (e : Error) (s : System)
        → s.wrote ≡ true
        → Begins s.output whole
        → Fair (finish (download_failed (recorder (server c)) e (implied s.wrote new_response) s))
    unfolding download_failed hijack
    failed_partial e s used part = rw (used, can, does) (broken_off refl part)

    streamed-Fair :
        (keys : List ChunkKey) (chunks : List ChunkData) (p : Result (Unit {0}) × System)
        → Sends keys chunks [] whole p
        → Untouched [] p.1
        → Fair (finish (streamed (recorder (server c)) p new_response))
    unfolding streamed
    streamed-Fair keys chunks (blocked, s) h u = tt
    streamed-Fair keys chunks (ok v, s) h u =
        let all : s.output ≡ whole =
          h.frame.sent_so_far
          ∙ sym (append-nil h.part)
          ∙ ap (λ l. h.part ++ l) (sym (h.whole refl))
          ∙ h.split in
        elim (Bool-cases s.wrote) [
          | inl used ↦ rw used (complete refl refl all)
          | inr unused ↦ rw unused (complete refl refl all)
        ]
    streamed-Fair keys chunks (err e, s) h u = elim (Bool-cases s.wrote) [
      | inl used ↦
          failed_partial e s used (h.rest, ap (λ l. l ++ h.rest) h.frame.sent_so_far ∙ h.split)
      | inr unused ↦ failed_untouched e s unused (u.sent_before unused)
    ]

module _ (g : Gcm) (keys : List ChunkKey) (chunks : List ChunkData) (cfg : DecipherConfig)
    (plain : Uuid → Bytes) (file_id : Uuid)
    (readable : (id : Uuid)
      → elem id (file_uuids file_id chunks) ≡ true
      → Readable g chunks keys id (plain id)) where
  -- No download passes a part of a file off as the file. Let the server's writer be a Hijacker that
  -- works, as net/http's is on HTTP/1, the path name the file, every chunk of it be readable and the
  -- page size positive. Behind the recorder of Logging, whatever faults the databases, the context
  -- and the connection bring, if Download returns then the client has one of three: the status 200
  -- with the file's whole plaintext; the status 404 or 500 with that error's text, or a prefix of
  -- it, and no byte of the file; or a connection closed behind a prefix of the file.
  pub download-Honest :
      (u : UuidText) (path : Bytes) (c : Server) (fuel : ℕ) (s : System) (r : Response) (t : System)
      → c.hijacker ≡ true
      → c.hijack_error ≡ none
      → u.of_text path ≡ ok file_id
      → 0 < cfg.page_size
      → Frame keys chunks [] s
      → logging (download u (stream_file g fuel cfg) path) c s ≡ some (r, t)
      → Honest (contents plain (after nil_uuid (file_uuids file_id chunks))) r t
  unfolding logging download
  download-Honest u path c fuel s r t can does names page f h =
      let whole = contents plain (after nil_uuid (file_uuids file_id chunks)) in
      let start = record s { wrote = false } in
      let frame : Frame keys chunks [] start = record {
        same_keys = f.same_keys;
        same_chunks = f.same_chunks;
        sent_so_far = f.sent_so_far;
      } in
      let fair =
        streamed-Fair whole c can does keys chunks (stream_file g fuel cfg file_id start)
          (stream_file-Sends g keys chunks cfg plain file_id readable fuel [] start page frame)
          (stream_file-Untouched [] g fuel cfg file_id start f.sent_so_far) in
      subst (Fair whole) (rw names at h) fair
