-- ===== src/Http.antt =====
-- internal/handler/http: the handlers of v1, and the recorder of middleware around net/http's writer.
pub mod Download
pub mod Answers
use Prim.Native.Char.{code}
use Prim.Native.String.{String}
use file_cipher_core.Prelude.{
  ℕ, Bool, true, false, Option, none, some, List, [], ◌∷◌, ◌++◌, if◌then◌else◌,
}
use file_cipher_core.Entity.{Uuid, Bytes}
use file_cipher_core.Env.{
  Error, ids_not_found, wrap, Result, ok, err, blocked, System, Exec, spend, head_outcome,
}
use file_cipher_core.Repository.Message.{UuidText}
use file_cipher_core.Decipher.{written}

-- net/http's writer, by what it implements: Flusher is left out, Hijacker fails with an error or not.
pub record Server : Type 0 where
  pub hijacker : Bool
  pub hijack_error : Option Error

-- An http.ResponseWriter: the server's, or a statusRecorder around another.
pub data Writer : Type 0 where
  server : Server → Writer
  recorder : Writer → Writer

-- The response to one request: the status line once it is sent, the status of the recorder, and
-- whether the connection was closed under it. The body is the output of the state.
pub record Response : Type 0 where
  pub status : Option ℕ
  pub recorded : ℕ
  pub cut : Bool

-- A handler's work; none stands for one that has not returned.
abbrev pub Served : Type 0
Served = Option (Response × System)

abbrev pub or_else : Option ℕ → ℕ → Option ℕ
or_else none code = some code
or_else (some c) code = some c

-- WriteHeader: net/http ignores it once a status is sent; the recorder notes it, and passes it on.
unfoldable pub write_header : Writer → ℕ → Response → Response
write_header (server c) code r = record r { status = or_else r.status code }
write_header (recorder w) code r = record (write_header w code r) { recorded = code }

-- _, ok := w.(http.Hijacker)
abbrev pub is_hijacker : Writer → Bool
is_hijacker (server c) = c.hijacker
is_hijacker (recorder w) = true

-- Hijack, which the recorder asks of what it wraps.
unfoldable pub hijack : Writer → Option Error
hijack (server c) = c.hijack_error
hijack (recorder w) =
    let inner = hijack w in if is_hijacker w then inner else some (Error.external 0)

abbrev pub codes : String → Bytes
codes String.[] = []
codes (String.◌∷◌ c s) = code c ∷ codes s

-- A body that the handler writes last; a failure of it is not looked at.
abbrev pub put : Bytes → System → System
put p s = (written (head_outcome s.script).fault p (record (spend s) { wrote = true })).1

-- http.Error
unfoldable pub http_error : Writer → ℕ → String → Response → System → Served
unfolding write_header
http_error w status text r s = some (write_header w status r, put (codes text ++ 10 ∷ []) s)

-- The status line goes out with the first byte of the body, where WriteHeader did not send it.
abbrev pub implied : Bool → Response → Response
implied wrote r = if wrote then record r { status = or_else r.status 200 } else r

-- errors.Is(err, service.ErrIDsNotFound)
abbrev pub is_ids_not_found : Error → Bool
is_ids_not_found ids_not_found = true
is_ids_not_found (wrap site e) = is_ids_not_found e
is_ids_not_found _ = false

-- The end of Download behind an error: nothing written, or a part of the body sent.
abbrev pub hijacked : Option Error → Response → Response
hijacked none r = record r { cut = true }
hijacked (some e) r = r

unfoldable pub download_failed : Writer → Error → Response → System → Served
unfolding http_error hijack
download_failed w e r s =
    if s.wrote
    then some (if is_hijacker w then hijacked (hijack w) r else r, s)
    else if is_ids_not_found e
    then http_error w 404 "File not found" r s
    else http_error w 500 "download failed" r s

unfoldable pub streamed : Writer → Result (Unit {0}) × System → Response → Served
unfolding download_failed
streamed w (ok _, s) r = some (implied s.wrote r, s)
streamed w (blocked, s) r = none
streamed w (err e, s) r = download_failed w e (implied s.wrote r) s

abbrev pub with_id : Writer → Result Uuid → Response → System → (Uuid → Served) → Served
unfolding http_error
with_id w (ok id) r s go = go id
with_id w (err e) r s go = http_error w 400 "invalid file id" r s
with_id w blocked r s go = none

-- Download, Rotate and Encrypt, whose services are parameters; `path` is the text in the URL.
unfoldable pub download :
    UuidText → (Uuid → Exec (Unit {0})) → Bytes → Writer → Response → System → Served
unfolding streamed http_error
download u stream_file path w r s =
    with_id w (u.of_text path) r s
      (λ id. streamed w (stream_file id (record s { wrote = false })) r)

unfoldable pub rotated : Writer → Result (Unit {0}) × System → Response → Served
unfolding write_header http_error
rotated w (ok _, s) r = some (write_header w 200 r, s)
rotated w (blocked, s) r = none
rotated w (err e, s) r = http_error w 500 "rotation failed" r s

unfoldable pub rotate :
    UuidText → (Uuid → Exec (Unit {0})) → Bytes → Writer → Response → System → Served
unfolding rotated http_error
rotate u run path w r s = with_id w (u.of_text path) r s (λ id. rotated w (run id s) r)

-- json.NewEncoder(w).Encode(encryptResponse{…})
abbrev pub encode_response : Bytes → Bytes
encode_response id = codes "{\"file_id\":\"" ++ (id ++ (codes "\"}" ++ 10 ∷ []))

unfoldable pub encrypted : UuidText → Uuid → Writer → Result (Unit {0}) × System → Response → Served
unfolding write_header http_error
encrypted u id w (ok _, s) r = some (write_header w 201 r, put (encode_response (u.to_text id)) s)
encrypted u id w (blocked, s) r = none
encrypted u id w (err e, s) r = http_error w 500 "encryption failed" r s

-- `new_id` is what uuid.NewV7 returns, an error as none.
unfoldable pub encrypt :
    UuidText → (Uuid → Exec (Unit {0})) → Option Uuid → Writer → Response → System → Served
unfolding encrypted http_error
encrypt u encrypt_file none w r s = http_error w 500 "internal error" r s
encrypt u encrypt_file (some id) w r s = encrypted u id w (encrypt_file id s) r

-- What net/http does behind a handler: without a status it sends 200.
abbrev pub finish : Served → Served
finish none = none
finish (some (r, s)) = some (record r { status = or_else r.status 200 }, s)

-- Logging: the handler gets a recorder around the server's writer, which starts at 200.
unfoldable pub logging : (Writer → Response → System → Served) → Server → System → Served
logging next c s =
    finish (next (recorder (server c)) (record { status = none; recorded = 200; cut = false }) s)
