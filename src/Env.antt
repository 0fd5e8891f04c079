-- ===== src/Env.antt =====
-- What the services stand on: errors as values, the state that a call reads and changes (both
-- databases, Redis, the response, the clock and the context), and the faults of external calls.
pub mod Quiet
pub mod Keeps
pub mod Binds
use Prim.Native.String.{String}
use file_cipher_core.Prelude.{
  ℕ, zero, suc, ◌+◌, ◌≡◌, refl, Bool, true, false, Option, none, some, List, [], ◌∷◌, leb,
  if◌then◌else◌,
}
use file_cipher_core.Entity.{Uuid, Bytes, ChunkData, ChunkKey, PendingItem}

-- Which format string of the code wraps an error; the texts themselves are not modelled.
pub data Site : Type 0 where
  retry_exhausted last_error : Site
  get_chunk_uuids get_latest_data get_latest_keys delete_old_data delete_old_keys load_cursor : Site
  get_data_version get_key_version data_not_found key_not_found version_mismatch : Uuid → Site
  decrypt_chunk write_chunk generate_key encrypt_chunk desync : Uuid → Site
  flush_pending add_pending read_pending claim_pending write_pending ack_pending read_chunk : Site
  new_chunk_uuid cursor_init parse_pool_config create_pool ping : Site
  not_string not_uuid not_int not_int64 : String → Site

pub data Error : Type 0 where
  canceled : Error  -- context.Canceled
  no_rows : Error  -- pgx.ErrNoRows
  postgres : ℕ → Error  -- *pgconn.PgError, by its SQLSTATE
  short_ciphertext invalid_nonce key_size auth_failed : Error
  ids_not_found : Error
  short_write : Error
  io_eof io_unexpected_eof : Error
  busy_group : Error  -- Redis' BUSYGROUP
  external : ℕ → Error  -- any other error of a callee
  wrap : Site → Error → Error  -- fmt.Errorf with %w
  message : Site → Error  -- fmt.Errorf without %w

-- pgerrcode.UniqueViolation
abbrev pub unique_violation : ℕ
unique_violation = 23505

-- `blocked`: the call has not returned, since the fuel of its loop or the events that it selects
-- from have run out.
pub data Result {ℓ} (A : Type ℓ) : Type ℓ where
  ok : A → Result A
  err : Error → Result A
  blocked : Result A

-- How one external call ends. `refused` has no effect; `broken n` took effect for its first `n`
-- commands (for an atomic call, wholly), and then failed, as when the reply is lost.
pub data Fault : Type 0 where
  answered : Fault
  refused : Error → Fault
  broken : ℕ → Error → Fault

pub record Outcome : Type 0 where
  pub takes : ℕ
  pub fault : Fault

-- An entry of the pending entries list: who has the stream entry, and since when.
pub record Delivery : Type 0 where
  pub id : ℕ
  pub consumer : ℕ
  pub since : ℕ

-- A cursor of the Redis keys "cursor:<op>", and when it expires, if it does.
pub record Cursor : Type 0 where
  pub op : Uuid
  pub last : Uuid
  pub expires : Option ℕ

pub record System : Type 0 where
  pub now : ℕ
  -- the time from which ctx.Done() is closed, if it ever is
  pub cancel_at : Option ℕ
  -- which case a select takes when the context and a timer are ready at once
  pub timer_first : ℕ → Bool
  -- the outcomes of the coming external calls; after the last one, all are answered at once
  pub script : List Outcome
  -- the bytes of crypto/rand, and how many are used
  pub random : ℕ → ℕ
  pub drawn : ℕ
  -- cipher.chunk_keys and cipher.chunk_data
  pub keys : List ChunkKey
  pub chunks : List ChunkData
  -- the Redis stream, oldest entry first, and the next entry's id
  pub stream : List PendingItem
  pub next_id : ℕ
  -- the consumer group: the last id that it has given out, and what it has not acknowledged
  pub last_delivered : ℕ
  pub pel : List Delivery
  pub cursors : List Cursor
  -- the body that the client has received, and whether the response has been written to
  pub output : Bytes
  pub wrote : Bool

abbrev pub Exec {ℓ} : Type ℓ → Type ℓ
Exec A = System → Result A × System

abbrev pub chain {ℓ κ} :
    {A : Type ℓ} {B : Type κ} → Result A × System → (A → Exec B) → Result B × System
chain (ok a, s) f = f a s
chain (err e, s) f = (err e, s)
chain (blocked, s) f = (blocked, s)

infixl 5 ◌>>=◌ ◌>>◌
abbrev pub ◌>>=◌ {ℓ κ} : {A : Type ℓ} {B : Type κ} → Exec A → (A → Exec B) → Exec B
◌>>=◌ m f s = chain (m s) f

abbrev pub ◌>>◌ {ℓ κ} : {A : Type ℓ} {B : Type κ} → Exec A → Exec B → Exec B
m >> k = m >>= λ _. k

abbrev pub pure {ℓ} : {A : Type ℓ} → A → Exec A
pure a s = (ok a, s)

abbrev pub raise {ℓ} : {A : Type ℓ} → Error → Exec A
raise e s = (err e, s)

-- `if err != nil { return fmt.Errorf("…: %w", err) }`
abbrev pub wrapped {ℓ} : {A : Type ℓ} → Site → Result A → Result A
wrapped site (ok a) = ok a
wrapped site (err e) = err (wrap site e)
wrapped site blocked = blocked

abbrev pub wrapping {ℓ} : {A : Type ℓ} → Site → Exec A → Exec A
wrapping site m s = let (r, s') = m s in (wrapped site r, s')

abbrev pub lift {ℓ} : {A : Type ℓ} → Result A → Exec A
lift r s = (r, s)

-- ctx.Err()
abbrev pub is_canceled : Option ℕ → ℕ → Bool
is_canceled none now = false
is_canceled (some t) now = leb t now

abbrev pub ctx_err : System → Option Error
ctx_err s = if is_canceled s.cancel_at s.now then some canceled else none

abbrev pub head_outcome : List Outcome → Outcome
head_outcome [] = record { takes = 0; fault = answered }
head_outcome (o ∷ rest) = o

abbrev pub tail_outcomes : List Outcome → List Outcome
tail_outcomes [] = []
tail_outcomes (o ∷ rest) = rest

-- One external call uses up one outcome and its time.
abbrev pub spend : System → System
spend s = record s { now = s.now + (head_outcome s.script).takes; script = tail_outcomes s.script }

-- A call that only reads: an answer, or the fault's error.
abbrev pub replied {ℓ} : {A : Type ℓ} → Fault → Result A → Result A
replied answered r = r
replied (refused e) r = err e
replied (broken n e) r = err e

abbrev pub query {ℓ} : {A : Type ℓ} → (System → Result A) → Exec A
query q s = (replied (head_outcome s.script).fault (q (spend s)), spend s)

-- An atomic call that changes the state; what it answers is lost if the connection breaks.
abbrev pub committed {ℓ} : {A : Type ℓ} → Fault → Result A × System → System → Result A × System
committed answered r s = r
committed (refused e) r s = (err e, s)
committed (broken n e) r s = (err e, r.1)

abbrev pub commit {ℓ} : {A : Type ℓ} → Exec A → Exec A
commit m s = committed (head_outcome s.script).fault (m (spend s)) (spend s)
