-- ===== src/Repository/Message.antt =====
-- pending_store.go: the fields of a stream entry as texts, and how Read and Claim parse them.
pub mod Parse
pub mod Refines
pub mod Poison
use Prim.Native.String.{String}
use text.Mathlib.Text.{◌==◌}
use file_cipher_core.Prelude.{
  length, ℕ, ◌+◌, Option, none, some, List, [], ◌∷◌, ◌++◌, map, keep, take, elem, ltb,
  if◌then◌else◌,
}
use file_cipher_core.Entity.{Uuid, Bytes, FlushItem}
use file_cipher_core.Env.{
  Error, wrap, message, not_string, not_uuid, not_int, not_int64, add_pending, read_pending,
  claim_pending, Result, ok, err, blocked, Fault, answered, refused, broken, System, Exec, ◌>>=◌,
  pure, lift, wrapped, wrapping, commit, head_outcome, spend,
}
use file_cipher_core.Retry.{ℤ}
use file_cipher_core.Strconv.{print_int, parse_int}
use file_cipher_core.Repository.Stream.{
  read_count, claim_count, last_id, deliveries, stale, ids_from,
}

-- A value of a map[string]any: a string, or something of another type.
pub data Value : Type 0 where
  str : Bytes → Value
  other : Value

abbrev pub Values : Type 0
Values = List (String × Value)

-- redis.XMessage
pub record Message : Type 0 where
  pub id : ℕ
  pub values : Values

-- values[field], where nil is none
unfoldable pub get : Values → String → Option Value
get [] field = none
get ((name, v) ∷ values) field = if name == field then some v else get values field

-- v, ok := values[field].(string)
abbrev pub as_string : String → Option Value → Result Bytes
as_string field none = err (message (not_string field))
as_string field (some other) = err (message (not_string field))
as_string field (some (str s)) = ok s

unfoldable pub parse_string : Values → String → Result Bytes
unfolding get
parse_string values field = as_string field (get values field)

abbrev pub then_parse {ℓ} : {A : Type ℓ} → Result Bytes → (Bytes → Result A) → Result A
then_parse (ok s) f = f s
then_parse (err e) f = err e
then_parse blocked f = blocked

-- An error of strconv, by its wrapper.
abbrev pub or_err : Error → Option ℤ → Result ℤ
or_err e none = err e
or_err e (some n) = ok n

unfoldable pub parse_int_field : Values → String → Result ℤ
unfolding parse_string
parse_int_field values field =
    then_parse (parse_string values field)
      (λ s. or_err (wrap (not_int field) (Error.external 0)) (parse_int s))

unfoldable pub parse_int64_field : Values → String → Result ℤ
unfolding parse_string
parse_int64_field values field =
    then_parse (parse_string values field)
      (λ s. or_err (wrap (not_int64 field) (Error.external 0)) (parse_int s))

-- uuid.UUID's String and uuid.Parse
pub record UuidText : Type 0 where
  pub to_text : Uuid → Bytes
  pub of_text : Bytes → Result Uuid

-- What an entity.PendingItem holds behind parsePendingItem: its key and its data share the uuid, the
-- version and the time. The parsed numbers have a sign.
pub record ParsedItem : Type 0 where
  pub id : ℕ
  pub uuid : Uuid
  pub file_id : Uuid
  pub ciphertext : Bytes
  pub nonce : Bytes
  pub key : Bytes
  pub version : ℤ
  pub created_at : ℤ

infixl 5 ◌>>>◌
abbrev pub ◌>>>◌ {ℓ κ} : {A : Type ℓ} {B : Type κ} → Result A → (A → Result B) → Result B
ok a >>> f = f a
err e >>> f = err e
blocked >>> f = blocked

module _ (u : UuidText) where
  -- The Values of XAdd.
  unfoldable pub to_values : FlushItem → Values
  to_values item =
      ("uuid", str (u.to_text item.chunk.uuid))
      ∷ ("file_id", str (u.to_text item.chunk.file_id))
      ∷ ("ciphertext", str item.chunk.ciphertext)
      ∷ ("nonce", str item.chunk.nonce)
      ∷ ("key", str item.key.key)
      ∷ ("version", str (print_int item.chunk.version))
      ∷ ("created_at", str (print_int item.chunk.created_at))
      ∷ []

  unfoldable pub parse_uuid : Values → String → Result Uuid
  unfolding parse_string
  parse_uuid values field =
      then_parse (parse_string values field) (λ s. wrapped (not_uuid field) (u.of_text s))

  unfoldable pub parse_pending_item : Message → Result ParsedItem
  unfolding parse_uuid parse_string parse_int_field parse_int64_field
  parse_pending_item msg = parse_uuid msg.values "uuid" >>> λ data_uuid.
      parse_uuid msg.values "file_id" >>> λ file_id.
      parse_string msg.values "ciphertext" >>> λ ciphertext.
      parse_string msg.values "nonce" >>> λ nonce. parse_string msg.values "key" >>> λ key.
      parse_int_field msg.values "version" >>> λ version.
      parse_int64_field msg.values "created_at" >>> λ created_at. ok record {
        id = msg.id;
        uuid = data_uuid;
        file_id = file_id;
        ciphertext = ciphertext;
        nonce = nonce;
        key = key;
        version = version;
        created_at = created_at;
      }

  abbrev pub cons_parsed : Result ParsedItem → List ParsedItem → List ParsedItem
  cons_parsed (ok item) items = item ∷ items
  cons_parsed (err e) items = items
  cons_parsed blocked items = items

  -- The loop over the messages: what does not parse is logged and skipped.
  unfoldable pub parse_messages : List Message → List ParsedItem
  unfolding parse_pending_item
  parse_messages [] = []
  parse_messages (msg ∷ msgs) = cons_parsed (parse_pending_item msg) (parse_messages msgs)

abbrev pub message_ids : List Message → List ℕ
message_ids = map (λ m. m.id)

-- The stream as Redis holds it, beside the rest of the state.
abbrev pub TextStream : Type 0
TextStream = List Message

-- XREADGROUP and XAUTOCLAIM of Stream, on messages.
abbrev pub delivering_text : TextStream → ℕ → ℕ → Exec (List Message)
delivering_text stream consumer amount s =
    let new = keep (λ m. ltb s.last_delivered m.id) stream in
    let batch = take (read_count amount (length new)) new in
    (
      ok batch,
      record s {
        last_delivered = last_id s.last_delivered (message_ids batch);
        pel = s.pel ++ deliveries consumer s.now (message_ids batch);
      },
    )

abbrev pub claiming_text : TextStream → ℕ → ℕ → ℕ → Exec (List Message)
claiming_text stream consumer min_idle amount s =
    let ids = take (claim_count amount) (stale min_idle s) in
    (
      ok (keep (λ m. elem m.id ids) stream),
      record s {
        pel =
            map (λ d. if elem d.id ids then record d { consumer = consumer; since = s.now } else d)
              s.pel;
      },
    )

module _ (u : UuidText) where
  -- Read and Claim
  unfoldable pub read_messages : TextStream → ℕ → ℕ → Exec (List ParsedItem)
  unfolding parse_messages
  read_messages stream consumer amount =
      wrapping read_pending (commit (delivering_text stream consumer amount)) >>= λ msgs.
      pure (parse_messages u msgs)

  unfoldable pub claim_messages : TextStream → ℕ → ℕ → ℕ → Exec (List ParsedItem)
  unfolding parse_messages
  claim_messages stream consumer min_idle amount =
      wrapping claim_pending (commit (claiming_text stream consumer min_idle amount)) >>= λ msgs.
      pure (parse_messages u msgs)

  -- The messages of `items`, the first with the id `next`.
  unfoldable pub messages_from : ℕ → List FlushItem → List Message
  unfolding to_values
  messages_from next [] = []
  messages_from next (item ∷ items) =
      record { id = next; values = to_values u item } ∷ messages_from (next + 1) items

  abbrev pub count_up : ℕ → List FlushItem → ℕ
  count_up next [] = next
  count_up next (item ∷ items) = count_up (next + 1) items

  abbrev pub adding : List FlushItem → TextStream × System → TextStream × System
  adding items (stream, s) =
      (stream ++ messages_from s.next_id items, record s { next_id = count_up s.next_id items })

  abbrev pub piped_text :
      Fault → List FlushItem → TextStream × System → Result (List ℕ) × (TextStream × System)
  piped_text answered items (stream, s) = (ok (ids_from s.next_id items), adding items (stream, s))
  piped_text (refused e) items w = (err (wrap add_pending e), w)
  piped_text (broken n e) items w = (err (wrap add_pending e), adding (take n items) w)

  -- AddBatch
  unfoldable pub add_messages :
      List FlushItem → TextStream × System → Result (List ℕ) × (TextStream × System)
  unfolding messages_from
  add_messages items (stream, s) = piped_text (head_outcome s.script).fault items (stream, spend s)
