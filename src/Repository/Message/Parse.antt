-- ===== src/Repository/Message/Parse.antt =====
-- The parse of an entry's fields against the Values that AddBatch writes.
use Prim.Native.String.{String}
use file_cipher_core.Prelude.{ℕ, ◌^◌, ◌<◌, ◌≡◌, refl, subst, Option, none, some}
use file_cipher_core.Entity.{Uuid, Bytes, FlushItem}
use file_cipher_core.Env.{Site, Error, Result, ok, err, blocked, wrapped}
use file_cipher_core.Retry.{ℤ, pos}
use file_cipher_core.Strconv.{parse_int, parse_int-print_int}
use file_cipher_core.Repository.Stream.{stored}
use file_cipher_core.Repository.Message.{
  Value, str, other, Values, Message, get, as_string, parse_string, then_parse, or_err,
  parse_int_field, parse_int64_field, UuidText, ParsedItem, ◌>>>◌, to_values, parse_uuid,
  parse_pending_item,
}

-- uuid.Parse reads what String writes, for the numbers of 16 bytes.
pub record IsUuidText (u : UuidText) : Type 0 where
  pub law : (n : ℕ) → n < 2 ^ 128 → u.of_text (u.to_text n) ≡ ok n

-- The bounds of the Go types uuid.UUID, int and int64.
pub record Fits (item : FlushItem) : Type 0 where
  pub uuid : item.chunk.uuid < 2 ^ 128
  pub file_id : item.chunk.file_id < 2 ^ 128
  pub version : item.chunk.version < 2 ^ 63
  pub created_at : item.chunk.created_at < 2 ^ 63

-- An entry of the typed stream as parsePendingItem returns it.
abbrev pub parsed : ℕ → FlushItem → ParsedItem
parsed id item = record {
  id = id;
  uuid = item.chunk.uuid;
  file_id = item.chunk.file_id;
  ciphertext = item.chunk.ciphertext;
  nonce = item.chunk.nonce;
  key = item.key.key;
  version = pos item.chunk.version;
  created_at = pos item.chunk.created_at;
}

module _ (u : UuidText) (law : IsUuidText u) where
  -- parsePendingItem reads back what AddBatch wrote: if uuid.Parse inverts String, and the item's
  -- uuids have 16 bytes and its version and time fit into an int64, then the entry with the Values of
  -- the XAdd, the numbers as decimal texts, parses into the item that the typed stream stores, with
  -- its id.
  pub parse_pending_item-to_values :
      (id : ℕ) (item : FlushItem)
      → Fits item
      → parse_pending_item u (record { id = id; values = to_values u item })
        ≡ ok (parsed id (stored item))
  unfolding parse_pending_item to_values stored
  parse_pending_item-to_values id item f =
      rw
        (
          law.law item.chunk.uuid f.uuid,
          law.law item.chunk.file_id f.file_id,
          parse_int-print_int item.chunk.version f.version,
          parse_int-print_int item.chunk.created_at f.created_at,
        )
        refl

ok-inj {ℓ} : {A : Type ℓ} (a b : A) → ok a ≡ ok b → a ≡ b
ok-inj a b h = cc

then_parse-ok {ℓ} :
    {A : Type ℓ} (r : Result Bytes) (f : Bytes → Result A) (a : A)
    → then_parse r f ≡ ok a
    → (s : Bytes) × (r ≡ ok s) × (f s ≡ ok a)
then_parse-ok (ok s) f a h = (s, refl, h)
then_parse-ok (err e) f a h = cc
then_parse-ok blocked f a h = cc

>>>-ok {ℓ κ} :
    {A : Type ℓ} {B : Type κ} (r : Result A) (f : A → Result B) (b : B)
    → r >>> f ≡ ok b
    → (a : A) × (r ≡ ok a) × (f a ≡ ok b)
>>>-ok (ok a) f b h = (a, refl, h)
>>>-ok (err e) f b h = cc
>>>-ok blocked f b h = cc

as_string-ok :
    (field : String) (v : Option Value) (s : Bytes) → as_string field v ≡ ok s → v ≡ some (str s)
as_string-ok field none s h = cc
as_string-ok field (some other) s h = cc
as_string-ok field (some (str t)) s h = cc

parse_string-ok :
    (values : Values) (field : String) (s : Bytes)
    → parse_string values field ≡ ok s
    → get values field ≡ some (str s)
unfolding parse_string
parse_string-ok values field s h = as_string-ok field (get values field) s h

wrapped-inv {ℓ} :
    {A : Type ℓ} (site : Site) (r : Result A) (a : A) → wrapped site r ≡ ok a → r ≡ ok a
wrapped-inv site (ok b) a h = h
wrapped-inv site (err e) a h = cc
wrapped-inv site blocked a h = cc

or_err-ok : (e : Error) (o : Option ℤ) (n : ℤ) → or_err e o ≡ ok n → o ≡ some n
or_err-ok e none n h = cc
or_err-ok e (some m) n h = cc

-- The field is a string that is the decimal text of `n`.
abbrev pub HoldsInt : Values → String → ℤ → Type 0
HoldsInt values field n = (s : Bytes) × (get values field ≡ some (str s)) × (parse_int s ≡ some n)

abbrev pub HoldsUuid : UuidText → Values → String → Uuid → Type 0
HoldsUuid u values field id =
    (s : Bytes) × (get values field ≡ some (str s)) × (u.of_text s ≡ ok id)

-- The item is what the fields of the message say.
pub record Says (u : UuidText) (msg : Message) (item : ParsedItem) : Type 0 where
  pub same_id : item.id ≡ msg.id
  pub uuid : HoldsUuid u msg.values "uuid" item.uuid
  pub file_id : HoldsUuid u msg.values "file_id" item.file_id
  pub ciphertext : get msg.values "ciphertext" ≡ some (str item.ciphertext)
  pub nonce : get msg.values "nonce" ≡ some (str item.nonce)
  pub key : get msg.values "key" ≡ some (str item.key)
  pub version : HoldsInt msg.values "version" item.version
  pub created_at : HoldsInt msg.values "created_at" item.created_at

module _ (u : UuidText) where
  parse_uuid-ok :
      (values : Values) (field : String) (id : Uuid)
      → parse_uuid u values field ≡ ok id
      → HoldsUuid u values field id
  unfolding parse_uuid
  parse_uuid-ok values field id h =
      let (s, e, k) = then_parse-ok (parse_string values field) _ id h in
      (s, parse_string-ok values field s e, wrapped-inv _ (u.of_text s) id k)

  parse_int_field-ok :
      (values : Values) (field : String) (n : ℤ)
      → parse_int_field values field ≡ ok n
      → HoldsInt values field n
  unfolding parse_int_field
  parse_int_field-ok values field n h =
      let (s, e, k) = then_parse-ok (parse_string values field) _ n h in
      (s, parse_string-ok values field s e, or_err-ok _ (parse_int s) n k)

  parse_int64_field-ok :
      (values : Values) (field : String) (n : ℤ)
      → parse_int64_field values field ≡ ok n
      → HoldsInt values field n
  unfolding parse_int64_field
  parse_int64_field-ok values field n h =
      let (s, e, k) = then_parse-ok (parse_string values field) _ n h in
      (s, parse_string-ok values field s e, or_err-ok _ (parse_int s) n k)

  -- parsePendingItem accepts a message only if all seven fields are there, are strings and parse:
  -- two uuids, three byte strings and two decimal numbers of 64 bits. The item then holds what these
  -- fields say, and the message's id.
  pub parse_pending_item-Says :
      (msg : Message) (item : ParsedItem) → parse_pending_item u msg ≡ ok item → Says u msg item
  unfolding parse_pending_item
  parse_pending_item-Says msg item h =
      let (id, e1, h1) = >>>-ok (parse_uuid u msg.values "uuid") _ item h in
      let (file, e2, h2) = >>>-ok (parse_uuid u msg.values "file_id") _ item h1 in
      let (c, e3, h3) = >>>-ok (parse_string msg.values "ciphertext") _ item h2 in
      let (n, e4, h4) = >>>-ok (parse_string msg.values "nonce") _ item h3 in
      let (k, e5, h5) = >>>-ok (parse_string msg.values "key") _ item h4 in
      let (v, e6, h6) = >>>-ok (parse_int_field msg.values "version") _ item h5 in
      let (t, e7, h7) = >>>-ok (parse_int64_field msg.values "created_at") _ item h6 in
      subst (Says u msg) (ok-inj _ item h7) record {
        same_id = refl;
        uuid = parse_uuid-ok msg.values "uuid" id e1;
        file_id = parse_uuid-ok msg.values "file_id" file e2;
        ciphertext = parse_string-ok msg.values "ciphertext" c e3;
        nonce = parse_string-ok msg.values "nonce" n e4;
        key = parse_string-ok msg.values "key" k e5;
        version = parse_int_field-ok msg.values "version" v e6;
        created_at = parse_int64_field-ok msg.values "created_at" t e7;
      }
