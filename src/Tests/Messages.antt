-- ===== src/Tests/Messages.antt =====
-- Entries of the stream as texts.
use file_cipher_core.Prelude.{◌≡◌, ◌⊎◌, refl, inl, true, false, some, [], ◌∷◌, elem, arith}
use file_cipher_core.Entity.{Uuid, Bytes, FlushItem}
use file_cipher_core.Env.{ok, err, external, Result, System}
use file_cipher_core.Strconv.{print_int, parse_int}
use file_cipher_core.Repository.Stream.{stored, read_group, claim, add_batch, ack}
use file_cipher_core.Repository.Group.{Group, cursor_init, cursor_init_lem, or_new}
use file_cipher_core.Repository.Message.{
  Message, UuidText, to_values, parse_pending_item, parse_messages, read_messages, claim_messages,
  add_messages, TextStream,
}
use file_cipher_core.Repository.Message.Parse.{
  IsUuidText, Fits, parsed, Says, parse_pending_item-to_values, parse_pending_item-Says,
}
use file_cipher_core.Repository.Message.Refines.{mapped, parsed_entries, text_of, messages_refine}
use file_cipher_core.Repository.Message.Poison.{pending_ids, parsed_ids, unparsed_stays}
use file_cipher_core.Tests.{key_row, data_row, entry, world}

abbrev of_text : Bytes → Result Uuid
of_text (n ∷ []) = ok n
of_text _ = err (external 3)

-- A uuid's text is one character.
abbrev pub short : UuidText
short = record { to_text = λ n. n ∷ []; of_text = of_text }

pub short-IsUuidText : IsUuidText short
short-IsUuidText = record { law = λ n h. refl }

abbrev item_5 : FlushItem
item_5 = record { key = key_row 5 1; chunk = data_row 5 1 }

item_5-Fits : Fits item_5
item_5-Fits = record {
  uuid = omega arith;
  file_id = omega arith;
  version = omega arith;
  created_at = omega arith;
}

parse_pending_item-to_values_example :
    parse_pending_item short (record { id = 1; values = to_values short item_5 })
    ≡ ok (parsed 1 (stored item_5))
parse_pending_item-to_values_example =
    parse_pending_item-to_values short short-IsUuidText 1 item_5 item_5-Fits

abbrev message_5 : Message
message_5 = record { id = 1; values = to_values short item_5 }

parse_pending_item-Says_example : Says short message_5 (parsed 1 item_5)
unfolding stored
parse_pending_item-Says_example =
    parse_pending_item-Says short message_5 (parsed 1 item_5)
      (parse_pending_item-to_values short short-IsUuidText 1 item_5 item_5-Fits)

-- One entry has been given out, and one not.
abbrev two : System
two = record world {
  stream = entry 1 5 ∷ entry 2 6 ∷ [];
  next_id = 3;
  last_delivered = 1;
  pel = record { id = 1; consumer = 0; since = 3 } ∷ [];
}

messages_refine_example :
    (read_messages short (text_of short two.stream) 0 5 two
      ≡ (mapped parsed_entries (read_group 0 5 two).0, (read_group 0 5 two).1))
    × (claim_messages short (text_of short two.stream) 0 2 5 two
        ≡ (mapped parsed_entries (claim 0 2 5 two).0, (claim 0 2 5 two).1))
    × (add_messages short (item_5 ∷ []) (text_of short two.stream, two) ≡ (
      (add_batch (item_5 ∷ []) two).0,
      (
        text_of short (add_batch (item_5 ∷ []) two).1.stream,
        record (add_batch (item_5 ∷ []) two).1 { stream = two.stream },
      ),
    ))
messages_refine_example = messages_refine short short-IsUuidText two 0 5 2 (item_5 ∷ []) (
  item_5-Fits,
  (
    record {
      uuid = omega arith;
      file_id = omega arith;
      version = omega arith;
      created_at = omega arith;
    },
    tt,
  ),
)

-- The second entry has no fields.
abbrev mixed : TextStream
mixed = message_5 ∷ record { id = 2; values = [] } ∷ []

abbrev claimed : System
claimed = record world {
  last_delivered = 2;
  pel =
      record { id = 1; consumer = 0; since = 10 }
      ∷ record { id = 2; consumer = 0; since = 10 }
      ∷ [];
}

unparsed_stays_example :
    (elem 2 (parsed_ids (parsed 1 item_5 ∷ [])) ≡ false)
    × (elem 2 (pending_ids (ack (parsed_ids (parsed 1 item_5 ∷ [])) claimed).1) ≡ true)
unfolding read_messages parse_messages parse_pending_item to_values print_int parse_int
unparsed_stays_example =
    unparsed_stays short 2 mixed 0 1 5 world claimed (parsed 1 item_5 ∷ [])
      ((λ e. cc), ((λ e. (_, refl)), tt)) refl (inl refl)

-- A second start, on the group of the first.
abbrev old_group : Group
old_group = record { last = 4; pending = [] }

cursor_init_keeps_group :
    let w = cursor_init (some old_group, world) in
    (w.0 ≡ ok tt → w.1.0 ≡ some (or_new (some old_group)))
    × ((w.1.0 ≡ some old_group) ⊎ (w.1.0 ≡ some (or_new (some old_group))))
cursor_init_keeps_group = cursor_init_lem (some old_group) world tt
