-- ===== src/Repository/Message/Refines.antt =====
-- The stream of texts against the typed stream of Repository/Stream: AddBatch, Read and Claim.
use mathlib.Core.List.{map-append, map-map}
use file_cipher_core.Prelude.{
  length, length-map, ℕ, ◌+◌, ◌≡◌, refl, sym, ap, ap₂, ◌∙◌, List, [], ◌∷◌, ◌++◌, map, append-nil,
  append_assoc, keep, take, elem, ltb, All, All-take, All-keep, keep-map, take-map,
}
use file_cipher_core.Entity.{FlushItem, PendingItem}
use file_cipher_core.Env.{
  Site, wrap, add_pending, Result, ok, err, blocked, Fault, answered, refused, broken, System,
  chain, wrapped, committed, pure, head_outcome, spend, read_pending, claim_pending,
}
use file_cipher_core.Repository.Stream.{
  read_count, claim_count, stored, ids_from, append_entry, append_entries, piped, add_batch,
  entry_ids, undelivered, delivering, read_group, stale, claiming, claim,
}
use file_cipher_core.Repository.Message.{
  Message, UuidText, ParsedItem, to_values, parse_messages, TextStream, message_ids,
  delivering_text, claiming_text, read_messages, claim_messages, messages_from, count_up, adding,
  piped_text, add_messages,
}
use file_cipher_core.Repository.Message.Parse.{
  IsUuidText, Fits, parsed, parse_pending_item-to_values,
}

abbrev pub mapped {ℓ κ} : {A : Type ℓ} {B : Type κ} → (A → B) → Result A → Result B
mapped f (ok a) = ok (f a)
mapped f (err e) = err e
mapped f blocked = blocked

abbrev pub parsed_entries : List PendingItem → List ParsedItem
parsed_entries = map (λ e. parsed e.id e.item)

module _ (u : UuidText) where
  abbrev pub encode : PendingItem → Message
  encode e = record { id = e.id; values = to_values u e.item }

  -- What Redis holds of a typed stream.
  abbrev pub text_of : List PendingItem → TextStream
  text_of = map encode

  message_ids-text_of : (es : List PendingItem) → message_ids (text_of es) ≡ entry_ids es
  message_ids-text_of es = map-map _ _ es

  delivering_lem :
      (consumer amount : ℕ) (s : System)
      → delivering_text (text_of s.stream) consumer amount s ≡ (
        ok (text_of (take (read_count amount (length (undelivered s))) (undelivered s))),
        (delivering consumer amount s).1,
      )
  delivering_lem consumer amount s =
      rw
        (
          keep-map encode (λ m. ltb s.last_delivered m.id) s.stream,
          length-map encode (undelivered s),
          take-map encode (read_count amount (length (undelivered s))) (undelivered s),
          message_ids-text_of (take (read_count amount (length (undelivered s))) (undelivered s)),
        )
        refl

  claiming_lem :
      (consumer min_idle amount : ℕ) (s : System)
      → claiming_text (text_of s.stream) consumer min_idle amount s ≡ (
        ok (
            text_of
              (keep (λ e. elem e.id (take (claim_count amount) (stale min_idle s))) s.stream)),
        (claiming consumer min_idle amount s).1,
      )
  claiming_lem consumer min_idle amount s =
      rw (keep-map encode (λ m. elem m.id (take (claim_count amount) (stale min_idle s))) s.stream)
        refl

  append_lem :
      (items : List FlushItem) (s : System)
      → text_of (append_entries items s).stream
        ≡ text_of s.stream ++ messages_from u s.next_id items
  unfolding append_entries append_entry messages_from to_values stored
  append_lem [] s = sym (append-nil (text_of s.stream))
  append_lem (item ∷ items) s =
      append_lem items (append_entry item s)
      ∙ ap (λ l. l ++ messages_from u (s.next_id + 1) items) (map-append encode s.stream _)
      ∙ append_assoc (text_of s.stream) _ (messages_from u (s.next_id + 1) items)

  append_rest :
      (items : List FlushItem) (s : System) (stream : List PendingItem)
      → record s { stream = stream; next_id = count_up u s.next_id items }
        ≡ record (append_entries items s) { stream = stream }
  unfolding append_entries append_entry
  append_rest [] s stream = refl
  append_rest (item ∷ items) s stream = append_rest items (append_entry item s) stream

  adding_lem :
      (items : List FlushItem) (s : System)
      → adding u items (text_of s.stream, s) ≡ (
        text_of (append_entries items s).stream,
        record (append_entries items s) { stream = s.stream },
      )
  adding_lem items s = ap₂ (λ l t. (l, t)) (sym (append_lem items s)) (append_rest items s s.stream)

  piped_lem :
      (f : Fault) (items : List FlushItem) (s : System)
      → piped_text u f items (text_of s.stream, s) ≡ (
        (piped f items s).0,
        (text_of (piped f items s).1.stream, record (piped f items s).1 { stream = s.stream }),
      )
  piped_lem answered items s = ap (λ w. (ok (ids_from s.next_id items), w)) (adding_lem items s)
  piped_lem (refused e) items s = refl
  piped_lem (broken n e) items s =
      ap (λ w. (err (wrap add_pending e), w)) (adding_lem (take n items) s)

  module _ (law : IsUuidText u) where
    parse_messages-text_of :
        (es : List PendingItem)
        → All (λ e. Fits e.item) es
        → parse_messages u (text_of es) ≡ parsed_entries es
    unfolding parse_messages stored
    parse_messages-text_of [] h = refl
    parse_messages-text_of (e ∷ es) h =
        rw (parse_pending_item-to_values u law e.id e.item h.0)
          (ap (λ l. parsed e.id e.item ∷ l) (parse_messages-text_of es h.1))

    committed_lem :
        (site : Site) (f : Fault) (batch : List PendingItem) (s t : System)
        → All (λ e. Fits e.item) batch
        → chain
            (
              wrapped site (committed f (ok (text_of batch), t) s).0,
              (committed f (ok (text_of batch), t) s).1,
            )
            (λ msgs. pure (parse_messages u msgs))
          ≡ (
            mapped parsed_entries (wrapped site (committed f (ok batch, t) s).0),
            (committed f (ok batch, t) s).1,
          )
    committed_lem site answered batch s t h = ap (λ l. (ok l, t)) (parse_messages-text_of batch h)
    committed_lem site (refused e) batch s t h = refl
    committed_lem site (broken n e) batch s t h = refl

    -- The stream as texts implements the typed stream. Let uuid.Parse invert String, and let every
    -- entry fit the Go types. Then, whatever fault the call meets: Read and Claim on the texts of the
    -- entries return the typed Read's and Claim's items and errors and change the group alike, and
    -- AddBatch answers alike and appends the texts of the typed entries.
    pub messages_refine :
        (s : System) (consumer amount min_idle : ℕ) (items : List FlushItem)
        → All (λ e. Fits e.item) s.stream
        → (read_messages u (text_of s.stream) consumer amount s ≡ (
          mapped parsed_entries (read_group consumer amount s).0,
          (read_group consumer amount s).1,
        ))
          × (claim_messages u (text_of s.stream) consumer min_idle amount s ≡ (
            mapped parsed_entries (claim consumer min_idle amount s).0,
            (claim consumer min_idle amount s).1,
          ))
          × (add_messages u items (text_of s.stream, s) ≡ (
            (add_batch items s).0,
            (
              text_of (add_batch items s).1.stream,
              record (add_batch items s).1 { stream = s.stream },
            ),
          ))
    unfolding read_messages read_group claim_messages claim add_messages add_batch
    messages_refine s consumer amount min_idle items h = (
      rw (delivering_lem consumer amount (spend s)) (
          committed_lem read_pending (head_outcome s.script).fault
            (take (read_count amount (length (undelivered (spend s)))) (undelivered (spend s)))
            (spend s) _
            (All-take _ (read_count amount (length (undelivered (spend s)))) _
              (All-keep _ _ s.stream h))),
      rw (claiming_lem consumer min_idle amount (spend s)) (
          committed_lem claim_pending (head_outcome s.script).fault
            (keep (λ e. elem e.id (take (claim_count amount) (stale min_idle (spend s)))) s.stream)
            (spend s) _ (All-keep _ _ s.stream h)),
      piped_lem (head_outcome s.script).fault items (spend s),
    )
