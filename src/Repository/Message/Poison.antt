-- ===== src/Repository/Message/Poison.antt =====
-- What becomes of a stream entry that parsePendingItem refuses.
use file_cipher_core.Prelude.{
  length, keep, ℕ, ◌≡◌, refl, not, true, false, Bool-cases, inl, inr, ◌⊎◌, List, [], ◌∷◌, map, keep,
  take, elem, ltb, All, All-take, All-keep, ◌==◌, arith,
}
use file_cipher_core.Env.{
  Error, Result, ok, err, blocked, Fault, answered, refused, broken, Delivery, System, committed,
  commit, head_outcome, spend, read_pending, claim_pending,
}
use file_cipher_core.Env.Binds.{wrapping-chain-ok, commit-ok, ok-injective}
use file_cipher_core.Repository.Stream.{read_count, claim_count, acking, ack, stale}
use file_cipher_core.Repository.Message.{
  Message, UuidText, ParsedItem, parse_pending_item, cons_parsed, parse_messages, TextStream,
  delivering_text, claiming_text, read_messages, claim_messages,
}
use file_cipher_core.Repository.Message.Parse.{parse_pending_item-Says}

abbrev pub pending_ids : System → List ℕ
pending_ids s = map (λ d. d.id) s.pel

elem-pending :
    (id : ℕ) (ids : List ℕ) (pel : List Delivery)
    → elem id ids ≡ false
    → elem id (map (λ d. d.id) pel) ≡ true
    → elem id (map (λ d. d.id) (keep (λ d. not (elem d.id ids)) pel)) ≡ true
elem-pending id ids [] out h = h
elem-pending id ids (d ∷ pel) out h = elim (Bool-cases (id == d.id)) [
  | inl same ↦
      let here : elem d.id ids ≡ false = (let e : id ≡ d.id = ground arith in rw (← e) out) in
      rw (here, same) refl
  | inr differs ↦
      let rest = elem-pending id ids pel out (rw differs at h) in
      elim (Bool-cases (elem d.id ids)) [ inl e ↦ rw e rest | inr e ↦ rw (e, differs) rest ]
]

acked_pending :
    (f : Fault) (id : ℕ) (ids : List ℕ) (s : System)
    → elem id ids ≡ false
    → elem id (pending_ids s) ≡ true
    → elem id (pending_ids (committed f (acking ids s) s).1) ≡ true
acked_pending answered id ids s out h = elem-pending id ids s.pel out h
acked_pending (refused e) id ids s out h = h
acked_pending (broken n e) id ids s out h = elem-pending id ids s.pel out h

ack_pending_lem :
    (id : ℕ) (ids : List ℕ) (s : System)
    → elem id ids ≡ false
    → elem id (pending_ids s) ≡ true
    → elem id (pending_ids (ack ids s).1) ≡ true
unfolding ack
ack_pending_lem id ids s out h = acked_pending (head_outcome s.script).fault id ids (spend s) out h

abbrev pub parsed_ids : List ParsedItem → List ℕ
parsed_ids = map (λ i. i.id)

module _ (u : UuidText) where
  -- No message with this id parses.
  abbrev pub Refused : ℕ → Message → Type 0
  Refused id m = (m.id == id) ≡ true → (e : Error) × (parse_pending_item u m ≡ err e)

  skipped :
      (id : ℕ) (m : Message) (r : Result ParsedItem) (items : List ParsedItem)
      → parse_pending_item u m ≡ r
      → Refused id m
      → elem id (parsed_ids items) ≡ false
      → elem id (parsed_ids (cons_parsed u r items)) ≡ false
  skipped id m (err e) items h bad rest = rest
  skipped id m blocked items h bad rest = rest
  skipped id m (ok item) items h bad rest =
      let same = (parse_pending_item-Says u m item h).same_id in
      elim (Bool-cases (m.id == id)) [
        | inl hit ↦ let (e, k) = bad hit in cc
        | inr miss ↦ let other : (id == item.id) ≡ false = ground arith in rw (other, rest) refl
      ]

  parsed_skips :
      (id : ℕ) (msgs : List Message)
      → All (Refused id) msgs
      → elem id (parsed_ids (parse_messages u msgs)) ≡ false
  unfolding parse_messages
  parsed_skips id [] h = refl
  parsed_skips id (m ∷ msgs) h =
      skipped id m (parse_pending_item u m) (parse_messages u msgs) refl h.0
        (parsed_skips id msgs h.1)

  read_skips :
      (id : ℕ) (stream : TextStream) (consumer amount : ℕ) (s t : System) (items : List ParsedItem)
      → All (Refused id) stream
      → read_messages u stream consumer amount s ≡ (ok items, t)
      → elem id (parsed_ids items) ≡ false
  unfolding read_messages
  read_skips id stream consumer amount s t items h r =
      let (msgs, v, e, e') =
        wrapping-chain-ok read_pending (commit (delivering_text stream consumer amount)) s _ items t
          r in
      let (same, _) =
        ok-injective _ msgs _ v (commit-ok (delivering_text stream consumer amount) s msgs v e) in
      let (out, _) = ok-injective _ items v t e' in
      let new = keep (λ m. ltb s.last_delivered m.id) stream in
      let count = read_count amount (length new) in
      rw (← out, ← same)
        (parsed_skips id (take count new) (
          All-take (Refused id) count new
            (All-keep (Refused id) (λ m. ltb s.last_delivered m.id) stream h)))

  claim_skips :
      (id : ℕ) (stream : TextStream) (consumer min_idle amount : ℕ) (s t : System)
      (items : List ParsedItem)
      → All (Refused id) stream
      → claim_messages u stream consumer min_idle amount s ≡ (ok items, t)
      → elem id (parsed_ids items) ≡ false
  unfolding claim_messages
  claim_skips id stream consumer min_idle amount s t items h r =
      let (msgs, v, e, e') =
        wrapping-chain-ok claim_pending (commit (claiming_text stream consumer min_idle amount)) s _
          items t r in
      let (same, _) =
        ok-injective _ msgs _ v
          (commit-ok (claiming_text stream consumer min_idle amount) s msgs v e) in
      let (out, _) = ok-injective _ items v t e' in
      rw (← out, ← same)
        (parsed_skips id _ (
          All-keep (Refused id)
            (λ m. elem m.id (take (claim_count amount) (stale min_idle (spend s)))) stream h))

  -- An entry whose fields do not parse is never acknowledged. Let no message of the stream with this
  -- id parse, and let the id be pending once Read, or Claim, has returned its items: then the items
  -- do not name the id, and it is still pending when these items have been acknowledged, however the
  -- acknowledgement ends.
  pub unparsed_stays :
      (id : ℕ) (stream : TextStream) (consumer min_idle amount : ℕ) (s t : System)
      (items : List ParsedItem)
      → All (Refused id) stream
      → elem id (pending_ids t) ≡ true
      → (read_messages u stream consumer amount s ≡ (ok items, t))
        ⊎ (claim_messages u stream consumer min_idle amount s ≡ (ok items, t))
      → (elem id (parsed_ids items) ≡ false)
        × (elem id (pending_ids (ack (parsed_ids items) t).1) ≡ true)
  unparsed_stays id stream consumer min_idle amount s t items h waits (inl r) =
      let out = read_skips id stream consumer amount s t items h r in
      (out, ack_pending_lem id (parsed_ids items) t out waits)
  unparsed_stays id stream consumer min_idle amount s t items h waits (inr r) =
      let out = claim_skips id stream consumer min_idle amount s t items h r in
      (out, ack_pending_lem id (parsed_ids items) t out waits)
