-- ===== src/Repository/Stream.antt =====
-- pending_store.go: the Redis stream between the flusher and the pending worker, with its consumer
-- group. An entry keeps the typed values of its fields; their texts are not modelled.
use file_cipher_core.Prelude.{
  ℕ, zero, suc, ◌+◌, not, length, List, [], ◌∷◌, ◌++◌, map, keep, take, elem, ltb, leb,
  if◌then◌else◌,
}
use file_cipher_core.Entity.{FlushItem, PendingItem}
use file_cipher_core.Env.{
  wrap, add_pending, read_pending, claim_pending, ack_pending, Result, ok, err, Fault, answered,
  refused, broken, Delivery, System, Exec, commit, wrapping, head_outcome, spend,
}

-- The Values of XAdd and what parsePendingItem makes of them: uuid, version and created_at of the
-- key are those of the data.
unfoldable pub stored : FlushItem → FlushItem
stored item = record {
  key = record {
    uuid = item.chunk.uuid;
    key = item.key.key;
    version = item.chunk.version;
    created_at = item.chunk.created_at;
  };
  chunk = item.chunk;
}

-- One XADD.
unfoldable pub append_entry : FlushItem → System → System
unfolding stored
append_entry item s = record s {
  stream = s.stream ++ record { id = s.next_id; item = stored item } ∷ [];
  next_id = s.next_id + 1;
}

unfoldable pub append_entries : List FlushItem → System → System
unfolding append_entry
append_entries [] s = s
append_entries (item ∷ items) s = append_entries items (append_entry item s)

-- The ids that Redis gives to `n` entries.
abbrev pub ids_from : ℕ → List FlushItem → List ℕ
ids_from id [] = []
ids_from id (item ∷ items) = id ∷ ids_from (id + 1) items

-- A pipeline is no transaction: if it breaks, its first `n` commands have been executed.
abbrev pub piped : Fault → List FlushItem → System → Result (List ℕ) × System
piped answered items s = (ok (ids_from s.next_id items), append_entries items s)
piped (refused e) items s = (err (wrap add_pending e), s)
piped (broken n e) items s = (err (wrap add_pending e), append_entries (take n items) s)

unfoldable pub add_batch : List FlushItem → Exec (List ℕ)
unfolding append_entries
add_batch items s = piped (head_outcome s.script).fault items (spend s)

abbrev pub entry_ids : List PendingItem → List ℕ
entry_ids = map (λ e. e.id)

abbrev pub deliveries : ℕ → ℕ → List ℕ → List Delivery
deliveries consumer now = map (λ id. record { id = id; consumer = consumer; since = now })

abbrev pub last_id : ℕ → List ℕ → ℕ
last_id d [] = d
last_id d (x ∷ l) = last_id x l

-- What the group has not given to anyone, oldest first.
abbrev pub undelivered : System → List PendingItem
undelivered s = keep (λ e. ltb s.last_delivered e.id) s.stream

-- go-redis leaves COUNT away where the amount is 0: XREADGROUP then gives all that is there, and
-- XAUTOCLAIM 100 at most.
abbrev pub read_count : ℕ → ℕ → ℕ
read_count zero there = there
read_count (suc n) there = suc n

abbrev pub claim_count : ℕ → ℕ
claim_count zero = 100
claim_count (suc n) = suc n

-- XREADGROUP … COUNT amount … > ; an empty answer is redis.Nil, for which Read returns nil, nil.
abbrev pub delivering : ℕ → ℕ → Exec (List PendingItem)
delivering consumer amount s =
    let batch = take (read_count amount (length (undelivered s))) (undelivered s) in
    (
      ok batch,
      record s {
        last_delivered = last_id s.last_delivered (entry_ids batch);
        pel = s.pel ++ deliveries consumer s.now (entry_ids batch);
      },
    )

unfoldable pub read_group : ℕ → ℕ → Exec (List PendingItem)
read_group consumer amount = wrapping read_pending (commit (delivering consumer amount))

-- XACK
abbrev pub acking : List ℕ → Exec (Unit {0})
acking ids s = (ok tt, record s { pel = keep (λ d. not (elem d.id ids)) s.pel })

unfoldable pub ack : List ℕ → Exec (Unit {0})
ack ids = wrapping ack_pending (commit (acking ids))

-- XAUTOCLAIM … MINIDLE … 0 COUNT amount
abbrev pub stale : ℕ → System → List ℕ
stale min_idle s = map (λ d. d.id) (keep (λ d. leb (d.since + min_idle) s.now) s.pel)

abbrev pub claiming : ℕ → ℕ → ℕ → Exec (List PendingItem)
claiming consumer min_idle amount s =
    let ids = take (claim_count amount) (stale min_idle s) in
    (
      ok (keep (λ e. elem e.id ids) s.stream),
      record s {
        pel =
            map (λ d. if elem d.id ids then record d { consumer = consumer; since = s.now } else d)
              s.pel;
      },
    )

unfoldable pub claim : ℕ → ℕ → ℕ → Exec (List PendingItem)
claim consumer min_idle amount = wrapping claim_pending (commit (claiming consumer min_idle amount))
