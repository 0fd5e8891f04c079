-- ===== src/Pending/Run/State.antt =====
-- What is asked of the stream, the group and the tables: every entry is accounted for.
use file_cipher_core.Prelude.{◌<◌, ◌≡◌, ◌⊎◌, true, elem, All}
use file_cipher_core.Entity.{PendingItem}
use file_cipher_core.Env.{Outcome, System, spend}
use file_cipher_core.Pending.Run.{Phase, idle, holding, saved, returned, answering}
use file_cipher_core.Pending.Run.Order.{In, Ascends, All-at, All-each, pending_ids}
use file_cipher_core.Pending.Run.Rows.{HasRow}

-- The rows of an entry are in both tables.
abbrev pub Stored : PendingItem → System → Type 0
Stored e s = HasRow e.item.key s.keys × HasRow e.item.chunk s.chunks

-- An entry still to be given out, or pending, or stored.
abbrev pub Accounted : System → PendingItem → Type 0
Accounted s e = (s.last_delivered < e.id) ⊎ (elem e.id (pending_ids s.pel) ≡ true) ⊎ Stored e s

pub record Sound (s : System) : Type 0 where
  pub order : Ascends 0 s.next_id s.stream
  pub ahead : s.last_delivered < s.next_id
  pub kept : (e : PendingItem) → In e s.stream → Accounted s e

-- `t` has all that `s` has of entries and stored rows.
pub record Later (s t : System) : Type 0 where
  pub entries : (e : PendingItem) → In e s.stream → In e t.stream
  pub rows : (e : PendingItem) → Stored e s → Stored e t

-- What a loop has at hand comes from the stream, and is stored when it is to be acknowledged.
abbrev pub Held : Phase → System → Type 0
Held idle s = Unit {0}
Held (holding items) s = All (λ e. In e s.stream) items
Held (saved items) s = All (λ e. In e s.stream × Stored e s) items
Held returned s = Unit {0}

pub Held-Later : (p : Phase) (s t : System) → Later s t → Held p s → Held p t
Held-Later idle s t l h = tt
Held-Later (holding items) s t l h =
    All-each (λ e. In e t.stream) items
      (λ e m. l.entries e (All-at (λ x. In x s.stream) items e h m))
Held-Later (saved items) s t l h =
    All-each (λ e. In e t.stream × Stored e t) items
      λ e m.
        let (i, r) = All-at (λ x. In x s.stream × Stored x s) items e h m in
        (l.entries e i, l.rows e r)
Held-Later returned s t l h = tt

pub Sound-answering : (o : Outcome) (s : System) → Sound s → Sound (answering o s)
Sound-answering o s h = record { order = h.order; ahead = h.ahead; kept = h.kept }

pub Sound-spend : (s : System) → Sound s → Sound (spend s)
Sound-spend s h = record { order = h.order; ahead = h.ahead; kept = h.kept }

pub same_tables :
    (s t : System) → t.stream ≡ s.stream → t.keys ≡ s.keys → t.chunks ≡ s.chunks → Later s t
same_tables s t es ek ec = record { entries = λ e m. rw es m; rows = λ e r. rw (ek, ec) r }
