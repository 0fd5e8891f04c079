-- ===== src/Repository/Group.antt =====
-- pending_store.go, CursorInit: the consumer group is made at the first start, and kept by later ones.
use file_cipher_core.Prelude.{
  ℕ, ◌≡◌, ◌⊎◌, refl, Bool, true, false, inl, inr, Option, none, some, List, [], if◌then◌else◌,
}
use file_cipher_core.Env.{
  Error, busy_group, wrap, cursor_init as at_cursor_init, Result, ok, err, blocked, Fault, answered,
  refused, broken, Delivery, System, spend, head_outcome,
}

-- A consumer group: what it has given out last, and what is pending.
pub record Group : Type 0 where
  pub last : ℕ
  pub pending : List Delivery

-- XGROUP CREATE … 0 MKSTREAM
abbrev pub creating : Option Group → Result (Unit {0}) × Option Group
creating none = (ok tt, some (record { last = 0; pending = [] }))
creating (some g) = (err busy_group, some g)

abbrev pub created : Fault → Option Group → Result (Unit {0}) × Option Group
created answered g = creating g
created (refused e) g = (err e, g)
created (broken n e) g = (err e, (creating g).1)

-- redis.HasErrorPrefix(err, "BUSYGROUP")
abbrev pub is_busy_group : Error → Bool
is_busy_group busy_group = true
is_busy_group _ = false

abbrev pub unless_busy : Result (Unit {0}) → Result (Unit {0})
unless_busy (ok v) = ok v
unless_busy (err e) = if is_busy_group e then ok tt else err (wrap at_cursor_init e)
unless_busy blocked = blocked

unfoldable pub cursor_init : Option Group × System → Result (Unit {0}) × (Option Group × System)
cursor_init (g, s) =
    let (r, g') = created (head_outcome s.script).fault g in (unless_busy r, (g', spend s))

-- Redis says BUSYGROUP only where there is a group.
abbrev pub Truthful : Fault → Option Group → Type 0
Truthful (refused e) none = is_busy_group e ≡ false
Truthful f g = Unit {0}

-- The group that the start leaves: the one that is there, or a new one at the beginning.
abbrev pub or_new : Option Group → Group
or_new none = record { last = 0; pending = [] }
or_new (some g) = g

created_lem :
    (f : Fault) (g : Option Group)
    → Truthful f g
    → (unless_busy (created f g).0 ≡ ok tt → (created f g).1 ≡ some (or_new g))
      × (((created f g).1 ≡ g) ⊎ ((created f g).1 ≡ some (or_new g)))
created_lem answered none h = (λ _. refl, inr refl)
created_lem answered (some g) h = (λ _. refl, inl refl)
created_lem (refused e) none h = (λ r. let r' = rw h at r in cc, inl refl)
created_lem (refused e) (some g) h = (λ _. refl, inl refl)
created_lem (broken n e) none h = (λ _. refl, inr refl)
created_lem (broken n e) (some g) h = (λ _. refl, inl refl)

-- A start never disturbs the group of an earlier one. Let Redis report BUSYGROUP only where there is
-- a group. However CursorInit ends, the group is what it was before, or, where there was none, one
-- that has given out nothing and has nothing pending; and if CursorInit returns nil there is a
-- group: the old one as it was, or the new one.
pub cursor_init_lem :
    (g : Option Group) (s : System)
    → Truthful (head_outcome s.script).fault g
    → let w = cursor_init (g, s) in
      (w.0 ≡ ok tt → w.1.0 ≡ some (or_new g)) × ((w.1.0 ≡ g) ⊎ (w.1.0 ≡ some (or_new g)))
unfolding cursor_init
cursor_init_lem g s h = created_lem (head_outcome s.script).fault g h
