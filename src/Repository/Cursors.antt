-- ===== src/Repository/Cursors.antt =====
-- cursor_store.go: how far a process has come, by its name, for a time. The key's prefix and the text
-- of the uuid are not modelled.
use file_cipher_core.Prelude.{
  ℕ, ◌+◌, Bool, true, not, ◌&&◌, Option, none, some, List, [], ◌∷◌, keep, ltb, ◌==◌, if◌then◌else◌,
}
use file_cipher_core.Entity.{Uuid}
use file_cipher_core.Env.{ok, Cursor, Exec, query, commit}

abbrev pub is_live : ℕ → Option ℕ → Bool
is_live now none = true
is_live now (some t) = ltb now t

unfoldable pub find_cursor : ℕ → Uuid → List Cursor → Option Uuid
find_cursor now op [] = none
find_cursor now op (c ∷ cs) =
    let rest = find_cursor now op cs in
    if c.op == op && is_live now c.expires then some c.last else rest

-- SET with an expiration; 0 is none.
abbrev pub setting : ℕ → Uuid → Uuid → Exec (Unit {0})
setting ttl op cursor s =
    let expires = (if ttl == 0 then none else some (s.now + ttl)) in
    (
      ok tt,
      record s {
        cursors =
            record { op = op; last = cursor; expires = expires }
            ∷ keep (λ c. not (c.op == op)) s.cursors;
      },
    )

unfoldable pub save_cursor : ℕ → Uuid → Uuid → Exec (Unit {0})
save_cursor ttl op cursor = commit (setting ttl op cursor)

-- `none` is the result uuid.Nil, false, nil.
unfoldable pub load_cursor : Uuid → Exec (Option Uuid)
load_cursor op = query λ s. ok (find_cursor s.now op s.cursors)

abbrev pub deleting : Uuid → Exec (Unit {0})
deleting op s = (ok tt, record s { cursors = keep (λ c. not (c.op == op)) s.cursors })

unfoldable pub delete_cursor : Uuid → Exec (Unit {0})
delete_cursor op = commit (deleting op)
