-- ===== src/Repository/Sql.antt =====
-- The clauses of the SQL texts, over a table as the list of its rows, of which the columns uuid
-- and version are read.
pub mod Latest
pub mod Uuids
pub mod Delete
use file_cipher_core.Prelude.{
  ℕ, Bool, true, false, ◌&&◌, ◌||◌, not, Option, none, some, List, [], ◌∷◌, ◌++◌, ltb, leb, ◌==◌,
  if◌then◌else◌, keep, elem,
}

module _ {A : Type 0} (uuid version : A → ℕ) where
  -- WHERE uuid = ANY($1)
  abbrev pub where_any : List ℕ → List A → List A
  where_any ids = keep (λ r. elem (uuid r) ids)

  -- ORDER BY uuid, version DESC, as a stable insertion sort
  abbrev pub before : A → A → Bool
  before r x = ltb (uuid r) (uuid x) || (uuid r == uuid x && leb (version x) (version r))

  unfoldable pub insert_row : A → List A → List A
  insert_row r [] = r ∷ []
  insert_row r (x ∷ l) = let rest = insert_row r l in if before r x then r ∷ x ∷ l else x ∷ rest

  unfoldable pub order_by : List A → List A
  unfolding insert_row
  order_by [] = []
  order_by (r ∷ rows) = insert_row r (order_by rows)

  -- DISTINCT ON (uuid): the first row of each run of equal uuids
  unfoldable pub distinct_after : ℕ → List A → List A
  distinct_after u [] = []
  distinct_after u (x ∷ l) =
      if uuid x == u then distinct_after u l else x ∷ distinct_after (uuid x) l

  unfoldable pub distinct_on : List A → List A
  unfolding distinct_after
  distinct_on [] = []
  distinct_on (x ∷ l) = x ∷ distinct_after (uuid x) l

  -- SELECT DISTINCT ON (uuid) … WHERE uuid = ANY($1) ORDER BY uuid, version DESC
  unfoldable pub latest : List ℕ → List A → List A
  unfolding distinct_on order_by
  latest ids rows = distinct_on (order_by (where_any ids rows))

  -- WHERE uuid = $1 AND version = $2, the first row
  unfoldable pub at_version : ℕ → ℕ → List A → Option A
  at_version id v [] = none
  at_version id v (x ∷ l) =
      let rest = at_version id v l in if uuid x == id && version x == v then some x else rest

  -- SELECT max(version) … WHERE d.uuid = c.uuid, of at least `m`
  unfoldable pub max_version : ℕ → ℕ → List A → ℕ
  max_version id m [] = m
  max_version id m (x ∷ l) =
      max_version id (if uuid x == id && ltb m (version x) then version x else m) l

  -- DELETE … WHERE uuid = ANY($1) AND version < (SELECT max(version) …)
  unfoldable pub delete_old : List ℕ → List A → List A
  unfolding max_version
  delete_old ids rows =
      keep (λ c. not (elem (uuid c) ids && ltb (version c) (max_version (uuid c) (version c) rows)))
        rows

  -- PRIMARY KEY (uuid, version): COPY inserts every row or, on a duplicate, none.
  unfoldable pub has_key : A → List A → Bool
  has_key r [] = false
  has_key r (x ∷ l) = (uuid x == uuid r && version x == version r) || has_key r l

  unfoldable pub copy_from : List A → List A → Option (List A)
  unfolding has_key
  copy_from [] table = some table
  copy_from (r ∷ rows) table =
      let rest = copy_from rows (r ∷ table) in if has_key r table then none else rest

-- SELECT DISTINCT uuid … ORDER BY uuid ASC: a sorted list without repetition
unfoldable pub insert_uuid : ℕ → List ℕ → List ℕ
insert_uuid u [] = u ∷ []
insert_uuid u (x ∷ l) =
    let rest = insert_uuid u l in if ltb u x then u ∷ x ∷ l else if u == x then x ∷ l else x ∷ rest

unfoldable pub distinct_uuids : List ℕ → List ℕ
unfolding insert_uuid
distinct_uuids [] = []
distinct_uuids (u ∷ l) = insert_uuid u (distinct_uuids l)
