-- ===== src/Sql.antt =====
-- Statements and transactions over the database, as pgx gives them to the program. Which
-- statements fail, what the clock reads and what the random source returns is a script in the
-- state, so that a theorem ranges over all of these.
pub mod Rules
pub mod Success
use lillian_backend.Common.{
  ℕ, Text, codes, Bool, Option, none, some, List, [], ◌∷◌, if◌then◌else◌, Result, ok, err, Exec,
  pure, raise, ◌>>=◌,
}
use lillian_backend.Schema.{Db}

pub record World : Type 0 where
  pub db : Db
  -- For each call of the database that comes: none, or the text of its error.
  pub faults : List (Option Text)
  pub clock : List ℕ
  pub uuids : List (Option Text)

pub data SqlError : Type 0 where
  no_rows : SqlError
  failed : Text → SqlError

-- err.Error()
abbrev pub error_text : SqlError → Text
error_text no_rows = codes "no rows in result set"
error_text (failed m) = m

unfoldable pub head_or {ℓ} : {A : Type ℓ} → A → List A → A
head_or d [] = d
head_or d (x ∷ xs) = x

unfoldable pub rest {ℓ} : {A : Type ℓ} → List A → List A
rest [] = []
rest (x ∷ xs) = xs

-- Whether the next call of the database fails.
unfoldable pub fault : World → Option Text
unfolding head_or
fault w = head_or none w.faults

unfoldable pub later_faults : World → List (Option Text)
unfolding rest
later_faults w = rest w.faults

-- One call of the database has been made.
abbrev pub spend : World → World
spend w = record w { faults = later_faults w }

abbrev pub with_db : World → Db → World
with_db w d = record w { db = d }

-- The next reading of the clock; an empty script reads 0.
unfoldable pub reading : World → ℕ
unfolding head_or
reading w = head_or 0 w.clock

unfoldable pub later_clock : World → List ℕ
unfolding rest
later_clock w = rest w.clock

-- time.Now().UTC()
unfoldable pub time_now : {E : Type 0} → Exec E World ℕ
time_now w = (ok (reading w), record w { clock = later_clock w })

unfoldable pub next_uuid : World → Option Text
unfolding head_or
next_uuid w = head_or none w.uuids

unfoldable pub later_uuids : World → List (Option Text)
unfolding rest
later_uuids w = rest w.uuids

-- A random identifier; the random source may fail.
unfoldable pub random_id : {E : Type 0} → E → Exec E World Text
random_id e w = elim (next_uuid w) [
  | none ↦ (err e, record w { uuids = later_uuids w })
  | some u ↦ (ok u, record w { uuids = later_uuids w })
]

module _ {E : Type 0} (wrap : SqlError → E) where
  -- A statement: how it changes the database, and what it returns, read before the change.
  unfoldable pub exec : {A : Type 0} → (Db → A) → (Db → Db) → Exec E World A
  exec result change w = elim (fault w) [
    | some m ↦ (err (wrap (failed m)), spend w)
    | none ↦ (ok (result w.db), with_db (spend w) (change w.db))
  ]

  -- An INSERT: a row that breaks a constraint is an error.
  unfoldable pub insert : (Db → Bool) → (Db → Db) → Exec E World Unit
  insert conflict change w = elim (fault w) [
    | some m ↦ (err (wrap (failed m)), spend w)
    | none ↦
        if conflict w.db
        then (err (wrap (failed (codes "duplicate key value violates unique constraint"))), spend w)
        else (ok tt, with_db (spend w) (change w.db))
  ]

  unfoldable pub query : {A : Type 0} → (Db → A) → Exec E World A
  query result w = elim (fault w) [
    | some m ↦ (err (wrap (failed m)), spend w)
    | none ↦ (ok (result w.db), spend w)
  ]

  -- QueryRow(…).Scan(…)
  unfoldable pub query_row : {A : Type 0} → (Db → Option A) → Exec E World A
  query_row result w = elim (fault w) [
    | some m ↦ (err (wrap (failed m)), spend w)
    | none ↦ elim (result w.db) [ none ↦ (err (wrap no_rows), spend w) | some a ↦ (ok a, spend w) ]
  ]

  -- Begin, the statements, Commit; a failure of any of them rolls back. A transaction runs with
  -- no other between its statements, as its row locks and the advisory lock order them.
  unfoldable pub transaction : {A : Type 0} → Exec E World A → Exec E World A
  transaction body w = elim (fault w) [
    | some m ↦ (err (wrap (failed m)), spend w)
    | none ↦
        let (r, w') = body (spend w) in
        elim r [
          | err e ↦ (err e, with_db w' w.db)
          | ok a ↦ elim (fault w') [
            | some m ↦ (err (wrap (failed m)), with_db (spend w') w.db)
            | none ↦ (ok a, spend w')
          ]
        ]
  ]

-- The result of a call as a value, for code that looks at the error or drops it.
unfoldable pub attempt : {E F A : Type 0} → Exec E World A → Exec F World (Result E A)
attempt m w = let (r, w') = m w in (ok r, w')

-- The same call with its error seen as another.
unfoldable pub map_error : {E F A : Type 0} → (E → F) → Exec E World A → Exec F World A
map_error g m w = let (r, w') = m w in elim r [ ok a ↦ (ok a, w') | err e ↦ (err (g e), w') ]

-- To open this opens every step of a handler.
unfoldable pub steps : Unit {0}
unfolding ◌>>=◌ exec insert query query_row transaction attempt map_error time_now random_id
steps = tt
