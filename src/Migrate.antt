-- ===== src/Migrate.antt =====
-- The migrations that the program applies when it starts (internal/db/migrate.go). What a file's SQL
-- does to the tables, which files there are and what they hold are parameters; which calls of the
-- database fail is a script in the state, as in Sql.
pub mod Replay
pub mod Again
use Prim.Native.Nat.{Ordering}
use lillian_backend.Common.{
  ℕ, ◌==◌, Text, codes, text_eq, is_nil, Bool, true, false, Option, none, some, List, [], ◌∷◌, ◌++◌,
  if◌then◌else◌, Exec, Result, ok, err, pure, raise, ◌>>=◌, ◌>>◌,
}
use lillian_backend.Common.Sorting.{order_by, compare_text}
use lillian_backend.Profiles.{contains}

-- The table schema_migrations, and the other tables.
pub record Store (schema : Type 0) : Type 0 where
  pub versions : List Text
  pub tables : schema
  -- For each call that comes: none, or the text of its error.
  pub faults : List (Option Text)

-- filepath.Base of a path that does not end in a slash, where `name` is what follows the last one
-- that was read.
base_from : Text → Text → Text
base_from name [] = name
base_from name (c ∷ s) =
    let fresh = base_from [] s in
    let longer = base_from (name ++ c ∷ []) s in if c == b'/' then fresh else longer

unfoldable pub base : Text → Text
unfolding base_from
base path = base_from [] path

abbrev pub next_fault : List (Option Text) → Option Text
next_fault [] = none
next_fault (f ∷ fs) = f

abbrev pub later : List (Option Text) → List (Option Text)
later [] = []
later (f ∷ fs) = fs

module _ {schema : Type 0} where
  -- One call of the database.
  unfoldable pub call :
      {A : Type 0} → (Store schema → Result Text (A × Store schema)) → Exec Text (Store schema) A
  call f s =
      let s' = record s { faults = later s.faults } in
      elim (next_fault s.faults) [
        | some m ↦ (err m, s')
        | none ↦ elim (f s') [ err m ↦ (err m, s') | ok (a, t) ↦ (ok a, t) ]
      ]

  -- Begin, the statements, and Commit or Rollback; an error of Rollback is dropped.
  unfoldable pub in_transaction : Exec Text (Store schema) Unit → Exec Text (Store schema) Unit
  unfolding call
  in_transaction body s =
      let (begun, s1) = call {A = Unit} (λ t. ok (tt, t)) s in
      elim begun [
        | err m ↦ (err m, s1)
        | ok u ↦
            let (r, s2) = body s1 in
            let back = record s1 { faults = s2.faults } in
            elim r [
              | err m ↦ (err m, back)
              | ok v ↦
                  let (done, s3) = call {A = Unit} (λ t. ok (tt, t)) s2 in
                  elim done [
                    | err m ↦ (err m, record s1 { faults = s3.faults })
                    | ok z ↦ (ok tt, s3)
                  ]
            ]
      ]

  -- CREATE TABLE IF NOT EXISTS schema_migrations; the table of versions is empty before it is there.
  unfoldable pub create_table : Exec Text (Store schema) Unit
  unfolding call
  create_table = call (λ s. ok (tt, s))

  -- SELECT EXISTS (… WHERE version = $1)
  unfoldable pub is_applied : Text → Exec Text (Store schema) Bool
  unfolding call contains
  is_applied version = call (λ s. ok (contains s.versions version, s))

  -- INSERT INTO schema_migrations; the version is the primary key.
  unfoldable pub record_version : Text → Exec Text (Store schema) Unit
  unfolding call contains
  record_version version = call (λ s.
      if contains s.versions version
      then err (codes "duplicate key value violates unique constraint")
      else ok (tt, record s { versions = s.versions ++ version ∷ [] }))

  -- The error of the file's SQL is told with its version.
  unfoldable pub named : Text → Exec Text (Store schema) Unit → Exec Text (Store schema) Unit
  named version m s =
      let (r, s') = m s in
      elim r [
        | ok u ↦ (ok u, s')
        | err e ↦ (err (codes "apply migration " ++ (version ++ (codes ": " ++ e))), s')
      ]

  abbrev pub found : Result Text Text → Exec Text (Store schema) Text
  found (ok sql) = pure sql
  found (err e) = raise e

  module _ (run_sql : Text → schema → Result Text schema) where
    abbrev pub ran : Store schema → Result Text schema → Result Text (Unit × Store schema)
    ran s (ok t) = ok (tt, record s { tables = t })
    ran s (err m) = err m

    -- tx.Exec(ctx, string(sql))
    unfoldable pub run_migration : Text → Exec Text (Store schema) Unit
    unfolding call
    run_migration sql = call (λ s. ran s (run_sql sql s.tables))

    -- The statements between Begin and Commit.
    unfoldable pub apply_sql : Text → Text → Exec Text (Store schema) Unit
    unfolding run_migration named record_version
    apply_sql version sql = do named version (run_migration sql); record_version version

    module _ (read_file : Text → Result Text Text) where
      unfoldable pub apply_new : Text → Exec Text (Store schema) Unit
      unfolding apply_sql in_transaction base
      apply_new file = do sql ← found (read_file file); in_transaction (apply_sql (base file) sql)

      -- One round of the loop.
      unfoldable pub apply_file : Text → Exec Text (Store schema) Unit
      unfolding apply_new is_applied base
      apply_file file = do
        applied ← is_applied (base file)
        (if applied then pure tt else apply_new file)

      unfoldable pub apply_files : List Text → Exec Text (Store schema) Unit
      unfolding apply_file
      apply_files [] = pure tt
      apply_files (file ∷ files) = do apply_file file; apply_files files

      module _ (glob : Text → Result Text (List Text)) where
        abbrev pub listed : Result Text (List Text) → Exec Text (Store schema) (List Text)
        listed (ok files) = pure (order_by compare_text files)
        listed (err e) = raise e

        -- filepath.Join(dir, "*.sql") under filepath.Glob.
        abbrev pub files_in : Text → Result Text (List Text)
        files_in dir = glob (if is_nil dir then codes "migrations" else dir)

        -- Whether there is a pool, and the directory.
        unfoldable pub apply_migrations : Bool → Text → Exec Text (Store schema) Unit
        unfolding apply_files create_table
        apply_migrations false dir = pure tt
        apply_migrations true dir = do
          files ← listed (files_in dir)
          create_table
          apply_files files
