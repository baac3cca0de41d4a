-- ===== src/Migrate/Replay.antt =====
-- The tables are what the recorded migrations make of them.
use lillian_backend.Common.{
  ◌≡◌, refl, ap, sym, ◌∙◌, ◌⊎◌, inl, inr, Text, Bool, true, false, List, [], ◌∷◌, ◌++◌, Exec,
  Result, ok, err, ◌>>=◌, arith, Result-cases, Bool-cases, Option-cases,
}
use lillian_backend.Migrate.{
  Store, base, next_fault, later, call, in_transaction, create_table, files_in, is_applied,
  record_version, run_migration, named, apply_sql, apply_new, apply_file, apply_files,
  apply_migrations,
}

module _ {schema : Type 0} where
  -- The tables and the versions of two stores are the same.
  pub record Same (s t : Store schema) : Type 0 where
    pub versions : t.versions ≡ s.versions
    pub tables : t.tables ≡ s.tables

  pub Same-refl : (s : Store schema) → Same s s
  Same-refl s = record { versions = refl; tables = refl }

  pub Same-trans : (s t u : Store schema) → Same s t → Same t u → Same s u
  Same-trans s t u p q = record { versions = q.versions ∙ p.versions; tables = q.tables ∙ p.tables }

  -- A transaction that fails leaves the store as it was, and one that succeeds as its body left it.
  pub in_transaction_lem :
      (body : Exec Text (Store schema) Unit) (s : Store schema)
      → ((e : Text) × ((in_transaction body s).0 ≡ err e) × Same s (in_transaction body s).1)
        ⊎ ((t : Store schema) × Same s t
            × ((body t).0 ≡ ok tt)
            × ((in_transaction body s).0 ≡ ok tt)
            × Same (body t).1 (in_transaction body s).1)
  unfolding in_transaction call
  in_transaction_lem body s =
      let s1 = record s { faults = later s.faults } in
      elim (Option-cases (next_fault s.faults)) [
        | inr (m, broken) ↦ inl (
          m,
          ground (arith, broken),
          record { versions = ground (arith, broken); tables = ground (arith, broken) },
        )
        | inl quiet ↦ elim (Result-cases (body s1).0) [
          | inr (e, failed) ↦ inl (
            e,
            ground (arith, quiet, failed),
            record {
              versions = ground (arith, quiet, failed);
              tables = ground (arith, quiet, failed);
            },
          )
          | inl (z, fine) ↦ elim (Option-cases (next_fault (body s1).1.faults)) [
            | inr (m, lost) ↦ inl (
              m,
              ground (arith, quiet, fine, lost),
              record {
                versions = ground (arith, quiet, fine, lost);
                tables = ground (arith, quiet, fine, lost);
              },
            )
            | inl kept ↦ inr (
              s1,
              record { versions = refl; tables = refl },
              fine,
              ground (arith, quiet, fine, kept),
              record {
                versions = ground (arith, quiet, fine, kept);
                tables = ground (arith, quiet, fine, kept);
              },
            )
          ]
        ]
      ]

  pub is_applied-Same : (version : Text) (s : Store schema) → Same s (is_applied version s).1
  unfolding is_applied call
  is_applied-Same version s = elim (Option-cases (next_fault s.faults)) [
    | inl quiet ↦ record { versions = ground (arith, quiet); tables = ground (arith, quiet) }
    | inr (m, broken) ↦ record {
      versions = ground (arith, broken);
      tables = ground (arith, broken);
    }
  ]

  pub create_table-Same : (s : Store schema) → Same s (create_table s).1
  unfolding create_table call
  create_table-Same s = elim (Option-cases (next_fault s.faults)) [
    | inl quiet ↦ record { versions = ground (arith, quiet); tables = ground (arith, quiet) }
    | inr (m, broken) ↦ record {
      versions = ground (arith, broken);
      tables = ground (arith, broken);
    }
  ]

  module _ (run_sql : Text → schema → Result Text schema) where
    -- What the statements of one migration do when they succeed.
    pub apply_sql_lem :
        (version sql : Text) (s : Store schema)
        → (apply_sql run_sql version sql s).0 ≡ ok tt
        → (t : schema) × (run_sql sql s.tables ≡ ok t)
          × ((apply_sql run_sql version sql s).1.tables ≡ t)
          × ((apply_sql run_sql version sql s).1.versions ≡ s.versions ++ version ∷ [])
    unfolding apply_sql named run_migration record_version call ◌>>=◌
    apply_sql_lem version sql s h = elim (Option-cases (next_fault s.faults)) [
      | inr (m, broken) ↦ absurd (ground (arith, broken))
      | inl quiet ↦ elim (Result-cases (run_sql sql s.tables)) [
        | inr (e, failed) ↦ absurd (ground (arith, quiet, failed))
        | inl (t, fine) ↦ (t, fine, ground (arith, h, quiet, fine), ground (arith, h, quiet, fine))
      ]
    ]

    -- What the recorded migrations make of the tables that were there first.
    module _ (contents : Text → Text) (start : schema) where
      abbrev pub replay : schema → List Text → Result Text schema
      replay s [] = ok s
      replay s (v ∷ vs) = elim (run_sql (contents v) s) [ err e ↦ err e | ok t ↦ replay t vs ]

      replay-snoc :
          (s t u : schema) (vs : List Text) (v : Text)
          → replay s vs ≡ ok t
          → run_sql (contents v) t ≡ ok u
          → replay s (vs ++ v ∷ []) ≡ ok u
      replay-snoc s t u [] v h k = grind (arith, h, k)
      replay-snoc s t u (x ∷ vs) v h k = elim (Result-cases (run_sql (contents x) s)) [
        | inl (y, fine) ↦ rw fine (replay-snoc y t u vs v (grind (arith, fine, h)) k)
        | inr (e, failed) ↦ absurd (ground (arith, failed, h))
      ]

      abbrev pub IsReplayed : Store schema → Type 0
      IsReplayed s = replay start s.versions ≡ ok s.tables

      Same-IsReplayed : (s t : Store schema) → Same s t → IsReplayed s → IsReplayed t
      Same-IsReplayed s t p h = ap (replay start) p.versions ∙ h ∙ ap (λ x. ok x) (sym p.tables)

      module _ (read_file : Text → Result Text Text)
          (same_contents : (file sql : Text)
            → read_file file ≡ ok sql
            → sql ≡ contents (base file)) where
        made :
            (file sql : Text) (s : Store schema)
            → read_file file ≡ ok sql
            → IsReplayed s
            → IsReplayed (in_transaction (apply_sql run_sql (base file) sql) s).1
        made file sql s there h = elim (in_transaction_lem (apply_sql run_sql (base file) sql) s) [
          | inl (e, failed, same) ↦ Same-IsReplayed s _ same h
          | inr (t, p, fine, done, q) ↦
              let (u, made, tables, versions) = apply_sql_lem (base file) sql t fine in
              Same-IsReplayed (apply_sql run_sql (base file) sql t).1 _ q (
                ap (replay start) versions
                ∙ replay-snoc start t.tables u t.versions (base file) (Same-IsReplayed s t p h)
                    (ap (λ c. run_sql c t.tables) (sym (same_contents file sql there)) ∙ made)
                ∙ ap (λ x. ok x) (sym tables))
        ]

        new-IsReplayed :
            (file : Text) (s : Store schema)
            → IsReplayed s
            → IsReplayed (apply_new run_sql read_file file s).1
        unfolding apply_new ◌>>=◌
        new-IsReplayed file s h = elim (Result-cases (read_file file)) [
          | inr (e, missing) ↦ rw missing h
          | inl (sql, there) ↦ rw there (made file sql s there h)
        ]

        file-IsReplayed :
            (file : Text) (s : Store schema)
            → IsReplayed s
            → IsReplayed (apply_file run_sql read_file file s).1
        unfolding apply_file ◌>>=◌
        file-IsReplayed file s h =
            let asked = Same-IsReplayed s _ (is_applied-Same (base file) s) h in
            elim (Result-cases (is_applied (base file) s).0) [
              | inr (e, failed) ↦ rw failed asked
              | inl (b, known) ↦ elim (Bool-cases b) [
                | inl old ↦ rw (known, old) asked
                | inr new ↦ rw (known, new) (new-IsReplayed file _ asked)
              ]
            ]

        files-IsReplayed :
            (files : List Text) (s : Store schema)
            → IsReplayed s
            → IsReplayed (apply_files run_sql read_file files s).1
        unfolding apply_files ◌>>=◌
        files-IsReplayed [] s h = h
        files-IsReplayed (file ∷ files) s h =
            let first = file-IsReplayed file s h in
            elim (Result-cases (apply_file run_sql read_file file s).0) [
              | inr (e, failed) ↦ rw failed first
              | inl (z, fine) ↦ rw fine (files-IsReplayed files _ first)
            ]

        -- When a file's text is fixed by its base name, the tables are at all times what the SQL of
        -- the recorded migrations, run one after the other in the order of the records, makes of the
        -- tables that were there first: if this is so before the migrations are applied, it is so
        -- after, whether they are all applied or a file, a statement or a commit fails. No migration
        -- is applied without being recorded, or recorded without being applied.
        pub apply_migrations-IsReplayed :
            (glob : Text → Result Text (List Text)) (has_pool : Bool) (dir : Text)
            (s : Store schema)
            → IsReplayed s
            → IsReplayed (apply_migrations run_sql read_file glob has_pool dir s).1
        unfolding apply_migrations ◌>>=◌
        apply_migrations-IsReplayed glob false dir s h = h
        apply_migrations-IsReplayed glob true dir s h =
            let created = Same-IsReplayed s _ (create_table-Same s) h in
            elim (Result-cases (files_in run_sql read_file glob dir)) [
              | inr (e, unread) ↦ rw unread h
              | inl (files, read) ↦ elim (Result-cases (create_table s).0) [
                | inr (e, failed) ↦ rw (read, failed) created
                | inl (z, fine) ↦ rw (read, fine) (files-IsReplayed _ _ created)
              ]
            ]
