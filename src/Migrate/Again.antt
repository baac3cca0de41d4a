-- ===== src/Migrate/Again.antt =====
-- Migrations that have been applied are applied once.
use lillian_backend.Common.{
  ◌≡◌, refl, ap, sym, ◌∙◌, subst, inl, inr, Text, text_eq, text_eq_refl, ◌||◌, Bool, true, false,
  List, [], ◌∷◌, ◌++◌, All, if◌then◌else◌, Result, ok, pure, ◌>>=◌, ◌>>◌, continue, arith,
  Result-cases, Bool-cases, Option-cases,
}
use lillian_backend.Common.Sorting.{order_by, compare_text}
use lillian_backend.Profiles.{contains}
use lillian_backend.Migrate.{
  Store, base, next_fault, call, create_table, is_applied, apply_sql, apply_new, apply_file,
  apply_files, apply_migrations, listed, files_in,
}
use lillian_backend.Migrate.Replay.{is_applied-Same, in_transaction_lem, apply_sql_lem}

contains-snoc :
    (vs : List Text) (v x : Text) → contains (vs ++ v ∷ []) x ≡ (contains vs x || text_eq v x)
unfolding contains
contains-snoc [] v x = ground arith
contains-snoc (y ∷ vs) v x = ground (arith, contains-snoc vs v x)

module _ {schema : Type 0} where
  -- The store when no later call fails.
  abbrev pub settled : Store schema → Store schema
  settled s = record s { faults = [] }

  abbrev Grown : Store schema → Store schema → Type 0
  Grown s t = (v : Text) → contains s.versions v ≡ true → contains t.versions v ≡ true

  module _ (run_sql : Text → schema → Result Text schema)
      (read_file : Text → Result Text Text) where
    new_ok :
        (file : Text) (s : Store schema)
        → (apply_new run_sql read_file file s).0 ≡ ok tt
        → (apply_new run_sql read_file file s).1.versions ≡ s.versions ++ base file ∷ []
    unfolding apply_new ◌>>=◌
    new_ok file s h = elim (Result-cases (read_file file)) [
      | inr (e, missing) ↦ absurd (ground (arith, missing, h))
      | inl (sql, there) ↦ elim (in_transaction_lem (apply_sql run_sql (base file) sql) s) [
        | inl (e, failed, same) ↦ absurd (ground (arith, there, failed, h))
        | inr (t, p, fine, done, q) ↦
            let (u, made, tables, versions) = apply_sql_lem run_sql (base file) sql t fine in
            rw there (q.versions ∙ versions ∙ ap (λ vs. vs ++ base file ∷ []) p.versions)
      ]
    ]

    known_ok :
        (version : Text) (s : Store schema) (b : Bool)
        → (is_applied version s).0 ≡ ok b
        → contains s.versions version ≡ b
    unfolding is_applied call
    known_ok version s b h = elim (Option-cases (next_fault s.faults)) [
      | inl quiet ↦ ground (arith, quiet, h)
      | inr (m, broken) ↦ absurd (ground (arith, broken, h))
    ]

    file_ok :
        (file : Text) (s : Store schema)
        → (apply_file run_sql read_file file s).0 ≡ ok tt
        → Grown s (apply_file run_sql read_file file s).1
          × (contains (apply_file run_sql read_file file s).1.versions (base file) ≡ true)
    unfolding apply_file ◌>>=◌
    file_ok file s h =
        let s1 = (is_applied (base file) s).1 in
        let same = (is_applied-Same (base file) s).versions in
        elim (Result-cases (is_applied (base file) s).0) [
          | inr (e, failed) ↦ absurd (ground (arith, failed, h))
          | inl (b, known) ↦ elim (Bool-cases b) [
            | inl old ↦
                rw (known, old)
                  (
                    (λ v k. ap (λ vs. contains vs v) same ∙ k),
                    ap (λ vs. contains vs (base file)) same ∙ known_ok (base file) s b known ∙ old,
                  )
            | inr new ↦
                let fine =
                  ap
                    (λ r.
                      (continue r (λ b. if b then pure tt else apply_new run_sql read_file file)
                        s1).0)
                    (sym (known ∙ ap (λ x. ok x) new))
                  ∙ h in
                let grew = new_ok file s1 fine in
                rw (known, new)
                  (
                    (λ v k. grind (
                      arith,
                      ap (λ vs. contains vs v) grew,
                      contains-snoc s1.versions (base file) v,
                      ap (λ vs. contains vs v) same,
                      k,
                    )),
                    grind (
                      arith,
                      ap (λ vs. contains vs (base file)) grew,
                      contains-snoc s1.versions (base file) (base file),
                      text_eq_refl (base file),
                    ),
                  )
          ]
        ]

    abbrev AllKnown : List Text → Store schema → Type 0
    AllKnown files s = All (λ file. contains s.versions (base file) ≡ true) files

    files_ok :
        (files : List Text) (s : Store schema)
        → (apply_files run_sql read_file files s).0 ≡ ok tt
        → Grown s (apply_files run_sql read_file files s).1
          × AllKnown files (apply_files run_sql read_file files s).1
    unfolding apply_files ◌>>=◌
    files_ok [] s h = ((λ v k. k), tt)
    files_ok (file ∷ files) s h = elim (Result-cases (apply_file run_sql read_file file s).0) [
      | inr (e, failed) ↦ absurd (ground (arith, failed, h))
      | inl (z, fine) ↦
          let s1 = (apply_file run_sql read_file file s).1 in
          let rest =
            ap (λ r. (continue r (λ _. apply_files run_sql read_file files) s1).0) (sym fine) ∙ h in
          let (grown, here) = file_ok file s fine in
          let (more, all) = files_ok files s1 rest in
          let step =
            ap (λ r. (continue r (λ _. apply_files run_sql read_file files) s1).1) (sym fine) in
          subst (λ t. Grown s t × AllKnown (file ∷ files) t) step
            ((λ v k. more v (grown v k)), (more (base file) here, all))
    ]

    skipped :
        (file : Text) (s : Store schema)
        → contains s.versions (base file) ≡ true
        → apply_file run_sql read_file file (settled s) ≡ (ok tt, settled s)
    unfolding apply_file ◌>>=◌ is_applied call
    skipped file s h = rw h refl

    all_skipped :
        (files : List Text) (s : Store schema)
        → AllKnown files s
        → apply_files run_sql read_file files (settled s) ≡ (ok tt, settled s)
    unfolding apply_files ◌>>=◌
    all_skipped [] s h = refl
    all_skipped (file ∷ files) s h =
        ap (λ x. continue x.0 (λ _. apply_files run_sql read_file files) x.1) (skipped file s h.0)
        ∙ all_skipped files s h.1

    created :
        (glob : Text → Result Text (List Text)) (dir : Text) (s : Store schema) (sorted : List Text)
        → ((x : Store schema)
            → apply_migrations run_sql read_file glob true dir x
              ≡ (create_table >> apply_files run_sql read_file sorted) x)
        → (apply_migrations run_sql read_file glob true dir s).0 ≡ ok tt
        → apply_migrations run_sql read_file glob true dir
            (settled (apply_migrations run_sql read_file glob true dir s).1)
          ≡ (ok tt, settled (apply_migrations run_sql read_file glob true dir s).1)
    unfolding ◌>>=◌ create_table call
    created glob dir s sorted listing h =
        let s1 = (create_table s).1 in
        let run = apply_files run_sql read_file sorted in
        elim (Result-cases (create_table s).0) [
          | inr (e, failed) ↦ absurd (grind (arith, ap (λ x. x.0) (listing s), failed, h))
          | inl (z, fine) ↦
              let ends = listing s ∙ ap (λ r. continue r (λ _. run) s1) fine in
              let known = (files_ok sorted s1 (sym (ap (λ x. x.0) ends) ∙ h)).1 in
              subst
                (λ t.
                  apply_migrations run_sql read_file glob true dir (settled t) ≡ (ok tt, settled t))
                (sym (ap (λ x. x.1) ends))
                (listing (settled (run s1).1) ∙ all_skipped sorted (run s1).1 known)
        ]

    -- Once the migrations have been applied without an error, to apply them again, no call failing,
    -- succeeds, runs no SQL and records nothing: the tables and the records stay as they are.
    pub apply_migrations-again :
        (glob : Text → Result Text (List Text)) (has_pool : Bool) (dir : Text) (s : Store schema)
        → (apply_migrations run_sql read_file glob has_pool dir s).0 ≡ ok tt
        → apply_migrations run_sql read_file glob has_pool dir
            (settled (apply_migrations run_sql read_file glob has_pool dir s).1)
          ≡ (ok tt, settled (apply_migrations run_sql read_file glob has_pool dir s).1)
    unfolding apply_migrations ◌>>=◌ create_table call
    apply_migrations-again glob false dir s h = refl
    apply_migrations-again glob true dir s h =
        elim (Result-cases (files_in run_sql read_file glob dir)) [
          | inr (e, unread) ↦ absurd (ground (arith, unread, h))
          | inl (files, read) ↦
              let sorted = order_by compare_text files in
              let listing = λ (x : Store schema).
                ap
                  (λ r.
                    (listed run_sql read_file glob r >>= λ fs.
                    create_table >> apply_files run_sql read_file fs)
                      x)
                  read in
              created glob dir s sorted listing h
        ]
