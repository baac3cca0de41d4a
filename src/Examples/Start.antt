-- ===== src/Examples/Start.antt =====
-- The theorems on what the program does when it starts, and on who is refused, at concrete inputs.
use lillian_backend.Common.{
  ◌≡◌, refl, Text, codes, text_eq, Bool, true, false, Option, none, some, List, [], ◌∷◌, ◌++◌,
  Result, ok, err, arith,
}
use lillian_backend.Migrate.{Store, base, apply_migrations}
use lillian_backend.Migrate.Replay.{IsReplayed, apply_migrations-IsReplayed}
use lillian_backend.Migrate.Again.{settled, apply_migrations-again}
use lillian_backend.Routes.{AdminCall, Services, serve_admin}
use lillian_backend.Routes.Guarded.{is_admin, refusal, serve_admin-refuses}
use lillian_backend.Examples.Providers.{a_crypto}
use lillian_backend.Examples.Topups.{the_amounts}
use lillian_backend.Examples.{a_world, a_server}

-- The tables are the texts of the SQL that has been run, and a file holds its own name.
abbrev run_sql : Text → List Text → Result Text (List Text)
run_sql sql done = ok (done ++ sql ∷ [])

abbrev read_file : Text → Result Text Text
read_file file = ok (base file)

abbrev contents : Text → Text
contents version = version

abbrev two_files : Text → Result Text (List Text)
two_files dir = ok (codes "m/2.sql" ∷ codes "m/1.sql" ∷ [])

same_name : (file sql : Text) → read_file file ≡ ok sql → sql ≡ contents (base file)
same_name file sql h = ground (arith, h)

-- The commit of the second migration fails.
abbrev failing_store : Store (List Text)
failing_store = record {
  versions = [];
  tables = [];
  faults =
      none
      ∷ none
      ∷ none
      ∷ none
      ∷ none
      ∷ none
      ∷ none
      ∷ none
      ∷ none
      ∷ none
      ∷ some (codes "lost")
      ∷ [];
}

abbrev quiet_store : Store (List Text)
quiet_store = record failing_store { faults = [] }

apply_migrations-IsReplayed_example :
    IsReplayed run_sql contents []
      (apply_migrations run_sql read_file two_files true [] failing_store).1
apply_migrations-IsReplayed_example =
    apply_migrations-IsReplayed run_sql contents [] read_file same_name two_files true []
      failing_store refl

applied : (apply_migrations run_sql read_file two_files true [] quiet_store).0 ≡ ok tt
unfolding apply_migrations lillian_backend.Common.◌>>=◌ lillian_backend.Common.Sorting.order_by
    lillian_backend.Common.Sorting.compare_text text_eq
applied = refl

apply_migrations-again_example :
    apply_migrations run_sql read_file two_files true []
      (settled (apply_migrations run_sql read_file two_files true [] quiet_store).1)
    ≡ (ok tt, settled (apply_migrations run_sql read_file two_files true [] quiet_store).1)
apply_migrations-again_example =
    apply_migrations-again run_sql read_file two_files true [] quiet_store applied

abbrev the_services : Services
the_services = record {
  crypto = a_crypto;
  pepper = codes "pepper";
  provider_secret = codes "secret";
  amounts = the_amounts;
  parse_time = λ layout value. none;
  encrypt = λ s. some s;
}

guessed_wrong : is_admin a_server (codes "Bearer guess") ≡ false
unfolding lillian_backend.Common.trim_space lillian_backend.Http.bearer_token text_eq
    lillian_backend.Common.fields_by lillian_backend.Common.equal_fold
guessed_wrong = refl

serve_admin-refuses_example :
    serve_admin the_services a_server
      (codes "Bearer guess")
      (AdminCall.delete_licenses (some (codes "l1" ∷ [])))
      a_world
    ≡ (err (refusal a_server), a_world)
serve_admin-refuses_example =
    serve_admin-refuses the_services a_server (codes "Bearer guess")
      (AdminCall.delete_licenses (some (codes "l1" ∷ []))) a_world guessed_wrong
