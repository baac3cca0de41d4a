-- ===== src/Examples/Lists.antt =====
-- The theorems on what is shown, of tasks, licences, profiles, wallets and settings, at concrete
-- inputs.
use lillian_backend.Common.{
  ℕ, ◌≤◌, ◌^◌, ◌-◌, pos, negsuc, leb, ◌≡◌, refl, Text, codes, text_eq, trim_space, to_lower,
  decimal, atoi, is_nil, Bool, true, false, Option, none, some, List, [], ◌∷◌, ◌++◌, map, length,
  find_where, count_where, get_elem?, arith, ok,
}
use lillian_backend.Schema.{TaskRow, TaskOutput, WalletRecord}
use lillian_backend.Sql.{World, fault}
use lillian_backend.Http.{bearer_token}
use lillian_backend.Http.Urls.{Request, public_base_url}
use lillian_backend.Wallets.{WalletSnapshot}
use lillian_backend.Wallets.Handlers.{public_wallet}
use lillian_backend.Tasks.Image.{is_task_of, wallet_from_request, decode_outputs, output_at}
use lillian_backend.Tasks.Show.{
  PublicTask, PublicOutput, output_url, address_query, public_task, handle_get_task,
}
use lillian_backend.Tasks.Show.Served.{handle_get_task-served}
use lillian_backend.Admin.Licenses.Page.{
  LicenseQuery, ListedRow, listed_rows, filters_of, public_license,
}
use lillian_backend.Admin.Licenses.Page.Walk.{walk, handle_list_licenses-walk}
use lillian_backend.Admin.Profiles.Shown.{handle_list_profiles}
use lillian_backend.Admin.Profiles.Shown.Hidden.{rekeyed, handle_list_profiles-hides}
use lillian_backend.Admin.Wallets.{
  AdminWalletResponse, admin_wallet_redemptions, admin_wallet_tasks, handle_admin_get_wallet,
}
use lillian_backend.Admin.Wallets.Own.{ShowsOwn, handle_admin_get_wallet-own}
use lillian_backend.Settings.{RuntimeSettings, load_runtime_settings}
use lillian_backend.Admin.RuntimeSettings.{bounded_settings, handle_update_settings}
use lillian_backend.Admin.RuntimeSettings.Rows.{UniqueKeys}
use lillian_backend.Admin.RuntimeSettings.Stored.{load-update_settings}
use lillian_backend.Examples.Providers.{a_crypto}
use lillian_backend.Examples.Images.{done_world, done_task}
use lillian_backend.Examples.Topups.{a_request}
use lillian_backend.Examples.{
  a_database, world_of, a_world, a_wallet, a_license, a_server, wallet_address, sd,
}

-- Two licences beside that of the database, on pages of one.
abbrev list_world : World
list_world = world_of (record a_database {
  licenses =
      a_license
      ∷ record a_license { id = codes "l2"; key_hash = codes "h2"; created_at = 2 }
      ∷ record a_license { id = codes "l3"; key_hash = codes "h3"; created_at = 3 }
      ∷ [];
})

abbrev one_by_one : LicenseQuery
one_by_one = record {
  limit = codes "1";
  offset = [];
  q = [];
  service_code = [];
  redeemed = codes "unused";
}

abbrev the_rows : List ListedRow
the_rows =
    listed_rows (filters_of a_crypto (codes "pepper") (codes "secret") one_by_one) list_world.db

admin_set : is_nil (trim_space a_server.admin_token) ≡ false
unfolding trim_space
admin_set = refl

admin_known : text_eq (bearer_token (codes "Bearer admin")) (trim_space a_server.admin_token) ≡ true
unfolding trim_space bearer_token text_eq lillian_backend.Common.fields_by
    lillian_backend.Common.equal_fold
admin_known = refl

three_rows : length the_rows ≡ 3
unfolding listed_rows filters_of text_eq trim_space lillian_backend.Common.Sorting.order_by
    lillian_backend.Common.select_where lillian_backend.Admin.Licenses.is_listed
    lillian_backend.Admin.Licenses.license_redeemed_filter
    lillian_backend.Admin.Licenses.license_service_filter lillian_backend.Common.to_lower
three_rows = refl

few : length the_rows ≤ 2 ^ 63 - 1
few = omega (arith, three_rows)

handle_list_licenses-walk_example :
    (walk a_crypto
      (codes "pepper")
      (codes "secret")
      a_server
      (codes "Bearer admin")
      (length the_rows)
      one_by_one
      0
      list_world).0
    ≡ ok (map (public_license a_crypto (codes "pepper") (codes "secret")) the_rows)
handle_list_licenses-walk_example =
    handle_list_licenses-walk a_crypto (codes "pepper") (codes "secret") a_server
      (codes "Bearer admin") one_by_one list_world admin_set admin_known refl refl few

-- Every character of a key replaced by a star.
abbrev starred : Text → Text
starred s = map (λ _. b'*') s

starred-is_nil : (s : Text) → is_nil (starred s) ≡ is_nil s
starred-is_nil [] = refl
starred-is_nil (c ∷ s) = refl

handle_list_profiles-hides_example :
    (handle_list_profiles a_server (codes "Bearer admin") (rekeyed starred a_world)).0
    ≡ (handle_list_profiles a_server (codes "Bearer admin") a_world).0
handle_list_profiles-hides_example =
    handle_list_profiles-hides starred a_server (codes "Bearer admin") a_world starred-is_nil

abbrev asked_by_wallet : Request
asked_by_wallet = record a_request { query_address = wallet_address }

abbrev as_it_is : Text → Text
as_it_is s = s

abbrev the_snapshot : WalletSnapshot
the_snapshot = record {
  wallet = a_wallet;
  entitlements =
      record { service_code = sd; label = codes "SD 1K"; remaining = pos 3; max_concurrent = pos 2 }
      ∷ [];
}

abbrev the_task : PublicTask Text
the_task = public_task as_it_is (λ s. some s) a_server asked_by_wallet done_task the_snapshot

abbrev the_output : PublicOutput
the_output = record {
  url =
      output_url as_it_is {json = Text} (λ s. some s) (public_base_url a_server asked_by_wallet)
        (codes "t1") (address_query as_it_is {json = Text} (λ s. some s) asked_by_wallet) 0;
  content_type = codes "image/webp";
}

shown :
    (handle_get_task as_it_is (λ s. some s) a_server asked_by_wallet (codes "t1") done_world).0
    ≡ ok the_task
unfolding handle_get_task lillian_backend.Common.◌>>=◌ lillian_backend.Sql.steps
    lillian_backend.Http.require_wallet_store lillian_backend.Wallets.is_wallet_address to_lower
    trim_space lillian_backend.Wallets.wallet_by_address fault text_eq find_where
    lillian_backend.Common.select_where lillian_backend.Common.Sorting.order_by
    lillian_backend.Sql.later_faults lillian_backend.Sql.head_or lillian_backend.Sql.rest
    lillian_backend.Wallets.snapshot lillian_backend.Wallets.entitlements_of
    lillian_backend.Wallets.service_label
shown = refl

first_output : get_elem? the_task.outputs 0 ≡ some the_output
unfolding public_task
first_output = refl

handle_get_task-served_example :
    (s : WalletSnapshot) × (t : TaskRow) × (o : TaskOutput) × ((wallet_from_request a_server
        wallet_address [] done_world).0
      ≡ ok s)
    × (find_where (is_task_of (codes "t1") s.wallet.id) done_world.db.tasks ≡ some t)
    × (t.wallet_id ≡ s.wallet.id)
    × (output_at (decode_outputs t.outputs) (atoi (decimal 0)) ≡ some o)
    × (the_output.content_type ≡ o.content_type)
    × (the_output.url
        ≡ output_url as_it_is {json = Text}
            (λ s. some s)
            (public_base_url a_server asked_by_wallet)
            (codes "t1")
            (address_query as_it_is {json = Text} (λ s. some s) asked_by_wallet)
            0)
handle_get_task-served_example =
    handle_get_task-served as_it_is (λ s. some s) a_server asked_by_wallet (codes "t1") done_world
      the_task 0 the_output shown first_output refl

abbrev the_summary : AdminWalletResponse
the_summary = record {
  wallet = public_wallet the_snapshot;
  redemptions = admin_wallet_redemptions (codes "w1") a_database;
  tasks = admin_wallet_tasks (codes "w1") a_database;
}

summed_up :
    (handle_admin_get_wallet a_server (codes "Bearer admin") wallet_address a_world).0
    ≡ ok the_summary
unfolding handle_admin_get_wallet lillian_backend.Common.◌>>=◌ lillian_backend.Sql.steps
    lillian_backend.Http.require_admin bearer_token lillian_backend.Common.fields_by
    lillian_backend.Common.equal_fold lillian_backend.Http.require_wallet_store
    lillian_backend.Wallets.is_wallet_address to_lower trim_space
    lillian_backend.Wallets.wallet_by_address fault text_eq find_where
    lillian_backend.Common.select_where lillian_backend.Common.Sorting.order_by
    lillian_backend.Sql.later_faults lillian_backend.Sql.head_or lillian_backend.Sql.rest
    lillian_backend.Wallets.snapshot lillian_backend.Wallets.entitlements_of
    lillian_backend.Wallets.service_label
summed_up = refl

handle_admin_get_wallet-own_example :
    (owner : WalletRecord) × (find_where
        (λ r. text_eq r.address (to_lower (trim_space (to_lower (trim_space wallet_address)))))
        a_database.wallets
      ≡ some owner)
    × (the_summary.wallet.address ≡ owner.address)
    × ShowsOwn owner.id a_database the_summary.redemptions the_summary.tasks
handle_admin_get_wallet-own_example =
    handle_admin_get_wallet-own a_server (codes "Bearer admin") wallet_address a_world the_summary
      summed_up

-- The table has a row for one of the keys; two of the numbers asked for are out of their range.
abbrev set_world : World
set_world = world_of (record a_database {
  settings =
      record {
        key = codes "upstream_timeout_seconds";
        value = codes "75";
        description = [];
        updated_at = 1;
      }
      ∷ [];
})

abbrev wanted : RuntimeSettings
wanted = record {
  image_global_concurrency = pos 250;
  image_provider_default_concurrency = negsuc 3;
  upstream_timeout_seconds = pos 900;
}

abbrev after_update : World
after_update =
    world_of (handle_update_settings a_server (codes "Bearer admin") (some wanted) set_world).1.db

updated_ok :
    (handle_update_settings a_server (codes "Bearer admin") (some wanted) set_world).0
    ≡ ok (bounded_settings wanted)
unfolding handle_update_settings lillian_backend.Common.◌>>=◌ lillian_backend.Sql.steps
    lillian_backend.Http.require_admin bearer_token lillian_backend.Common.fields_by
    lillian_backend.Common.equal_fold lillian_backend.Http.require_database
    lillian_backend.Http.read_json trim_space text_eq fault lillian_backend.Sql.later_faults
    lillian_backend.Sql.head_or lillian_backend.Sql.rest
    lillian_backend.Admin.RuntimeSettings.upsert_each lillian_backend.Admin.RuntimeSettings.entries
updated_ok = refl

one_row : UniqueKeys set_world.db.settings
unfolding count_where
one_row key = ground arith

quiet : fault after_update ≡ none
unfolding fault lillian_backend.Sql.head_or
quiet = refl

load-update_settings_example :
    (load_runtime_settings {E = Text} after_update).0 ≡ ok (bounded_settings wanted)
load-update_settings_example =
    load-update_settings a_server (codes "Bearer admin") (some wanted) set_world after_update
      (bounded_settings wanted) updated_ok one_row refl quiet
