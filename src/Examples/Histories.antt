-- ===== src/Examples/Histories.antt =====
-- The theorem on histories, at a redemption that is followed by the creation of a task.
use lillian_backend.Common.{ℕ, ◌≡◌, refl, Text, Bool, some, List, [], ◌∷◌, find_where, parse_digits}
use lillian_backend.Sql.{World}
use lillian_backend.Wallets.Redeem.{redeem, has_key}
use lillian_backend.Tasks.Create.{create_task}
use lillian_backend.Tasks.Recover.{entitlement}
use lillian_backend.History.{Deposit, Reach, start, next, Step}
use lillian_backend.History.Book.{book_of, enter, Reach-enter}
use lillian_backend.Examples.Payments.{digest, same_number}
use lillian_backend.Examples.Accounts.{a_redemption, redeem-ok, one_entitlement}
use lillian_backend.Examples.{a_world, a_wallet, a_license, a_server, a_payload, world_of}

abbrev redeemed_world : World
redeemed_world = world_of (redeem a_redemption a_world).1.db

abbrev deposits : List Deposit
deposits =
    record { to = entitlement a_wallet.id a_license.service_code; amount = a_license.credits } ∷ []

license_there : find_where (has_key a_redemption.code_hash) a_world.db.licenses ≡ some a_license
unfolding find_where lillian_backend.Common.text_eq
license_there = refl

a_history :
    Reach ℕ parse_digits same_number digest a_world.db
      (create_task a_server (some a_payload) redeemed_world).1.db
      deposits
a_history =
    next
      (next start (
        Step.redeemed a_redemption a_world a_wallet a_license (record { at_most = one_entitlement })
          redeem-ok license_there))
      (Step.created a_server (some a_payload) redeemed_world)

Reach-enter_example :
    book_of
      (create_task a_server (some a_payload) redeemed_world).1.db
      (entitlement a_wallet.id a_license.service_code)
    ≡ enter deposits (book_of a_world.db) (entitlement a_wallet.id a_license.service_code)
Reach-enter_example = Reach-enter a_history (entitlement a_wallet.id a_license.service_code)
