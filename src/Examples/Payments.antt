-- ===== src/Examples/Payments.antt =====
-- The theorems on payments, at concrete inputs. Amounts are read as whole numbers here, and the
-- digest of a text is the text.
use lillian_backend.Common.{
  ℕ, ℤ, pos, eqb_ℤ, ◌+ℤ◌, ◌≡◌, ◌≢◌, refl, Text, codes, text_eq, trim_space, Bool, true, false,
  Option, none, some, List, [], ◌∷◌, ok, if◌then◌else◌, parse_digits, ◌==◌,
}
use lillian_backend.Schema.{Params, Json}
use lillian_backend.Sql.{World}
use lillian_backend.Tasks.Recover.{wallet}
use lillian_backend.Tasks.Ledger.{ledger, share}
use lillian_backend.Payments.{field, int_field, epusdt_signature}
use lillian_backend.Payments.Callback.{
  settle, validate_paid_callback, handle_epusdt_callback, optional_field_matches, trade_id_differs,
  decimal_equal,
}
use lillian_backend.Payments.Validation.{
  named_amount, validate_paid_callback-accepts, handle_epusdt_callback_forged,
}
use lillian_backend.Common.{All, is_nil}
use lillian_backend.Schema.{ServiceCreditPrice}
use lillian_backend.Billing.{enabled_price}
use lillian_backend.Payments.Catalog.{upsert_price}
use lillian_backend.Payments.Catalog.Prices.{upsert_price-enabled_price}
use lillian_backend.Payments.Crediting.{settle-ledger, settle-replay}
use lillian_backend.Payments.Success.{settle_succeeds}
use lillian_backend.Examples.{a_world, an_order, an_epusdt, a_server, a_price, world_of}

abbrev pub digest : Text → Text
digest t = t

abbrev pub same_number : ℕ → ℕ → Bool
same_number a b = a == b

abbrev a_callback : Params
a_callback =
    (codes "order_id", Json.str (codes "o1"))
    ∷ (codes "status", Json.str (codes "2"))
    ∷ (codes "amount", Json.str (codes "5"))
    ∷ (codes "signature", Json.str (codes "forged"))
    ∷ []

says_paid : eqb_ℤ (int_field a_callback (codes "status")) (pos 2) ≡ true
unfolding int_field text_eq trim_space parse_digits
says_paid = refl

settled :
    (settle ℕ parse_digits same_number digest an_epusdt a_callback (codes "o1") a_world).0 ≡ ok tt
unfolding settle lillian_backend.Common.◌>>=◌ lillian_backend.Sql.query_row
    lillian_backend.Sql.fault lillian_backend.Common.find_where text_eq lillian_backend.Sql.time_now
    int_field trim_space parse_digits lillian_backend.Sql.exec lillian_backend.Sql.later_faults
settled = refl

settle-ledger_example :
    ledger
      (wallet (codes "w1"))
      (settle ℕ parse_digits same_number digest an_epusdt a_callback (codes "o1") a_world).1.db
    ≡ ledger (wallet (codes "w1")) a_world.db
      +ℤ share (wallet (codes "w1")) (pos 50) (wallet (codes "w1"))
unfolding lillian_backend.Common.find_where text_eq lillian_backend.Common.count_where
settle-ledger_example =
    settle-ledger ℕ parse_digits same_number digest an_epusdt a_callback (codes "o1") a_world
      an_order says_paid refl refl settled (wallet (codes "w1"))

abbrev paid_world : World
paid_world =
    world_of
      (settle ℕ parse_digits same_number digest an_epusdt a_callback (codes "o1") a_world).1.db

settled_again :
    (settle ℕ parse_digits same_number digest an_epusdt a_callback (codes "o1") paid_world).0
    ≡ ok tt
unfolding settle lillian_backend.Common.◌>>=◌ lillian_backend.Sql.query_row
    lillian_backend.Sql.fault lillian_backend.Common.find_where text_eq lillian_backend.Sql.time_now
    int_field trim_space parse_digits lillian_backend.Sql.exec lillian_backend.Sql.later_faults
    lillian_backend.Common.update_where lillian_backend.Tasks.Refund.give_credits
settled_again = refl

settle-replay_example :
    ledger
      (wallet (codes "w1"))
      (settle ℕ parse_digits same_number digest an_epusdt a_callback (codes "o1") paid_world).1.db
    ≡ ledger (wallet (codes "w1")) paid_world.db
settle-replay_example =
    settle-replay ℕ parse_digits same_number digest an_epusdt a_callback a_callback (codes "o1")
      a_world paid_world says_paid says_paid settled refl settled_again (wallet (codes "w1"))

valid :
    validate_paid_callback ℕ parse_digits same_number digest an_order a_callback an_epusdt ≡ none
unfolding validate_paid_callback int_field text_eq trim_space parse_digits
valid = refl

validate_paid_callback-accepts_example :
    (eqb_ℤ (int_field a_callback (codes "status")) (pos 2) ≡ true)
    × (decimal_equal ℕ parse_digits same_number digest
          (named_amount ℕ parse_digits same_number digest a_callback)
          (codes "5")
        ≡ true)
    × (optional_field_matches a_callback (codes "pid") (codes "7") ≡ true)
    × (optional_field_matches a_callback (codes "currency") (codes "usd") ≡ true)
    × (optional_field_matches a_callback (codes "token") (codes "usdt") ≡ true)
    × (optional_field_matches a_callback (codes "network") (codes "tron") ≡ true)
    × (trade_id_differs an_order a_callback ≡ false)
validate_paid_callback-accepts_example =
    validate_paid_callback-accepts ℕ parse_digits same_number digest an_order a_callback an_epusdt
      valid

forged :
    text_eq
      (epusdt_signature digest a_callback (codes "secret"))
      (trim_space (field a_callback (codes "signature")))
    ≡ false
unfolding epusdt_signature text_eq lillian_backend.Common.join
    lillian_backend.Common.Sorting.order_by trim_space lillian_backend.Common.Sorting.compare_text
    field
forged = refl

handle_epusdt_callback_forged_example :
    ((handle_epusdt_callback ℕ parse_digits same_number digest a_server (some a_callback) a_world).0
      ≢ ok tt)
    × ((handle_epusdt_callback ℕ parse_digits same_number digest a_server
          (some a_callback)
          a_world).1
        ≡ a_world)
handle_epusdt_callback_forged_example =
    handle_epusdt_callback_forged ℕ parse_digits same_number digest a_server a_callback a_world
      forged

settle_succeeds_example :
    (settle ℕ parse_digits same_number digest an_epusdt a_callback (codes "o1") a_world).0 ≡ ok tt
unfolding lillian_backend.Common.find_where text_eq
settle_succeeds_example =
    settle_succeeds ℕ parse_digits same_number digest an_epusdt a_callback (codes "o1") a_world
      an_order refl says_paid refl valid

abbrev dearer : ServiceCreditPrice
dearer = record a_price { credit_units = pos 4 }

upsert_price-enabled_price_example :
    (p : ServiceCreditPrice) × (enabled_price dearer.service_code dearer.billing_key
        (upsert_price dearer a_world.db)
      ≡ some p)
    × (p.credit_units ≡ pos 4)
upsert_price-enabled_price_example = upsert_price-enabled_price dearer a_world.db refl
