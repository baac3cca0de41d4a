-- ===== src/Payments/Validation.antt =====
-- What a callback is checked for before it counts (payments.go: handleEPUSDTCallback,
-- validateEPUSDTPaidCallback).
use lillian_backend.Common.{
  pos, eqb_ℤ, ◌≡◌, ◌≢◌, pure, raise, guard, or_raise, Text, codes, text_eq, trim_space, Bool, true,
  false, Option, none, some, if◌then◌else◌, arith, ok,
}
use lillian_backend.Schema.{Params, PaymentOrder}
use lillian_backend.Sql.{World, steps}
use lillian_backend.Http.{Server, EpusdtConfig, require_database, read_json}
use lillian_backend.Payments.{field, int_field, epusdt_signature}
use lillian_backend.Payments.Callback.{
  field_has_value, optional_field_matches, trade_id_differs, decimal_equal, validate_amount,
  validate_fields, validate_paid_callback, handle_epusdt_callback,
}

module _ (rat : Type 0) (set_string : Text → Option rat) (same_rat : rat → rat → Bool)
    (md5_hex : Text → Text) where
  -- The amount that a callback names: the field "amount", or else "actual_amount".
  abbrev pub named_amount : Params → Text
  named_amount payload =
      if field_has_value payload (codes "amount")
      then field payload (codes "amount")
      else field payload (codes "actual_amount")

  pub validate_paid_callback-accepts :
      (order : PaymentOrder) (payload : Params) (cfg : EpusdtConfig)
      → validate_paid_callback rat set_string same_rat md5_hex order payload cfg ≡ none
      → (eqb_ℤ (int_field payload (codes "status")) (pos 2) ≡ true)
        × (decimal_equal rat set_string same_rat md5_hex (named_amount payload) order.amount_usdt
            ≡ true)
        × (optional_field_matches payload (codes "pid") cfg.pid ≡ true)
        × (optional_field_matches payload (codes "currency") cfg.currency ≡ true)
        × (optional_field_matches payload (codes "token") cfg.token ≡ true)
        × (optional_field_matches payload (codes "network") cfg.network ≡ true)
        × (trade_id_differs order payload ≡ false)
  unfolding validate_paid_callback validate_amount validate_fields
  validate_paid_callback-accepts order payload cfg h = ground arith

  -- A callback whose signature is not that of its fields is refused, and changes nothing.
  pub handle_epusdt_callback_forged :
      (server : Server) (payload : Params) (w : World)
      → text_eq
          (epusdt_signature md5_hex payload server.epusdt.secret_key)
          (trim_space (field payload (codes "signature")))
        ≡ false
      → ((handle_epusdt_callback rat set_string same_rat md5_hex server (some payload) w).0 ≢ ok tt)
        × ((handle_epusdt_callback rat set_string same_rat md5_hex server (some payload) w).1 ≡ w)
  unfolding handle_epusdt_callback steps require_database read_json pure raise guard or_raise
  handle_epusdt_callback_forged server payload w h = ((λ e. ground arith), ground arith)
