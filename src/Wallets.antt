-- ===== src/Wallets.antt =====
-- Wallets as the handlers read them (wallet_api.go: the store's queries and snapshots).
pub mod Reads
pub mod Redeem
pub mod Handlers
use lillian_backend.Common.{
  ℕ, ℤ, Text, codes, text_eq, trim_space, to_lower, is_nil, length, leb, ◌&&◌, ◌||◌, ◌==◌, Bool,
  true, false, Option, none, some, List, [], ◌∷◌, map, if◌then◌else◌, select_where, find_where,
  Exec, Result, ok, err, pure, raise, ◌>>=◌,
}
use Prim.Native.Nat.{Ordering}
use lillian_backend.Common.Sorting.{compare_text, order_by}
use lillian_backend.Schema.{Db, WalletRecord, EntitlementRow}
use lillian_backend.Sql.{World, SqlError, no_rows, failed, query, query_row, map_error}

abbrev pub service_code_image2_sd : Text
service_code_image2_sd = codes "image-2-sd"

abbrev pub service_code_image2_hd : Text
service_code_image2_hd = codes "image-2-hd"

pub record WalletEntitlement : Type 0 where
  pub service_code : Text
  pub label : Text
  pub remaining : ℤ
  pub max_concurrent : ℤ

pub record WalletSnapshot : Type 0 where
  pub wallet : WalletRecord
  pub entitlements : List WalletEntitlement

pub data WalletError : Type 0 where
  wallet_not_found license_not_found license_expired license_redeemed : WalletError
  store_error : SqlError → WalletError
  random_error : WalletError

unfoldable pub service_label : Text → Text
service_label code =
    if text_eq code service_code_image2_sd
    then codes "SD 1K"
    else if text_eq code service_code_image2_hd
    then codes "HD 2K/4K"
    else code

abbrev hex_digit : ℕ → Bool
hex_digit c = (leb b'0' c && leb c b'9') || (leb b'a' c && leb c b'f')

all_hex : Text → Bool
all_hex [] = true
all_hex (c ∷ s) = hex_digit c && all_hex s

-- ^0x[0-9a-f]{40}$
matches_address : Text → Bool
unfolding all_hex
matches_address (z ∷ x ∷ s) = z == b'0' && x == b'x' && length s == 40 && all_hex s
matches_address _ = false

unfoldable pub is_wallet_address : Text → Bool
unfolding matches_address
is_wallet_address address = matches_address (to_lower (trim_space address))

-- ORDER BY service_code
abbrev by_code : EntitlementRow → EntitlementRow → Ordering
by_code a b = compare_text a.service_code b.service_code

scan_entitlement : EntitlementRow → WalletEntitlement
scan_entitlement e = record {
  service_code = e.service_code;
  label = service_label e.service_code;
  remaining = e.remaining;
  max_concurrent = e.max_concurrent;
}

unfoldable pub entitlements_of : Text → Db → List WalletEntitlement
unfolding scan_entitlement
entitlements_of wallet_id db =
    map scan_entitlement
      (order_by by_code (select_where (λ e. text_eq e.wallet_id wallet_id) db.entitlements))

unfoldable pub snapshot : WalletRecord → Exec WalletError World WalletSnapshot
snapshot wallet = do
  entitlements ← query store_error (entitlements_of wallet.id)
  pure (record { wallet = wallet; entitlements = entitlements })

-- errors.Is(err, pgx.ErrNoRows) is told from other errors.
abbrev pub wallet_error : SqlError → WalletError
wallet_error no_rows = wallet_not_found
wallet_error (failed m) = store_error (failed m)

unfoldable pub wallet_by_address : Text → Exec WalletError World WalletSnapshot
unfolding snapshot
wallet_by_address address = do
  wallet ←
      query_row wallet_error
        (λ db. find_where (λ r. text_eq r.address (to_lower (trim_space address))) db.wallets)
  snapshot wallet

unfoldable pub wallet_by_recovery_hash : Text → Exec WalletError World WalletSnapshot
unfolding snapshot
wallet_by_recovery_hash hash = do
  wallet ← query_row wallet_error (λ db. find_where (λ r. text_eq r.recovery_hash hash) db.wallets)
  snapshot wallet
