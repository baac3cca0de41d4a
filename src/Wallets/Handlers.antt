-- ===== src/Wallets/Handlers.antt =====
-- The wallet handlers (wallet_api.go: handleCreateWallet, handleRedeemWallet, handleRestoreWallet,
-- handleGetWallet, publicWallet).
use lillian_backend.Common.{
  ℤ, pos, Text, codes, trim_space, to_lower, is_nil, not, Bool, Option, List, map, if◌then◌else◌,
  Exec, pure, guard, ◌>>=◌, ◌>>◌,
}
use lillian_backend.Sql.{World, map_error, time_now, random_id}
use lillian_backend.Numbers.{max_int}
use lillian_backend.Http.{
  Problem, problem, internal, Server, require_wallet_store, read_json, wallet_problem,
}
use lillian_backend.Wallets.{
  WalletSnapshot, WalletEntitlement, WalletError, wallet_not_found, license_not_found,
  license_expired, license_redeemed, store_error, random_error, wallet_by_address,
  wallet_by_recovery_hash, is_wallet_address, service_label,
}
use lillian_backend.Wallets.Redeem.{create_wallet, redeem_license_to_wallet}

pub record WalletResponse : Type 0 where
  pub address : Text
  pub credits : ℤ
  pub entitlements : List WalletEntitlement

public_entitlement : WalletEntitlement → WalletEntitlement
public_entitlement e = record e {
  label = if is_nil e.label then service_label e.service_code else e.label;
}

unfoldable pub public_wallet : WalletSnapshot → WalletResponse
unfolding max_int public_entitlement
public_wallet s = record {
  address = s.wallet.address;
  credits = max_int (pos 0) s.wallet.credits;
  entitlements = map public_entitlement s.entitlements;
}

abbrev redeem_problem : WalletError → Problem
redeem_problem wallet_not_found = problem 404 (codes "钱包不存在")
redeem_problem license_not_found = problem 404 (codes "兑换码无效或已失效")
redeem_problem license_expired = problem 410 (codes "兑换码已过期")
redeem_problem license_redeemed = problem 409 (codes "兑换码已被使用")
redeem_problem (store_error e) = internal e
redeem_problem random_error = problem 500 (codes "random source failed")

-- Every error of CreateWallet is a 500.
abbrev create_problem : WalletError → Problem
create_problem wallet_not_found = problem 500 (codes "wallet not found")
create_problem e = wallet_problem e

abbrev restore_problem : WalletError → Problem
restore_problem wallet_not_found = problem 404 (codes "钱包不存在或恢复密码无效")
restore_problem e = wallet_problem e

abbrev bad_address : Problem
bad_address = problem 400 (codes "钱包地址格式无效")

-- The server's keyed hash of a secret.
module _ (hash_secret : Text → Text) where
  -- The recovery code and the address come from the random source, as the id does. Of the body it
  -- counts only whether there is none or it decodes.
  unfoldable pub handle_create_wallet : Server → Bool → Exec Problem World (WalletResponse × Text)
  unfolding create_wallet public_wallet
  handle_create_wallet server body_reads = do
    require_wallet_store server
    guard body_reads (problem 400 (codes "Invalid JSON body"))
    recovery_code ← random_id (problem 500 (codes "random source failed"))
    id ← random_id (problem 500 (codes "random source failed"))
    address ← random_id (problem 500 (codes "random source failed"))
    now ← time_now
    snapshot ← map_error create_problem (
        create_wallet (record {
          id = id;
          address = address;
          recovery_hash = hash_secret recovery_code;
          created_at = now;
          updated_at = now;
        }))
    pure (public_wallet snapshot, recovery_code)

  -- The address and the code of the request.
  unfoldable pub handle_redeem_wallet :
      Server → Option (Text × Text) → Exec Problem World WalletResponse
  unfolding redeem_license_to_wallet public_wallet
  handle_redeem_wallet server request = do
    require_wallet_store server
    body ← read_json request
    guard (is_wallet_address (to_lower (trim_space body.0))) bad_address
    guard (not (is_nil (trim_space body.1))) (problem 400 (codes "请输入兑换码"))
    now ← time_now
    snapshot ← map_error redeem_problem (
        redeem_license_to_wallet (record {
          wallet_address = to_lower (trim_space body.0);
          code_hash = hash_secret (trim_space body.1);
          now = now;
        }))
    pure (public_wallet snapshot)

  unfoldable pub handle_restore_wallet : Server → Option Text → Exec Problem World WalletResponse
  unfolding public_wallet
  handle_restore_wallet server request = do
    require_wallet_store server
    body ← read_json request
    guard (not (is_nil (trim_space body))) (problem 400 (codes "请输入恢复密码"))
    snapshot ← map_error restore_problem (wallet_by_recovery_hash (hash_secret (trim_space body)))
    pure (public_wallet snapshot)

unfoldable pub handle_get_wallet : Server → Text → Exec Problem World WalletResponse
unfolding public_wallet
handle_get_wallet server param = do
  require_wallet_store server
  guard (is_wallet_address (to_lower (trim_space param))) bad_address
  snapshot ← map_error wallet_problem (wallet_by_address (to_lower (trim_space param)))
  pure (public_wallet snapshot)
