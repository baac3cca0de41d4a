-- ===== src/Wallets/Reads.antt =====
-- Looking a wallet up changes nothing.
use lillian_backend.Common.{Text}
use lillian_backend.Schema.{Db, WalletRecord}
use lillian_backend.Sql.Rules.{Keeps, IsPreorder, keeps_rules}
use lillian_backend.Wallets.{snapshot, wallet_by_address, wallet_by_recovery_hash}

module _ {R : Db → Db → Type 0} (o : IsPreorder R) where
  pub snapshot-Keeps : (r : WalletRecord) → Keeps R (snapshot r)
  unfolding snapshot
  snapshot-Keeps r = search (keeps_rules, o)

  pub wallet_by_address-Keeps : (address : Text) → Keeps R (wallet_by_address address)
  unfolding wallet_by_address
  wallet_by_address-Keeps address = search (keeps_rules, o)

  pub wallet_by_recovery_hash-Keeps : (hash : Text) → Keeps R (wallet_by_recovery_hash hash)
  unfolding wallet_by_recovery_hash
  wallet_by_recovery_hash-Keeps hash = search (keeps_rules, o)
