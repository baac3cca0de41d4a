-- ===== src/Tasks/Ledger/Redemption.antt =====
-- Redeeming a licence adds its credits to one entitlement (wallet_api.go: RedeemLicenseToWallet).
use lillian_backend.Common.{
  ℕ, ◌≤◌, pos, ◌+ℤ◌, int_laws, ◌≡◌, refl, ltb_ℤ, Text, text_eq_iff, true, false, some, [], ◌∷◌,
  find_where, count_where, sum_by, Option-cases, inl, inr, ok,
}
use lillian_backend.Common.Tables.Laws.{sum_by-update_by, sum_by-append, count_where_found}
use lillian_backend.Schema.{Db, LicenseRow, EntitlementRow, WalletRecord}
use lillian_backend.Sql.{World}
use lillian_backend.Wallets.Redeem.{
  RedeemWalletParams, redeem, upsert_entitlement, set_redeemed, add_redemption, top_up,
  new_entitlement, has_key, is_redeemed,
}
use lillian_backend.Wallets.Redeem.Once.{redeem-Redeemed, redemption_written}
use lillian_backend.Tasks.{is_entitlement_of}
use lillian_backend.Tasks.Recover.{Account, wallet, entitlement, same_account}
use lillian_backend.Tasks.Ledger.{remaining_in, stored, share, ledger}

-- UNIQUE (wallet_id, service_code)
pub record UniqueEntitlements (d : Db) : Type 0 where
  pub at_most : (v c : Text) → count_where (is_entitlement_of v c) d.entitlements ≤ 1

stored-upsert :
    (a : Account) (id v : Text) (l : LicenseRow) (now : ℕ) (d : Db)
    → count_where (is_entitlement_of v l.service_code) d.entitlements ≤ 1
    → stored a (upsert_entitlement id v l now d)
      ≡ stored a d +ℤ share (entitlement v l.service_code) l.credits a
unfolding stored upsert_entitlement same_account sum_by
stored-upsert (wallet u) id v l now d h = grind int_laws
stored-upsert (entitlement u k) id v l now d h =
    elim (Option-cases (find_where (is_entitlement_of v l.service_code) d.entitlements)) [
      | inl missing ↦ grind (
        int_laws,
        sum_by-append (remaining_in u k) d.entitlements (new_entitlement id v l now ∷ []),
        text_eq_iff u v,
        text_eq_iff v u,
        text_eq_iff k l.service_code,
        text_eq_iff l.service_code k,
      )
      | inr (e, found) ↦ grind (
        int_laws,
        sum_by-update_by (remaining_in u k) (is_entitlement_of v l.service_code) (top_up l now)
            (share (entitlement v l.service_code) l.credits (entitlement u k)) d.entitlements
            (λ x m. moved x m)
            (count_where_found (is_entitlement_of v l.service_code) d.entitlements e found h),
      )
    ]
  where
    moved :
        (x : EntitlementRow)
        → is_entitlement_of v l.service_code x ≡ true
        → remaining_in u k (top_up l now x)
          ≡ remaining_in u k x +ℤ share (entitlement v l.service_code) l.credits (entitlement u k)
    moved x m = grind (
      int_laws,
      text_eq_iff x.wallet_id v,
      text_eq_iff x.wallet_id u,
      text_eq_iff v u,
      text_eq_iff x.service_code k,
      text_eq_iff x.service_code l.service_code,
      text_eq_iff l.service_code k,
    )

stored-redemption :
    (a : Account) (p : RedeemWalletParams) (v : Text) (l : LicenseRow) (id id' : Text) (d : Db)
    → stored a (redemption_written p v l id id' d) ≡ stored a (upsert_entitlement id v l p.now d)
unfolding stored add_redemption set_redeemed
stored-redemption (wallet u) p v l id id' d = refl
stored-redemption (entitlement u k) p v l id id' d = refl

tasks-redemption :
    (p : RedeemWalletParams) (v : Text) (l : LicenseRow) (id id' : Text) (d : Db)
    → (redemption_written p v l id id' d).tasks ≡ d.tasks
unfolding add_redemption set_redeemed upsert_entitlement
tasks-redemption p v l id id' d = refl

-- A redemption that succeeds adds the credits of the licence with the code, which was live, not
-- redeemed and worth something, to the entitlement of its wallet and service; every other account
-- keeps its value. The table of entitlements has one row at most for a wallet and a service.
pub ledger-redeem :
    (p : RedeemWalletParams) (w : World) (owner : WalletRecord)
    → UniqueEntitlements w.db
    → (redeem p w).0 ≡ ok owner
    → (l : LicenseRow) × (find_where (has_key p.code_hash) w.db.licenses ≡ some l)
      × (is_redeemed l ≡ false)
      × (ltb_ℤ (pos 0) l.credits ≡ true)
      × ((a : Account)
          → ledger a (redeem p w).1.db
            ≡ ledger a w.db +ℤ share (entitlement owner.id l.service_code) l.credits a)
unfolding ledger
ledger-redeem p w owner unique h =
    let r = redeem-Redeemed p w owner h in
    let l = r.license in
    (
      l,
      r.found,
      r.fresh,
      r.worth,
      λ a. grind (
        int_laws,
        r.written,
        stored-redemption a p owner.id l r.entitlement_id r.redemption_id w.db,
        tasks-redemption p owner.id l r.entitlement_id r.redemption_id w.db,
        stored-upsert a r.entitlement_id owner.id l p.now w.db
            (unique.at_most owner.id l.service_code),
      ),
    )
