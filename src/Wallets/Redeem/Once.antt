-- ===== src/Wallets/Redeem/Once.antt =====
-- A licence is redeemed at most once, and for what it says (wallet_api.go: RedeemLicenseToWallet).
use lillian_backend.Common.{
  pos, ltb_ℤ, ◌≡◌, ◌≢◌, refl, Text, text_eq_refl, true, false, none, some, arith, find_where,
  Option-cases, Result-cases, inl, inr, ok,
}
use lillian_backend.Common.Tables.Laws.{find_where-update}
use lillian_backend.Schema.{Db, LicenseRow, WalletRecord}
use lillian_backend.Sql.{fault, later_faults}
use lillian_backend.Common.{
  ◌>>=◌, text_eq, Option, List, [], ◌∷◌, to_lower, trim_space, guard, pure,
}
use lillian_backend.Wallets.Redeem.{redemption_conflicts}
use lillian_backend.Sql.{World, steps, next_uuid, later_uuids, head_or, rest}
use lillian_backend.Wallets.Redeem.{
  RedeemWalletParams, redeem, has_key, is_expired, is_redeemed, upsert_entitlement, set_redeemed,
  add_redemption, spend_license, has_license_id, wallet_for_update, license_by_hash, usable_license,
  record_redemption,
}

-- What a redemption that succeeds has found and written.
pub record Redeemed (p : RedeemWalletParams) (d e : Db) (wallet : WalletRecord) : Type 0 where
  pub license : LicenseRow
  pub entitlement_id : Text
  pub redemption_id : Text
  pub found : find_where (has_key p.code_hash) d.licenses ≡ some license
  pub in_time : is_expired p.now license ≡ false
  pub fresh : is_redeemed license ≡ false
  pub worth : ltb_ℤ (pos 0) license.credits ≡ true
  pub written :
      e
      ≡ add_redemption redemption_id wallet.id license p.now (
          set_redeemed license.id wallet.id p.now
            (upsert_entitlement entitlement_id wallet.id license p.now d))

usable_license_lem :
    (p : RedeemWalletParams) (w : World) (l : LicenseRow)
    → (usable_license p w).0 ≡ ok l
    → (find_where (has_key p.code_hash) w.db.licenses ≡ some l)
      × (is_expired p.now l ≡ false)
      × (is_redeemed l ≡ false)
      × (ltb_ℤ (pos 0) l.credits ≡ true)
      × ((usable_license p w).1.db ≡ w.db)
unfolding usable_license license_by_hash steps
usable_license_lem p w l h = elim (Option-cases (find_where (has_key p.code_hash) w.db.licenses)) [
  | inl missing ↦ absurd (ground arith)
  | inr (m, found) ↦ ground arith
]

-- What record_redemption writes, with the two identifiers that it drew.
abbrev pub redemption_written : RedeemWalletParams → Text → LicenseRow → Text → Text → Db → Db
redemption_written p wallet_id l id id' d =
    add_redemption id' wallet_id l p.now
      (set_redeemed l.id wallet_id p.now (upsert_entitlement id wallet_id l p.now d))

record_redemption_lem :
    (p : RedeemWalletParams) (wallet_id : Text) (l : LicenseRow) (w : World)
    → (record_redemption p wallet_id l w).0 ≡ ok tt
    → (id : Text) × (id' : Text) × ((record_redemption p wallet_id l w).1.db
        ≡ redemption_written p wallet_id l id id' w.db)
unfolding record_redemption steps next_uuid later_uuids
record_redemption_lem p wallet_id l w h = elim (Option-cases (head_or none w.uuids)) [
  | inl no_id ↦ absurd (ground arith)
  | inr (id, first) ↦ elim (Option-cases (head_or none (rest w.uuids))) [
    | inl no_id ↦ absurd (ground arith)
    | inr (id', second) ↦ (id, id', ground arith)
  ]
]

pub redeem-Redeemed :
    (p : RedeemWalletParams) (w : World) (wallet : WalletRecord)
    → (redeem p w).0 ≡ ok wallet
    → Redeemed p w.db (redeem p w).1.db wallet
unfolding redeem wallet_for_update steps
redeem-Redeemed p w wallet h =
    let w1 = (wallet_for_update p.wallet_address w).1 in
    elim (Result-cases (usable_license p w1).0) [
      | inr (x, refused) ↦ absurd (ground arith)
      | inl (l, usable) ↦
          let (found, in_time, fresh, worth, same) = usable_license_lem p w1 l usable in
          let w2 = (usable_license p w1).1 in
          let (id, id', wrote) = record_redemption_lem p wallet.id l w2 (ground arith) in
          record {
            license = l;
            entitlement_id = id;
            redemption_id = id';
            found = ground arith;
            in_time = in_time;
            fresh = fresh;
            worth = worth;
            written = ground arith;
          }
    ]

-- A licence that has been redeemed is not redeemed again: with the database that a redemption left,
-- no redemption of the same code returns a wallet.
pub redeem-once :
    (p q : RedeemWalletParams) (w v : World) (wallet other : WalletRecord)
    → (redeem p w).0 ≡ ok wallet
    → v.db ≡ (redeem p w).1.db
    → q.code_hash ≡ p.code_hash
    → (redeem q v).0 ≢ ok other
unfolding add_redemption set_redeemed upsert_entitlement is_redeemed
redeem-once p q w v wallet other first same_db same_code second =
    let a = redeem-Redeemed p w wallet first in
    let b = redeem-Redeemed q v other second in
    let moved =
      find_where-update (has_key p.code_hash) (has_license_id a.license.id)
        (spend_license wallet.id p.now) w.db.licenses a.license (λ l. refl) a.found in
    grind (arith, a.written, b.found, b.fresh, moved, text_eq_refl a.license.id)

usable_license_succeeds :
    (p : RedeemWalletParams) (w : World) (l : LicenseRow)
    → w.faults ≡ []
    → find_where (has_key p.code_hash) w.db.licenses ≡ some l
    → is_expired p.now l ≡ false
    → is_redeemed l ≡ false
    → ltb_ℤ (pos 0) l.credits ≡ true
    → usable_license p w ≡ (ok l, w)
unfolding usable_license license_by_hash steps fault later_faults head_or rest guard pure
usable_license_succeeds p w l quiet found in_time fresh worth = ground arith

wallet_for_update_succeeds :
    (address : Text) (w : World) (wallet : WalletRecord)
    → w.faults ≡ []
    → find_where (λ r. text_eq r.address (to_lower (trim_space address))) w.db.wallets ≡ some wallet
    → wallet_for_update address w ≡ (ok wallet, w)
unfolding wallet_for_update steps fault later_faults head_or rest
wallet_for_update_succeeds address w wallet quiet owner = ground arith

record_redemption_succeeds :
    (p : RedeemWalletParams) (wallet_id : Text) (w : World) (l : LicenseRow) (id id' : Text)
    (more : List (Option Text))
    → w.faults ≡ []
    → w.uuids ≡ some id ∷ some id' ∷ more
    → redemption_conflicts id' w.db ≡ false
    → (record_redemption p wallet_id l w).0 ≡ ok tt
unfolding record_redemption steps fault later_faults head_or rest next_uuid later_uuids
    upsert_entitlement set_redeemed
record_redemption_succeeds p wallet_id w l id id' more quiet ids new = ground arith

pub redeem_succeeds :
    (p : RedeemWalletParams) (w : World) (wallet : WalletRecord) (l : LicenseRow) (id id' : Text)
    (more : List (Option Text))
    → w.faults ≡ []
    → w.uuids ≡ some id ∷ some id' ∷ more
    → find_where (λ r. text_eq r.address (to_lower (trim_space p.wallet_address))) w.db.wallets
      ≡ some wallet
    → find_where (has_key p.code_hash) w.db.licenses ≡ some l
    → is_expired p.now l ≡ false
    → is_redeemed l ≡ false
    → ltb_ℤ (pos 0) l.credits ≡ true
    → redemption_conflicts id' w.db ≡ false
    → (redeem p w).0 ≡ ok wallet
unfolding redeem ◌>>=◌ pure
redeem_succeeds p w wallet l id id' more quiet ids owner found in_time fresh worth new = grind (
  arith,
  wallet_for_update_succeeds p.wallet_address w wallet quiet owner,
  usable_license_succeeds p w l quiet found in_time fresh worth,
  record_redemption_succeeds p wallet.id w l id id' more quiet ids new,
)
