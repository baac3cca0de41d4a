-- ===== src/Admin/Wallets/Own.antt =====
-- Whose rows handleAdminGetWallet shows.
use lillian_backend.Common.{
  ◌≡◌, refl, ap, sym, ◌∙◌, subst, Text, text_eq, trim_space, to_lower, some, List, find_where, ok,
}
use lillian_backend.Schema.{Db, WalletRecord}
use lillian_backend.Sql.{World}
use lillian_backend.Sql.Success.{
  bind_ok, read_ok, pure_ok, map_error_ok, query_ok, query_row_ok, same_database,
}
use lillian_backend.Sql.Rules.{keeps_rules}
use lillian_backend.Http.{Server, require_admin, require_wallet_store, wallet_problem}
use lillian_backend.Wallets.{WalletSnapshot, wallet_by_address, wallet_error, snapshot}
use lillian_backend.Wallets.Handlers.{public_wallet}
use lillian_backend.Wallets.Reads.{wallet_by_address-Keeps}
use lillian_backend.Admin.Wallets.{
  AdminWalletResponse, AdminWalletSummary, AdminWalletTask, AdminWalletRedemption, scan_task,
  scan_redemption, is_task_in, is_redemption_of, admin_wallet_tasks, admin_wallet_redemptions,
  admin_wallet_summary, handle_admin_get_wallet,
}
use lillian_backend.Admin.Wallets.Newest.{IsNewest, newest-IsNewest}

-- The rows that are shown of one wallet.
abbrev pub ShowsOwn : Text → Db → List AdminWalletRedemption → List AdminWalletTask → Type 0
ShowsOwn wallet_id d redemptions tasks =
    IsNewest (is_redemption_of wallet_id) (scan_redemption d) (λ r. r.created_at) d.redemptions
      redemptions
    × IsNewest (is_task_in wallet_id) (scan_task d) (λ t. t.created_at) d.tasks tasks

shows_own :
    (wallet_id : Text) (d : Db)
    → ShowsOwn wallet_id d (admin_wallet_redemptions wallet_id d) (admin_wallet_tasks wallet_id d)
unfolding admin_wallet_redemptions admin_wallet_tasks scan_redemption scan_task
shows_own wallet_id d = (
  newest-IsNewest (is_redemption_of wallet_id) (scan_redemption d) (λ r. r.created_at)
      (λ r. r.created_at) (λ r. refl) d.redemptions,
  newest-IsNewest (is_task_in wallet_id) (scan_task d) (λ t. t.created_at) (λ t. t.created_at)
      (λ t. refl) d.tasks,
)

wallet_by_address_ok :
    (address : Text) (w : World) (s : WalletSnapshot)
    → (wallet_by_address address w).0 ≡ ok s
    → find_where (λ r. text_eq r.address (to_lower (trim_space address))) w.db.wallets
      ≡ some s.wallet
unfolding wallet_by_address snapshot
wallet_by_address_ok address w s h =
    let (owner, found, after) = bind_ok _ _ w s h in
    let (es, read, is) = bind_ok _ _ _ s after in
    query_row_ok wallet_error _ w owner found ∙ ap (λ x. some x.wallet) (pure_ok _ s _ is)

shown_of :
    (id : Text) (d : Db) (w1 w2 : World) (rs : List AdminWalletRedemption)
    (ts : List AdminWalletTask)
    → w1.db ≡ d
    → w2.db ≡ d
    → admin_wallet_redemptions id w1.db ≡ rs
    → admin_wallet_tasks id w2.db ≡ ts
    → ShowsOwn id d rs ts
shown_of id d w1 w2 rs ts p q e f =
    subst (λ xs. ShowsOwn id d xs ts) (ap (admin_wallet_redemptions id) (sym p) ∙ e)
      (subst (ShowsOwn id d (admin_wallet_redemptions id d))
        (ap (admin_wallet_tasks id) (sym q) ∙ f) (shows_own id d))

summary_lem :
    (address : Text) (w : World) (s : AdminWalletSummary)
    → (admin_wallet_summary address w).0 ≡ ok s
    → (find_where (λ r. text_eq r.address (to_lower (trim_space address))) w.db.wallets
        ≡ some s.wallet)
      × ShowsOwn s.wallet.id w.db s.redemptions s.tasks
unfolding admin_wallet_summary
summary_lem address w s h =
    let (one, w1, p1, d1, s1, h1) =
      read_ok _ _ w s (wallet_by_address-Keeps same_database address) h in
    let (rs, w2, p2, d2, s2, h2) = read_ok _ _ w1 s (search (keeps_rules, same_database)) h1 in
    let (ts, w3, p3, d3, s3, h3) = read_ok _ _ w2 s (search (keeps_rules, same_database)) h2 in
    let is = pure_ok _ s w3 h3 in
    subst
      (λ (s : AdminWalletSummary).
        (find_where (λ r. text_eq r.address (to_lower (trim_space address))) w.db.wallets
          ≡ some s.wallet)
        × ShowsOwn s.wallet.id w.db s.redemptions s.tasks)
      is
      (
        wallet_by_address_ok address w one p1,
        shown_of one.wallet.id w.db w1 w2 rs ts d1 (d2 ∙ d1) (query_ok _ _ w1 rs p2)
            (query_ok _ _ w2 ts p3),
      )

pub handle_admin_get_wallet-own :
    (server : Server) (authorization param : Text) (w : World) (v : AdminWalletResponse)
    → (handle_admin_get_wallet server authorization param w).0 ≡ ok v
    → (owner : WalletRecord) × (find_where
          (λ r. text_eq r.address (to_lower (trim_space (to_lower (trim_space param)))))
          w.db.wallets
        ≡ some owner)
      × (v.wallet.address ≡ owner.address)
      × ShowsOwn owner.id w.db v.redemptions v.tasks
unfolding handle_admin_get_wallet require_admin require_wallet_store public_wallet
handle_admin_get_wallet-own server authorization param w v h =
    let (a, w1, p1, d1, s1, h1) = read_ok _ _ w v (search (keeps_rules, same_database)) h in
    let (b, w2, p2, d2, s2, h2) = read_ok _ _ w1 v (search (keeps_rules, same_database)) h1 in
    let (c, w3, p3, d3, s3, h3) = read_ok _ _ w2 v (search (keeps_rules, same_database)) h2 in
    let (s, told, after) = bind_ok _ _ w3 v h3 in
    let (found, shows) =
      summary_lem (to_lower (trim_space param)) w3 s (map_error_ok wallet_problem _ w3 s told) in
    let is = pure_ok _ v _ after in
    let same = d3 ∙ d2 ∙ d1 in
    (
      s.wallet,
      ap
            (λ (d : Db).
              find_where
                (λ r. text_eq r.address (to_lower (trim_space (to_lower (trim_space param)))))
                d.wallets)
            (sym same)
          ∙ found,
      sym (ap (λ x. x.wallet.address) is),
      subst (λ x. ShowsOwn s.wallet.id w.db x.redemptions x.tasks) is
          (subst (λ d. ShowsOwn s.wallet.id d s.redemptions s.tasks) same shows),
    )
