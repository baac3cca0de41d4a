-- ===== src/Tasks/Image/Own.antt =====
-- Whose image handleGetTaskImage answers with.
use lillian_backend.Common.Tables.Laws.{find_where_sound}
use lillian_backend.Common.{
  List, text_eq_iff, ◌≡◌, ap, sym, ◌∙◌, Text, atoi, Option, some, true, find_where, arith, ok,
  Option-cases, inl, inr,
}
use lillian_backend.Schema.{TaskRow, TaskOutput, is_status, done}
use lillian_backend.Sql.{World, query_row}
use lillian_backend.Http.{Problem, Server}
use lillian_backend.Wallets.{WalletSnapshot}
use lillian_backend.Wallets.Reads.{wallet_by_address-Keeps}
use lillian_backend.Sql.Success.{bind_ok, guard_ok, or_raise_ok, same_database}
use lillian_backend.Sql.Rules.{Keeps, keeps_rules}
use lillian_backend.Tasks.Image.{
  is_task_of, task_for_wallet, wallet_from_request, decode_outputs, output_at, stored_image,
  show_image, handle_get_task_image,
}

module _ {body : Type 0} (get : Text → Option (body × Text)) where
  show_image_ok :
      (index : Text) (t : TaskRow) (w : World) (b : body × Text)
      → (show_image get index t w).0 ≡ ok b
      → (o : TaskOutput) × (is_status done t.status ≡ true)
        × (output_at (decode_outputs t.outputs) (atoi index) ≡ some o)
        × (stored_image get o ≡ some b)
  unfolding show_image
  show_image_ok index t w b h =
      let (u, done', rest) = bind_ok _ _ w b h in
      let (o, found, rest') = bind_ok _ _ _ b rest in
      (o, (guard_ok _ _ w u done').0, or_raise_ok _ _ _ o found, or_raise_ok _ _ _ b rest')

pub wallet_from_request-Keeps :
    (server : Server) (query header : Text)
    → Keeps (λ d e. d ≡ e) (wallet_from_request server query header)
unfolding wallet_from_request lillian_backend.Http.require_wallet_store
wallet_from_request-Keeps server query header =
    search (keeps_rules, same_database, wallet_by_address-Keeps same_database)

pub task_for_wallet_ok :
    (id wallet_id : Text) (w : World) (t : TaskRow)
    → (task_for_wallet id wallet_id w).0 ≡ ok t
    → find_where (is_task_of id wallet_id) w.db.tasks ≡ some t
unfolding task_for_wallet query_row
task_for_wallet_ok id wallet_id w t h =
    elim (Option-cases (find_where (is_task_of id wallet_id) w.db.tasks)) [
      | inl missing ↦ absurd (ground arith)
      | inr (x, found) ↦ ground arith
    ]

pub own_task :
    (id wallet_id : Text) (ts : List TaskRow) (t : TaskRow)
    → find_where (is_task_of id wallet_id) ts ≡ some t
    → (t.id ≡ id) × (t.wallet_id ≡ wallet_id)
own_task id wallet_id ts t found =
    let both = find_where_sound (is_task_of id wallet_id) ts t found in
    ((text_eq_iff t.id id).0 (grind arith), (text_eq_iff t.wallet_id wallet_id).0 (grind arith))

-- An image that handleGetTaskImage answers with is an output of a finished task of the wallet that
-- the request names: the row has the id of the URL and that wallet's id, the output stands at the
-- index of the URL, and the bytes are those that the object store has under its key.
pub handle_get_task_image-own :
    {body : Type 0} (get : Text → Option (body × Text)) (server : Server)
    (query header id index : Text) (w : World) (b : body × Text)
    → (handle_get_task_image get server query header id index w).0 ≡ ok b
    → (s : WalletSnapshot) × (t : TaskRow) × (o : TaskOutput) × ((wallet_from_request server query
          header w).0
        ≡ ok s)
      × (find_where (is_task_of id s.wallet.id) w.db.tasks ≡ some t)
      × (t.id ≡ id)
      × (t.wallet_id ≡ s.wallet.id)
      × (is_status done t.status ≡ true)
      × (output_at (decode_outputs t.outputs) (atoi index) ≡ some o)
      × (stored_image get o ≡ some b)
unfolding handle_get_task_image
handle_get_task_image-own get server query header id index w b h =
    let (s, named, after) = bind_ok _ _ w b h in
    let w1 = (wallet_from_request server query header w).1 in
    let (u, has_store, after') = bind_ok _ _ w1 b after in
    let (t, found, shown) = bind_ok _ _ _ b after' in
    let (o, finished, indexed, stored) = show_image_ok get index t _ b shown in
    let kept = (wallet_from_request-Keeps server query header).at w in
    let same = (guard_ok _ _ w1 u has_store).1 in
    let row =
      ap (λ d. find_where (is_task_of id s.wallet.id) d.tasks) (kept ∙ ap (λ x. x.db) (sym same))
      ∙ task_for_wallet_ok id s.wallet.id _ t found in
    let own = own_task id s.wallet.id w.db.tasks t row in
    (s, t, o, named, row, own.0, own.1, finished, indexed, stored)
