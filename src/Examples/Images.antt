-- ===== src/Examples/Images.antt =====
-- The theorem on the images of a task, at a concrete input.
use lillian_backend.Common.{
  pos, ◌≡◌, refl, Text, codes, Option, some, true, [], ◌∷◌, atoi, find_where, ok,
}
use lillian_backend.Schema.{TaskRow, TaskOutput, TaskStatus, is_status, done}
use lillian_backend.Sql.{World}
use lillian_backend.Wallets.{WalletSnapshot}
use lillian_backend.Tasks.Image.{
  is_task_of, wallet_from_request, decode_outputs, output_at, stored_image, handle_get_task_image,
}
use lillian_backend.Tasks.Image.Own.{handle_get_task_image-own}
use lillian_backend.Examples.{a_database, world_of, a_task, a_server, wallet_address}

abbrev pub an_output : TaskOutput
an_output = record { key = codes "k1"; content_type = codes "image/webp" }

abbrev pub done_task : TaskRow
done_task = record a_task { status = TaskStatus.done; outputs = some (an_output ∷ []) }

abbrev pub done_world : World
done_world = world_of (record a_database { tasks = done_task ∷ [] })

-- A store that has its key's name under each key.
abbrev echo : Text → Option (Text × Text)
echo key = some (key, [])

shown :
    (handle_get_task_image echo a_server wallet_address [] (codes "t1") (codes "0") done_world).0
    ≡ ok (codes "k1", codes "image/webp")
unfolding handle_get_task_image lillian_backend.Common.◌>>=◌ lillian_backend.Sql.steps
    lillian_backend.Http.require_wallet_store lillian_backend.Wallets.is_wallet_address
    lillian_backend.Common.to_lower lillian_backend.Common.trim_space
    lillian_backend.Wallets.wallet_by_address lillian_backend.Sql.fault
    lillian_backend.Common.text_eq find_where lillian_backend.Common.select_where
    lillian_backend.Common.Sorting.order_by atoi lillian_backend.Sql.later_faults
    lillian_backend.Sql.head_or lillian_backend.Sql.rest lillian_backend.Wallets.snapshot
shown = refl

handle_get_task_image-own_example :
    (s : WalletSnapshot) × (t : TaskRow) × (o : TaskOutput) × ((wallet_from_request a_server
        wallet_address [] done_world).0
      ≡ ok s)
    × (find_where (is_task_of (codes "t1") s.wallet.id) done_world.db.tasks ≡ some t)
    × (t.id ≡ codes "t1")
    × (t.wallet_id ≡ s.wallet.id)
    × (is_status done t.status ≡ true)
    × (output_at (decode_outputs t.outputs) (atoi (codes "0")) ≡ some o)
    × (stored_image echo o ≡ some (codes "k1", codes "image/webp"))
handle_get_task_image-own_example =
    handle_get_task_image-own echo a_server wallet_address [] (codes "t1") (codes "0") done_world
      (codes "k1", codes "image/webp") shown
