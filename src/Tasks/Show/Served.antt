-- ===== src/Tasks/Show/Served.antt =====
-- The URLs that handleGetTask gives are those that handleGetTaskImage answers.
use lillian_backend.Common.{
  ℕ, zero, suc, ◌+◌, ◌-◌, ◌^◌, leb, ◌≡◌, refl, ap, ◌∙◌, Text, decimal, atoi, Option, some, true,
  List, [], ◌∷◌, find_where, get_elem?, arith, ok,
}
use lillian_backend.Common.Texts.Numerals.{atoi-decimal}
use lillian_backend.Schema.{TaskRow, TaskOutput}
use lillian_backend.Sql.{World}
use lillian_backend.Sql.Success.{bind_ok, pure_ok}
use lillian_backend.Http.{Server}
use lillian_backend.Http.Urls.{Request, public_base_url}
use lillian_backend.Wallets.{WalletSnapshot}
use lillian_backend.Tasks.Image.{is_task_of, wallet_from_request, decode_outputs, output_at}
use lillian_backend.Tasks.Image.Own.{wallet_from_request-Keeps, task_for_wallet_ok, own_task}
use lillian_backend.Tasks.Show.{
  PublicOutput, PublicTask, output_url, address_query, public_outputs, public_task, handle_get_task,
}

module _ (query_escape : Text → Text) {json : Type 0} (unmarshal : Text → Option json) where
  shown_at :
      (base id query : Text) (i n : ℕ) (os : List TaskOutput) (p : PublicOutput)
      → get_elem? (public_outputs query_escape unmarshal base id query i os) n ≡ some p
      → (o : TaskOutput) × (get_elem? os n ≡ some o)
        × (p.content_type ≡ o.content_type)
        × (p.url ≡ output_url query_escape unmarshal base id query (i + n))
  unfolding public_outputs
  shown_at base id query i n [] p h = absurd (ground arith)
  shown_at base id query i zero (o ∷ os) p h = (o, refl, grind arith, grind arith)
  shown_at base id query i (suc n) (o ∷ os) p h =
      let (x, there, kind, url) = shown_at base id query (suc i) n os p h in
      (x, there, kind, url ∙ ap (output_url query_escape unmarshal base id query) (omega arith))

  served :
      (server : Server) (r : Request) (s : WalletSnapshot) (t : TaskRow) (n : ℕ) (p : PublicOutput)
      → get_elem? (public_task query_escape unmarshal server r t s).outputs n ≡ some p
      → leb n (2 ^ 63 - 1) ≡ true
      → (o : TaskOutput) × (output_at (decode_outputs t.outputs) (atoi (decimal n)) ≡ some o)
        × (p.content_type ≡ o.content_type)
        × (p.url
            ≡ output_url query_escape unmarshal
                (public_base_url server r)
                t.id
                (address_query query_escape unmarshal r)
                n)
  unfolding public_task output_at
  served server r s t n p h small =
      let (o, there, kind, url) =
        shown_at (public_base_url server r) t.id (address_query query_escape unmarshal r) 0 n
          (decode_outputs t.outputs) p h in
      (
        o,
        rw (atoi-decimal n small) there,
        kind,
        url
            ∙ ap
                (output_url query_escape unmarshal (public_base_url server r) t.id
                  (address_query query_escape unmarshal r))
                (omega arith),
      )

  -- A task that handleGetTask answers with is a row of the wallet that the request names, with the id
  -- of the URL. The n-th output it shows, n being an int, has the content type of the output that
  -- handleGetTaskImage finds at the index that ends the path of the shown URL, which is the public
  -- base address, the id of the task, n, and the request's address as the query.
  pub handle_get_task-served :
      (server : Server) (r : Request) (id : Text) (w : World) (v : PublicTask json) (n : ℕ)
      (p : PublicOutput)
      → (handle_get_task query_escape unmarshal server r id w).0 ≡ ok v
      → get_elem? v.outputs n ≡ some p
      → leb n (2 ^ 63 - 1) ≡ true
      → (s : WalletSnapshot) × (t : TaskRow) × (o : TaskOutput) × ((wallet_from_request server
            r.query_address r.header_address w).0
          ≡ ok s)
        × (find_where (is_task_of id s.wallet.id) w.db.tasks ≡ some t)
        × (t.wallet_id ≡ s.wallet.id)
        × (output_at (decode_outputs t.outputs) (atoi (decimal n)) ≡ some o)
        × (p.content_type ≡ o.content_type)
        × (p.url
            ≡ output_url query_escape unmarshal
                (public_base_url server r)
                id
                (address_query query_escape unmarshal r)
                n)
  unfolding handle_get_task
  handle_get_task-served server r id w v n p h at small =
      let (s, named, after) = bind_ok _ _ w v h in
      let w1 = (wallet_from_request server r.query_address r.header_address w).1 in
      let (t, found, shown) = bind_ok _ _ w1 v after in
      let is = pure_ok _ v _ shown in
      let kept = (wallet_from_request-Keeps server r.query_address r.header_address).at w in
      let row =
        ap (λ d. find_where (is_task_of id s.wallet.id) d.tasks) kept
        ∙ task_for_wallet_ok id s.wallet.id w1 t found in
      let own = own_task id s.wallet.id w.db.tasks t row in
      let (o, there, kind, url) =
        served server r s t n p (ap (λ x. get_elem? x.outputs n) is ∙ at) small in
      (
        s,
        t,
        o,
        named,
        row,
        own.1,
        there,
        kind,
        url
            ∙ ap
                (λ x.
                  output_url query_escape unmarshal (public_base_url server r) x
                    (address_query query_escape unmarshal r) n)
                own.0,
      )
