-- ===== src/Admin/Licenses/Page/Walk.antt =====
-- Reading the administrator's list of licences page by page.
use lillian_backend.Common.{
  ℕ, zero, suc, ◌+◌, ◌-◌, ◌^◌, ◌≤◌, ltb, leb, pos, pos_part, ◌+ℤ◌, ◌≡◌, refl, ap, sym, ◌∙◌, Text,
  text_eq, trim_space, is_nil, decimal, true, false, none, List, [], ◌∷◌, ◌++◌, map, length, take,
  drop, length-drop, take-append-drop, take_all, take-nil, drop-drop, if◌then◌else◌, Exec, ok, pure,
  ◌>>=◌, continue, guard, arith, Bool-cases, inl, inr,
}
use mathlib.Core.List.{map-append, append-nil}
use lillian_backend.Schema.{Db}
use lillian_backend.Secrets.{Crypto}
use lillian_backend.Sql.{World, steps, spend, fault, head_or, later_faults, rest}
use lillian_backend.Http.{Problem, Server, bearer_token, require_admin, require_database}
use lillian_backend.Admin.Licenses.Page.Limits.{
  int_from_string-decimal, positive_from, take-take, more_than, no_rows,
}
use lillian_backend.Admin.Licenses.Page.{
  int_from_string, ListedRow, listed_rows, license_rows, PublicLicense, LicensePage, LicenseQuery,
  page_limit, page_offset, public_license, show_rows, filters_of, page_of, handle_list_licenses,
}

-- The request for the page that starts at o.
abbrev pub at_offset : LicenseQuery → ℕ → LicenseQuery
at_offset r o = record r { offset = decimal o }

module _ (c : Crypto) (pepper provider_secret : Text) where
  abbrev pub public : ListedRow → PublicLicense
  public = public_license c pepper provider_secret

  abbrev show : ℕ → ℕ → List ListedRow → List PublicLicense × ℕ
  show = show_rows c pepper provider_secret

  seen_rows :
      (limit seen : ℕ) (rows : List ListedRow) → (show limit seen rows).1 ≡ seen + length rows
  unfolding show_rows
  seen_rows limit seen [] = omega arith
  seen_rows limit seen (l ∷ ls) = omega (arith, seen_rows limit (suc seen) ls)

  shown :
      (limit seen : ℕ) (rows : List ListedRow)
      → (show limit seen rows).0 ≡ map public (take (limit - seen) rows)
  unfolding show_rows
  shown limit seen [] = sym (ap (map public) (take-nil (limit - seen)))
  shown limit seen (l ∷ ls) =
      let more = shown limit (suc seen) ls in
      elim (Bool-cases (ltb seen limit)) [
        | inl early ↦ rw early (
            ap (λ ls. public l ∷ ls) more
            ∙ ap (λ k. map public (take k (l ∷ ls))) {x = suc (limit - suc seen)} (grind arith))
        | inr late ↦ rw late (
            more
            ∙ ap (λ k. map public (take k ls)) {y = 0} (grind arith)
            ∙ ap (λ k. map public (take k (l ∷ ls))) {x = 0} (grind arith))
      ]

  abbrev pub rows_for : LicenseQuery → Db → List ListedRow
  rows_for r d = listed_rows (filters_of c pepper provider_secret r) d

  abbrev page_at : LicenseQuery → ℕ → Db → LicensePage
  page_at r o d = page_of c pepper provider_secret (at_offset r o) (
      license_rows (filters_of c pepper provider_secret r) (pos_part (page_limit r +ℤ pos 1))
        (pos_part (page_offset (at_offset r o))) d)

  page_rows :
      (r : LicenseQuery) (o l : ℕ) (d : Db)
      → page_limit r ≡ pos (suc l)
      → leb o (2 ^ 63 - 1) ≡ true
      → license_rows
          (filters_of c pepper provider_secret r)
          (pos_part (page_limit r +ℤ pos 1))
          (pos_part (page_offset (at_offset r o)))
          d
        ≡ take (suc (suc l)) (drop o (rows_for r d))
  unfolding license_rows ◌+ℤ◌
  page_rows r o l d e small =
      ap (λ n. take n (drop (pos_part (int_from_string (decimal o))) (rows_for r d)))
        {y = suc (suc l)} (grind (arith, e))
      ∙ ap (λ n. take (suc (suc l)) (drop (pos_part n) (rows_for r d)))
          (int_from_string-decimal o small)

  page_lem :
      (r : LicenseQuery) (o l : ℕ) (d : Db)
      → page_limit r ≡ pos (suc l)
      → leb o (2 ^ 63 - 1) ≡ true
      → ((page_at r o d).licenses ≡ map public (take (suc l) (drop o (rows_for r d))))
        × ((page_at r o d).has_more ≡ ltb (suc l) (length (drop o (rows_for r d))))
  unfolding page_of
  page_lem r o l d e small =
      let ys = drop o (rows_for r d) in
      let all =
        license_rows (filters_of c pepper provider_secret r) (pos_part (page_limit r +ℤ pos 1))
          (pos_part (page_offset (at_offset r o))) d in
      let these = page_rows r o l d e small in
      let seen = seen_rows (suc l) 0 (take (suc (suc l)) ys) in
      (
        ap (λ n. (show (pos_part n) 0 all).0) e
            ∙ ap (λ xs. (show (suc l) 0 xs).0) these
            ∙ shown (suc l) 0 (take (suc (suc l)) ys)
            ∙ ap (λ n. map public (take n (take (suc (suc l)) ys))) {y = suc l} (omega arith)
            ∙ ap (map public) (take-take (suc l) ys),
        ap (λ n. ltb (pos_part n) (show (pos_part n) 0 all).1) e
            ∙ ap (λ xs. ltb (suc l) (show (suc l) 0 xs).1) these
            ∙ ap (ltb (suc l)) {y = length (take (suc (suc l)) ys)} (omega (arith, seen))
            ∙ more_than (suc l) ys,
      )

  -- The rest of a round, by what the page says.
  go_on :
      (page : LicensePage) (next : Exec Problem World (List PublicLicense)) (w : World)
      (xs : List PublicLicense)
      → page.has_more ≡ true
      → (next w).0 ≡ ok xs
      → ((do more ← (if page.has_more then next else pure []); pure (page.licenses ++ more)) w).0
        ≡ ok (page.licenses ++ xs)
  unfolding ◌>>=◌ pure
  go_on page next w xs more e = rw more (grind arith)

  stop :
      (page : LicensePage) (next : Exec Problem World (List PublicLicense)) (w : World)
      → page.has_more ≡ false
      → ((do more ← (if page.has_more then next else pure []); pure (page.licenses ++ more)) w).0
        ≡ ok (page.licenses ++ [])
  unfolding ◌>>=◌ pure
  stop page next w last = rw last refl

  joined :
      (l o : ℕ) (rows : List ListedRow) (xs : List PublicLicense)
      → xs ≡ map public (take (suc l) (drop o rows))
      → xs ++ map public (drop (o + suc l) rows) ≡ map public (drop o rows)
  joined l o rows xs these =
      let ys = drop o rows in
      ap (λ zs. zs ++ map public (drop (o + suc l) rows)) these
      ∙ ap (λ zs. map public (take (suc l) ys) ++ map public zs) (sym (drop-drop (suc l) o rows))
      ∙ sym (map-append public (take (suc l) ys) (drop (suc l) ys))
      ∙ ap (map public) (take-append-drop (suc l) ys)

  module _ (server : Server) (authorization : Text) where
    abbrev list_from : LicenseQuery → ℕ → Exec Problem World LicensePage
    list_from r o =
        handle_list_licenses c pepper provider_secret server authorization (at_offset r o)

    -- Whoever asks for the next page while there is one, n pages at most.
    unfoldable pub walk : ℕ → LicenseQuery → ℕ → Exec Problem World (List PublicLicense)
    walk zero r o = pure []
    walk (suc n) r o = do
      page ← list_from r o
      let next = walk n r (o + pos_part page.limit)
      more ← (if page.has_more then next else pure [])
      pure (page.licenses ++ more)

    -- The answer where no statement fails.
    list_from-quiet :
        (r : LicenseQuery) (o : ℕ) (w : World)
        → is_nil (trim_space server.admin_token) ≡ false
        → text_eq (bearer_token authorization) (trim_space server.admin_token) ≡ true
        → server.has_database ≡ true
        → fault w ≡ none
        → list_from r o w ≡ (ok (page_at r o w.db), spend w)
    unfolding handle_list_licenses require_admin require_database ◌>>=◌ steps guard pure fault
    list_from-quiet r o w set admin db quiet = rw (set, admin, db, quiet) refl

    walk_from :
        (n : ℕ) (r : LicenseQuery) (o : ℕ) (w : World)
        → is_nil (trim_space server.admin_token) ≡ false
        → text_eq (bearer_token authorization) (trim_space server.admin_token) ≡ true
        → server.has_database ≡ true
        → w.faults ≡ []
        → length (rows_for r w.db) ≤ 2 ^ 63 - 1
        → o ≤ length (rows_for r w.db)
        → length (drop o (rows_for r w.db)) ≤ n
        → (walk n r o w).0 ≡ ok (map public (drop o (rows_for r w.db)))
    unfolding walk ◌>>=◌ later_faults rest page_of fault head_or
    walk_from zero r o w set admin db quiet bound o≤ enough =
        ap (λ xs. ok (map public xs)) (sym (no_rows (drop o (rows_for r w.db)) enough))
    walk_from (suc n) r o w set admin db quiet bound o≤ enough =
        let rows = rows_for r w.db in
        let (l, e) = positive_from (int_from_string r.limit) in
        let (these, more) = page_lem r o l w.db e (grind arith) in
        let page = page_at r o w.db in
        let next = walk n r (o + pos_part page.limit) in
        let start =
          ap
            (λ x.
              (continue x.0
                (λ page. do
                  let next = walk n r (o + pos_part page.limit)
                  more ← (if page.has_more then next else pure [])
                  pure (page.licenses ++ more))
                x.1).0)
            (list_from-quiet r o w set admin db (ap (head_or none) quiet)) in
        elim (Bool-cases (ltb (suc l) (length (drop o rows)))) [
          | inl beyond ↦
              start
              ∙ go_on page next (spend w) (map public (drop (o + suc l) rows)) (more ∙ beyond) (
                  ap (λ m. (walk n r (o + pos_part m) (spend w)).0) e
                  ∙ walk_from n r (o + suc l) (spend w) set admin db (ap rest quiet) bound
                      (grind (arith, length-drop o rows))
                      (grind (arith, length-drop o rows, length-drop (o + suc l) rows)))
              ∙ ap ok (joined l o rows page.licenses these)
          | inr last ↦
              start
              ∙ stop page next (spend w) (more ∙ last)
              ∙ ap ok (
                  append-nil page.licenses
                  ∙ these
                  ∙ ap (map public) (take_all (suc l) (drop o rows) (grind arith)))
        ]

    pub handle_list_licenses-walk :
        (r : LicenseQuery) (w : World)
        → is_nil (trim_space server.admin_token) ≡ false
        → text_eq (bearer_token authorization) (trim_space server.admin_token) ≡ true
        → server.has_database ≡ true
        → w.faults ≡ []
        → length (rows_for r w.db) ≤ 2 ^ 63 - 1
        → (walk (length (rows_for r w.db)) r 0 w).0 ≡ ok (map public (rows_for r w.db))
    handle_list_licenses-walk r w set admin db quiet bound =
        walk_from (length (rows_for r w.db)) r 0 w set admin db quiet bound (omega arith)
          (omega arith)
