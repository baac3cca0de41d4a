-- ===== src/Admin/Licenses/Page.antt =====
-- The administrator's list of licences (product_api.go: handleAdminListLicenses,
-- adminLicenseListQuery, publicLicense, intFromString). Rows created at one time are listed as they
-- stand in the table.
pub mod Limits
pub mod Walk
use Prim.Native.Nat.{suc, compare, Ordering}
use lillian_backend.Common.{
  ℕ, ℤ, pos, pos_part, ltb, leb, ◌+ℤ◌, ◌==◌, ◌&&◌, ◌||◌, Text, codes, text_eq, trim_space, is_nil,
  atoi, Bool, Option, none, some, List, [], ◌∷◌, map, take, drop, if◌then◌else◌, find_where,
  select_where, Exec, Result, ok, err, pure, ◌>>=◌, ◌>>◌,
}
use lillian_backend.Common.Sorting.{order_by}
use lillian_backend.Schema.{Db, LicenseRow, LicenseStatus, WalletRecord}
use lillian_backend.Numbers.{min_positive}
use lillian_backend.Secrets.{Crypto, hash_secret, decrypt_secret}
use lillian_backend.Sql.{World, query}
use lillian_backend.Http.{Problem, internal, Server, require_database, require_admin}
use lillian_backend.Admin.Texts.{normalize_service_code}
use lillian_backend.Admin.Licenses.{
  LicenseFilters, is_listed, license_service_filter, license_redeemed_filter,
}

-- The digits that a text starts with.
digits_of : Text → Text
digits_of [] = []
digits_of (c ∷ s) = let more = digits_of s in if leb b'0' c && leb c b'9' then c ∷ more else []

-- What the verb %d of fmt.Sscanf reads: a sign, and the digits after it.
number_prefix : Text → Text
unfolding digits_of
number_prefix [] = []
number_prefix (c ∷ s) = if c == b'-' || c == b'+' then c ∷ digits_of s else digits_of (c ∷ s)

abbrev or_zero : Option ℤ → ℤ
or_zero none = pos 0
or_zero (some n) = n

-- 0 where no number is read, or one that is no int.
unfoldable pub int_from_string : Text → ℤ
unfolding number_prefix
int_from_string value = or_zero (atoi (number_prefix (trim_space value)))

-- A row of the list: the licence, and the address that the LEFT JOIN gives it.
abbrev pub ListedRow : Type 0
ListedRow = LicenseRow × Option Text

address_of : Option WalletRecord → Option Text
address_of none = none
address_of (some w) = some w.address

redeemer : Db → Option Text → Option Text
unfolding address_of
redeemer db none = none
redeemer db (some id) = address_of (find_where (λ w. text_eq w.id id) db.wallets)

-- ORDER BY l.created_at DESC
abbrev pub by_newest : LicenseRow → LicenseRow → Ordering
by_newest a b = compare b.created_at a.created_at

-- The rows without LIMIT and OFFSET.
unfoldable pub listed_rows : LicenseFilters → Db → List ListedRow
unfolding redeemer
listed_rows f db =
    map (λ l. (l, redeemer db l.redeemed_wallet_id))
      (order_by by_newest (select_where (is_listed f) db.licenses))

unfoldable pub license_rows : LicenseFilters → ℕ → ℕ → Db → List ListedRow
license_rows f limit offset db = take limit (drop offset (listed_rows f db))

pub record PublicLicense : Type 0 where
  pub id : Text
  pub key : Option Text
  pub service_code : Text
  pub credits : ℤ
  pub max_concurrent : ℤ
  pub status : LicenseStatus
  pub expires_at : Option ℕ
  pub redeemed_at : Option ℕ
  pub redeemed_wallet_id : Option Text
  pub redeemed_wallet_address : Option Text
  pub note : Text
  pub created_at : ℕ
  pub updated_at : ℕ

pub record LicensePage : Type 0 where
  pub licenses : List PublicLicense
  pub limit : ℤ
  pub offset : ℤ
  pub has_more : Bool
  pub search : Text
  pub service_code : Text
  pub redeemed : Text

-- The parameters of the URL.
pub record LicenseQuery : Type 0 where
  pub limit : Text
  pub offset : Text
  pub q : Text
  pub service_code : Text
  pub redeemed : Text

abbrev pub page_limit : LicenseQuery → ℤ
page_limit r = min_positive (int_from_string r.limit) (pos 20) (pos 50)

abbrev pub page_offset : LicenseQuery → ℤ
page_offset r = pos (pos_part (int_from_string r.offset))

module _ (c : Crypto) (pepper provider_secret : Text) where
  plain : Result Text Text → Option Text
  plain (err e) = none
  plain (ok key) = some key

  shown_key : Option Text → Option Text
  unfolding plain
  shown_key none = none
  shown_key (some s) = if is_nil s then none else plain (decrypt_secret c provider_secret s)

  unfoldable pub public_license : ListedRow → PublicLicense
  unfolding shown_key normalize_service_code
  public_license (l, address) = record {
    id = l.id;
    key = shown_key l.key_ciphertext;
    service_code = normalize_service_code l.service_code;
    credits = l.credits;
    max_concurrent = l.max_concurrent;
    status = l.status;
    expires_at = l.expires_at;
    redeemed_at = l.redeemed_at;
    redeemed_wallet_id = l.redeemed_wallet_id;
    redeemed_wallet_address = address;
    note = l.note;
    created_at = l.created_at;
    updated_at = l.updated_at;
  }

  -- The loop over the rows: those shown, and how many were seen.
  unfoldable pub show_rows : ℕ → ℕ → List ListedRow → List PublicLicense × ℕ
  show_rows limit seen [] = ([], seen)
  show_rows limit seen (l ∷ ls) =
      let (more, total) = show_rows limit (suc seen) ls in
      ((if ltb seen limit then public_license l ∷ more else more), total)

  unfoldable pub filters_of : LicenseQuery → LicenseFilters
  filters_of r = record {
    search_hash = if is_nil (trim_space r.q) then [] else hash_secret c pepper (trim_space r.q);
    service_code = license_service_filter r.service_code;
    redeemed = license_redeemed_filter r.redeemed;
  }

  unfoldable pub page_of : LicenseQuery → List ListedRow → LicensePage
  unfolding show_rows
  page_of r rows =
      let limit = pos_part (page_limit r) in
      let (licenses, seen) = show_rows limit 0 rows in
      record {
        licenses = licenses;
        limit = page_limit r;
        offset = page_offset r;
        has_more = ltb limit seen;
        search = trim_space r.q;
        service_code = license_service_filter r.service_code;
        redeemed = license_redeemed_filter r.redeemed;
      }

  unfoldable pub handle_list_licenses :
      Server → Text → LicenseQuery → Exec Problem World LicensePage
  unfolding filters_of license_rows page_of
  handle_list_licenses server authorization r = do
    require_admin server authorization
    require_database server
    rows ←
        query internal (
          license_rows (filters_of r) (pos_part (page_limit r +ℤ pos 1)) (pos_part (page_offset r)))
    pure (page_of r rows)
