-- ===== src/Payments.antt =====
-- Payments by EPUSDT, and the prices and plans that they refer to (payments.go). MD5 and the
-- reading of a decimal by big.Rat are parameters of what uses them.
pub mod Callback
pub mod Catalog
pub mod Validation
pub mod Crediting
pub mod Success
pub mod Topup
pub mod Plans
use lillian_backend.Common.{
  ℕ, zero, suc, ◌+◌, ◌-◌, ℤ, pos, negsuc, eqb_ℤ, ◌==◌, Text, codes, text_eq, trim_space, to_lower,
  is_nil, decimal, join, not, ◌&&◌, ◌||◌, Bool, true, false, Option, none, some, List, [], ◌∷◌,
  ◌++◌, map, if◌then◌else◌, leb, parse_digits, is_some,
}
use lillian_backend.Common.Sorting.{compare_text, order_by}
use lillian_backend.Schema.{
  Json, null, bool, num, str, other, Params, OrderStatus, created, pending, paid, expired, callback,
}
use lillian_backend.Params.{param}

-- stringValue
unfoldable pub string_value : Json → Text
string_value null = []
string_value (bool true) = codes "true"
string_value (bool false) = codes "false"
string_value (num f g n) = f
string_value (str s) = s
string_value (other s) = s

-- The value of a missing key is nil.
unfoldable pub field : Params → Text → Text
unfolding param string_value
field payload key = elim (param payload key) [ none ↦ [] | some v ↦ string_value v ]

abbrev pub max_int64 : ℕ
max_int64 = 9223372036854775807

-- The first result of strconv.Atoi: 0 for a text that is no number, and the nearest 64-bit number
-- for one that is out of range.
clamp_pos : Option ℕ → ℤ
clamp_pos none = pos 0
clamp_pos (some n) = if leb n max_int64 then pos n else pos max_int64

clamp_neg : Option ℕ → ℤ
clamp_neg none = pos 0
clamp_neg (some zero) = pos 0
clamp_neg (some (suc n)) = if leb n max_int64 then negsuc n else negsuc max_int64

unfoldable pub atoi_value : Text → ℤ
unfolding clamp_pos clamp_neg
atoi_value [] = pos 0
atoi_value (c ∷ s) =
    if c == b'-'
    then clamp_neg (parse_digits s)
    else if c == b'+'
    then clamp_pos (parse_digits s)
    else clamp_pos (parse_digits (c ∷ s))

-- intValue
unfoldable pub int_value : Json → ℤ
unfolding atoi_value
int_value null = pos 0
int_value (bool b) = pos 0
int_value (num f g n) = n
int_value (str s) = atoi_value (trim_space s)
int_value (other s) = pos 0

unfoldable pub int_field : Params → Text → ℤ
unfolding param int_value
int_field payload key = elim (param payload key) [ none ↦ pos 0 | some v ↦ int_value v ]

-- epusdtPaymentStatusName
unfoldable pub payment_status : ℤ → OrderStatus
payment_status n =
    if eqb_ℤ n (pos 1)
    then pending
    else if eqb_ℤ n (pos 2)
    then paid
    else if eqb_ℤ n (pos 3)
    then expired
    else callback n

abbrev pub is_paid : OrderStatus → Bool
is_paid paid = true
is_paid _ = false

-- The loop that collects the pairs. The value nil is read as the empty text, which is passed over.
unfoldable pub signed_pairs : Params → List Text
unfolding string_value
signed_pairs [] = []
signed_pairs ((key, raw) ∷ rest) =
    let value = trim_space (string_value raw) in
    let pairs = signed_pairs rest in
    if text_eq key (codes "signature") || is_nil value
    then pairs
    else (key ++ (codes "=" ++ value)) ∷ pairs

-- The text that is signed, without the secret.
unfoldable pub signed_text : Params → Text
unfolding signed_pairs
signed_text payload = join (codes "&") (order_by compare_text (signed_pairs payload))

-- epusdtSignature, over MD5 in hexadecimal.
unfoldable pub epusdt_signature : (Text → Text) → Params → Text → Text
unfolding signed_text
epusdt_signature md5_hex payload secret = md5_hex (signed_text payload ++ secret)

-- strings.ReplaceAll(s, d, "") for one character
unfoldable pub remove_code : ℕ → Text → Text
remove_code d [] = []
remove_code d (c ∷ s) = if c == d then remove_code d s else c ∷ remove_code d s

unfoldable pub normalize_payment_network : Text → Text
unfolding remove_code
normalize_payment_network value =
    let normalized = remove_code b'_' (remove_code b'-' (to_lower (trim_space value))) in
    if text_eq normalized (codes "trc20")
    then codes "tron"
    else if text_eq normalized (codes "erc20")
    then codes "ethereum"
    else normalized
