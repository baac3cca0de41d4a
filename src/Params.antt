-- ===== src/Params.antt =====
-- The request parameters, a `map[string]any` (tasks.go: stringParam, stringParamDefault, intParam).
use lillian_backend.Common.{
  Text, codes, text_eq, trim_space, is_nil, true, false, Option, none, some, [], ◌∷◌, if◌then◌else◌,
}
use lillian_backend.Schema.{Json, Params, null, bool, num, str, other}

unfoldable pub param : Params → Text → Option Json
param [] key = none
param ((k, v) ∷ rest) key = if text_eq k key then some v else param rest key

-- params[key] = value
unfoldable pub set_param : Params → Text → Json → Params
set_param [] key value = (key, value) ∷ []
set_param ((k, v) ∷ rest) key value =
    if text_eq k key then (key, value) ∷ rest else (k, v) ∷ set_param rest key value

-- fmt.Sprint
unfoldable pub sprint : Json → Text
sprint null = codes "<nil>"
sprint (bool true) = codes "true"
sprint (bool false) = codes "false"
sprint (num f g n) = g
sprint (str s) = s
sprint (other s) = s

unfoldable pub string_param : Params → Text → Text
unfolding param sprint
string_param params key = elim (param params key) [ none ↦ [] | some v ↦ sprint v ]

unfoldable pub string_param_default : Params → Text → Text → Text
unfolding string_param
string_param_default params key fallback =
    let value = trim_space (string_param params key) in if is_nil value then fallback else value
