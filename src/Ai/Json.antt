-- ===== src/Ai/Json.antt =====
-- app/cloudflare_ai/agent.py: `parse_json_object`, `_coerce_arguments` and `salvage_tool_calls`. The
-- decoder of the library json is an argument, `none` where it raises ValueError; that it raises
-- RecursionError on a text nested too deeply, which would leave `run`, is left out. Python's None is `null`; the
-- values that the agent does not look into are `other`.
use telegram_auto.Prelude.{
  ℕ, suc, ◌-◌, Option, none, some, List, [], ◌∷◌, ◌++◌, Text, codes, ltb, ◌==◌, nat_eq, text_eq,
  if◌then◌else◌, take, drop, contains,
}
use telegram_auto.Prelude.Strip.{strip, lstrip, is_empty}
use telegram_auto.Prelude.Parse.{lower}
use telegram_auto.Prelude.Search.{starts_with}

mutual
  pub data Json : Type 0 where
    null : Json
    text : Text → Json
    other : Json
    array : Items → Json
    object : Fields → Json

  pub data Items : Type 0 where
    no_items : Items
    item : Json → Items → Items

  pub data Fields : Type 0 where
    no_fields : Fields
    field : Text → Json → Fields → Fields

abbrev pub Decoder : Type 0
Decoder = Text → Option Json

-- `block.get(key)`, `none` where the key is missing
unfoldable pub get_field : Text → Fields → Option Json
unfolding text_eq
get_field key no_fields = none
get_field key (field k v rest) = if k == key then some v else get_field key rest

-- `raw.split("```")[1]` behind the first fence
unfoldable pub before_fence : Text → Text
unfolding starts_with
before_fence [] = []
before_fence (c ∷ s) =
    let rest = before_fence s in if starts_with (codes "```") (c ∷ s) then [] else c ∷ rest

unfoldable pub unfenced : Text → Text
unfolding before_fence starts_with lower lstrip strip
unfenced raw =
    let candidate = before_fence (drop 3 raw) in
    let body =
      if starts_with (codes "json") (lower (lstrip candidate))
      then drop 4 (lstrip candidate)
      else candidate in
    if starts_with (codes "```") raw then strip body else raw

-- `raw.find(c)` and `raw.rfind(c)`
unfoldable pub find_char : ℕ → Text → Option ℕ
unfolding nat_eq
find_char c [] = none
find_char c (d ∷ s) =
    let rest = find_char c s in
    if d == c then some 0 else elim rest [ none ↦ none | some i ↦ some (suc i) ]

unfoldable pub rfind_char : ℕ → Text → Option ℕ
unfolding nat_eq
rfind_char c [] = none
rfind_char c (d ∷ s) = elim (rfind_char c s) [
  | some i ↦ some (suc i)
  | none ↦ if d == c then some 0 else none
]

-- `json.loads(raw[start : end + 1])`, `none` also where the brackets are missing
unfoldable pub load_between : Decoder → ℕ → ℕ → Text → Option Json
unfolding find_char rfind_char
load_between loads opener closer raw = elim (find_char opener raw) [
  | none ↦ none
  | some start ↦ elim (rfind_char closer raw) [
    | none ↦ none
    | some end_ ↦ if ltb start end_ then loads (take (suc end_ - start) (drop start raw)) else none
  ]
]

-- `parse_json_object`
unfoldable pub parse_json_object : Decoder → Text → Json
unfolding unfenced load_between strip is_empty
parse_json_object loads content =
    let raw = unfenced (strip content) in
    if is_empty (strip content) then null else elim (loads raw) [
      | some v ↦ v
      | none ↦ elim (load_between loads b'{' b'}' raw) [
        | some v ↦ v
        | none ↦ elim (load_between loads b'[' b']' raw) [ some v ↦ v | none ↦ null ]
      ]
    ]

-- `_coerce_arguments`
unfoldable pub coerce_arguments : Decoder → Json → Fields
unfolding parse_json_object
coerce_arguments loads null = no_fields
coerce_arguments loads (text s) = elim (parse_json_object loads s) [
  | object fields ↦ fields
  | _ ↦ no_fields
]
coerce_arguments loads other = no_fields
coerce_arguments loads (array items) = no_fields
coerce_arguments loads (object fields) = fields

-- the first of the keys under which the arguments stand
unfoldable pub arguments_of : Decoder → List Text → Fields → Fields
unfolding get_field coerce_arguments
arguments_of loads [] block = no_fields
arguments_of loads (key ∷ keys) block = elim (get_field key block) [
  | some v ↦ coerce_arguments loads v
  | none ↦ arguments_of loads keys block
]

abbrev argument_keys : List Text
argument_keys = codes "arguments" ∷ codes "parameters" ∷ codes "args" ∷ codes "input" ∷ []

-- `item.get("function")` if that is an object, or the item
unfoldable pub function_block : Fields → Fields
unfolding get_field
function_block fields = elim (get_field (codes "function") fields) [
  | none ↦ fields
  | some v ↦ elim v [ object block ↦ block | _ ↦ fields ]
]

-- `str(block.get("name") or "").strip()` of a name that is a text or missing
unfoldable pub name_of : Fields → Text
unfolding get_field strip
name_of block = elim (get_field (codes "name") block) [
  | none ↦ []
  | some v ↦ elim v [ text s ↦ strip s | _ ↦ [] ]
]

unfoldable pub salvage_one : Decoder → List Text → Json → List (Text × Fields)
unfolding function_block name_of arguments_of contains
salvage_one loads known (object fields) =
    let block = function_block fields in
    let name = name_of block in
    if contains known name then (name, arguments_of loads argument_keys block) ∷ [] else []
salvage_one loads known _ = []

unfoldable pub salvage_items : Decoder → List Text → Items → List (Text × Fields)
unfolding salvage_one
salvage_items loads known no_items = []
salvage_items loads known (item v rest) =
    salvage_one loads known v ++ salvage_items loads known rest

-- `salvage_tool_calls`
unfoldable pub salvage_tool_calls : Decoder → Text → List Text → List (Text × Fields)
unfolding salvage_items parse_json_object
salvage_tool_calls loads content known = elim (parse_json_object loads content) [
  | array items ↦ salvage_items loads known items
  | v ↦ salvage_one loads known v
]
