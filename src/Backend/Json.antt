-- ===== src/Backend/Json.antt =====
-- backend/managers/ingestion.go: what the manager reads from a decoded JSON payload.
use fine_rag_core.Prelude.{
  ℕ, Bool, Option, none, some, List, [], ◌∷◌, length, is_empty, if◌then◌else◌,
}
use fine_rag_core.Text.{Text, txt, trim_space}
use fine_rag_core.Dict.{Dict, lookup}

-- Go's `any`, as `encoding/json` fills it.
mutual
  pub data Any : Type 0 where
    null : Any
    boolean : Bool → Any
    number : Text → Any
    string : Text → Any
    array : Items → Any
    object : Members → Any

  pub data Items : Type 0 where
    no_items : Items
    item : Any → Items → Items

  pub data Members : Type 0 where
    no_members : Members
    member : Text → Any → Members → Members

abbrev pub items_of : Items → List Any
items_of no_items = []
items_of (item v vs) = v ∷ items_of vs

-- `map[string]any`
abbrev pub members_of : Members → Dict Any
members_of no_members = []
members_of (member k v ms) = (k, v) ∷ members_of ms

-- `m[key]`, nil where there is none
unfoldable pub value_of : Text → Dict Any → Any
unfolding lookup
value_of key m = elim (lookup key m) [ none ↦ null | some v ↦ v ]

-- `asString`
abbrev pub as_string : Any → Text
as_string (string s) = s
as_string _ = []

-- `v.([]any)`
abbrev pub as_array : Any → Option (List Any)
as_array (array vs) = some (items_of vs)
as_array _ = none

unfoldable pub infer_total_files : Dict Any → ℕ
unfolding value_of txt
infer_total_files payload = elim (as_array (value_of (txt "localItems") payload)) [
  | none ↦ 1
  | some vs ↦ if is_empty vs then 1 else length vs
]

-- One turn of the loop of `readStringArray`.
abbrev pub read_string : Any → List Text → List Text
read_string (string s) rest =
    let trimmed = trim_space s in if is_empty trimmed then rest else trimmed ∷ rest
read_string _ rest = rest

abbrev pub read_strings : List Any → List Text
read_strings [] = []
read_strings (v ∷ vs) = read_string v (read_strings vs)

unfoldable pub read_string_array : Any → List Text
read_string_array value = elim (as_array value) [ none ↦ [] | some vs ↦ read_strings vs ]
