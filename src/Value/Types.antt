-- ===== src/Value/Types.antt =====
-- The values themselves.
use react_go_workflow.Prelude.{ℕ, Bool, Text, Option, none, some, text_eq, if◌then◌else◌}

-- `nil_object` is a nil `map[string]any` inside an `any`.
mutual
  pub data Value : Type 0 where
    null nil_object : Value
    bool : Bool → Value
    int : ℕ → Value
    float : ℕ → Value
    string : Text → Value
    object : Fields → Value
    array : Items → Value

  pub data Items : Type 0 where
    nil : Items
    cons : Value → Items → Items

  pub data Fields : Type 0 where
    end : Fields
    field : Text → Value → Fields → Fields

-- A `map[string]any`; `none` is the nil map.
abbrev pub Object : Type 0
Object = Option Fields

abbrev pub of_object : Object → Value
of_object none = nil_object
of_object (some f) = object f

-- v, ok := m[k]
unfoldable pub get_field : Text → Fields → Option Value
unfolding text_eq
get_field k end = none
get_field k (field j v f) = if text_eq j k then some v else get_field k f

-- m[k] = v
unfoldable pub set_field : Text → Value → Fields → Fields
unfolding text_eq
set_field k v end = field k v end
set_field k v (field j w f) = if text_eq j k then field k v f else field j w (set_field k v f)

-- m[k] on a map that may be nil, where a missing key reads as nil.
unfoldable pub index : Object → Text → Value
unfolding get_field
index none k = null
index (some f) k = elim (get_field k f) [ none ↦ null | some v ↦ v ]
