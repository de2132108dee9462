-- ===== src/Value/Format.antt =====
-- fmt's `%v` and `%T` on such values. `%v` prints a map with its keys in order, and a float in
-- strconv's shortest form, which is a parameter.
use react_go_workflow.Prelude.{
  ℕ, zero, suc, ◌+◌, ◌/◌, ◌%◌, Bool, true, false, List, [], ◌∷◌, ◌++◌, Text, codes, ltb, ◌==◌, ◌&&◌,
  ◌||◌, if◌then◌else◌,
}
use react_go_workflow.Value.Types.{
  Value, null, nil_object, bool, int, float, string, object, array, Items, nil, cons, Fields, end,
  field,
}

-- The decimal digits of a number in front of `out`; the fuel is the number of digits.
digits_onto : ℕ → ℕ → Text → Text
digits_onto zero n out = out
digits_onto (suc fuel) n out =
    let rest = digits_onto fuel (n / 10) ((48 + n % 10) ∷ out) in if n == 0 then out else rest

-- strconv.Itoa of a number that is not negative. An `int` has at most 20 digits.
unfoldable pub decimal : ℕ → Text
unfolding digits_onto
decimal n = if n == 0 then codes "0" else digits_onto 20 n []

-- s < t, by code points.
unfoldable pub text_less : Text → Text → Bool
text_less s [] = false
text_less [] (d ∷ t) = true
text_less (c ∷ s) (d ∷ t) = ltb c d || (c == d && text_less s t)

pub record Entry : Type 0 where
  pub key : Text
  pub shown : Text

insert_sorted : Entry → List Entry → List Entry
insert_sorted e [] = e ∷ []
insert_sorted e (f ∷ l) = if text_less e.key f.key then e ∷ f ∷ l else f ∷ insert_sorted e l

join_entries : List Entry → Text
join_entries [] = []
join_entries (e ∷ []) = e.key ++ 58 ∷ e.shown
join_entries (e ∷ f ∷ l) = e.key ++ 58 ∷ (e.shown ++ 32 ∷ join_entries (f ∷ l))

join_items : List Text → Text
join_items [] = []
join_items (s ∷ []) = s
join_items (s ∷ t ∷ l) = s ++ 32 ∷ join_items (t ∷ l)

module _ (format_float : ℕ → Text) where
  unfoldable mutual
    unfolding join_entries join_items insert_sorted decimal text_less

    -- fmt.Sprintf("%v", v)
    pub sprint : Value → Text
    sprint null = codes "<nil>"
    sprint nil_object = codes "map[]"
    sprint (bool true) = codes "true"
    sprint (bool false) = codes "false"
    sprint (int n) = decimal n
    sprint (float x) = format_float x
    sprint (string s) = s
    sprint (object f) = codes "map[" ++ join_entries (sprint_fields f) ++ codes "]"
    sprint (array l) = codes "[" ++ join_items (sprint_items l) ++ codes "]"

    pub sprint_items : Items → List Text
    sprint_items nil = []
    sprint_items (cons v l) = sprint v ∷ sprint_items l

    pub sprint_fields : Fields → List Entry
    sprint_fields end = []
    sprint_fields (field k v f) =
        insert_sorted (record { key = k; shown = sprint v }) (sprint_fields f)

-- fmt.Sprintf("%T", v)
unfoldable pub type_name : Value → Text
type_name null = codes "<nil>"
type_name nil_object = codes "map[string]interface {}"
type_name (bool b) = codes "bool"
type_name (int n) = codes "int"
type_name (float x) = codes "float64"
type_name (string s) = codes "string"
type_name (object f) = codes "map[string]interface {}"
type_name (array l) = codes "[]interface {}"
