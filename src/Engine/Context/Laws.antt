-- ===== src/Engine/Context/Laws.antt =====
-- What is read back from the context.
use react_go_workflow.Prelude.{
  ◌≡◌, refl, ap, ◌∙◌, inl, inr, Bool, true, false, ◌||◌, ◌&&◌, not, Option, none, some, [], Text,
  text_eq, lookup, insert, lookup-insert, Bool-cases, if◌then◌else◌,
}
use react_go_workflow.Value.{Object}
use react_go_workflow.Engine.Context.{ExecContext, set_step_output, get_step_output}

-- The names that an output is filed under.
abbrev pub names_it : (name id key : Text) → Bool
names_it name id key = text_eq name key || (not (text_eq id []) && text_eq id key)

-- An output is found under the name of its step and under the id, unless that is empty, and what is
-- found under any other key is what was found there before.
pub get_step_output-set_step_output :
    (name id key : Text) (output : Object) (c : ExecContext)
    → get_step_output key (set_step_output name id output c)
      ≡ (if names_it name id key then output else get_step_output key c)
unfolding get_step_output set_step_output
get_step_output-set_step_output name id key output c = elim (Bool-cases (text_eq id [])) [
  | inl empty ↦
      rw (empty, set_step_output)
        (ap read (lookup-insert name key output c.step_outputs) ∙ choose (text_eq name key))
  | inr full ↦
      rw (full, set_step_output)
        (ap read (lookup-insert id key output (insert name output c.step_outputs))
          ∙ ap (λ o. read (if text_eq id key then some output else o))
              (lookup-insert name key output c.step_outputs)
          ∙ choose_two (text_eq name key) (text_eq id key))
]
  where
    read : Option Object → Object
    read none = none
    read (some o) = o

    before : Object
    before = read (lookup key c.step_outputs)

    choose :
        (a : Bool)
        → read (if a then some output else lookup key c.step_outputs)
          ≡ (if a || false then output else before)
    choose true = refl
    choose false = refl

    choose_two :
        (a b : Bool)
        → read (if b then some output else if a then some output else lookup key c.step_outputs)
          ≡ (if a || b then output else before)
    choose_two true true = refl
    choose_two true false = refl
    choose_two false true = refl
    choose_two false false = refl
