-- ===== src/Executions/Names.antt =====
-- The names in a filter of List mean the statuses and trigger types that have them.
use mathlib.Core.Option.{some_inj}
use react_go_workflow.Prelude.{
  ◌≡◌, ◌≢◌, refl, sym, ap, ◌∙◌, inl, inr, Bool, true, false, Option, none, some, List, [], ◌∷◌, map,
  In, All-at, Text, text_eq, text_eq_iff, lookup, if◌then◌else◌,
}
use react_go_workflow.Engine.Types.{Status, pending, running, completed, failed, skipped, cancelled}
use react_go_workflow.Engine.Resolver.{trim_space}
use react_go_workflow.Executions.Filters.{
  TriggerType, manual, cron, webhook, database_event, valid_statuses, valid_trigger_types,
  invalid_value, Parsed, parsed, refused, then_parse, parse_names,
}
use react_go_workflow.Executions.Meaning.{status_name, trigger_type_name}

pair_eq : {A : Type 0} {j k : Text} {b a : A} → j ≡ k → b ≡ a → ◌≡◌ {A = Text × A} (j, b) (k, a)
pair_eq e f = rw (e, f) refl

lookup-In :
    {A : Type 0} (k : Text) (a : A) (m : List (Text × A)) → lookup k m ≡ some a → In (k, a) m
unfolding lookup
lookup-In k a [] h = absurd cc
lookup-In k a ((j, b) ∷ m) h = go (text_eq j k) refl (lookup-In k a m) h
  where
    go :
        (t : Bool)
        → text_eq j k ≡ t
        → (lookup k m ≡ some a → In (k, a) m)
        → (if t then some b else lookup k m) ≡ some a
        → In (k, a) ((j, b) ∷ m)
    go true same later is = inl (pair_eq ((text_eq_iff j k).0 same) (some_inj.0 is))
    go false other later is = inr (later is)

-- A table of names, with the name that a value has.
module _ {A : Type 0} (key : Text) (name : A → Text) (valid : List (Text × A))
    (sound : (k : Text) (a : A) → lookup k valid ≡ some a → name a ≡ k)
    (single : (b a : A) → lookup (name b) valid ≡ some a → a ≡ b) where
  -- What the loop over the parts gives.
  abbrev pub Reads : List Text → Parsed (List A) → Type 0
  Reads ps (parsed l) =
      (b : A)
      → (In b l → In (name b) (map trim_space ps)) × (In (name b) (map trim_space ps) → In b l)
  Reads ps (refused k e) =
      (p : Text) × (k ≡ key)
      × (e ≡ invalid_value p)
      × In p ps
      × (lookup (trim_space p) valid ≡ none)

  Reads-more :
      (p : Text) (ps : List Text) (a : A) (r : Parsed (List A))
      → lookup (trim_space p) valid ≡ some a
      → Reads ps r
      → Reads (p ∷ ps) (then_parse r (λ l. parsed (a ∷ l)))
  Reads-more p ps a (parsed l) is h = λ b. (
    (λ i. elim i [
      | inl e ↦ inl (sym (sound (trim_space p) a is) ∙ ap name e)
      | inr j ↦ inr ((h b).0 j)
    ]),
    (λ i. elim i [
      | inl e ↦ inl (single b a (ap (λ k. lookup k valid) (sym e) ∙ is))
      | inr j ↦ inr ((h b).1 j)
    ]),
  )
  Reads-more p ps a (refused k e) is (q, own, error, i, unknown) = (q, own, error, inr i, unknown)

  pub parse_names-Reads : (ps : List Text) → Reads ps (parse_names key valid ps)
  unfolding parse_names
  parse_names-Reads [] = λ b. ((λ i. i), (λ i. i))
  parse_names-Reads (p ∷ ps) = go (parse_names-Reads ps) (lookup (trim_space p) valid) refl
    where
      go :
          Reads ps (parse_names key valid ps)
          → (o : Option A) → lookup (trim_space p) valid ≡ o
          → Reads (p ∷ ps) (elim o [
            | none ↦ refused key (invalid_value p)
            | some v ↦ then_parse (parse_names key valid ps) (λ l. parsed (v ∷ l))
          ])
      go h none is = (p, refl, refl, inl refl, is)
      go h (some a) is = Reads-more p ps a (parse_names key valid ps) is h

pub status_sound : (k : Text) (a : Status) → lookup k valid_statuses ≡ some a → status_name a ≡ k
status_sound k a h =
    All-at (λ (p : Text × Status). status_name p.1 ≡ p.0) valid_statuses
      (refl, (refl, (refl, (refl, (refl, tt))))) (k, a) (lookup-In k a valid_statuses h)

pub status_single : (b a : Status) → lookup (status_name b) valid_statuses ≡ some a → a ≡ b
unfolding lookup text_eq
status_single pending a h = sym (some_inj.0 h)
status_single running a h = sym (some_inj.0 h)
status_single completed a h = sym (some_inj.0 h)
status_single failed a h = sym (some_inj.0 h)
status_single cancelled a h = sym (some_inj.0 h)
status_single skipped a h = absurd cc

-- Every status of an execution has a name in the table.
pub status_known : (s : Status) → s ≢ skipped → lookup (status_name s) valid_statuses ≡ some s
unfolding lookup text_eq
status_known pending n = refl
status_known running n = refl
status_known completed n = refl
status_known failed n = refl
status_known cancelled n = refl
status_known skipped n = absurd (n refl)

pub trigger_sound :
    (k : Text) (a : TriggerType) → lookup k valid_trigger_types ≡ some a → trigger_type_name a ≡ k
trigger_sound k a h =
    All-at (λ (p : Text × TriggerType). trigger_type_name p.1 ≡ p.0) valid_trigger_types
      (refl, (refl, (refl, (refl, tt)))) (k, a) (lookup-In k a valid_trigger_types h)

pub trigger_known : (t : TriggerType) → lookup (trigger_type_name t) valid_trigger_types ≡ some t
unfolding lookup text_eq
trigger_known manual = refl
trigger_known cron = refl
trigger_known webhook = refl
trigger_known database_event = refl

pub trigger_single :
    (b a : TriggerType) → lookup (trigger_type_name b) valid_trigger_types ≡ some a → a ≡ b
trigger_single b a h = some_inj.0 (sym h ∙ trigger_known b)
