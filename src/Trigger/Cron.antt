-- ===== src/Trigger/Cron.antt =====
-- internal/trigger/cron.go: the cron scheduler, over the package github.com/robfig/cron as a parameter.
pub mod Laws
pub mod Syncing
pub mod Starting
use react_go_workflow.Prelude.{
  ℕ, Bool, true, false, Option, none, some, List, [], ◌∷◌, ◌≡◌, ◌≢◌, ◌↔◌, ◌⊎◌, Text, codes, text_eq,
  if◌then◌else◌, update,
}
use react_go_workflow.Value.{Value, bool, string, Fields, Object, get_field}
use react_go_workflow.Engine.Types.{Uuid}

-- A cron.Cron: AddFunc with a job that runs a workflow, Remove, and which jobs there are.
pub record CronLibrary : Type 1 where
  pub State : Type 0
  pub new : State
  pub parses : Text → Bool
  pub add_func : Text → Uuid → State → Option (ℕ × State)
  pub remove : ℕ → State → State
  pub HasJob : State → ℕ → Uuid → Type 0

-- What the scheduler relies on of that package.
pub record CronLaws (lib : CronLibrary) : Type 0 where
  pub starts_empty : (j : ℕ) (w : Uuid) → lib.HasJob lib.new j w → ⊥
  -- AddFunc takes every expression that parses.
  pub accepts :
      (expr : Text) (wf : Uuid) (s : lib.State)
      → lib.parses expr ≡ true
      → (id : ℕ) × (t : lib.State) × (lib.add_func expr wf s ≡ some (id, t))
  -- It adds the job under a new id.
  pub after_add :
      (expr : Text) (wf : Uuid) (s t : lib.State) (id : ℕ)
      → lib.add_func expr wf s ≡ some (id, t)
      → (j : ℕ) (w : Uuid) → lib.HasJob t j w ↔ (lib.HasJob s j w ⊎ ((id ≡ j) × (wf ≡ w)))
  pub new_id :
      (expr : Text) (wf : Uuid) (s t : lib.State) (id : ℕ)
      → lib.add_func expr wf s ≡ some (id, t)
      → (w : Uuid) → lib.HasJob s id w
      → ⊥
  -- Remove takes the job of an id out, and no other.
  pub after_remove :
      (id : ℕ) (s : lib.State) (j : ℕ) (w : Uuid)
      → lib.HasJob (lib.remove id s) j w ↔ (lib.HasJob s j w × (id ≢ j))

pub record CronEntry : Type 0 where
  pub entry_id : ℕ
  pub name : Text
  pub expr : Text

-- What the workflow's row holds of it for the scheduler.
pub record CronWorkflow : Type 0 where
  pub id : Uuid
  pub name : Text
  pub status : Text
  pub trigger_config : Object

abbrev expression_in : Option Value → Option Text
expression_in (some (string [])) = none
expression_in (some (string (c ∷ s))) = some (c ∷ s)
expression_in _ = none

-- The guards of register: the expression of a config that has cron enabled.
unfoldable pub cron_expression : Object → Option Text
unfolding get_field
cron_expression none = none
cron_expression (some f) = elim (get_field (codes "cron_enabled") f) [
  | some (bool true) ↦ expression_in (get_field (codes "cron_expression") f)
  | _ ↦ none
]

module _ (lib : CronLibrary) where
  -- `running`: the cron.Cron was started, and not stopped since.
  pub record CronScheduler : Type 0 where
    pub cron : lib.State
    pub entries : Uuid → Option CronEntry
    pub running : Bool

  -- NewCronScheduler
  unfoldable pub new_cron_scheduler : CronScheduler
  new_cron_scheduler = record { cron = lib.new; entries = λ _. none; running = false }

  abbrev pub add_job : Uuid → Text → Text → CronScheduler → CronScheduler
  add_job wf name expr s = elim (lib.add_func expr wf s.cron) [
    | none ↦ s
    | some (id, cron) ↦ record s {
      cron = cron;
      entries = update s.entries wf (some (record { entry_id = id; name = name; expr = expr }));
    }
  ]

  -- register
  unfoldable pub register : Uuid → Text → Object → CronScheduler → CronScheduler
  unfolding cron_expression
  register wf name config s = elim (cron_expression config) [
    | none ↦ s
    | some expr ↦ add_job wf name expr s
  ]

  -- Remove, and the first part of Sync.
  unfoldable pub remove : Uuid → CronScheduler → CronScheduler
  remove wf s = elim (s.entries wf) [
    | none ↦ s
    | some e ↦ record s { cron = lib.remove e.entry_id s.cron; entries = update s.entries wf none }
  ]

  -- Sync
  unfoldable pub sync : CronWorkflow → CronScheduler → CronScheduler
  unfolding register remove text_eq
  sync w s =
      let cleared = remove w.id s in
      if text_eq w.status (codes "archived")
      then cleared
      else register w.id w.name w.trigger_config cleared

  -- Start, from its loop over all workflows of the database on.
  unfoldable pub start : List CronWorkflow → CronScheduler → CronScheduler
  unfolding register
  start [] s = record s { running = true }
  start (w ∷ ws) s = start ws (register w.id w.name w.trigger_config s)

  -- Stop
  unfoldable pub stop : CronScheduler → CronScheduler
  stop s = record s { running = false }
