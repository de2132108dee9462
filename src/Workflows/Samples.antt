-- ===== src/Workflows/Samples.antt =====
-- A database in memory, and small tables, for tests.
use mathlib.Core.List.Perm
use mathlib.Core.List.{Perm}
use react_go_workflow.Prelude.{
  pos, ◌≡◌, refl, sym, ap, ◌∙◌, subst, Bool, true, false, inl, inr, Option, none, some, List, [],
  ◌∷◌, map, keep, In, ◌==◌, ==_iff, if◌then◌else◌, codes,
}
use react_go_workflow.Engine.Types.{Uuid, no_backoff, normal}
use react_go_workflow.Workflows.Tables.{
  Tables, WorkflowRow, CanvasStep, CanvasEdge, CanvasNote, Full, read_step, read_edge, read_note,
  active, allow,
}
use react_go_workflow.Workflows.Database.{
  update_workflow, apply, Database, DatabaseLaws, Reply, ok, err, not_found,
}
use react_go_workflow.Workflows.Repository.{Canvas, write_step, write_edge, write_note}
use react_go_workflow.Workflows.Repository.Keys.{ChecksKeys}

unfoldable pub find : Uuid → List WorkflowRow → Option WorkflowRow
find id [] = none
find id (w ∷ l) = if w.id == id then some w else find id l

abbrev get_or : {A : Type 0} → A → Option A → A
get_or d none = d
get_or d (some a) = a

pub find-In :
    (id : Uuid) (l : List WorkflowRow) (w : WorkflowRow) → find id l ≡ some w → In w l × (w.id ≡ id)
unfolding find
find-In id [] w h = cc
find-In id (x ∷ l) w h = go (x.id == id) refl (find-In id l w) h
  where
    go :
        (b : Bool)
        → (x.id == id) ≡ b
        → (find id l ≡ some w → In w l × (w.id ≡ id))
        → (if b then some x else find id l) ≡ some w
        → In w (x ∷ l) × (w.id ≡ id)
    go true same later e =
        let here : x ≡ w = ap (get_or x) e in
        (inl here, ap (λ z. z.id) (sym here) ∙ (==_iff x.id id).0 same)
    go false other later e = (inr (later e).0, (later e).1)

pub record Transaction : Type 0 where
  pub base : Tables
  pub now : Tables

abbrev full_of : Uuid → Tables → WorkflowRow → Full
full_of wf t row = record {
  workflow = row;
  steps = map read_step (keep (λ r. r.workflow_id == wf) t.steps);
  edges = map read_edge (keep (λ r. r.workflow_id == wf) t.edges);
  notes = map read_note (keep (λ r. r.workflow_id == wf) t.canvas_notes);
}

abbrev get_full : Uuid → Tables → Option WorkflowRow → Reply Full
get_full wf t none = err not_found
get_full wf t (some row) = ok (full_of wf t row)

abbrev update_found :
    Uuid → (WorkflowRow → WorkflowRow) → Tables → Option WorkflowRow → Reply (WorkflowRow × Tables)
update_found wf change t none = err not_found
update_found wf change t (some row) = ok (change row, apply (update_workflow wf change) t)

abbrev pub memory : Database
memory = record {
  State = Tables;
  Tx = Transaction;
  begin = λ s. ok (record { base = s; now = s });
  exec = λ q t. ok (record { base = t.base; now = apply q t.now });
  commit = λ t. (ok tt, t.now);
  rollback = λ t. t.base;
  save = λ q s. ok (apply q s);
  update_row = λ wf change s. update_found wf change s (find wf s.workflows);
  get_full = λ wf s. get_full wf s (find wf s.workflows);
}

abbrev replied : {A : Type 0} → A → Reply A → A
replied d (ok a) = a
replied d (err e) = d

ok-injective : {A : Type 0} (a b : A) → ◌≡◌ {A = Reply A} (ok a) (ok b) → a ≡ b
ok-injective a b h = ap (replied a) h

gets_row :
    (wf : Uuid) (s : Tables) (f : Full)
    → get_full wf s (find wf s.workflows) ≡ ok f
    → In f.workflow s.workflows
      × (f.workflow.id ≡ wf)
      × Perm f.steps (map read_step (keep (λ r. r.workflow_id == wf) s.steps))
      × Perm f.edges (map read_edge (keep (λ r. r.workflow_id == wf) s.edges))
      × Perm f.notes (map read_note (keep (λ r. r.workflow_id == wf) s.canvas_notes))
gets_row wf s f = go (find wf s.workflows) refl
  where
    go :
        (o : Option WorkflowRow)
        → find wf s.workflows ≡ o
        → get_full wf s o ≡ ok f
        → In f.workflow s.workflows
          × (f.workflow.id ≡ wf)
          × Perm f.steps (map read_step (keep (λ r. r.workflow_id == wf) s.steps))
          × Perm f.edges (map read_edge (keep (λ r. r.workflow_id == wf) s.edges))
          × Perm f.notes (map read_note (keep (λ r. r.workflow_id == wf) s.canvas_notes))
    go none is h = absurd (cc)
    go (some row) is h =
        subst
          (λ (g : Full).
            In g.workflow s.workflows
            × (g.workflow.id ≡ wf)
            × Perm g.steps (map read_step (keep (λ r. r.workflow_id == wf) s.steps))
            × Perm g.edges (map read_edge (keep (λ r. r.workflow_id == wf) s.edges))
            × Perm g.notes (map read_note (keep (λ r. r.workflow_id == wf) s.canvas_notes)))
          (ok-injective (full_of wf s row) f h)
          (
            (find-In wf s.workflows row is).0,
            (find-In wf s.workflows row is).1,
            Perm.refl _,
            Perm.refl _,
            Perm.refl _,
          )

updates_row :
    (wf : Uuid) (change : WorkflowRow → WorkflowRow) (s t : Tables) (row : WorkflowRow)
    → update_found wf change s (find wf s.workflows) ≡ ok (row, t)
    → (t ≡ apply (update_workflow wf change) s)
      × ((old : WorkflowRow) × In old s.workflows × (old.id ≡ wf) × (row ≡ change old))
updates_row wf change s t row = go (find wf s.workflows) refl
  where
    go :
        (o : Option WorkflowRow)
        → find wf s.workflows ≡ o
        → update_found wf change s o ≡ ok (row, t)
        → (t ≡ apply (update_workflow wf change) s)
          × ((old : WorkflowRow) × In old s.workflows × (old.id ≡ wf) × (row ≡ change old))
    go none is h = absurd (cc)
    go (some old) is h =
        let same = ok-injective (change old, apply (update_workflow wf change) s) (row, t) h in
        (
          ap (λ p. p.1) (sym same),
          (
            old,
            (find-In wf s.workflows old is).0,
            (find-In wf s.workflows old is).1,
            ap (λ p. p.0) (sym same),
          ),
        )

unfoldable pub memory_laws : DatabaseLaws memory
unfolding ok-injective updates_row gets_row
memory_laws = record {
  tables = λ s. s;
  seen = λ t. t.now;
  base = λ t. t.base;
  begins = λ s t h.
      let same = ok-injective (record { base = s; now = s }) t h in
      (ap (λ u. u.now) (sym same), ap (λ u. u.base) (sym same));
  executes = λ q t u h.
      let same = ok-injective (record { base = t.base; now = apply q t.now }) u h in
      (ap (λ u. u.now) (sym same), ap (λ u. u.base) (sym same));
  commits = λ t h. refl;
  commit_fails = λ t. inl refl;
  rolls_back = λ t. refl;
  gets = gets_row;
  updates = updates_row;
  saves = λ q s t h. sym (ok-injective (apply q s) t h);
}

pub memory_keys : ChecksKeys memory memory_laws
unfolding memory_laws
memory_keys = record {
  begin_checks = λ s. tt;
  exec_checks = λ q t d h. tt;
  commit_checks = λ t. tt;
}

-- Two workflows: 1 with steps 11 and 12, an edge, an execution and a setting, and 2 with one step.
abbrev pub row : Uuid → WorkflowRow
row id = record {
  id = id;
  name = codes "w";
  description = none;
  status = active;
  trigger_config = none;
  input_schema = none;
  output_schema = none;
  webhook_slug = none;
  concurrency = allow;
  timeout_seconds = none;
}

abbrev pub canvas_step : Uuid → CanvasStep
canvas_step id = record {
  id = id;
  step_type_id = 7;
  name = codes "s";
  description = codes "";
  config = none;
  position_x = 0;
  position_y = 0;
  input_mapping = none;
  timeout_seconds = pos 30;
  retry_count = pos 0;
  retry_backoff = no_backoff;
  retry_delay_ms = pos 1000;
}

abbrev pub canvas_edge : Uuid → Uuid → Uuid → CanvasEdge
canvas_edge id source target = record {
  id = id;
  source_step_id = source;
  target_step_id = target;
  source_output = codes "true";
  target_input = codes "";
  edge_type = normal;
  condition = none;
}

abbrev pub canvas_note : Uuid → CanvasNote
canvas_note id = record {
  id = id;
  content = codes "n";
  color = codes "yellow";
  position_x = 0;
  position_y = 0;
  width = 0;
  height = 0;
}

abbrev pub canvas : Uuid → Uuid → Canvas
canvas a b = record {
  steps = canvas_step a ∷ canvas_step b ∷ [];
  edges = canvas_edge 60 a b ∷ [];
  notes = canvas_note 61 ∷ [];
}

abbrev pub sample : Tables
sample = record {
  workflows = row 1 ∷ row 2 ∷ [];
  steps =
      write_step 1 (canvas_step 11)
      ∷ write_step 1 (canvas_step 12)
      ∷ write_step 2 (canvas_step 21)
      ∷ [];
  edges = write_edge 1 (canvas_edge 31 11 12) ∷ [];
  canvas_notes = write_note 2 (canvas_note 41) ∷ [];
  workflow_versions = [];
  workflow_executions = record { id = 51; workflow_id = 1; workflow_version_id = none } ∷ [];
  step_executions = record { id = 52; workflow_execution_id = 51; step_id = 11 } ∷ [];
  notification_settings = [];
  notifications = record { id = 53; workflow_execution_id = 51; workflow_id = 1 } ∷ [];
}
