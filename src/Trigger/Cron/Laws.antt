-- ===== src/Trigger/Cron/Laws.antt =====
-- Every job is that of an entry, and Sync leaves a workflow with the one job that its row asks for.
use react_go_workflow.Prelude.{
  ℕ, ◌≡◌, refl, sym, ap, ◌∙◌, subst, ◌⊎◌, inl, inr, true, Option, none, some, Text, update, ◌==◌,
  ==_iff, ==_refl, arith, Bool-cases, Option-cases,
}
use mathlib.Core.Option.{some_inj}
use react_go_workflow.Value.{Object}
use react_go_workflow.Engine.Types.{Uuid}
use react_go_workflow.Trigger.Cron.{
  CronLibrary, CronLaws, CronEntry, cron_expression, CronScheduler, add_job, new_cron_scheduler,
  register, remove,
}

module _ (m : Uuid → Option CronEntry) (wf w : Uuid) (f : CronEntry) where
  removed_entry : update m wf none w ≡ some f → (wf ≡ w → ⊥) × (m w ≡ some f)
  removed_entry h = elim (Bool-cases (wf == w)) [
    | inl hit ↦ absurd (none_some (rw (hit, update) at h))
    | inr other ↦ ((λ e. ground (arith, e, other)), (rw (other, update) at h))
  ]
    where
      none_some : none ≡ some f → ⊥
      none_some q = absurd cc

  added_entry :
      (x : CronEntry)
      → update m wf (some x) w ≡ some f
      → ((wf ≡ w) × (x ≡ f)) ⊎ ((wf ≡ w → ⊥) × (m w ≡ some f))
  added_entry x h = elim (Bool-cases (wf == w)) [
    | inl hit ↦ inl ((==_iff wf w).0 hit, some_inj.0 (rw (hit, update) at h))
    | inr other ↦ inr ((λ e. ground (arith, e, other)), (rw (other, update) at h))
  ]

pub update_other :
    (m : Uuid → Option CronEntry) (wf w : Uuid) (o : Option CronEntry)
    → (wf ≡ w → ⊥)
    → update m wf o w ≡ m w
update_other m wf w o n = elim (Bool-cases (wf == w)) [
  | inl hit ↦ absurd (n ((==_iff wf w).0 hit))
  | inr other ↦ rw (other, update) refl
]

pub clash : {e : CronEntry} {o : Option CronEntry} → o ≡ none → o ≡ some e → ⊥
clash p q = absurd cc

module _ (lib : CronLibrary) where
  -- The jobs of the cron package are those of the entries: a workflow has one job at most.
  pub record IsTracked (s : CronScheduler lib) : Type 0 where
    pub job_of : (w : Uuid) (e : CronEntry) → s.entries w ≡ some e → lib.HasJob s.cron e.entry_id w
    pub entry_of :
        (j : ℕ) (w : Uuid)
        → lib.HasJob s.cron j w
        → (e : CronEntry) × (s.entries w ≡ some e) × (e.entry_id ≡ j)
    pub one_id :
        (w v : Uuid) (e f : CronEntry)
        → s.entries w ≡ some e
        → s.entries v ≡ some f
        → e.entry_id ≡ f.entry_id
        → w ≡ v

  -- What register does for a workflow that has no entry.
  pub record Registered (wf : Uuid) (name : Text) (config : Object) (s t : CronScheduler lib)
      : Type 0 where
    pub tracked : IsTracked t
    -- An entry of the workflow is the one that its config asks for.
    pub asked :
        (e : CronEntry)
        → t.entries wf ≡ some e
        → (cron_expression config ≡ some e.expr) × (e.name ≡ name)
    -- A config with an expression that parses gets one.
    pub granted :
        (expr : Text)
        → cron_expression config ≡ some expr
        → lib.parses expr ≡ true
        → (e : CronEntry) × (t.entries wf ≡ some e)
    pub others : (v : Uuid) → (wf ≡ v → ⊥) → t.entries v ≡ s.entries v

module _ (lib : CronLibrary) (laws : CronLaws lib) where
  pub new_cron_scheduler-IsTracked : IsTracked lib (new_cron_scheduler lib)
  unfolding new_cron_scheduler
  new_cron_scheduler-IsTracked = record {
    job_of = λ w e h. absurd cc;
    entry_of = λ j w h. absurd (laws.starts_empty j w h);
    one_id = λ w v e f h. absurd cc;
  }

  module _ (wf : Uuid) (s : CronScheduler lib) (h : IsTracked lib s) where
    taken_out :
        (e : CronEntry)
        → s.entries wf ≡ some e
        → IsTracked lib
            (record s { cron = lib.remove e.entry_id s.cron; entries = update s.entries wf none })
    taken_out e there = record {
      job_of = λ w f k.
          let (n, old) = removed_entry s.entries wf w f k in
          (laws.after_remove e.entry_id s.cron f.entry_id w).1
            (h.job_of w f old, λ same. n (h.one_id wf w e f there old same));
      entry_of = λ j w k.
          let (old, n) = (laws.after_remove e.entry_id s.cron j w).0 k in
          let (f, is, id) = h.entry_of j w old in
          let other : wf ≡ w → ⊥ = λ same.
            n (ap (λ x. x.entry_id) (some_inj.0 (sym there ∙ ap s.entries same ∙ is)) ∙ id) in
          (f, update_other s.entries wf w none other ∙ is, id);
      one_id = λ w v f f' k k'.
          h.one_id w v f f' (removed_entry s.entries wf w f k).1
            (removed_entry s.entries wf v f' k').1;
    }

    -- Remove leaves the workflow without an entry.
    pub remove-IsTracked : IsTracked lib (remove lib wf s) × ((remove lib wf s).entries wf ≡ none)
    unfolding remove
    remove-IsTracked = elim (Option-cases (s.entries wf)) [
      | inl absent ↦ rw (absent, remove) (h, absent)
      | inr (e, there) ↦ rw (there, remove) (taken_out e there, rw (==_refl wf) refl)
    ]

    -- The entry of a job that AddFunc has just added.
    put_in :
        (expr name : Text) (id : ℕ) (t : lib.State)
        → s.entries wf ≡ none
        → lib.add_func expr wf s.cron ≡ some (id, t)
        → IsTracked lib (record s {
          cron = t;
          entries = update s.entries wf (some (record { entry_id = id; name = name; expr = expr }));
        })
    put_in expr name id t absent added = record {
      job_of = λ w f k. elim (added_entry s.entries wf w f x k) [
        | inl (same, is) ↦
            (laws.after_add expr wf s.cron t id added f.entry_id w).1
              (inr (ap (λ y. y.entry_id) is, same))
        | inr (n, old) ↦
            (laws.after_add expr wf s.cron t id added f.entry_id w).1 (inl (h.job_of w f old))
      ];
      entry_of = λ j w k. elim ((laws.after_add expr wf s.cron t id added j w).0 k) [
        | inl old ↦
            let (f, is, same_id) = h.entry_of j w old in
            (
              f,
              update_other s.entries wf w (some x) (λ same. clash absent (ap s.entries same ∙ is))
                  ∙ is,
              same_id,
            )
        | inr (same_id, same) ↦ (
          x,
          subst (λ v. update s.entries wf (some x) v ≡ some x) same (rw (==_refl wf) refl),
          same_id,
        )
      ];
      one_id = λ w v f f' k k' same_id. elim (added_entry s.entries wf w f x k) [
        | inl (same, is) ↦ elim (added_entry s.entries wf v f' x k') [
          | inl (same', is') ↦ sym same ∙ same'
          | inr (n, old) ↦ absurd (used v f' old (ap (λ y. y.entry_id) is ∙ same_id))
        ]
        | inr (n, old) ↦ elim (added_entry s.entries wf v f' x k') [
          | inl (same', is') ↦ absurd (used w f old (ap (λ y. y.entry_id) is' ∙ sym same_id))
          | inr (n', old') ↦ h.one_id w v f f' old old' same_id
        ]
      ];
    }
      where
        x : CronEntry
        x = record { entry_id = id; name = name; expr = expr }

        used : (v : Uuid) (f : CronEntry) → s.entries v ≡ some f → id ≡ f.entry_id → ⊥
        used v f old same =
            laws.new_id expr wf s.cron t id added v
              (subst (λ j. lib.HasJob s.cron j v) (sym same) (h.job_of v f old))

  module _ (wf : Uuid) (name : Text) (config : Object) (s : CronScheduler lib) (h : IsTracked lib s)
      (absent : s.entries wf ≡ none) where
    nothing_added :
        ((expr : Text) → cron_expression config ≡ some expr → lib.parses expr ≡ true → ⊥)
        → Registered lib wf name config s s
    nothing_added refused = record {
      tracked = h;
      asked = λ e there. absurd (clash absent there);
      granted = λ expr is parses. absurd (refused expr is parses);
      others = λ v n. refl;
    }

    pub register-Registered : Registered lib wf name config s (register lib wf name config s)
    unfolding register
    register-Registered = elim (Option-cases (cron_expression config)) [
      | inl off ↦ rw (off, register) (nothing_added (λ expr is parses. off_on (sym off ∙ is)))
      | inr (expr, on) ↦ elim (Option-cases (lib.add_func expr wf s.cron)) [
        | inl failed ↦
            rw (on, failed, register, add_job)
              (nothing_added (λ expr' is parses.
                let (id, t, added) = laws.accepts expr' wf s.cron parses in
                failed_added (
                  sym failed
                  ∙ ap (λ x. lib.add_func x wf s.cron) (some_inj.0 (sym on ∙ is))
                  ∙ added)))
        | inr ((id, t), added) ↦
            let x : CronEntry = record { entry_id = id; name = name; expr = expr } in
            rw (on, added, register, add_job)
              (record {
                tracked = put_in wf s h expr name id t absent added;
                asked = λ e there. elim (added_entry s.entries wf wf e x there) [
                  | inl (same, is) ↦ (on ∙ ap (λ y. some y.expr) is, ap (λ y. y.name) (sym is))
                  | inr (n, old) ↦ absurd (n refl)
                ];
                granted = λ expr' is parses. (x, rw (==_refl wf) refl);
                others = λ v n. update_other s.entries wf v (some x) n;
              })
      ]
    ]
      where
        off_on : {expr : Text} → none ≡ some expr → ⊥
        off_on q = absurd cc

        failed_added : {y : ℕ × lib.State} → none ≡ some y → ⊥
        failed_added q = absurd cc
