-- ===== src/Trigger/Samples.antt =====
-- A cron package that keeps its jobs in a list, for tests.
use react_go_workflow.Prelude.{
  ℕ, suc, ◌+◌, ◌≤◌, ◌≡◌, ◌≢◌, refl, sym, ap, ◌∙◌, subst, ◌↔◌, ◌⊎◌, inl, inr, Bool, true, false, not,
  none, some, List, [], ◌∷◌, codes, text_eq, if◌then◌else◌, ◌==◌, arith, Bool-cases,
}
use mathlib.Core.Option.{some_inj}
use react_go_workflow.Engine.Types.{Uuid}
use react_go_workflow.Trigger.Cron.{CronLibrary, CronLaws}

abbrev Jobs : Type 0
Jobs = List (ℕ × Uuid)

abbrev Has : Jobs → ℕ → Uuid → Type 0
Has [] j w = ⊥
Has ((i, v) ∷ l) j w = ((i ≡ j) × (v ≡ w)) ⊎ Has l j w

abbrev total : Jobs → ℕ
total [] = 0
total ((i, v) ∷ l) = i + total l

abbrev without : ℕ → Jobs → Jobs
without id [] = []
without id ((i, v) ∷ l) = if id == i then without id l else (i, v) ∷ without id l

abbrev pub listed : CronLibrary
listed = record {
  State = Jobs;
  new = [];
  parses = λ expr. not (text_eq expr (codes "bad"));
  add_func = λ expr wf l.
      if text_eq expr (codes "bad") then none else some (suc (total l), (suc (total l), wf) ∷ l);
  remove = without;
  HasJob = Has;
}

Has-total : (l : Jobs) (j : ℕ) (w : Uuid) → Has l j w → j ≤ total l
Has-total [] j w h = absurd h
Has-total ((i, v) ∷ l) j w (inl (e, f)) = omega (arith, e)
Has-total ((i, v) ∷ l) j w (inr h) = omega (arith, Has-total l j w h)

Has-without : (id : ℕ) (l : Jobs) (j : ℕ) (w : Uuid) → Has (without id l) j w → Has l j w × (id ≢ j)
Has-without id [] j w h = absurd h
Has-without id ((i, v) ∷ l) j w h = elim (Bool-cases (id == i)) [
  | inl hit ↦ let (k, n) = Has-without id l j w (rw (hit, without) at h) in (inr k, n)
  | inr other ↦ elim (rw (other, without) at h) [
    | inl (e, f) ↦ (inl (e, f), λ same. ground (arith, e, same, other))
    | inr k ↦ let (m, n) = Has-without id l j w k in (inr m, n)
  ]
]

without-Has : (id : ℕ) (l : Jobs) (j : ℕ) (w : Uuid) → Has l j w → id ≢ j → Has (without id l) j w
without-Has id [] j w h n = absurd h
without-Has id ((i, v) ∷ l) j w h n = elim (Bool-cases (id == i)) [
  | inl hit ↦
      rw (hit, without)
        (elim h [
          | inl (e, f) ↦ absurd (n (ground (arith, e, hit)))
          | inr k ↦ without-Has id l j w k n
        ])
  | inr other ↦
      rw (other, without) (elim h [ inl e ↦ inl e | inr k ↦ inr (without-Has id l j w k n) ])
]

added : (b : Bool) (x y : ℕ × Jobs) → (if b then none else some x) ≡ some y → x ≡ y
added true x y e = absurd cc
added false x y e = some_inj.0 e

pub listed-laws : CronLaws listed
listed-laws = record {
  starts_empty = λ j w h. h;
  accepts = λ expr wf s good. elim (Bool-cases (text_eq expr (codes "bad"))) [
    | inl bad ↦ absurd (true_false (sym good ∙ ap not bad))
    | inr fine ↦ (suc (total s), (suc (total s), wf) ∷ s, rw fine refl)
  ];
  after_add = λ expr wf s t id e j w.
      let is = added (text_eq expr (codes "bad")) _ (id, t) e in
      subst (λ (y : ℕ × Jobs). Has y.1 j w ↔ (Has s j w ⊎ ((y.0 ≡ j) × (wf ≡ w)))) is
        (
          (λ h. elim h [ inl new ↦ inr new | inr old ↦ inl old ]),
          (λ h. elim h [ inl old ↦ inr old | inr new ↦ inl new ]),
        );
  new_id = λ expr wf s t id e w h.
      let is = added (text_eq expr (codes "bad")) _ (id, t) e in
      omega (arith, Has-total s id w h, ap (λ (y : ℕ × Jobs). y.0) is);
  after_remove = λ id s j w. (Has-without id s j w, λ (h, n). without-Has id s j w h n);
}
  where
    true_false : true ≡ false → ⊥
    true_false q = absurd cc
