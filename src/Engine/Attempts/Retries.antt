-- ===== src/Engine/Attempts/Retries.antt =====
-- The retry loop of executeStep: which attempt decides.
use react_go_workflow.Prelude.{
  ℕ, zero, suc, ◌+◌, ◌<◌, ◌≡◌, refl, sym, ap, ◌∙◌, ◌^◌, pos, negsuc, suc_ℤ, wrapping_suc, rounds,
  none, Text, arith, subst,
}
use react_go_workflow.Value.{Object}
use react_go_workflow.Engine.Errors.{Error, Result, ok, err}
use react_go_workflow.Engine.Context.{ExecContext}
use react_go_workflow.Engine.Interpolate.{resolve_map}
use react_go_workflow.Engine.Types.{Step, StepRunner, Registry, get_runner}
use react_go_workflow.Engine.Attempts.{
  Outcome, type_of, step_timeout, try_runs, after_run, max_attempts, finish_step, execute_step,
}

module _ (s : Step) (runner : StepRunner) (config input : Object) where
  -- What the runner answers to an attempt.
  abbrev pub answer : ℕ → Result Object
  answer attempt =
      runner (record { step = s.id; attempt = attempt; timeout = step_timeout s }) config input

  -- The attempts from one on, of a number of attempts: the first that succeeds decides, and else the last.
  pub data Tried (left attempt : ℕ) (r : Result Object) : Type 0 where
    succeeded :
        (k : ℕ) (output : Object)
        → k < left
        → ((i : ℕ) → i < k → (e : Error) × (answer (attempt + i) ≡ err e))
        → answer (attempt + k) ≡ ok output
        → r ≡ ok output
        → Tried left attempt r
    all_failed :
        ((i : ℕ) → i < left → (e : Error) × (answer (attempt + i) ≡ err e))
        → (last : ℕ) → suc last ≡ left
        → answer (attempt + last) ≡ r
        → Tried left attempt r

  moved : (i j : ℕ) (r : Result Object) → i ≡ j → answer i ≡ r → answer j ≡ r
  moved i j r e = subst (λ k. answer k ≡ r) e

  abbrev Failed : ℕ → ℕ → Type 0
  Failed attempt i = (e : Error) × (answer (attempt + i) ≡ err e)

  -- One more failure in front.
  Failed-first :
      (attempt k : ℕ) (e : Error)
      → answer attempt ≡ err e
      → ((i : ℕ) → i < k → Failed (suc attempt) i)
      → (i : ℕ) → i < suc k
      → Failed attempt i
  Failed-first attempt k e first later zero b =
      (e, moved attempt (attempt + 0) (err e) (omega arith) first)
  Failed-first attempt k e first later (suc i) b =
      let (x, is) = later i (omega arith) in
      (x, moved (suc attempt + i) (attempt + suc i) (err x) (omega arith) is)

  shift :
      (left attempt : ℕ) (e : Error) (r : Result Object)
      → answer attempt ≡ err e
      → Tried left (suc attempt) r
      → Tried (suc left) attempt r
  shift left attempt e r first (succeeded k output b failed there is) =
      succeeded (suc k) output (omega arith) (Failed-first attempt k e first failed)
        (moved (suc attempt + k) (attempt + suc k) (ok output) (omega arith) there) is
  shift left attempt e r first (all_failed failed last all there) =
      all_failed (Failed-first attempt left e first failed) (suc last) (ap suc all)
        (moved (suc attempt + last) (attempt + suc last) r (omega arith) there)

  after_run-Tried :
      (left attempt : ℕ) (a : Result Object) (rest : Outcome)
      → answer attempt ≡ a
      → ((m : ℕ) → left ≡ suc m → Tried left (suc attempt) rest.result)
      → Tried (suc left) attempt (after_run s runner config input left attempt a rest).result
  after_run-Tried left attempt (ok o) rest is later =
      succeeded 0 o (omega arith) (λ i b. absurd (omega arith))
        (moved attempt (attempt + 0) (ok o) (omega arith) is) refl
  after_run-Tried zero attempt (err e) rest is later =
      all_failed (Failed-first attempt 0 e is (λ i b. absurd (omega arith))) 0 refl
        (moved attempt (attempt + 0) (err e) (omega arith) is)
  after_run-Tried (suc left) attempt (err e) rest is later =
      shift (suc left) attempt e rest.result is (later left refl)

  pub try_runs-Tried :
      (left attempt : ℕ)
      → Tried (suc left) attempt (try_runs s runner config input (suc left) attempt).result
  unfolding try_runs
  try_runs-Tried zero attempt = after_run-Tried zero attempt _ _ refl (λ m e. absurd cc)
  try_runs-Tried (suc left) attempt =
      after_run-Tried (suc left) attempt _ _ refl (λ m e. try_runs-Tried left (suc attempt))

rounds-wrapping : (n : ℕ) → n + 2 < 2 ^ 63 → rounds (wrapping_suc (pos n)) ≡ suc n
rounds-wrapping n small = ground arith

finish_step-result : (s : Step) (r : Result Object) → (finish_step s r).result ≡ r
finish_step-result s (ok o) = refl
finish_step-result s (err e) = refl

module _ (format_float : ℕ → Text) (registry : Registry) (c : ExecContext) (s : Step)
    (runner : StepRunner) (config input : Object)
    (found : get_runner (type_of s) registry ≡ ok runner)
    (configured : resolve_map format_float c s.config ≡ ok config)
    (mapped : resolve_map format_float c s.input_mapping ≡ ok input) where
  execute_step-result :
      (execute_step format_float registry c s).result
      ≡ (try_runs s runner config input (rounds (max_attempts s)) 1).result
  unfolding execute_step
  execute_step-result = rw (found, configured, mapped) (finish_step-result s _)

  with_rounds :
      (k : ℕ)
      → rounds (max_attempts s) ≡ k
      → (try_runs s runner config input (rounds (max_attempts s)) 1).result
        ≡ (try_runs s runner config input k 1).result
  with_rounds k = ap (λ m. (try_runs s runner config input m 1).result)

  -- A step whose runner is registered and whose config and input mapping resolve, with a retry count of
  -- n, where n + 2 is below 2 ^ 63: its result is the output of the first of n + 1 attempts that
  -- succeeds, and the error of the last of them where all fail.
  pub execute_step-Tried :
      (n : ℕ)
      → s.retry_count ≡ pos n
      → n + 2 < 2 ^ 63
      → Tried s runner config input (suc n) 1 (execute_step format_float registry c s).result
  execute_step-Tried n count small =
      subst (Tried s runner config input (suc n) 1)
        (sym (
          execute_step-result
          ∙ with_rounds (suc n)
              (ap (λ z. rounds (wrapping_suc z)) count ∙ rounds-wrapping n small)))
        (try_runs-Tried s runner config input n 1)

  -- A step whose runner is registered and whose config and input mapping resolve, with a retry count below
  -- 0: whatever its runner would answer, its result is a nil output and no error.
  pub execute_step-negative :
      (n : ℕ) → s.retry_count ≡ negsuc n → (execute_step format_float registry c s).result ≡ ok none
  execute_step-negative n count =
      execute_step-result
      ∙ with_rounds 0 (ap (λ z. rounds (wrapping_suc z)) count ∙ none_left n)
      ∙ (unfold try_runs in refl)
    where
      none_left : (n : ℕ) → rounds (suc_ℤ (negsuc n)) ≡ 0
      none_left zero = refl
      none_left (suc n) = refl
