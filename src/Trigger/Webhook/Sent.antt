-- ===== src/Trigger/Webhook/Sent.antt =====
-- What WriteJSON makes of a status code and a body of a webhook_response step.
use react_go_workflow.Prelude.{
  ℕ, ℤ, pos, negsuc, ◌≤◌, ◌<◌, ◌≢◌, ◌⊎◌, inl, inr, ltb, ◌==◌, Bool-cases, arith, ◌≡◌, refl, Option,
  none, some, Text,
}
use react_go_workflow.Value.{Value, null, nil_object, bool, string, object, array, int, float}
use react_go_workflow.Engine.Types.{Uuid, Status}
use react_go_workflow.Trigger.Webhook.{
  custom_response, WebhookResponse, custom, custom_status, informed, panics, parsed_body,
  custom_body,
}

module _ (int_of : ℕ → ℤ) (unmarshal : Text → Option Value) where
  -- What a body is sent as: a text in JSON as what it says, without a body the id and the status.
  pub data IsSent (id : Uuid) (status : Status) : Value → ℤ → WebhookResponse → Type 0 where
    without_body : (code : ℤ) → IsSent id status null code (custom_status code id status)
    in_json :
        (s : Text) (v : Value) (code : ℤ)
        → unmarshal s ≡ some v
        → IsSent id status (string s) code (custom code v)
    as_text :
        (s : Text) (code : ℤ)
        → unmarshal s ≡ none
        → IsSent id status (string s) code (custom code (string s))
    as_it_is :
        (v : Value) (code : ℤ)
        → v ≢ null
        → ((s : Text) → v ≢ string s)
        → IsSent id status v code (custom code v)

  custom_body-IsSent :
      (code : ℤ) (id : Uuid) (status : Status) (v : Value)
      → IsSent id status v code (custom_body int_of unmarshal code id status (some v))
  custom_body-IsSent code id status null = without_body code
  custom_body-IsSent code id status (string s) = go (unmarshal s) refl
    where
      go :
          (o : Option Value)
          → unmarshal s ≡ o
          → IsSent id status
              (string s)
              code
              (custom code (parsed_body int_of unmarshal (string s) o))
      go none is = as_text s code is
      go (some v) is = in_json s v code is
  custom_body-IsSent code id status nil_object = as_it_is nil_object code (λ e. cc) (λ s e. cc)
  custom_body-IsSent code id status (bool b) = as_it_is (bool b) code (λ e. cc) (λ s e. cc)
  custom_body-IsSent code id status (int n) = as_it_is (int n) code (λ e. cc) (λ s e. cc)
  custom_body-IsSent code id status (float x) = as_it_is (float x) code (λ e. cc) (λ s e. cc)
  custom_body-IsSent code id status (object f) = as_it_is (object f) code (λ e. cc) (λ s e. cc)
  custom_body-IsSent code id status (array l) = as_it_is (array l) code (λ e. cc) (λ s e. cc)

  -- The answers to a status code and a body.
  pub data Sent (id : Uuid) (status : Status) (body : Value) : ℤ → WebhookResponse → Type 0 where
    with_code :
        (n : ℕ) (r : WebhookResponse)
        → (200 ≤ n) ⊎ (n ≡ 101)
        → n < 1000
        → IsSent id status body (pos n) r
        → Sent id status body (pos n) r
    with_200 :
        (n : ℕ) (r : WebhookResponse)
        → 100 ≤ n
        → n < 200
        → n ≢ 101
        → IsSent id status body (pos 200) r
        → Sent id status body (pos n) (informed (pos n) r)
    too_small : (n : ℕ) → n < 100 → Sent id status body (pos n) panics
    too_large : (n : ℕ) → 1000 ≤ n → Sent id status body (pos n) panics
    negative : (n : ℕ) → Sent id status body (negsuc n) panics

  pub custom_response-Sent :
      (code : ℤ) (id : Uuid) (status : Status) (v : Value)
      → Sent id status v code (custom_response int_of unmarshal code id status (some v))
  custom_response-Sent (negsuc n) id status v = negative n
  custom_response-Sent (pos n) id status v = elim (Bool-cases (ltb n 100)) [
    | inl small ↦ rw small (too_small n (ground (arith, small)))
    | inr not_small ↦ elim (Bool-cases (ltb 999 n)) [
      | inl large ↦ rw (not_small, large) (too_large n (ground (arith, large)))
      | inr not_large ↦ elim (Bool-cases (ltb n 200)) [
        | inr final ↦
            rw (not_small, not_large, final)
              (with_code n _ (inl (ground (arith, final))) (ground (arith, not_large))
                (custom_body-IsSent (pos n) id status v))
        | inl below ↦ elim (Bool-cases (n == 101)) [
          | inl is ↦
              rw (not_small, not_large, below, is)
                (with_code n _ (inr (ground (arith, is))) (ground (arith, not_large))
                  (custom_body-IsSent (pos n) id status v))
          | inr other ↦
              rw (not_small, not_large, below, other)
                (with_200 n _ (ground (arith, not_small)) (ground (arith, below))
                  (ground (arith, other)) (custom_body-IsSent (pos 200) id status v))
        ]
      ]
    ]
  ]
