-- ===== src/Retry/Ladder.antt =====
-- The attempts of one message: each failed delivery that is retried comes back from its delay queue,
-- until a failure is terminal.
use rabbitkit.Prelude.{
  ℕ, zero, suc, ◌+◌, ◌≤◌, ◌<◌, ◌≡◌, refl, inl, inr, Bool, true, false, Option, none, some,
  Option-cases, List, arith, Text,
}
use rabbitkit.Failure.Headers.{Headers}
use rabbitkit.Failure.Classify.{Raised, Opinion, ErrorSeverity}
use rabbitkit.Failure.Sanitizer.{ErrorSanitizer}
use rabbitkit.Failure.Copy.{Delivery, MessageEnvelope, FailureCategory}
use rabbitkit.Retry.{RetryConfig, Decision, get_retry_count, terminal_of, decide}
use rabbitkit.Retry.Copies.{Python, build_retry_envelope}

-- One attempt: what Python's functions return, and the exception of the handler.
pub record Attempt : Type 0 where
  pub python : Python
  pub exception : Raised

pub retry_copy :
    RetryConfig
    → List (Raised → Opinion)
    → ErrorSanitizer
    → Attempt
    → Delivery
    → Decision
    → Option FailureCategory
    → Option MessageEnvelope
retry_copy c predicates sanitizer a d decision (some category) = none
retry_copy c predicates sanitizer a d decision none =
    build_retry_envelope a.python c sanitizer d decision.retry_count a.exception decision.classified

module _ (c : RetryConfig) (predicates : List (Raised → Opinion)) (sanitizer : ErrorSanitizer)
    (attempt : ℕ → Attempt) (redeliver : MessageEnvelope → Delivery) where
  -- The delivery that follows the failure of attempt `k`, if it is retried.
  pub next_copy : ℕ → Delivery → Option MessageEnvelope
  unfolding retry_copy
  next_copy k d =
      let a = attempt k in
      let decision =
        decide a.python.fromisoformat c predicates a.exception d.headers a.python.now in
      retry_copy c predicates sanitizer a d decision decision.terminal

  -- How often the handler runs from attempt `k` on, and whether that ends within the fuel.
  pub executions : ℕ → ℕ → Delivery → ℕ × Bool
  unfolding next_copy
  executions zero k d = (0, false)
  executions (suc fuel) k d = elim (next_copy k d) [
    | none ↦ (1, true)
    | some e ↦ let (n, ended) = executions fuel (suc k) (redeliver e) in (suc n, ended)
  ]

  abbrev pub count : Delivery → ℕ
  count d = get_retry_count c d.headers

  count_le : (d : Delivery) → count d ≤ c.max_retries
  unfolding get_retry_count
  count_le d = omega arith

  terminal_of-count :
      (fromisoformat : Text → Option ℕ) (severity : ErrorSeverity) (n : ℕ) (h : Headers) (now : ℕ)
      → terminal_of fromisoformat c severity n h now ≡ none
      → n < c.max_retries
  unfolding terminal_of
  terminal_of-count fromisoformat severity n h now e = ground arith

  retry_copy-none :
      (a : Attempt) (d : Delivery) (decision : Decision) (terminal : Option FailureCategory)
      (e : MessageEnvelope)
      → retry_copy c predicates sanitizer a d decision terminal ≡ some e
      → (terminal ≡ none)
        × (build_retry_envelope a.python c sanitizer d decision.retry_count a.exception
              decision.classified
            ≡ some e)
  unfolding retry_copy
  retry_copy-none a d decision none e h = (refl, h)
  retry_copy-none a d decision (some category) e h = absurd (ground arith)

  -- A delivery that is retried has retries left.
  pub next_copy-count :
      (k : ℕ) (d : Delivery) (e : MessageEnvelope)
      → next_copy k d ≡ some e
      → count d < c.max_retries
  unfolding next_copy decide
  next_copy-count k d e h =
      let a = attempt k in
      let decision =
        decide a.python.fromisoformat c predicates a.exception d.headers a.python.now in
      terminal_of-count a.python.fromisoformat decision.classified.severity decision.retry_count
        d.headers a.python.now (retry_copy-none a d decision decision.terminal e h).0

  pub next_copy-built :
      (k : ℕ) (d : Delivery) (e : MessageEnvelope)
      → next_copy k d ≡ some e
      → let a = attempt k in
        let decision =
          decide a.python.fromisoformat c predicates a.exception d.headers a.python.now in
        build_retry_envelope a.python c sanitizer d (count d) a.exception decision.classified
        ≡ some e
  unfolding next_copy decide
  next_copy-built k d e h =
      let a = attempt k in
      let decision =
        decide a.python.fromisoformat c predicates a.exception d.headers a.python.now in
      (retry_copy-none a d decision decision.terminal e h).1

  module _ (Good : Delivery → Type 0)
      (rises : (k : ℕ) (d : Delivery) (e : MessageEnvelope)
        → Good d
        → next_copy k d ≡ some e
        → Good (redeliver e) × (count d < count (redeliver e))) where
    pub executions-end :
        (fuel k : ℕ) (d : Delivery)
        → Good d
        → c.max_retries < fuel + count d
        → let (n, ended) = executions fuel k d in (ended ≡ true) × (n + count d ≤ c.max_retries + 1)
    unfolding executions
    executions-end zero k d good h = absurd (omega (arith, count_le d))
    executions-end (suc fuel) k d good h = elim (Option-cases (next_copy k d)) [
      | inl e ↦ rw (executions, e) (refl, omega (arith, count_le d))
      | inr (copied, e) ↦
          let (again, higher) = rises k d copied good e in
          let (ended, few) = executions-end fuel (suc k) (redeliver copied) again (omega arith) in
          rw (executions, e) (ended, omega arith)
    ]
