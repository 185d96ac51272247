-- ===== src/Failure/Kept.antt =====
-- core/failure_copy.py: the headers that a copy keeps from the delivery.
use Prim.Native.String.{String}
use text.Mathlib.Text.{◌==◌}
use text.Mathlib.TextEquality.{eq_iff}
use text.Mathlib.TextPositions.{eq_refl}
use rabbitkit.Prelude.{
  ℕ, ◌≡◌, ◌∙◌, refl, sym, subst, ◌⊎◌, inl, inr, true, false, Option, none, some, Bool-cases, [],
  arith, is_some, Text, is_empty,
}
use rabbitkit.Failure.Headers.{
  Value, str, Headers, get, put, pop, update, get-put, get-pop, parse_iso,
}
use rabbitkit.Failure.Classify.{Raised, ClassifiedError}
use rabbitkit.Failure.Sanitizer.{ErrorSanitizer, SanitizedError, as_headers, sanitize}
use rabbitkit.Failure.Copy.{
  Delivery, FailureCategory, put_missing, stamp_origin, stamp_error, stamp_attempts, stamp_first,
  stamp_times, stamp_expiration, stamp_failure, original_expiration, original_queue,
  attempts_header, first_failed_at,
}

-- A name apart from those that every copy writes anew.
pub record IsKept (k : String) : Type 0 where
  pub message : ("x-rabbitkit-error-message" == k) ≡ false
  pub category : ("x-rabbitkit-error-category" == k) ≡ false
  pub error_type : ("x-rabbitkit-error-type" == k) ≡ false
  pub error_class : ("x-rabbitkit-error-class" == k) ≡ false
  pub failure_category : ("x-rabbitkit-failure-category" == k) ≡ false
  pub attempts : (attempts_header == k) ≡ false
  pub last_failed_at : ("x-rabbitkit-last-failed-at" == k) ≡ false

pub get-put_same : (name : String) (v : Value) (h : Headers) → get (put name v h) name ≡ some v
get-put_same name v h = rw (get-put, eq_refl) refl

pub get-put_other :
    (name k : String) (v : Value) (h : Headers)
    → (name == k) ≡ false
    → get (put name v h) k ≡ get h k
get-put_other name k v h e = rw (get-put, e) refl

get-pop_other : (name k : String) (h : Headers) → (name == k) ≡ false → get (pop name h) k ≡ get h k
get-pop_other name k h e = rw (get-pop, e) refl

pub get-put_missing :
    (name k : String) (u v : Value) (h : Headers)
    → get h k ≡ some v
    → get (put_missing name u h) k ≡ some v
unfolding put_missing
get-put_missing name k u v h e = ground (arith, eq_iff name k, get-put name k u h)

get-as_headers :
    (k : String) (s : SanitizedError) (h : Headers)
    → IsKept k
    → get (update h (as_headers s)) k ≡ get h k
unfolding as_headers update
get-as_headers k s h kept = elim (Bool-cases (is_empty s.summary)) [
  | inl e ↦ simp (e, get-put, kept.category, kept.error_type)
  | inr e ↦ simp (e, get-put, kept.category, kept.error_type, kept.message)
]

module _ (fromisoformat : Text → Option ℕ) (isoformat : ℕ → Text) (redact : Text → Text) where
  get-stamp_error :
      (k : String) (e : SanitizedError) (classified : ClassifiedError) (category : FailureCategory)
      (h : Headers)
      → IsKept k
      → get (stamp_error fromisoformat isoformat redact e classified category h) k ≡ get h k
  unfolding stamp_error
  get-stamp_error k e classified category h kept = simp (
    get-put,
    get-pop,
    kept.failure_category,
    kept.error_class,
    kept.category,
    kept.message,
    get-as_headers k e (pop "x-rabbitkit-error-message" h) kept,
  )

  get-stamp_expiration :
      (k : String) (v : Value) (t : Option Text) (h : Headers)
      → get h k ≡ some v
      → get (stamp_expiration fromisoformat isoformat redact t h) k ≡ some v
  unfolding stamp_expiration
  get-stamp_expiration k v none h e = e
  get-stamp_expiration k v (some t) h e = elim (Bool-cases (is_empty t)) [
    | inl b ↦ rw b e
    | inr b ↦ rw b (get-put_missing original_expiration k (str t) v h e)
  ]

  -- The time of the first failure is written only where no time stands there.
  get-stamp_first :
      (k : String) (v : Value) (now : ℕ) (h : Headers)
      → ((first_failed_at == k) ≡ false)
        ⊎ (is_some (parse_iso fromisoformat now (get h first_failed_at)) ≡ true)
      → get h k ≡ some v
      → get (stamp_first fromisoformat isoformat redact now h) k ≡ some v
  unfolding stamp_first
  get-stamp_first k v now h (inr there) e = rw there e
  get-stamp_first k v now h (inl other) e =
      elim (Bool-cases (is_some (parse_iso fromisoformat now (get h first_failed_at)))) [
        | inl there ↦ rw there e
        | inr gone ↦ rw gone (get-put_other first_failed_at k (str (isoformat now)) h other ∙ e)
      ]

  get-stamp_times :
      (k : String) (v : Value) (now : ℕ) (h : Headers)
      → ("x-rabbitkit-last-failed-at" == k) ≡ false
      → ((first_failed_at == k) ≡ false)
        ⊎ (is_some (parse_iso fromisoformat now (get h first_failed_at)) ≡ true)
      → get h k ≡ some v
      → get (stamp_times fromisoformat isoformat redact now h) k ≡ some v
  unfolding stamp_times
  get-stamp_times k v now h last first e =
      get-put_other "x-rabbitkit-last-failed-at" k (str (isoformat now))
        (stamp_first fromisoformat isoformat redact now h) last
      ∙ get-stamp_first k v now h first e

  -- The headers before the times are stamped.
  before_times :
      ErrorSanitizer → Delivery → Raised → ClassifiedError → FailureCategory → ℕ → Headers → Headers
  before_times sanitizer d exc classified category attempts h =
      let e = sanitize redact sanitizer exc classified.severity in
      stamp_attempts fromisoformat isoformat redact attempts (
        stamp_error fromisoformat isoformat redact e classified category
          (stamp_origin fromisoformat isoformat redact d h))

  get-stamp_origin :
      (k : String) (v : Value) (d : Delivery) (h : Headers)
      → get h k ≡ some v
      → get (stamp_origin fromisoformat isoformat redact d h) k ≡ some v
  unfolding stamp_origin
  get-stamp_origin k v d h e = get-put_missing original_queue k (str []) v _ (
      get-put_missing "x-rabbitkit-original-routing-key" k (str d.routing_key) v _
        (get-put_missing "x-rabbitkit-original-exchange" k (str d.exchange) v h e))

  get-before_times :
      (k : String) (v : Value) (sanitizer : ErrorSanitizer) (d : Delivery) (exc : Raised)
      (classified : ClassifiedError) (category : FailureCategory) (attempts : ℕ) (h : Headers)
      → IsKept k
      → get h k ≡ some v
      → get (before_times sanitizer d exc classified category attempts h) k ≡ some v
  unfolding before_times stamp_attempts
  get-before_times k v sanitizer d exc classified category attempts h kept e =
      let s = sanitize redact sanitizer exc classified.severity in
      get-put_other attempts_header k _ _ kept.attempts
      ∙ get-stamp_error k s classified category (stamp_origin fromisoformat isoformat redact d h)
          kept
      ∙ get-stamp_origin k v d h e

  -- A header that was there stays, if its name is kept; for the time of the first failure, if a time
  -- stood there.
  pub get-stamp_failure :
      (k : String) (v : Value) (sanitizer : ErrorSanitizer) (d : Delivery) (exc : Raised)
      (classified : ClassifiedError) (category : FailureCategory) (attempts now : ℕ) (h : Headers)
      → IsKept k
      → get h k ≡ some v
      → ((first_failed_at == k) ≡ false)
        ⊎ ((k ≡ first_failed_at) × (is_some (parse_iso fromisoformat now (some v)) ≡ true))
      → get
          (stamp_failure fromisoformat isoformat redact sanitizer d exc classified category attempts
            now h)
          k
        ≡ some v
  unfolding stamp_failure before_times
  get-stamp_failure k v sanitizer d exc classified category attempts now h kept e first =
      let b = before_times sanitizer d exc classified category attempts h in
      let at = get-before_times k v sanitizer d exc classified category attempts h kept e in
      let time : Option Value → Type 0 = λ o. is_some (parse_iso fromisoformat now o) ≡ true in
      let there : ((first_failed_at == k) ≡ false)
          ⊎ (is_some (parse_iso fromisoformat now (get b first_failed_at)) ≡ true) =
        elim first [
          | inl other ↦ inl other
          | inr (same, known) ↦ inr (subst (λ n. time (get b n)) same (subst time (sym at) known))
        ] in
      get-stamp_expiration k v d.expiration (stamp_times fromisoformat isoformat redact now b)
        (get-stamp_times k v now b kept.last_failed_at there at)
