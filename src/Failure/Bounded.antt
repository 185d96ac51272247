-- ===== src/Failure/Bounded.antt =====
-- core/sanitizer.py: what the metadata of a failure can hold.
use rabbitkit.Prelude.{
  ℕ, ◌≤◌, max, ◌≡◌, refl, Bool, true, false, [], ◌∷◌, arith, Text, length, take, keep, is_empty,
  all_chars, length-take_le,
}
use rabbitkit.Failure.Classify.{Raised, ErrorSeverity}
use rabbitkit.Failure.Sanitizer.{
  ErrorSanitizer, or_error, allowed_name, code_for, is_code_safe, summary_for, sanitize,
}

all_chars-take :
    (test : ℕ → Bool) (n : ℕ) (s : Text)
    → all_chars test s ≡ true
    → all_chars test (take n s) ≡ true
all_chars-take test ℕ.zero s h = refl
all_chars-take test (ℕ.suc n) [] h = refl
all_chars-take test (ℕ.suc n) (c ∷ s) h = ground (arith, all_chars-take test n s)

all_chars-keep : (test : ℕ → Bool) (s : Text) → all_chars test (keep test s) ≡ true
all_chars-keep test [] = refl
all_chars-keep test (c ∷ s) = ground (arith, all_chars-keep test s)

abbrev IsCode : ℕ → Text → Type 0
IsCode most code =
    (length code ≤ most) × (is_empty code ≡ false) × (all_chars is_code_safe code ≡ true)

or_error-IsCode :
    (most : ℕ) (s : Text)
    → length s ≤ most
    → all_chars is_code_safe s ≡ true
    → IsCode (max most 5) (or_error s)
unfolding or_error is_code_safe
or_error-IsCode most [] h safe = (omega arith, refl, refl)
or_error-IsCode most (c ∷ s) h safe = (omega arith, refl, safe)

code_for-IsCode : (s : ErrorSanitizer) (exc : Raised) → IsCode (max s.max_code 5) (code_for s exc)
unfolding code_for
code_for-IsCode s exc =
    let name = allowed_name s.allowed_codes exc.type_name in
    let kept = keep is_code_safe name in
    or_error-IsCode s.max_code (take s.max_code kept) (length-take_le s.max_code kept)
      (all_chars-take is_code_safe s.max_code kept (all_chars-keep is_code_safe name))

module _ (redact : Text → Text) where
  length-summary_for :
      (s : ErrorSanitizer) (exc : Raised) → length (summary_for redact s exc) ≤ s.max_summary
  unfolding summary_for
  length-summary_for s exc = grind (arith, length-take_le)

  -- Whatever the exception says, its class is named, the patterns replace and the policy is, the code
  -- of its metadata is not empty, has only letters, digits, underscores and dots, and has at most the
  -- larger of `max_code_len` and 5 characters, and the summary has at most `max_summary_len`.
  pub sanitize-bounded :
      (s : ErrorSanitizer) (exc : Raised) (severity : ErrorSeverity)
      → let e = sanitize redact s exc severity in
        (length e.code ≤ max s.max_code 5)
        × (is_empty e.code ≡ false)
        × (all_chars is_code_safe e.code ≡ true)
        × (length e.summary ≤ s.max_summary)
  unfolding sanitize
  sanitize-bounded s exc severity =
      let (short, filled, safe) = code_for-IsCode s exc in
      (short, filled, safe, length-summary_for s exc)
