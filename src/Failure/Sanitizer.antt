-- ===== src/Failure/Sanitizer.antt =====
-- core/sanitizer.py, ErrorSanitizer. The redaction of the patterns, which are regular expressions, is
-- a parameter: a function on texts.
use rabbitkit.Prelude.{
  ℕ, ◌*◌, ◌==◌, Bool, false, ◌&&◌, ◌||◌, Option, none, some, List, [], ◌∷◌, ◌++◌, if◌then◌else◌,
  Text, codes, take, leb, keep, is_empty, is_space, same_text, or_default,
}
use rabbitkit.Failure.Headers.{Headers, str}
use rabbitkit.Failure.Classify.{Raised, ErrorSeverity, severity_value}

pub data Policy : Type 0 where
  sanitized omit verbatim : Policy

pub record SanitizedError : Type 0 where
  pub category : Text
  pub code : Text
  pub summary : Text

unfoldable pub as_headers : SanitizedError → Headers
as_headers e =
    let always =
      ("x-rabbitkit-error-category", str e.category)
      ∷ ("x-rabbitkit-error-type", str e.code)
      ∷ [] in
    if is_empty e.summary
    then always
    else always ++ ("x-rabbitkit-error-message", str e.summary) ∷ []

pub record ErrorSanitizer : Type 0 where
  pub policy : Policy
  pub max_summary : ℕ
  pub max_code : ℕ
  pub allowed_codes : Option (List Text)

-- A character of `[A-Za-z0-9_.]`.
unfoldable pub is_code_safe : ℕ → Bool
is_code_safe c =
    (leb b'A' c && leb c b'Z')
    || (leb b'a' c && leb c b'z')
    || (leb b'0' c && leb c b'9')
    || (c == b'_')
    || (c == b'.')

unfoldable pub is_member : Text → List Text → Bool
is_member t [] = false
is_member t (u ∷ us) = same_text u t || is_member t us

unfoldable pub allowed_name : Option (List Text) → Text → Text
unfolding is_member
allowed_name none name = name
allowed_name (some allowed) name = if is_member name allowed then name else codes "ApplicationError"

unfoldable pub or_error : Text → Text
or_error code = if is_empty code then codes "Error" else code

unfoldable pub code_for : ErrorSanitizer → Raised → Text
unfolding allowed_name or_error is_code_safe
code_for s exc =
    or_error (take s.max_code (keep is_code_safe (allowed_name s.allowed_codes exc.type_name)))

-- `text.split()`, with the word that is read, and `" ".join(words)`
unfoldable pub words_from : Text → Text → List Text
words_from word [] = if is_empty word then [] else word ∷ []
words_from word (c ∷ s) =
    let parted = words_from [] s in
    let longer = words_from (word ++ c ∷ []) s in
    if is_space c then (if is_empty word then parted else word ∷ parted) else longer

unfoldable pub join : List Text → Text
join [] = []
join (word ∷ []) = word
join (word ∷ next ∷ more) = word ++ b' ' ∷ join (next ∷ more)

unfoldable pub one_line : Text → Text
unfolding words_from join
one_line s = join (words_from [] s)

abbrev pub str_of : Raised → Text
str_of exc = or_default exc.shown (codes "<unprintable exception>")

abbrev pub window_factor : ℕ
window_factor = 8

module _ (redact : Text → Text) where
  unfoldable pub summary_for : ErrorSanitizer → Raised → Text
  unfolding one_line
  summary_for s exc = if s.max_summary == 0 then [] else elim s.policy [
    | omit ↦ []
    | verbatim ↦ take s.max_summary (str_of exc)
    | sanitized ↦
        take s.max_summary (redact (take (s.max_summary * window_factor) (one_line (str_of exc))))
  ]

  unfoldable pub sanitize : ErrorSanitizer → Raised → ErrorSeverity → SanitizedError
  unfolding summary_for code_for
  sanitize s exc severity = record {
    category = severity_value severity;
    code = code_for s exc;
    summary = summary_for s exc;
  }
