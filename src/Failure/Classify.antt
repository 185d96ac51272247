-- ===== src/Failure/Classify.antt =====
-- core/errors.py, `classify_error`, with ErrorSeverity, ErrorCategory and ClassifiedError of
-- core/types.py. An exception is what the code asks of it.
use rabbitkit.Prelude.{
  ◌≡◌, refl, ◌∙◌, ap, subst, map, Bool, true, false, ◌&&◌, Option, none, some, List, [], ◌∷◌, arith,
  if◌then◌else◌, Text, codes,
}

pub data ErrorSeverity : Type 0 where
  transient permanent : ErrorSeverity

pub data ErrorCategory : Type 0 where
  retryable permanent invalid_message unknown_outcome infrastructure shutdown : ErrorCategory

unfoldable pub severity_of : ErrorCategory → ErrorSeverity
severity_of ErrorCategory.permanent = ErrorSeverity.permanent
severity_of invalid_message = ErrorSeverity.permanent
severity_of _ = transient

unfoldable pub same_severity : ErrorSeverity → ErrorSeverity → Bool
same_severity transient transient = true
same_severity ErrorSeverity.permanent ErrorSeverity.permanent = true
same_severity _ _ = false

unfoldable pub severity_value : ErrorSeverity → Text
severity_value transient = codes "transient"
severity_value ErrorSeverity.permanent = codes "permanent"

unfoldable pub category_value : ErrorCategory → Text
category_value retryable = codes "retryable"
category_value ErrorCategory.permanent = codes "permanent"
category_value invalid_message = codes "invalid_message"
category_value unknown_outcome = codes "unknown_outcome"
category_value infrastructure = codes "infrastructure"
category_value shutdown = codes "shutdown"

-- An exception: the name of its class, `str(exc)` unless that raises, its attributes, and which of
-- the tuples of types it is an instance of.
pub record Raised : Type 0 where
  pub type_name : Text
  pub shown : Option Text
  pub declared : Option ErrorCategory
  pub outcome_unknown : Bool
  pub is_shutdown : Bool
  pub is_infrastructure : Bool
  pub is_transient : Bool
  pub is_permanent : Bool
  pub is_timeout : Bool

-- What a predicate returns.
pub data Opinion : Type 0 where
  holds fails no_opinion : Opinion
  category : ErrorCategory → Opinion

pub record ClassifiedError : Type 0 where
  pub severity : ErrorSeverity
  pub outcome_unknown : Bool
  pub category : ErrorCategory

unfoldable pub is_retryable : ErrorCategory → Bool
is_retryable retryable = true
is_retryable _ = false

-- ClassifiedError.__post_init__
unfoldable pub consistent : ErrorSeverity → ErrorCategory → ErrorCategory
unfolding same_severity severity_of
consistent severity given =
    if same_severity (severity_of given) severity
    then given
    else (if same_severity severity transient then retryable else ErrorCategory.permanent)

unfoldable pub refined : Bool → ErrorCategory → ErrorCategory
unfolding is_retryable
refined unknown given = if unknown && is_retryable given then unknown_outcome else given

unfoldable pub classified_error : ErrorSeverity → Bool → ErrorCategory → ClassifiedError
unfolding consistent refined
classified_error severity unknown given = record {
  severity = severity;
  outcome_unknown = unknown;
  category = refined unknown (consistent severity given);
}

-- `_result`, without its reason
unfoldable pub result : ErrorCategory → ClassifiedError
unfolding classified_error severity_of
result given = classified_error (severity_of given) false given

unfoldable pub opinion_category : Opinion → Option ErrorCategory
opinion_category holds = some retryable
opinion_category fails = some ErrorCategory.permanent
opinion_category no_opinion = none
opinion_category (category c) = some c

abbrev pub or_else : Option ErrorCategory → ErrorCategory → ErrorCategory
or_else none c = c
or_else (some d) c = d

-- The first predicate with an opinion.
unfoldable pub first_opinion : List (Raised → Opinion) → Raised → Option ErrorCategory
unfolding opinion_category
first_opinion [] exc = none
first_opinion (predicate ∷ more) exc = elim (opinion_category (predicate exc)) [
  | none ↦ first_opinion more exc
  | some c ↦ some c
]

-- `_classify` from the type tuples on
unfoldable pub by_type : ErrorSeverity → Raised → ErrorCategory
unfolding same_severity
by_type unknown_policy exc =
    if exc.is_infrastructure
    then infrastructure
    else if exc.is_transient
    then retryable
    else if exc.is_permanent
    then ErrorCategory.permanent
    else if same_severity unknown_policy transient
    then retryable
    else ErrorCategory.permanent

-- `_classify`
unfoldable pub classified_as : List (Raised → Opinion) → ErrorSeverity → Raised → ErrorCategory
unfolding first_opinion by_type
classified_as predicates unknown_policy exc =
    if exc.is_shutdown
    then shutdown
    else or_else exc.declared (or_else (first_opinion predicates exc) (by_type unknown_policy exc))

unfoldable pub with_outcome : Bool → ClassifiedError → ClassifiedError
unfolding classified_error
with_outcome unknown c = if unknown then classified_error c.severity true c.category else c

unfoldable pub classify_error : List (Raised → Opinion) → ErrorSeverity → Raised → ClassifiedError
unfolding classified_as result with_outcome
classify_error predicates unknown_policy exc =
    with_outcome exc.outcome_unknown (result (classified_as predicates unknown_policy exc))

-- The order in which an exception is judged, and what each judge says.
abbrev pub said : Opinion → Option ErrorCategory
said holds = some retryable
said fails = some ErrorCategory.permanent
said no_opinion = none
said (category c) = some c

abbrev pub when : Bool → ErrorCategory → Option ErrorCategory
when true c = some c
when false c = none

abbrev pub first_of : List (Option ErrorCategory) → ErrorCategory → ErrorCategory
first_of [] otherwise = otherwise
first_of (none ∷ more) otherwise = first_of more otherwise
first_of (some c ∷ more) otherwise = c

abbrev pub by_policy : ErrorSeverity → ErrorCategory
by_policy transient = retryable
by_policy ErrorSeverity.permanent = ErrorCategory.permanent

-- The shutdown, the exception's own category, the predicates in order, the types in order, the policy.
abbrev pub judged : List (Raised → Opinion) → ErrorSeverity → Raised → ErrorCategory
judged predicates unknown_policy exc =
    first_of
      (when exc.is_shutdown shutdown
        ∷ exc.declared
        ∷ map (λ (p : Raised → Opinion). said (p exc)) predicates)
      (first_of
        (when exc.is_infrastructure infrastructure
          ∷ when exc.is_transient retryable
          ∷ when exc.is_permanent ErrorCategory.permanent
          ∷ [])
        (by_policy unknown_policy))

-- Which failures are never retried.
abbrev pub is_final : ErrorCategory → Bool
is_final retryable = false
is_final ErrorCategory.permanent = true
is_final invalid_message = true
is_final unknown_outcome = false
is_final infrastructure = false
is_final shutdown = false

said_lem : (o : Opinion) → opinion_category o ≡ said o
unfolding opinion_category
said_lem holds = refl
said_lem fails = refl
said_lem no_opinion = refl
said_lem (category c) = refl

or_else-first_of :
    (o rest : Option ErrorCategory) (more : List (Option ErrorCategory)) (d : ErrorCategory)
    → or_else rest d ≡ first_of more d
    → or_else (elim o [ none ↦ rest | some c ↦ some c ]) d ≡ first_of (o ∷ more) d
or_else-first_of none rest more d h = h
or_else-first_of (some c) rest more d h = refl

first_opinion-first_of :
    (predicates : List (Raised → Opinion)) (exc : Raised) (d : ErrorCategory)
    → or_else (first_opinion predicates exc) d
      ≡ first_of (map (λ (p : Raised → Opinion). said (p exc)) predicates) d
unfolding first_opinion
first_opinion-first_of [] exc d = refl
first_opinion-first_of (p ∷ more) exc d =
    let told = opinion_category (p exc) in
    let others = map (λ (q : Raised → Opinion). said (q exc)) more in
    let rest = first_opinion more exc in
    subst (λ o. or_else (elim told [ none ↦ rest | some c ↦ some c ]) d ≡ first_of (o ∷ others) d)
      (said_lem (p exc)) (or_else-first_of told rest others d (first_opinion-first_of more exc d))

by_type-first_of :
    (unknown_policy : ErrorSeverity) (exc : Raised)
    → by_type unknown_policy exc
      ≡ first_of
          (when exc.is_infrastructure infrastructure
            ∷ when exc.is_transient retryable
            ∷ when exc.is_permanent ErrorCategory.permanent
            ∷ [])
          (by_policy unknown_policy)
unfolding by_type same_severity
by_type-first_of unknown_policy exc = ground arith

declared-first_of :
    (stops : Bool) (declared : Option ErrorCategory) (more : List (Option ErrorCategory))
    (d e : ErrorCategory)
    → d ≡ first_of more e
    → (if stops then shutdown else or_else declared d)
      ≡ first_of (when stops shutdown ∷ declared ∷ more) e
declared-first_of true declared more d e h = refl
declared-first_of false none more d e h = h
declared-first_of false (some c) more d e h = refl

classified_as-judged :
    (predicates : List (Raised → Opinion)) (unknown_policy : ErrorSeverity) (exc : Raised)
    → classified_as predicates unknown_policy exc ≡ judged predicates unknown_policy exc
unfolding classified_as
classified_as-judged predicates unknown_policy exc =
    declared-first_of exc.is_shutdown exc.declared
      (map (λ (p : Raised → Opinion). said (p exc)) predicates)
      (or_else (first_opinion predicates exc) (by_type unknown_policy exc)) _
      (first_opinion-first_of predicates exc (by_type unknown_policy exc)
        ∙ ap (first_of (map (λ (p : Raised → Opinion). said (p exc)) predicates))
            (by_type-first_of unknown_policy exc))

-- The classification of a failure that was judged to be of a category.
abbrev Decides : ErrorCategory → Bool → ClassifiedError → Type 0
Decides given unknown c =
    (c.severity ≡ (if is_final given then ErrorSeverity.permanent else transient))
    × (c.category ≡ (if unknown then elim given [ retryable ↦ unknown_outcome | g ↦ g ] else given))
    × (c.outcome_unknown ≡ unknown)

with_outcome-Decides :
    (unknown : Bool) (given : ErrorCategory)
    → Decides given unknown (with_outcome unknown (result given))
unfolding with_outcome result classified_error consistent refined is_retryable same_severity
    severity_of
with_outcome-Decides unknown given = ground arith

-- A failure is judged by the first of these that says something: that it is a shutdown, the category
-- that it declares, the predicates in order, the infrastructure, transient and permanent types, and
-- the policy for unknown exceptions. It is permanent exactly if that category is PERMANENT or
-- INVALID_MESSAGE, and its category is that one, except that RETRYABLE becomes UNKNOWN_OUTCOME
-- where the outcome is unknown.
pub classify_error-Decides :
    (predicates : List (Raised → Opinion)) (unknown_policy : ErrorSeverity) (exc : Raised)
    → let c = classify_error predicates unknown_policy exc in
      let given = judged predicates unknown_policy exc in
      (c.severity ≡ (if is_final given then ErrorSeverity.permanent else transient))
      × (c.category ≡ (
          if exc.outcome_unknown
          then elim given [ retryable ↦ unknown_outcome | g ↦ g ]
          else given))
      × (c.outcome_unknown ≡ exc.outcome_unknown)
unfolding classify_error
classify_error-Decides predicates unknown_policy exc =
    subst
      (λ g.
        Decides g exc.outcome_unknown
          (with_outcome exc.outcome_unknown (result (classified_as predicates unknown_policy exc))))
      (classified_as-judged predicates unknown_policy exc)
      (with_outcome-Decides exc.outcome_unknown (classified_as predicates unknown_policy exc))
