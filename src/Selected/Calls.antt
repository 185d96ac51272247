-- ===== src/Selected/Calls.antt =====
-- The transport calls that selected settlement makes.
use rabbitkit.Prelude.{
  ℕ, suc, ◌≡◌, refl, sym, ap, Bool, true, false, not, ◌&&◌, Option, none, some, List, [], ◌∷◌, map,
  arith, inl, inr, Bool-cases, Option-cases, contains, if◌then◌else◌, ==_refl, ◌⊎◌, subst,
}
use rabbitkit.Types.{SettlementAction}
use rabbitkit.Message.{RabbitMessage, Settlement, claim, settle_sync, settle_async}
use rabbitkit.Selected.{
  SettlementPlan, Runtime, Store, sync, async, refusal, approve_one, reject_one, validate,
  has_problems, fail_fast_on, abort_all, plan_selected_settlement, settle_by, settle_each,
  settle_planned, settle_many, is_empty, put_message, settlement_of,
}
use rabbitkit.Selected.Settled.{validate-approve_one, validate-reject_one}

fail_fast_on_none :
    (store : Store) (plan : SettlementPlan)
    → has_problems plan ≡ true
    → (fail_fast_on store true plan).approved ≡ []
unfolding fail_fast_on abort_all
fail_fast_on_none store plan e = rw e (go plan.approved refl)
  where
    go :
        (xs : List (ℕ × ℕ))
        → plan.approved ≡ xs
        → (if not (is_empty plan.approved) then abort_all store plan else plan).approved ≡ []
    go [] f = rw f refl
    go (x ∷ xs) f = rw f refl

settle_each_none :
    {W : Type 0} (call : ℕ → Settlement → W → W × Bool) (runtime : Runtime) (s : Settlement)
    (approved : List (ℕ × ℕ)) (store : Store) (w : W)
    → approved ≡ []
    → settle_each call runtime s approved store w ≡ ([], store, w)
unfolding settle_each
settle_each_none call runtime s approved store w e = rw e refl

-- If the validation finds a problem in the inputs and `fail_fast` is set, then no message changes and
-- no transport call is made.
pub settle_many_problem :
    {W : Type 0} (call : ℕ → Settlement → W → W × Bool) (runtime : Runtime)
    (action : SettlementAction) (requeue : Option Bool) (inputs : List (Option ℕ)) (store : Store)
    (w : W)
    → has_problems (validate store runtime [] 0 inputs) ≡ true
    → let done = settle_many call runtime action requeue true inputs store w in
      (done.1 ≡ store) × (done.2 ≡ w)
unfolding settle_many settle_planned plan_selected_settlement
settle_many_problem call runtime action requeue inputs store w e =
    let none_left =
      settle_each_none call runtime (settlement_of action requeue)
        (plan_selected_settlement store runtime true inputs).approved store w
        (fail_fast_on_none store (validate store runtime [] 0 inputs) e) in
    (ap (λ x. x.1) none_left, ap (λ x. x.2) none_left)

-- No number twice.
abbrev pub Distinct : List ℕ → Type 0
Distinct [] = Unit {0}
Distinct (x ∷ xs) = (contains xs x ≡ false) × Distinct xs

abbrev ids : SettlementPlan → List ℕ
ids plan = map (λ x. x.1) plan.approved

-- The approved messages are distinct, and none of them was seen before.
abbrev Fresh : List ℕ → SettlementPlan → Type 0
Fresh seen plan =
    ((u : ℕ) → contains seen u ≡ true → contains (ids plan) u ≡ false) × Distinct (ids plan)

refusal-again :
    (runtime : Runtime) (again : Bool) (m : RabbitMessage)
    → refusal runtime again m ≡ none
    → again ≡ false
unfolding refusal
refusal-again runtime true m e = absurd (ground arith)
refusal-again runtime false m e = refl

validate-Fresh :
    (store : Store) (runtime : Runtime) (seen : List ℕ) (n : ℕ) (inputs : List (Option ℕ))
    → Fresh seen (validate store runtime seen n inputs)
unfolding validate approve_one reject_one
validate-Fresh store runtime seen n [] = (λ u e. refl, tt)
validate-Fresh store runtime seen n (none ∷ inputs) =
    validate-Fresh store runtime seen (suc n) inputs
validate-Fresh store runtime seen n (some id ∷ inputs) =
    let (apart, distinct) = validate-Fresh store runtime (id ∷ seen) (suc n) inputs in
    elim (Option-cases (refusal runtime (contains seen id) (store id))) [
      | inl e ↦ subst (Fresh seen) (sym (validate-approve_one store runtime seen n id inputs e)) (
          let again = refusal-again runtime (contains seen id) (store id) e in
          (λ u h. ground (arith, apart u), (apart id (ground arith), distinct)))
      | inr ((status, reason), e) ↦
          subst (Fresh seen)
            (sym (validate-reject_one store runtime seen n id inputs status reason e))
            (λ u h. apart u (ground arith), distinct)
    ]

fail_fast_on-Distinct :
    (store : Store) (fail_fast : Bool) (plan : SettlementPlan)
    → Distinct (ids plan)
    → Distinct (ids (fail_fast_on store fail_fast plan))
unfolding fail_fast_on abort_all
fail_fast_on-Distinct store fail_fast plan d =
    elim (Bool-cases (fail_fast && has_problems plan && not (is_empty plan.approved))) [
      | inl e ↦ rw (e, fail_fast_on) tt
      | inr e ↦ rw (e, fail_fast_on) d
    ]

-- A transport that writes down the messages it is called for; `ok` says which calls return.
abbrev pub recording : (ℕ → Settlement → Bool) → ℕ → Settlement → List ℕ → List ℕ × Bool
recording ok id s called = (id ∷ called, ok id s)

module _ (ok : ℕ → Settlement → Bool) where
  -- A settlement makes one call at most, for its own message.
  settle_by_calls :
      (runtime : Runtime) (id : ℕ) (m : RabbitMessage) (s : Settlement) (called : List ℕ)
      → let after = (settle_by (recording ok) runtime id m s called).2 in
        (after ≡ called) ⊎ (after ≡ id ∷ called)
  unfolding settle_by settle_sync settle_async claim
  settle_by_calls sync id m s called = ground arith
  settle_by_calls async id m s called = ground arith

  -- None of the messages called for so far is still to be settled.
  abbrev Apart : List (ℕ × ℕ) → List ℕ → Type 0
  Apart approved called =
      (u : ℕ) → contains called u ≡ true → contains (map (λ x. x.1) approved) u ≡ false

  settle_each-Distinct :
      (runtime : Runtime) (s : Settlement) (approved : List (ℕ × ℕ)) (store : Store)
      (called : List ℕ)
      → Distinct called
      → Distinct (map (λ x. x.1) approved)
      → Apart approved called
      → Distinct (settle_each (recording ok) runtime s approved store called).2
  unfolding settle_each
  settle_each-Distinct runtime s [] store called d e apart = d
  settle_each-Distinct runtime s ((index, id) ∷ approved) store called d e apart =
      let (outcome, m, after) = settle_by (recording ok) runtime id (store id) s called in
      let store' = put_message id m store in
      elim (settle_by_calls runtime id (store id) s called) [
        | inl same ↦
            settle_each-Distinct runtime s approved store' after (subst Distinct (sym same) d) e.1
              (subst (Apart approved) (sym same) (λ u h. ground (arith, apart u)))
        | inr more ↦
            settle_each-Distinct runtime s approved store' after
              (subst Distinct (sym more) (ground (arith, apart id, ==_refl id), d)) e.1
              (subst (Apart approved) (sym more) (λ u h. ground (arith, apart u, e.0)))
      ]

  -- In one call of `ack_many`, `nack_many` or `reject_many`, whatever the inputs are and whichever
  -- transport calls return, the transport is called at most once for each message object.
  pub settle_many-Distinct :
      (runtime : Runtime) (action : SettlementAction) (requeue : Option Bool) (fail_fast : Bool)
      (inputs : List (Option ℕ)) (store : Store)
      → Distinct (settle_many (recording ok) runtime action requeue fail_fast inputs store []).2
  unfolding settle_many settle_planned plan_selected_settlement
  settle_many-Distinct runtime action requeue fail_fast inputs store =
      settle_each-Distinct runtime (settlement_of action requeue)
        (plan_selected_settlement store runtime fail_fast inputs).approved store [] tt
        (fail_fast_on-Distinct store fail_fast (validate store runtime [] 0 inputs)
          (validate-Fresh store runtime [] 0 inputs).1)
        (λ u h. ground arith)
