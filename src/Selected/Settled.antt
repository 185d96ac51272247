-- ===== src/Selected/Settled.antt =====
-- What the report of selected settlement promises of the messages.
use rabbitkit.Prelude.{
  ℕ, suc, ◌≡◌, refl, sym, Bool, true, false, not, ◌&&◌, ◌||◌, Option, none, some, List, [], ◌∷◌,
  ◌++◌, map, arith, inl, inr, Bool-cases, Option-cases, All, All-mono, contains, keep, leb, ◌⊎◌,
  subst,
}
use rabbitkit.Prelude.Sort.{sort_by, insert_by}
use rabbitkit.Types.{SettlementAction, SettlementItemStatus}
use rabbitkit.Message.{
  RabbitMessage, Settlement, Outcome, returned, settlement_error, transport_error, is_settled,
  is_pending, claim, claimed_by, finish, settle_sync, settle_async,
}
use rabbitkit.Selected.{
  Reason, SettlementItem, SettlementPlan, Runtime, Store, sync, async, item_of, refusal, is_stale,
  lacks_runtime, approve_one, reject_one, validate, has_problems, aborted, index_of, fail_fast_on,
  plan_selected_settlement, outcome_item, settle_by, settle_each, build_report, settle_planned,
  settle_many, is_empty, abort_all, put_message, settlement_of, is_report_problem, problems,
  all_dispatched,
}

-- No item is a problem of the report.
abbrev Clean : List SettlementItem → Type 0
Clean items = All (λ x. is_report_problem x ≡ false) items

insert_by-Clean :
    (x : SettlementItem) (xs : List SettlementItem)
    → Clean (insert_by index_of x xs)
    → Clean (x ∷ xs)
unfolding insert_by
insert_by-Clean x [] = λ a. a
insert_by-Clean x (y ∷ ys) = elim (Bool-cases (leb x.index y.index)) [
  | inl e ↦ rw e (λ a. a)
  | inr e ↦ rw e (λ a. let rest = insert_by-Clean x ys a.1 in (rest.0, (a.0, rest.1)))
]

sort_by-Clean : (xs : List SettlementItem) → Clean (sort_by index_of xs) → Clean xs
unfolding sort_by
sort_by-Clean [] a = tt
sort_by-Clean (x ∷ xs) a =
    let both = insert_by-Clean x (sort_by index_of xs) a in (both.0, sort_by-Clean xs both.1)

keep-Clean : (xs : List SettlementItem) → is_empty (keep is_report_problem xs) ≡ true → Clean xs
keep-Clean [] = λ _. tt
keep-Clean (x ∷ xs) = elim (Bool-cases (is_report_problem x)) [
  | inl f ↦ λ e. absurd (ground arith)
  | inr f ↦ λ e. (f, keep-Clean xs (ground arith))
]

Clean-append : (xs ys : List SettlementItem) → Clean (xs ++ ys) → Clean xs × Clean ys
Clean-append [] ys a = (tt, a)
Clean-append (x ∷ xs) ys a = let rest = Clean-append xs ys a.1 in ((a.0, rest.0), rest.1)

-- An input that is a message of which `P` holds.
abbrev pub IsMessage : (ℕ → Type 0) → Option ℕ → Type 0
IsMessage P none = ⊥
IsMessage P (some id) = P id

IsMessage-mono :
    (P Q : ℕ → Type 0) (input : Option ℕ)
    → ((id : ℕ) → P id → Q id)
    → IsMessage P input
    → IsMessage Q input
IsMessage-mono P Q none f h = h
IsMessage-mono P Q (some id) f h = f id h

abbrev ids : SettlementPlan → List ℕ
ids plan = map (λ x. x.1) plan.approved

abbrev Done : Store → SettlementPlan → ℕ → Type 0
Done store plan id = (is_settled (store id) || contains (ids plan) id) ≡ true

-- The one refusal that is no problem is that of a settled message.
refusal-is_settled :
    (runtime : Runtime) (again : Bool) (m : RabbitMessage) (status : SettlementItemStatus)
    (why : Reason) (n : ℕ)
    → refusal runtime again m ≡ some (status, why)
    → is_report_problem (item_of n m status why) ≡ false
    → is_settled m ≡ true
unfolding refusal is_report_problem is_stale lacks_runtime
refusal-is_settled runtime again m status why n e h = ground arith

pub validate-approve_one :
    (store : Store) (runtime : Runtime) (seen : List ℕ) (n id : ℕ) (inputs : List (Option ℕ))
    → refusal runtime (contains seen id) (store id) ≡ none
    → validate store runtime seen n (some id ∷ inputs)
      ≡ approve_one n id (validate store runtime (id ∷ seen) (suc n) inputs)
unfolding validate
validate-approve_one store runtime seen n id inputs e = rw (e, validate) refl

pub validate-reject_one :
    (store : Store) (runtime : Runtime) (seen : List ℕ) (n id : ℕ) (inputs : List (Option ℕ))
    (status : SettlementItemStatus) (why : Reason)
    → refusal runtime (contains seen id) (store id) ≡ some (status, why)
    → validate store runtime seen n (some id ∷ inputs)
      ≡ reject_one
          (item_of n (store id) status why)
          (validate store runtime (id ∷ seen) (suc n) inputs)
unfolding validate
validate-reject_one store runtime seen n id inputs status why e = rw (e, validate) refl

-- Where no input is refused for a problem, each is a message that is settled or approved.
abbrev Promise : Store → List (Option ℕ) → SettlementPlan → Type 0
Promise store inputs plan = Clean plan.rejected → All (IsMessage (Done store plan)) inputs

validate-Promise :
    (store : Store) (runtime : Runtime) (seen : List ℕ) (n : ℕ) (inputs : List (Option ℕ))
    → Promise store inputs (validate store runtime seen n inputs)
unfolding validate approve_one reject_one is_report_problem
validate-Promise store runtime seen n [] = λ _. tt
validate-Promise store runtime seen n (none ∷ inputs) = λ a. absurd (ground (arith, a.0))
validate-Promise store runtime seen n (some id ∷ inputs) =
    let plan = validate store runtime (id ∷ seen) (suc n) inputs in
    let rest = validate-Promise store runtime (id ∷ seen) (suc n) inputs in
    elim (Option-cases (refusal runtime (contains seen id) (store id))) [
      | inl e ↦
          subst (Promise store (some id ∷ inputs))
            (sym (validate-approve_one store runtime seen n id inputs e))
            λ a. (
              ground arith,
              All-mono _ _ inputs
                  (λ input.
                    IsMessage-mono (Done store plan) (Done store (approve_one n id plan)) input
                      (λ u h. ground arith))
                  (rest a),
            )
      | inr ((status, why), e) ↦
          subst (Promise store (some id ∷ inputs))
            (sym (validate-reject_one store runtime seen n id inputs status why e))
            λ a. (
              ground (
                arith,
                refusal-is_settled runtime (contains seen id) (store id) status why n e a.0,
              ),
              rest a.1,
            )
    ]

aborted-Clean : (store : Store) (xs : List (ℕ × ℕ)) → Clean (aborted store xs) → is_empty xs ≡ true
unfolding aborted is_report_problem
aborted-Clean store [] a = refl
aborted-Clean store ((index, id) ∷ xs) a = absurd (ground (arith, a.0))

-- A call that fails fast reports a problem.
fail_fast_on-Promise :
    (store : Store) (inputs : List (Option ℕ)) (fail_fast : Bool) (plan : SettlementPlan)
    → Promise store inputs plan
    → Promise store inputs (fail_fast_on store fail_fast plan)
unfolding fail_fast_on abort_all
fail_fast_on-Promise store inputs fail_fast plan h =
    elim (Bool-cases (fail_fast && has_problems plan && not (is_empty plan.approved))) [
      | inl e ↦
          rw (e, fail_fast_on)
            λ a. absurd (
              ground (
                arith,
                aborted-Clean store plan.approved
                    (Clean-append plan.rejected (aborted store plan.approved)
                      (sort_by-Clean (plan.rejected ++ aborted store plan.approved) a)).1,
              ))
      | inr e ↦ rw (e, fail_fast_on) h
    ]

claimed_by-is_pending : (s : Settlement) → is_pending (claimed_by s) ≡ false
unfolding is_pending claimed_by
claimed_by-is_pending Settlement.ack = refl
claimed_by-is_pending (Settlement.nack b) = refl
claimed_by-is_pending (Settlement.reject b) = refl

outcome-returned :
    (index : ℕ) (m : RabbitMessage) (o : Outcome)
    → is_report_problem (outcome_item index m o) ≡ false
    → o ≡ returned
unfolding outcome_item is_report_problem
outcome-returned index m returned e = refl
outcome-returned index m settlement_error e = absurd (ground arith)
outcome-returned index m transport_error e = absurd (ground arith)

-- A call that returns leaves the message settled, and no call takes a settlement back.
module _ {W : Type 0} (call : ℕ → Settlement → W → W × Bool) where
  settle_by-is_settled :
      (runtime : Runtime) (id : ℕ) (m : RabbitMessage) (s : Settlement) (w : W)
      → let done = settle_by call runtime id m s w in
        (done.0 ≡ returned) ⊎ (is_settled m ≡ true) → is_settled done.1 ≡ true
  unfolding settle_by settle_sync settle_async is_settled finish claim
  settle_by-is_settled sync id m s w h = ground (arith, claimed_by-is_pending s)
  settle_by-is_settled async id m s w h = ground (arith, claimed_by-is_pending s)

  -- Where each item is dispatched, the loop leaves every message settled that was, or was approved.
  settle_each-is_settled :
      (runtime : Runtime) (s : Settlement) (approved : List (ℕ × ℕ)) (store : Store) (w : W) (u : ℕ)
      → Clean (settle_each call runtime s approved store w).0
      → (is_settled (store u) || contains (map (λ x. x.1) approved) u) ≡ true
      → is_settled ((settle_each call runtime s approved store w).1 u) ≡ true
  unfolding settle_each put_message
  settle_each-is_settled runtime s [] store w u a h = ground arith
  settle_each-is_settled runtime s ((index, id) ∷ approved) store w u a h =
      let (outcome, m, w') = settle_by call runtime id (store id) s w in
      settle_each-is_settled runtime s approved (put_message id m store) w' u a.1 (
        ground (
          arith,
          outcome-returned index m outcome a.0,
          settle_by-is_settled runtime id (store id) s w,
        ))

  -- If the report of `ack_many`, `nack_many` or `reject_many` is `all_dispatched` (so that
  -- `raise_for_status` returns), then every input is a message, and it is settled afterwards, whether
  -- this call settled it or it was settled before.
  pub settle_many-all_dispatched :
      (runtime : Runtime) (action : SettlementAction) (requeue : Option Bool) (fail_fast : Bool)
      (inputs : List (Option ℕ)) (store : Store) (w : W)
      → let done = settle_many call runtime action requeue fail_fast inputs store w in
        all_dispatched done.0 ≡ true → All (IsMessage (λ id. is_settled (done.1 id) ≡ true)) inputs
  unfolding settle_many settle_planned build_report plan_selected_settlement all_dispatched problems
  settle_many-all_dispatched runtime action requeue fail_fast inputs store w e =
      let plan = plan_selected_settlement store runtime fail_fast inputs in
      let done = settle_each call runtime (settlement_of action requeue) plan.approved store w in
      let (refused, dealt) =
        Clean-append plan.rejected done.0
          (sort_by-Clean (plan.rejected ++ done.0) (keep-Clean _ e)) in
      All-mono _ _ inputs
        (λ input.
          IsMessage-mono (Done store plan) (λ id. is_settled (done.1 id) ≡ true) input
            (λ u.
              settle_each-is_settled runtime (settlement_of action requeue) plan.approved store w u
                dealt))
        (fail_fast_on-Promise store inputs fail_fast (validate store runtime [] 0 inputs)
          (validate-Promise store runtime [] 0 inputs) refused)
