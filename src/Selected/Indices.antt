-- ===== src/Selected/Indices.antt =====
-- The report of selected settlement has one item for each input, in input order.
use rabbitkit.Prelude.{
  ℕ, suc, ◌≤◌, ◌≡◌, refl, ap, ◌∙◌, Bool, not, ◌&&◌, Option, none, some, List, [], ◌∷◌, ◌++◌, map,
  append-nil, arith, length, inl, inr, Bool-cases, Option-cases, All, All-mono, contains,
}
use rabbitkit.Prelude.Sort.{sort_by}
use rabbitkit.Prelude.Count.{
  count_from, sorted, sorted-count_left, sorted-count_right, sorted-count_from, map-sort_by,
}
use rabbitkit.Types.{SettlementAction}
use rabbitkit.Message.{
  RabbitMessage, Settlement, Outcome, returned, settlement_error, transport_error,
}
use rabbitkit.Selected.{
  SettlementItem, SettlementPlan, Runtime, Store, item_of, not_message, refusal, approve_one,
  reject_one, validate, has_problems, aborted, index_of, fail_fast_on, plan_selected_settlement,
  outcome_item, settle_by, settle_each, build_report, settle_planned, settle_many, is_empty,
  abort_all, put_message, settlement_of,
}

-- The indices of a plan: those rejected, and those approved.
abbrev refused : SettlementPlan → List ℕ
refused plan = map index_of plan.rejected

abbrev accepted : SettlementPlan → List ℕ
accepted plan = map (λ x. x.0) plan.approved

-- The rejected inputs and the approved ones are the inputs from `n` on.
record Splits (n k : ℕ) (plan : SettlementPlan) : Type 0 where
  all : sorted (refused plan ++ accepted plan) ≡ count_from n k
  late : All (λ t. n ≤ t) (refused plan)

Splits-approve_one :
    (n k id : ℕ) (plan : SettlementPlan)
    → Splits (suc n) k plan
    → Splits n (suc k) (approve_one n id plan)
unfolding approve_one
Splits-approve_one n k id plan s = record {
  all = sorted-count_right n k (refused plan) (accepted plan) s.late s.all;
  late = All-mono _ _ (refused plan) (λ t h. omega arith) s.late;
}

Splits-reject_one :
    (n k : ℕ) (item : SettlementItem) (plan : SettlementPlan)
    → item.index ≡ n
    → Splits (suc n) k plan
    → Splits n (suc k) (reject_one item plan)
unfolding reject_one
Splits-reject_one n k item plan e s = record {
  all = rw e (sorted-count_left n k (refused plan) (accepted plan) s.all);
  late = (omega arith, All-mono _ _ (refused plan) (λ t h. omega arith) s.late);
}

validate-Splits :
    (store : Store) (runtime : Runtime) (seen : List ℕ) (n : ℕ) (inputs : List (Option ℕ))
    → Splits n (length inputs) (validate store runtime seen n inputs)
unfolding validate sort_by
validate-Splits store runtime seen n [] = record { all = refl; late = tt }
validate-Splits store runtime seen n (none ∷ inputs) =
    Splits-reject_one n (length inputs) (not_message n) (validate store runtime seen (suc n) inputs)
      refl (validate-Splits store runtime seen (suc n) inputs)
validate-Splits store runtime seen n (some id ∷ inputs) =
    elim (Option-cases (refusal runtime (contains seen id) (store id))) [
      | inl e ↦
          rw (e, validate)
            (Splits-approve_one n (length inputs) id _
              (validate-Splits store runtime (id ∷ seen) (suc n) inputs))
      | inr ((status, reason), e) ↦
          rw (e, validate)
            (Splits-reject_one n (length inputs) (item_of n (store id) status reason) _ refl
              (validate-Splits store runtime (id ∷ seen) (suc n) inputs))
    ]

map-aborted :
    (store : Store) (xs : List (ℕ × ℕ)) → map index_of (aborted store xs) ≡ map (λ x. x.0) xs
unfolding aborted
map-aborted store [] = refl
map-aborted store ((i, id) ∷ xs) = ap (◌∷◌ i) (map-aborted store xs)

map-append_lem :
    (xs ys : List SettlementItem) → map index_of (xs ++ ys) ≡ map index_of xs ++ map index_of ys
map-append_lem [] ys = refl
map-append_lem (x ∷ xs) ys = ap (◌∷◌ x.index) (map-append_lem xs ys)

abort_all-indices :
    (store : Store) (n k : ℕ) (plan : SettlementPlan)
    → Splits n k plan
    → let after = abort_all store plan in sorted (refused after ++ accepted after) ≡ count_from n k
unfolding abort_all
abort_all-indices store n k plan s =
    let moved : refused (abort_all store plan) ≡ count_from n k =
      map-sort_by index_of (plan.rejected ++ aborted store plan.approved)
      ∙ ap sorted (
          map-append_lem plan.rejected (aborted store plan.approved)
          ∙ ap (◌++◌ (refused plan)) (map-aborted store plan.approved))
      ∙ s.all in
    ap sorted (append-nil (refused (abort_all store plan)) ∙ moved) ∙ sorted-count_from n k

-- Failing fast moves the approved inputs to the rejected ones, and leaves the indices as they were.
fail_fast_on-indices :
    (store : Store) (fail_fast : Bool) (n k : ℕ) (plan : SettlementPlan)
    → Splits n k plan
    → let after = fail_fast_on store fail_fast plan in
      sorted (refused after ++ accepted after) ≡ count_from n k
unfolding fail_fast_on
fail_fast_on-indices store fail_fast n k plan s =
    elim (Bool-cases (fail_fast && has_problems plan && not (is_empty plan.approved))) [
      | inl e ↦ rw e (abort_all-indices store n k plan s)
      | inr e ↦ rw e s.all
    ]

index-outcome_item :
    (index : ℕ) (m : RabbitMessage) (o : Outcome) → (outcome_item index m o).index ≡ index
unfolding outcome_item
index-outcome_item index m returned = refl
index-outcome_item index m settlement_error = refl
index-outcome_item index m transport_error = refl

module _ {W : Type 0} (call : ℕ → Settlement → W → W × Bool) where
  map-settle_each :
      (runtime : Runtime) (s : Settlement) (approved : List (ℕ × ℕ)) (store : Store) (w : W)
      → map index_of (settle_each call runtime s approved store w).0 ≡ map (λ x. x.0) approved
  unfolding settle_each
  map-settle_each runtime s [] store w = refl
  map-settle_each runtime s ((index, id) ∷ approved) store w =
      let (outcome, m, w') = settle_by call runtime id (store id) s w in
      ground (
        arith,
        map-settle_each runtime s approved (put_message id m store) w',
        index-outcome_item index m outcome,
      )

  -- Whatever the inputs are, messages in any state, duplicates and other objects, and whichever of the
  -- transport's calls raise: the report of `ack_many`, `nack_many` or `reject_many` has exactly one
  -- item for each input, in the order of the inputs.
  pub index-settle_many :
      (runtime : Runtime) (action : SettlementAction) (requeue : Option Bool) (fail_fast : Bool)
      (inputs : List (Option ℕ)) (store : Store) (w : W)
      → map index_of (settle_many call runtime action requeue fail_fast inputs store w).0.items
        ≡ count_from 0 (length inputs)
  unfolding settle_many settle_planned build_report plan_selected_settlement
  index-settle_many runtime action requeue fail_fast inputs store w =
      let plan = plan_selected_settlement store runtime fail_fast inputs in
      let items =
        (settle_each call runtime (settlement_of action requeue) plan.approved store w).0 in
      map-sort_by index_of (plan.rejected ++ items)
      ∙ ap sorted (
          map-append_lem plan.rejected items
          ∙ ap (◌++◌ (refused plan))
              (map-settle_each runtime (settlement_of action requeue) plan.approved store w))
      ∙ fail_fast_on-indices store fail_fast 0 (length inputs) (validate store runtime [] 0 inputs)
          (validate-Splits store runtime [] 0 inputs)
