-- ===== src/Wire/Walked.antt =====
-- The invariant of the planning walk: what it sends so far is safe.
use rabbitkit.Prelude.{
  ℕ, suc, ◌≤◌, ◌<◌, ◌≡◌, refl, subst, Bool, true, false, not, ◌&&◌, inl, inr, List, [], ◌∷◌, ◌++◌,
  map, arith, All, All-append, leb→le, length, leb, ltb, ◌==◌, Bool-cases, last_or, or_default,
}
use rabbitkit.Prelude.Dict.{get}
use rabbitkit.Types.{SettlementAction, DeliveryState, success}
use rabbitkit.Coordinator.{Coordinator}
use rabbitkit.Plan.Walk.{
  SettlementCommand, Progress, ack_one, ack_run, return_one, run_commands, safe_part, rest_part,
  flush_run, visit_held, visit_ack_safe, visit_return, visit_blocking, visit_state,
}
use rabbitkit.Plan.Runs.{
  All-left, All-right, All-last_or, safe_part_below, safe-append-rest, Tags, Tags-below,
}
use rabbitkit.Plan.Order.{InOrder, flush_run_lem, run_commands-nil, run-flush}
use rabbitkit.Emit.{emit_one}
use rabbitkit.Broker.{names, is_ack}
use rabbitkit.Wire.{left_all, Safe, left_all-append, left_all_le, Safe-append, Safe-ack_one}

-- Below the gap, if there is one.
abbrev pub Low : Coordinator → ℕ → Type 0
Low c u = 0 < c.gap_floor → u < c.gap_floor

-- What holds of the walk up to the tags from `b` on.
pub record Walked (c : Coordinator) (approved unacked : ℕ → Bool) (b : ℕ) (w : Progress)
    : Type 0 where
  pub sent : Safe approved unacked w.commands
  pub clear :
      w.blocked ≡ false
      → (u : ℕ) → left_all unacked w.commands u ≡ true
      → u < b
      → Low c u
      → approved u ≡ true
  pub ready : All (λ t. approved t ≡ true) w.run

module _ (c : Coordinator) (force : Bool) (approved unacked : ℕ → Bool) where
  -- What a flush sends is safe where everything below `b` and the gap is approved.
  run_commands-Safe :
      (u : ℕ → Bool) (n b : ℕ) (run : List ℕ)
      → Tags n b run
      → All (λ t. approved t ≡ true) run
      → ((v : ℕ) → u v ≡ true → v < b → Low c v → approved v ≡ true)
      → Safe approved u (run_commands c force run)
  unfolding run_commands emit_one
  run_commands-Safe u n b run k a clear =
      elim (Bool-cases (c.coalesce && not force && leb 2 (length (safe_part c.gap_floor run)))) [
        | inl e ↦ rw e (together e)
        | inr e ↦ rw e (Safe-ack_one approved u c.generation run a)
      ]
    where
      safe : List ℕ
      safe = safe_part c.gap_floor run

      rest : List ℕ
      rest = rest_part c.gap_floor run

      pieces : safe ++ rest ≡ run
      pieces = safe-append-rest c.gap_floor n b run k

      together :
          (c.coalesce && not force && leb 2 (length safe)) ≡ true
          → Safe approved u (ack_run c.generation safe ∷ map (ack_one c.generation) rest)
      together e =
          let two : 2 ≤ length safe = ground arith in
          let below : All (λ t. t < b) safe =
            All-left _ safe rest (rw pieces (Tags-below n b run k)) in
          let last : last_or 0 safe < b = All-last_or (λ t. t < b) 0 safe (omega arith) below in
          (
            λ v h _ m.
                let reach : v ≤ last_or 0 safe = leb→le v (last_or 0 safe) m in
                clear v h (omega arith) λ gap. omega (
                  arith,
                  reach,
                  All-last_or (λ t. t < c.gap_floor) 0 safe (omega arith)
                      (safe_part_below c.gap_floor run gap),
                ),
            Safe-ack_one approved _ c.generation rest
                (All-right (λ t. approved t ≡ true) safe rest (rw pieces a)),
          )

  pub flush-Safe :
      (b : ℕ) (w : Progress)
      → InOrder b w
      → Walked c approved unacked b w
      → Safe approved unacked (flush_run c force w).commands
  flush-Safe b w o h = rw (flush_run_lem c force w w.run refl) (
      Safe-append approved unacked w.commands (run_commands c force w.run) h.sent
        (elim (Bool-cases w.blocked) [
          | inl e ↦ rw (o.idle e, run_commands-nil c force) tt
          | inr e ↦ run_commands-Safe _ o.middle b w.run o.run_within h.ready (h.clear e)
        ]))

  flush-left :
      (w : Progress) (u : ℕ)
      → left_all unacked (flush_run c force w).commands u ≡ true
      → left_all unacked w.commands u ≡ true
  flush-left w u = rw (flush_run_lem c force w w.run refl) λ e.
      left_all_le (left_all unacked w.commands) (run_commands c force w.run) u
        (rw (left_all-append unacked w.commands (run_commands c force w.run)) at e)

  flush-blocked : (w : Progress) → (flush_run c force w).blocked ≡ w.blocked
  flush-blocked w = rw (flush_run_lem c force w w.run refl)

  -- Tags that the ledger does not hold need no visit.
  pub Walked-mono :
      (b d : ℕ) (w : Progress)
      → ((u : ℕ) → unacked u ≡ true → b ≤ u → u < d → Low c u → approved u ≡ true)
      → Walked c approved unacked b w
      → Walked c approved unacked d w
  Walked-mono b d w skipped h = record {
    sent = h.sent;
    clear = λ e u l k low. elim (Bool-cases (ltb u b)) [
      | inl below ↦ h.clear e u l (ground arith) low
      | inr above ↦ skipped u (left_all_le unacked w.commands u l) (ground arith) k low
    ];
    ready = h.ready;
  }

  Walked-visit_held :
      (t : ℕ) (w : Progress)
      → approved t ≡ true
      → w.blocked ≡ true
      → Walked c approved unacked t w
      → Walked c approved unacked (suc t) (visit_held c force w t)
  unfolding visit_held emit_one
  Walked-visit_held t w a e h =
      let held = or_default (get w.hold t) 0 in
      elim (Bool-cases (c.coalesce && not force && ltb held c.max_hold)) [
        | inl hold ↦ rw hold (record { sent = h.sent; clear = λ f. cc; ready = h.ready })
        | inr send ↦ rw send (record {
          sent =
              Safe-append approved unacked w.commands (ack_one c.generation t ∷ []) h.sent
                (λ u _ _ n. ground arith, tt);
          clear = λ f. cc;
          ready = h.ready;
        })
      ]

  Walked-visit_ack_safe :
      (t : ℕ) (w : Progress)
      → approved t ≡ true
      → Walked c approved unacked t w
      → Walked c approved unacked (suc t) (visit_ack_safe c force w t)
  unfolding visit_ack_safe
  Walked-visit_ack_safe t w a h = elim (Bool-cases w.blocked) [
    | inl e ↦ simp e (Walked-visit_held t w a e h)
    | inr e ↦ simp e (record {
      sent = h.sent;
      clear = λ _ u l k low. elim (Bool-cases (ltb u t)) [
        | inl below ↦ h.clear e u l (ground arith) low
        | inr above ↦ let same : t ≡ u = ground arith in subst (λ v. approved v ≡ true) same a
      ];
      ready = All-append _ w.run (t ∷ []) h.ready (a, tt);
    })
  ]

  Walked-visit_return :
      (t : ℕ) (w : Progress) (kind : SettlementAction) (default : Bool)
      → is_ack (emit_one (return_one c t kind default)) ≡ false
      → ((u : ℕ) → names (emit_one (return_one c t kind default)) u ≡ (u == t))
      → InOrder t w
      → Walked c approved unacked t w
      → Walked c approved unacked (suc t) (visit_return c force w t kind default)
  unfolding visit_return
  Walked-visit_return t w kind default no_ack named o h = record {
    sent =
        Safe-append approved unacked (flush_run c force w).commands
          (return_one c t kind default ∷ []) (flush-Safe t w o h) (λ u _ k _. cc, tt);
    clear = λ e u l k low.
        let sent : List SettlementCommand = (flush_run c force w).commands in
        let both : (left_all unacked sent u && not (u == t)) ≡ true =
          rw (left_all-append unacked sent (return_one c t kind default ∷ []), named u) at l in
        h.clear (rw (← flush-blocked w) e) u (flush-left w u (ground arith)) (ground arith) low;
    ready = rw (run-flush c force w) tt;
  }

  pub Walked-visit_blocking :
      (b d : ℕ) (w : Progress)
      → InOrder b w
      → Walked c approved unacked b w
      → Walked c approved unacked d (visit_blocking c force w)
  unfolding visit_blocking
  Walked-visit_blocking b d w o h = record {
    sent = flush-Safe b w o h;
    clear = λ f. cc;
    ready = rw (run-flush c force w) tt;
  }

  pub Walked-visit_state :
      (t : ℕ) (w : Progress) (s : DeliveryState)
      → (s ≡ success → approved t ≡ true)
      → InOrder t w
      → Walked c approved unacked t w
      → Walked c approved unacked (suc t) (visit_state c force w t s)
  unfolding visit_state emit_one
  Walked-visit_state t w success a o h = Walked-visit_ack_safe t w (a refl) h
  Walked-visit_state t w DeliveryState.nack a o h =
      Walked-visit_return t w SettlementAction.nack true refl (λ u. refl) o h
  Walked-visit_state t w DeliveryState.reject a o h =
      Walked-visit_return t w SettlementAction.reject false refl (λ u. refl) o h
  Walked-visit_state t w _ a o h = Walked-visit_blocking t (suc t) w o h
