-- ===== src/Wire/Honest.antt =====
-- A command of a plan says truly which deliveries its frame settles.
use rabbitkit.Prelude.{ℕ, ◌≡◌, Bool, true, All, All-mono, le→leb, ==_refl, last_or}
use rabbitkit.Types.{success}
use rabbitkit.Coordinator.{Coordinator}
use rabbitkit.Coordinator.Invariant.{IsLedger}
use rabbitkit.Plan.Walk.{SettlementCommand, plan_locked}
use rabbitkit.Plan.Runs.{Tags-le_last}
use rabbitkit.Plan.Frames.{IsFree, Rules, plan_locked-All}
use rabbitkit.Emit.{emit_one}
use rabbitkit.Broker.{names, is_ack}

-- The frame names all that the command covers, and an ack covers approved deliveries only.
pub record Honest (approved : ℕ → Bool) (command : SettlementCommand) : Type 0 where
  pub named : All (λ t. names (emit_one command) t ≡ true) command.covers
  pub fine : is_ack (emit_one command) ≡ true → All (λ t. approved t ≡ true) command.covers

module _ (c : Coordinator) (force : Bool) (approved : ℕ → Bool) where
  Honest-rules :
      ((t : ℕ) → IsFree c success t → approved t ≡ true) → Rules c force (Honest approved)
  unfolding emit_one
  Honest-rules ok = record {
    one = λ t f. record { named = (==_refl t, tt); fine = λ _. (ok t f, tt) };
    nacked = λ t f. record { named = (==_refl t, tt); fine = λ e. cc };
    rejected = λ t f. record { named = (==_refl t, tt); fine = λ e. cc };
    many = λ n b ts _ _ k a _. record {
      named = All-mono _ _ ts (λ t h. le→leb t (last_or 0 ts) h) (Tags-le_last n b 0 ts k);
      fine = λ _. All-mono _ _ ts ok a;
    };
  }

  -- If the ledger is well formed and each SUCCESS entry of it that is not reserved is approved, then the
  -- frame of each command of a plan names every tag that the command covers, and those of an ack are
  -- all approved.
  pub plan_locked-Honest :
      IsLedger c
      → ((t : ℕ) → IsFree c success t → approved t ≡ true)
      → All (Honest approved) (plan_locked c force).0
  plan_locked-Honest i ok = plan_locked-All c force (Honest approved) (Honest-rules ok) i

pub Honest-mono :
    (approved approved' : ℕ → Bool)
    → ((u : ℕ) → approved u ≡ true → approved' u ≡ true)
    → (x : SettlementCommand) → Honest approved x
    → Honest approved' x
Honest-mono approved approved' more x h = record {
  named = h.named;
  fine = λ e. All-mono _ _ x.covers more (h.fine e);
}
