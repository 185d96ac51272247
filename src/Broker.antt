-- ===== src/Broker.antt =====
-- What the broker does with settlement frames, as AMQP documents it. The broker is not part of the
-- repository: it is a parameter, of which the development uses the laws below.
use rabbitkit.Prelude.{ℕ, ◌≡◌, refl, ◌&&◌, ◌||◌, Bool, true, false, not, if◌then◌else◌, leb, ◌==◌}
use rabbitkit.Emit.{Frame}

-- The delivery tags that a frame names: a cumulative ack names all up to its tag.
abbrev pub names : Frame → ℕ → Bool
names (Frame.ack tag multiple) u = if multiple then leb u tag else u == tag
names (Frame.nack tag requeue) u = u == tag
names (Frame.reject tag requeue) u = u == tag

abbrev pub is_ack : Frame → Bool
is_ack (Frame.ack tag multiple) = true
is_ack _ = false

-- The channel as the broker sees it. A frame settles the unacknowledged deliveries that it names,
-- and acknowledges them if it is an ack; `deliver` adds one delivery.
pub record Broker : Type 1 where
  pub Channel : Type 0
  pub opened : Channel
  pub unacked : Channel → ℕ → Bool
  pub acked : Channel → ℕ → Bool
  pub receive : Frame → Channel → Channel
  pub deliver : ℕ → Channel → Channel
  pub unacked-opened : (u : ℕ) → unacked opened u ≡ false
  pub acked-opened : (u : ℕ) → acked opened u ≡ false
  pub unacked-receive :
      (f : Frame) (ch : Channel) (u : ℕ)
      → unacked (receive f ch) u ≡ (unacked ch u && not (names f u))
  pub acked-receive :
      (f : Frame) (ch : Channel) (u : ℕ)
      → acked (receive f ch) u ≡ (acked ch u || (is_ack f && (unacked ch u && names f u)))
  pub unacked-deliver :
      (tag : ℕ) (ch : Channel) (u : ℕ) → unacked (deliver tag ch) u ≡ ((u == tag) || unacked ch u)
  pub acked-deliver : (tag : ℕ) (ch : Channel) (u : ℕ) → acked (deliver tag ch) u ≡ acked ch u

-- A broker that keeps two sets, which shows that the laws can hold.
abbrev TwoSets : Type 0
TwoSets = record { unacked : ℕ → Bool; acked : ℕ → Bool }

abbrev pub two_sets : Broker
two_sets = record {
  Channel = TwoSets;
  opened = record { unacked = λ u. false; acked = λ u. false };
  unacked = λ ch u. ch.unacked u;
  acked = λ ch u. ch.acked u;
  receive = λ f ch. record {
    unacked = λ u. ch.unacked u && not (names f u);
    acked = λ u. ch.acked u || (is_ack f && (ch.unacked u && names f u));
  };
  deliver = λ tag ch. record { unacked = λ u. (u == tag) || ch.unacked u; acked = ch.acked };
  unacked-opened = λ u. refl;
  acked-opened = λ u. refl;
  unacked-receive = λ f ch u. refl;
  acked-receive = λ f ch u. refl;
  unacked-deliver = λ tag ch u. refl;
  acked-deliver = λ tag ch u. refl;
}
