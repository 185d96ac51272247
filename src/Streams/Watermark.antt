-- ===== src/Streams/Watermark.antt =====
-- The watermark of a stream route passes no delivery that is still to be settled.
use rabbitkit.Prelude.{ℕ, Bool, false, Option, none}
use rabbitkit.Streams.{init}
use rabbitkit.Streams.Events.{Run}

-- A new tracker, whose store holds `stored`.
abbrev pub start : ℕ → Option ℕ → Bool → Option ℕ → ℕ → Run
start commit_every commit_interval from_now stored now = record {
  tracker = init commit_every commit_interval from_now stored now;
  next_tag = 1;
  next_offset = 0;
  hook = none;
  delivered = λ u. false;
  done = λ u. false;
  saving = none;
}
