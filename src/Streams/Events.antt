-- ===== src/Streams/Events.antt =====
-- The runs of a StreamOffsetTracker of core/streams.py.
use rabbitkit.Prelude.{
  ℕ, suc, ◌+◌, Bool, false, not, ◌&&◌, ◌||◌, Option, none, some, List, [], ◌∷◌, if◌then◌else◌, ◌==◌,
  is_some,
}
use rabbitkit.Streams.{
  StreamOffsetTracker, subscribed, begin_shutdown, track, settled, commit_target, commit_saved,
  commit_failed,
}

-- What happens to a tracker. Each subscription is on a new channel: its tags count from 1, and its
-- offsets ascend from some offset on, with gaps (`delivers` gives the gap). A commit waits for the
-- one in progress, by its lock. It is two events, its begin and the end of its save, which returns or
-- raises; settlements may come between.
pub data Event : Type 0 where
  subscribes : (now from : ℕ) → Event
  shuts_down : Event
  delivers : (gap : ℕ) → Event
  settles : (offset generation : ℕ) → (fails : Bool) → (now : ℕ) → Event
  begins_commit : Event
  ends_commit : (ok : Bool) → (now : ℕ) → Event

-- The tracker; the next tag and offset of the current subscription; of its deliveries, those that the
-- tracker was hooked to, the generation that they were hooked with, and those settled since, by an ack
-- or by a failure before the shutdown; and the commit in progress.
pub record Run : Type 0 where
  pub tracker : StreamOffsetTracker
  pub next_tag : ℕ
  pub next_offset : ℕ
  pub hook : Option ℕ
  pub delivered : ℕ → Bool
  pub done : ℕ → Bool
  pub saving : Option (ℕ × ℕ)

abbrev pub is_hook : Option ℕ → ℕ → Bool
is_hook none generation = false
is_hook (some g) generation = g == generation

-- A settlement of the current subscription that is not handed back at the shutdown.
abbrev pub counts : Run → ℕ → Bool → Bool
counts r generation fails = is_hook r.hook generation && not (fails && r.tracker.closing)

unfoldable pub after_save : StreamOffsetTracker → Option (ℕ × ℕ) → Bool → ℕ → StreamOffsetTracker
after_save t none ok now = t
after_save t (some (target, covered)) ok now =
    if ok then commit_saved t target covered now else commit_failed t

abbrev pub newer : Option ℕ → Option ℕ → Option ℕ
newer none old = old
newer (some g) old = some g

unfoldable pub happens : Run → Event → Run
unfolding after_save
happens r (subscribes now from) = record r {
  tracker = subscribed r.tracker now;
  next_tag = 1;
  next_offset = from;
  hook = none;
  delivered = λ u. false;
  done = λ u. false;
}
happens r shuts_down = record r { tracker = begin_shutdown r.tracker }
happens r (delivers gap) =
    let offset = r.next_offset + gap in
    let (t, hooked) = track r.tracker offset (some r.next_tag) in
    record r {
      tracker = t;
      next_tag = suc r.next_tag;
      next_offset = suc offset;
      hook = newer hooked r.hook;
      delivered = λ u. (is_some hooked && (u == offset)) || r.delivered u;
    }
happens r (settles offset generation fails now) = record r {
  tracker = (settled r.tracker offset generation fails now).0;
  done = λ u. (counts r generation fails && (u == offset)) || r.done u;
}
happens r begins_commit = record r {
  saving = elim r.saving [ none ↦ commit_target r.tracker | some x ↦ some x ];
}
happens r (ends_commit ok now) = record r {
  tracker = after_save r.tracker r.saving ok now;
  saving = none;
}

unfoldable pub all_happen : Run → List Event → Run
all_happen r [] = r
all_happen r (e ∷ es) = all_happen (happens r e) es

-- The first offset above a watermark.
abbrev pub next_of : Option ℕ → ℕ
next_of none = 0
next_of (some p) = suc p
