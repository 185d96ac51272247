-- ===== src/Streams.antt =====
-- core/streams.py, class StreamOffsetTracker: the position of one stream route. Times, of the
-- monotonic and the wall clock, are arguments in seconds, and `save` is the offset store's.
pub mod Events
pub mod Kept
pub mod Deliveries
pub mod Watermark
mod Examples
use rabbitkit.Prelude.{
  ℕ, suc, ◌+◌, ◌-◌, Bool, true, false, not, ◌&&◌, ◌||◌, Option, none, some, List, [], ◌∷◌,
  if◌then◌else◌, ltb, leb, ◌==◌, or_default,
}
use rabbitkit.Prelude.Dict.{Dict, get, has, put}

-- The value of the `x-stream-offset` argument: the configured one, an offset, or a time.
pub data Resume : Type 0 where
  configured : Resume
  at_offset at_time : ℕ → Resume

pub record StreamOffsetTracker : Type 0 where
  pub commit_every : ℕ
  pub commit_interval : Option ℕ
  -- The configured offset is "next" or "last".
  pub from_now : Bool
  pub processed : Option ℕ
  pub committed : Option ℕ
  pub pending : Dict Bool
  pub last_tag : Option ℕ
  pub last_offset : Option ℕ
  pub generation : ℕ
  pub since_commit : ℕ
  pub last_commit_at : ℕ
  pub closing : Bool
  pub subscribed_at : Option ℕ
  pub resume : Resume
  pub commit_failures : ℕ
  pub failed : ℕ

unfoldable pub resume_of : Option ℕ → Resume
resume_of none = configured
resume_of (some stored) = at_offset (stored + 1)

unfoldable pub init : ℕ → Option ℕ → Bool → Option ℕ → ℕ → StreamOffsetTracker
unfolding resume_of
init commit_every commit_interval from_now stored now = record {
  commit_every = commit_every;
  commit_interval = commit_interval;
  from_now = from_now;
  processed = stored;
  committed = stored;
  pending = [];
  last_tag = none;
  last_offset = none;
  generation = 0;
  since_commit = 0;
  last_commit_at = now;
  closing = false;
  subscribed_at = none;
  resume = resume_of stored;
  commit_failures = 0;
  failed = 0;
}

-- `RESUBSCRIBE_CLOCK_MARGIN`, in seconds
abbrev pub clock_margin : ℕ
clock_margin = 5

-- The resume argument after a subscription that was first made at `since`.
resubscribe_from : StreamOffsetTracker → ℕ → Resume
resubscribe_from t since = elim t.processed [
  | none ↦ if t.from_now then at_time (since - clock_margin) else t.resume
  | some _ ↦ t.resume
]

unfoldable pub subscribed : StreamOffsetTracker → ℕ → StreamOffsetTracker
unfolding resubscribe_from
subscribed t now =
    let since = or_default t.subscribed_at now in
    record t { closing = false; subscribed_at = some since; resume = resubscribe_from t since }

unfoldable pub begin_shutdown : StreamOffsetTracker → StreamOffsetTracker
begin_shutdown t = record t { closing = true }

-- `n` is given, `bound` is known, and `n <= bound`
unfoldable pub at_most : ℕ → Option ℕ → Bool
at_most n none = false
at_most n (some bound) = leb n bound

unfoldable pub tag_at_most : Option ℕ → Option ℕ → Bool
unfolding at_most
tag_at_most none bound = false
tag_at_most (some tag) bound = at_most tag bound

-- A tag or an offset that does not increase: a new subscription.
unfoldable pub restarted : StreamOffsetTracker → ℕ → Option ℕ → Bool
unfolding tag_at_most at_most
restarted t offset tag = tag_at_most tag t.last_tag || at_most offset t.last_offset

-- A new subscription forgets the deliveries of the old one.
unfoldable pub renew : StreamOffsetTracker → Bool → StreamOffsetTracker
renew t again = if again then record t { generation = t.generation + 1; pending = [] } else t

-- The tracker after the delivery, and the generation that its settlement is hooked with, if it is.
unfoldable pub track : StreamOffsetTracker → ℕ → Option ℕ → StreamOffsetTracker × Option ℕ
unfolding restarted renew
track t offset tag =
    let t' = record (renew t (restarted t offset tag)) {
      last_tag = tag;
      last_offset = some offset;
    } in
    if at_most offset t'.processed
    then (t', none)
    else (record t' { pending = put offset false t'.pending }, some t'.generation)

-- The loop that advances over settled deliveries: what is left, the watermark, and the count.
unfoldable pub advance : Dict Bool → Option ℕ → ℕ → Dict Bool × Option ℕ × ℕ
advance [] processed advanced = ([], processed, advanced)
advance ((first, true) ∷ pending) processed advanced = advance pending (some first) (advanced + 1)
advance ((first, false) ∷ pending) processed advanced =
    ((first, false) ∷ pending, processed, advanced)

unfoldable pub commit_due : StreamOffsetTracker → ℕ → Bool
commit_due t now = leb t.commit_every t.since_commit || (elim t.commit_interval [
  | none ↦ false
  | some interval ↦ leb interval (now - t.last_commit_at)
])

-- The tracker after the loop of `_settled`.
unfoldable pub moved : StreamOffsetTracker → Bool → Dict Bool × Option ℕ × ℕ → StreamOffsetTracker
unfolding resume_of
moved t fails (pending, processed, advanced) = record t {
  pending = pending;
  processed = processed;
  failed = if fails then t.failed + 1 else t.failed;
  resume = if ltb 0 advanced then resume_of processed else t.resume;
  since_commit = t.since_commit + advanced;
}

-- `_settled`, whose second part says that a commit is due.
unfoldable pub settled : StreamOffsetTracker → ℕ → ℕ → Bool → ℕ → StreamOffsetTracker × Bool
unfolding moved advance commit_due
settled t offset generation fails now =
    if not (generation == t.generation) || not (has t.pending offset)
    then (t, false)
    else if fails && t.closing
    then (t, false)
    else let progress = advance (put offset true t.pending) t.processed 0 in
      let t' = moved t fails progress in (t', ltb 0 progress.2 && commit_due t' now)

-- The first part of `commit`: the offset to save, and the settlements that it covers.
unfoldable pub commit_target : StreamOffsetTracker → Option (ℕ × ℕ)
unfolding at_most
commit_target t = elim t.processed [
  | none ↦ none
  | some target ↦ if at_most target t.committed then none else some (target, t.since_commit)
]

-- Its last part, when the save returned, and when it raised.
unfoldable pub commit_saved : StreamOffsetTracker → ℕ → ℕ → ℕ → StreamOffsetTracker
commit_saved t target covered now = record t {
  committed = some target;
  since_commit = t.since_commit - covered;
  last_commit_at = now;
}

unfoldable pub commit_failed : StreamOffsetTracker → StreamOffsetTracker
commit_failed t = record t { commit_failures = t.commit_failures + 1 }

module _ {W : Type 0} (save : ℕ → W → W × Bool) where
  save_target : StreamOffsetTracker → ℕ → ℕ → ℕ → W → StreamOffsetTracker × W
  save_target t target covered now w =
      let (w', ok) = save target w in
      (if ok then commit_saved t target covered now else commit_failed t, w')

  -- `commit`, and `flush`, with no settlement while the save runs.
  unfoldable pub commit : StreamOffsetTracker → ℕ → W → StreamOffsetTracker × W
  unfolding save_target
  commit t now w = elim (commit_target t) [
    | none ↦ (t, w)
    | some (target, covered) ↦ save_target t target covered now w
  ]
