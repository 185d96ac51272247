-- ===== src/Bulk/Accounts.antt =====
-- Proofs about core/bulk_runner.py, `iter_publish_async`: how an operation ends.
use rabbitkit.Prelude.{
  ℕ, ◌≡◌, refl, true, ◌||◌, Option, List, [], ◌∷◌, ◌++◌, arith, if◌then◌else◌, ltb, ◌==◌, contains,
  if_cases, Bool-cases, Option-cases, inl, inr, Text, codes,
}
use rabbitkit.Prelude.Count.{sorted}
use rabbitkit.Prelude.Sort.{sort_by, insert_by}
use rabbitkit.Bulk.Run.{
  Options, InFlight, Operation, Ended, fresh_drained, late_items, abandoned, abandon, missing_from,
  sweep, none_running, finish, cancel, Event, run, start,
}
use rabbitkit.Bulk.Account.{
  times, has, has-append, once, fresh_items-Once, contains-fresh_items, contains-again,
}
use rabbitkit.Bulk.Tracked.{flies, Tracked, contains-drained, run-Tracked, start-Tracked}

contains-insert :
    (x : ℕ) (ns : List ℕ) (i : ℕ)
    → contains (insert_by (λ t. t) x ns) i ≡ ((x == i) || contains ns i)
unfolding insert_by
contains-insert x [] i = refl
contains-insert x (n ∷ ns) i = ground (arith, contains-insert x ns i)

contains-sorted : (ns : List ℕ) (i : ℕ) → contains (sorted ns) i ≡ contains ns i
unfolding sort_by
contains-sorted [] i = refl
contains-sorted (n ∷ ns) i = ground (arith, contains-insert n (sorted ns) i, contains-sorted ns i)

has-missing_from :
    (reported ns : List ℕ) (i : ℕ)
    → (contains reported i || has (missing_from reported ns) i)
      ≡ (contains reported i || contains ns i)
unfolding has missing_from
has-missing_from reported [] i = refl
has-missing_from reported (n ∷ ns) i = elim (Bool-cases (contains reported n)) [
  | inl e ↦ ground (arith, e, contains-again reported n i e, has-missing_from reported ns i)
  | inr e ↦ ground (arith, e, has-missing_from reported ns i)
]

has-late_items :
    (late : InFlight → Option Ended) (fs : List InFlight) (i : ℕ)
    → has (late_items late fs) i ≡ true
    → flies fs i ≡ true
unfolding has late_items flies
has-late_items late [] i h = h
has-late_items late (f ∷ fs) i h = elim (Option-cases (late f)) [
  | inl e ↦ ground (arith, h, e, has-late_items late fs i)
  | inr (a, e) ↦ ground (arith, h, e, has-late_items late fs i)
]

has-abandoned :
    (reason : Text) (fs : List InFlight) (i : ℕ)
    → has (abandoned reason fs) i ≡ true
    → flies fs i ≡ true
unfolding has flies
has-abandoned reason [] i h = h
has-abandoned reason (f ∷ fs) i h = ground (arith, h, has-abandoned reason fs i)

pub drained-Tracked : (o : Operation) → Tracked o → Tracked (fresh_drained [] o)
unfolding fresh_drained has
drained-Tracked o (once, below, covered) = (
  fresh_items-Once o.finished o.report once,
  λ i h. ground (arith, h, below i, contains-drained [] o i),
  λ i h. ground (arith, h, covered i, contains-drained [] o i),
)

abandon-Tracked :
    (reason : Text) (late : InFlight → Option Ended) (o : Operation)
    → Tracked o
    → Tracked (abandon reason late o)
unfolding abandon has flies
abandon-Tracked reason late o (once, below, covered) =
    let later = late_items late o.running in
    let left = abandoned reason o.running in
    let xs = o.finished ++ later ++ left in
    (
      fresh_items-Once xs o.report once,
      λ i h. ground (
        arith,
        h,
        below i,
        contains-fresh_items xs o.report i,
        has-append (o.finished ++ later) left i,
        has-append o.finished later i,
        has-late_items late o.running i,
        has-abandoned reason o.running i,
      ),
      λ i h. ground (arith, h, covered i, contains-fresh_items xs o.report i),
    )

-- Nothing is missing after the last pass.
abbrev Accounts : ℕ → Operation → Type 0
Accounts n o = (i : ℕ) → times i o.report.items ≡ once (ltb i n)

sweep-Accounts : (o : Operation) → Tracked o → Accounts o.index (sweep o)
unfolding sweep fresh_drained has
sweep-Accounts o (whole, below, covered) i =
    let lost = missing_from o.report.reported (sorted o.admitted) in
    ground (
      arith,
      fresh_items-Once (lost ++ o.finished) o.report whole i,
      contains-drained lost o i,
      has-missing_from o.report.reported (sorted o.admitted) i,
      contains-sorted o.admitted i,
      below i,
      covered i,
    )

finish-Accounts :
    (late : InFlight → Option Ended) (o : Operation) → Tracked o → Accounts o.index (finish late o)
unfolding finish fresh_drained abandon
finish-Accounts late o h =
    let drained = fresh_drained [] o in
    let ended = abandon (codes "overall_timeout") late drained in
    let tracked = drained-Tracked o h in
    if_cases (λ d. Accounts o.index (sweep d)) (none_running o.running) drained ended
      (λ e. sweep-Accounts drained tracked)
      (λ e. sweep-Accounts ended (abandon-Tracked (codes "overall_timeout") late drained tracked))

cancel-Accounts :
    (late : InFlight → Option Ended) (o : Operation) → Tracked o → Accounts o.index (cancel late o)
unfolding cancel abandon
cancel-Accounts late o h =
    sweep-Accounts (abandon (codes "cancelled") late o)
      (abandon-Tracked (codes "cancelled") late o h)

-- Whatever the transport answers, and in whatever order publishes settle between the inputs,
-- a bulk operation accounts for each input that it took up with exactly one item, and for no
-- other: when it ends after its inputs, and when it is cancelled at any point, also if tasks that
-- are being abandoned end with an outcome of their own.
pub accounts-once :
    (c : Options) (es : List Event) (late : InFlight → Option Ended) (i : ℕ)
    → let o = run c es (start c) in
      (times i (finish late o).report.items ≡ (if ltb i o.index then 1 else 0))
      × (times i (cancel late o).report.items ≡ (if ltb i o.index then 1 else 0))
accounts-once c es late i =
    let tracked = run-Tracked c es (start c) (start-Tracked c) in
    (
      finish-Accounts late (run c es (start c)) tracked i,
      cancel-Accounts late (run c es (start c)) tracked i,
    )
