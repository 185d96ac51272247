-- ===== src/Bulk/Tracked.antt =====
-- Proofs about core/bulk_runner.py, `iter_publish_async`: every input is reported, or admitted and
-- on its way to a report.
use rabbitkit.Prelude.{
  ℕ, zero, suc, ◌<◌, ◌≡◌, refl, ap, Bool, true, false, ◌||◌, Option, none, some, List, [], ◌∷◌,
  ◌++◌, arith, ◌==◌, contains, if_cases, Text, codes, subst, or_default, ==_refl,
}
use rabbitkit.Bulk.Preparation.{prepare, body_bytes}
use rabbitkit.Bulk.{Item, Verdict, bulk_not_sent, invalid, verdict}
use rabbitkit.Bulk.Run.{
  Options, InFlight, Operation, item, Ended, verdict_of, fresh_drained, fresh_only, next_index,
  Fate, overdue, no_room, granted, has_room, admit, meet, offered, nth_flight, without, one_done,
  Event, offers, settles, happens, run, start,
}
use rabbitkit.Bulk.Account.{times, has, has-append, Once, fresh_items-Once, contains-fresh_items}

unfoldable pub flies : List InFlight → ℕ → Bool
flies [] i = false
flies (f ∷ fs) i = (f.index == i) || flies fs i

-- An input that the operation has taken up.
abbrev pub taken : Operation → ℕ → Bool
taken o i =
    contains o.report.reported i || contains o.admitted i || has o.finished i || flies o.running i

-- What was taken up is below the next index, and what is below it is reported or admitted.
abbrev pub Tracked : Operation → Type 0
Tracked o =
    Once o.report
    × ((i : ℕ) → taken o i ≡ true → i < o.index)
    × ((i : ℕ) → i < o.index → (contains o.report.reported i || contains o.admitted i) ≡ true)

pub contains-drained :
    (xs : List Item) (o : Operation) (i : ℕ)
    → contains (fresh_drained xs o).report.reported i
      ≡ (contains o.report.reported i || (has xs i || has o.finished i))
unfolding fresh_drained
contains-drained xs o i =
    ground (arith, contains-fresh_items (xs ++ o.finished) o.report i, has-append xs o.finished i)

-- An input that is reported at once.
drained-Tracked :
    (v : Verdict) (o : Operation)
    → Tracked o
    → Tracked (next_index (fresh_drained (item o.index v ∷ []) o))
unfolding fresh_drained next_index has
drained-Tracked v o (once, below, covered) = (
  fresh_items-Once (item o.index v ∷ o.finished) o.report once,
  λ i h. ground (arith, h, below i, contains-drained (item o.index v ∷ []) o i),
  λ i h. ground (arith, h, covered i, contains-drained (item o.index v ∷ []) o i),
)

reported-Tracked :
    (v : Verdict) (o : Operation)
    → Tracked o
    → Tracked (next_index (fresh_only (item o.index v ∷ []) o))
unfolding fresh_only next_index has
reported-Tracked v o (once, below, covered) = (
  fresh_items-Once (item o.index v ∷ []) o.report once,
  λ i h. ground (arith, h, below i, contains-fresh_items (item o.index v ∷ []) o.report i),
  λ i h. ground (arith, h, covered i, contains-fresh_items (item o.index v ∷ []) o.report i),
)

admit-Tracked : (n : ℕ) (o : Operation) → Tracked o → Tracked (admit n o)
unfolding admit fresh_drained next_index has flies
admit-Tracked n o (once, below, covered) = (
  fresh_items-Once o.finished o.report once,
  λ i h. ground (arith, h, below i, contains-drained [] o i),
  λ i h. ground (arith, h, covered i, contains-drained [] o i),
)

meet-Tracked :
    (c : Options) (n : ℕ) (fate : Fate) (o : Operation) → Tracked o → Tracked (meet c n fate o)
unfolding meet
meet-Tracked c n overdue o h =
    reported-Tracked (verdict bulk_not_sent (codes "overall_timeout")) o h
meet-Tracked c n (no_room reason) o h = drained-Tracked (verdict bulk_not_sent reason) o h
meet-Tracked c n granted o h =
    if_cases Tracked (has_room c n o) (admit n o) o (λ e. admit-Tracked n o h) (λ e. h)

offered-Tracked :
    (c : Options) (n : ℕ) (reason : Option Text) (fate : Fate) (o : Operation)
    → Tracked o
    → Tracked (offered c n reason fate o)
unfolding offered
offered-Tracked c n none fate o h = meet-Tracked c n fate o h
offered-Tracked c n (some reason) fate o h = drained-Tracked (verdict invalid reason) o h

flies-without :
    (n : ℕ) (fs : List InFlight) (i : ℕ) → flies (without n fs) i ≡ true → flies fs i ≡ true
unfolding flies without
flies-without n [] i h = h
flies-without zero (f ∷ fs) i h = ground (arith, h)
flies-without (suc n) (f ∷ fs) i h = ground (arith, h, flies-without n fs i)

flies-nth_flight :
    (n : ℕ) (fs : List InFlight) (f : InFlight) → nth_flight n fs ≡ some f → flies fs f.index ≡ true
unfolding flies nth_flight
flies-nth_flight n [] f h = ground (arith, h)
flies-nth_flight zero (g ∷ fs) f h =
    let path : g ≡ f = ap (λ o. or_default o g) h in
    subst (λ k. flies (g ∷ fs) k.index ≡ true) path (ground (arith, ==_refl g.index))
flies-nth_flight (suc n) (g ∷ fs) f h = ground (arith, flies-nth_flight n fs f h)

one_done-Tracked :
    (n : ℕ) (found : Option InFlight) (a : Ended) (o : Operation)
    → ((f : InFlight) → found ≡ some f → flies o.running f.index ≡ true)
    → Tracked o
    → Tracked (one_done n found a o)
unfolding one_done has
one_done-Tracked n none a o known h = h
one_done-Tracked n (some f) a o known (once, below, covered) = (
  once,
  λ i h. ground (
    arith,
    h,
    below i,
    below f.index,
    known f refl,
    flies-without n o.running i,
    has-append o.finished (item f.index (verdict_of a) ∷ []) i,
  ),
  covered,
)

happens-Tracked : (c : Options) (e : Event) (o : Operation) → Tracked o → Tracked (happens c e o)
unfolding happens
happens-Tracked c (offers raw fate) o h =
    offered-Tracked c (body_bytes raw) (prepare c.max_message_bytes c.max_buffer_bytes raw) fate o h
happens-Tracked c (settles n a) o h =
    one_done-Tracked n (nth_flight n o.running) a o (flies-nth_flight n o.running) h

pub run-Tracked : (c : Options) (es : List Event) (o : Operation) → Tracked o → Tracked (run c es o)
unfolding run
run-Tracked c [] o h = h
run-Tracked c (e ∷ es) o h = run-Tracked c es (happens c e o) (happens-Tracked c e o h)

pub start-Tracked : (c : Options) → Tracked (start c)
unfolding start has flies times
start-Tracked c = (λ i. refl, λ i h. ground (arith, h), λ i h. ground (arith, h))
