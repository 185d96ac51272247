-- ===== src/Streams/Deliveries.antt =====
-- `track` and `_settled` of a StreamOffsetTracker keep its invariant.
use rabbitkit.Prelude.{
  ℕ, ==_refl, ◌≤◌, ◌<◌, ◌≡◌, Bool, true, false, not, ◌&&◌, ◌||◌, Option, none, some, [], suc, ◌+◌,
  ◌⊎◌, refl, arith, if◌then◌else◌, ◌==◌, Bool-cases, if_cases, ltb, inl, inr,
}
use rabbitkit.Prelude.Dict.{Dict, get, has, put, get-put, keys-put_old, Above-put_new}
use rabbitkit.Streams.{
  StreamOffsetTracker, at_most, tag_at_most, restarted, renew, track, advance, moved, settled,
  commit_due,
}
use rabbitkit.Streams.Events.{delivers, settles, Run, happens, next_of, is_hook, counts}
use rabbitkit.Streams.Kept.{Advances, advance-Advances, IsKept, Fresh, Going}

at_most-lt :
    (u offset : ℕ) (last : Option ℕ)
    → at_most u last ≡ true
    → at_most offset last ≡ false
    → u < offset
unfolding at_most
at_most-lt u offset none h k = absurd (ground arith)
at_most-lt u offset (some l) h k = ground arith

le-next_of : (offset : ℕ) (p : Option ℕ) → at_most offset p ≡ false → next_of p ≤ offset
unfolding at_most
le-next_of offset none h = omega arith
le-next_of offset (some p) h = ground arith

-- A tracker told of the first delivery of a subscription sees that it is one, or has nothing pending;
-- told of a later one, it goes on.
restarted-Fresh :
    (r : Run) (offset : ℕ)
    → Fresh r
    → (restarted r.tracker offset (some r.next_tag) ≡ true) ⊎ (r.tracker.pending ≡ [])
unfolding restarted tag_at_most at_most
restarted-Fresh r offset (first, none_yet, no_hook, inl (tag, last, empty)) = inr empty
restarted-Fresh r offset (first, none_yet, no_hook, inr (l, tag, positive)) =
    inl (rw (tag, first) (ground (arith, positive)))

restarted-Going :
    (r : Run) (gap : ℕ)
    → Going r
    → restarted r.tracker (r.next_offset + gap) (some r.next_tag) ≡ false
unfolding restarted tag_at_most at_most
restarted-Going r gap ((p, tag, next, positive), (o, last, low), known, flagged, held) =
    rw (tag, last) (ground (arith, next, low))

-- The part of a delivery before it is hooked.
module _ (r : Run) (gap : ℕ) where
  abbrev offset : ℕ
  offset = r.next_offset + gap

  abbrev again : Bool
  again = restarted r.tracker offset (some r.next_tag)

  abbrev renewed : StreamOffsetTracker
  renewed = record (renew r.tracker again) { last_tag = some r.next_tag; last_offset = some offset }

  abbrev base : Run
  base = record r { tracker = renewed; next_tag = suc r.next_tag; next_offset = suc offset }

  renew-kept :
      ((renew r.tracker again).processed ≡ r.tracker.processed)
      × ((renew r.tracker again).committed ≡ r.tracker.committed)
  unfolding renew
  renew-kept = ground arith

  -- The first delivery finds nothing pending.
  renew-empty : Fresh r → renewed.pending ≡ []
  unfolding renew
  renew-empty f = elim (restarted-Fresh r offset f) [
    | inl e ↦ rw e refl
    | inr e ↦ ground (arith, e)
  ]

  Fresh-Going : Fresh r → Going base
  unfolding get
  Fresh-Going (first, none_yet, no_hook, seen) =
      let empty : renewed.pending ≡ [] = renew-empty (first, none_yet, no_hook, seen) in
      (
        (r.next_tag, refl, refl, ground (arith, first)),
        (offset, refl, omega arith),
        λ u h. absurd (ground (arith, h, none_yet u)),
        rw empty (λ u h. absurd (ground arith)),
        rw empty (λ u h. absurd (ground arith)),
      )

  Going-Going : Going r → Going base
  unfolding renew
  Going-Going ((p, tag, next, positive), (o, last, low), known, flagged, held) =
      rw (restarted-Going r gap ((p, tag, next, positive), (o, last, low), known, flagged, held)) (
        (r.next_tag, refl, refl, omega (arith, next)),
        (offset, refl, omega arith),
        known,
        flagged,
        held,
      )

  base-Going : IsKept r → Going base
  base-Going i = elim i.stage [ inl f ↦ Fresh-Going f | inr g ↦ Going-Going g ]

  Fresh-base : IsKept r → Fresh r → IsKept base
  unfolding get
  Fresh-base i f =
      let empty : renewed.pending ≡ [] = renew-empty f in
      let (same, committed) = renew-kept in
      record {
        ascending = rw empty tt;
        below = rw empty (λ u h. absurd (ground arith));
        stage = inr (Fresh-Going f);
        commits = rw (same, committed) i.commits;
        saves = rw same i.saves;
      }

  Going-base : IsKept r → Going r → IsKept base
  unfolding renew at_most
  Going-base i ((p, tag, next, positive), (o, last, low), known, flagged, held) =
      rw (restarted-Going r gap ((p, tag, next, positive), (o, last, low), known, flagged, held))
        (record {
          ascending = i.ascending;
          below = λ u h. ground (arith, i.below u h, last, low);
          stage = inr (
            (r.next_tag, refl, refl, omega (arith, next)),
            (offset, refl, omega arith),
            known,
            flagged,
            held,
          );
          commits = i.commits;
          saves = i.saves;
        })

  base-IsKept : IsKept r → IsKept base
  base-IsKept i = elim i.stage [ inl f ↦ Fresh-base i f | inr g ↦ Going-base i g ]

  Fresh-lt : Fresh r → (u : ℕ) → has renewed.pending u ≡ true → u < offset
  unfolding get
  Fresh-lt f = rw (renew-empty f) (λ u h. absurd (ground arith))

  Going-lt : IsKept r → Going r → (u : ℕ) → has renewed.pending u ≡ true → u < offset
  unfolding renew at_most
  Going-lt i ((p, tag, next, positive), (o, last, low), known, flagged, held) =
      rw (restarted-Going r gap ((p, tag, next, positive), (o, last, low), known, flagged, held))
        (λ u h. ground (arith, i.below u h, last, low))

  pending-lt : IsKept r → (u : ℕ) → has renewed.pending u ≡ true → u < offset
  pending-lt i = elim i.stage [ inl f ↦ Fresh-lt f | inr g ↦ Going-lt i g ]

-- A delivery on a subscription is going on.
hooked-Going :
    (r : Run) (d : Dict Bool) (offset : ℕ)
    → Going r
    → ((u : ℕ) → get d u ≡ (if offset == u then some false else get r.tracker.pending u))
    → Going (record r {
      tracker = record r.tracker { pending = d };
      hook = some r.tracker.generation;
      delivered = λ u. (u == offset) || r.delivered u;
    })
hooked-Going r d offset (tags, offsets, known, flagged, held) law = (
  tags,
  offsets,
  λ u h. ground (arith, law u, known u, h),
  λ u h. ground (arith, law u, flagged u, h),
  λ u h. ==_refl r.tracker.generation,
)

pub delivers-IsKept : (r : Run) (gap : ℕ) → IsKept r → IsKept (happens r (delivers gap))
unfolding happens track at_most
delivers-IsKept r gap i =
    let kept = base-IsKept r gap i in
    let g = base-Going r gap i in
    let t = renewed r gap in
    let n = offset r gap in
    elim (Bool-cases (at_most n t.processed)) [
      | inl e ↦ rw e kept
      | inr e ↦ rw e (record {
        ascending =
            Above-put_new (next_of t.processed) n false t.pending (le-next_of n t.processed e)
              (pending-lt r gap i) kept.ascending;
        below = λ u h. ground (arith, get-put n u false t.pending, kept.below u);
        stage = inr (
            hooked-Going (base r gap) (put n false t.pending) n g
              (λ u. get-put n u false t.pending));
        commits = kept.commits;
        saves = kept.saves;
      })
    ]

is_hook-same :
    (hook : Option ℕ) (g n : ℕ) → is_hook hook g ≡ true → (n == g) ≡ true → is_hook hook n ≡ true
is_hook-same none g n h e = absurd (ground (arith, h))
is_hook-same (some k) g n h e = ground (arith, h, e)

abbrev done_by : Run → ℕ → ℕ → Bool → ℕ → Bool
done_by r offset generation fails u = (counts r generation fails && (u == offset)) || r.done u

-- A settlement that changes nothing of the tracker.
idle-stage :
    (r : Run) (offset generation : ℕ) (fails : Bool)
    → Fresh r ⊎ Going r
    → let r' = record r { done = done_by r offset generation fails } in Fresh r' ⊎ Going r'
idle-stage r offset generation fails (inl f) = inl f
idle-stage r offset generation fails (inr (tags, offsets, known, flagged, held)) =
    inr (tags, offsets, λ u h. ground (arith, known u h), λ u h. ground (arith, flagged u h), held)

-- One that sets a flag, and lets the loop remove what is settled.
moved-stage :
    (r : Run) (after : Dict Bool × Option ℕ × ℕ) (offset generation : ℕ) (fails : Bool)
    → has r.tracker.pending offset ≡ true
    → (generation == r.tracker.generation) ≡ true
    → (fails && r.tracker.closing) ≡ false
    → Advances (put offset true r.tracker.pending) r.tracker.processed after
    → Fresh r ⊎ Going r
    → let r' = record r {
      tracker = moved r.tracker fails after;
      done = done_by r offset generation fails;
    } in
      Fresh r' ⊎ Going r'
unfolding moved get
moved-stage r after offset generation fails old same open_still a
      (inl (first, none_yet, no_hook, inl (tag, last, empty))) =
    let gone : has r.tracker.pending offset ≡ false = rw empty refl in
    absurd (ground (arith, old, gone))
moved-stage r after offset generation fails old same open_still a
      (inl (first, none_yet, no_hook, inr seen)) =
    inl (first, none_yet, no_hook, inr seen)
moved-stage r after offset generation fails old same open_still a
      (inr (tags, offsets, known, flagged, held)) =
    let d = r.tracker.pending in
    let hooked = is_hook-same r.hook r.tracker.generation generation (held offset old) same in
    let law : (u : ℕ) → get (put offset true d) u ≡ (if offset == u then some true else get d u) =
      λ u. get-put offset u true d in
    inr (
      tags,
      offsets,
      λ u h. ground (arith, a.gone u, law u, known u h, flagged u, hooked, open_still),
      λ u h. ground (arith, a.flags u h, law u, flagged u, hooked, open_still),
      λ u h. held u (ground (arith, a.less u h, law u, old)),
    )

pub settles-IsKept :
    (r : Run) (offset generation : ℕ) (fails : Bool) (now : ℕ)
    → IsKept r
    → IsKept (happens r (settles offset generation fails now))
unfolding happens settled moved
settles-IsKept r offset generation fails now i =
    let idle : IsKept (record r { done = done_by r offset generation fails }) = record {
      ascending = i.ascending;
      below = i.below;
      stage = idle-stage r offset generation fails i.stage;
      commits = i.commits;
      saves = i.saves;
    } in
    let d = r.tracker.pending in
    let after = advance (put offset true d) r.tracker.processed 0 in
    let t = moved r.tracker fails after in
    let P = λ (x : StreamOffsetTracker × Bool).
      IsKept (record r { tracker = x.0; done = done_by r offset generation fails }) in
    let done : StreamOffsetTracker × Bool = (t, ltb 0 after.2 && commit_due t now) in
    if_cases P (not (generation == r.tracker.generation) || not (has d offset)) (r.tracker, false)
      (if fails && r.tracker.closing then (r.tracker, false) else done) (λ e. idle)
      (λ e.
        if_cases P (fails && r.tracker.closing) (r.tracker, false) done (λ f. idle)
          (λ f.
            let old : has d offset ≡ true = ground (arith, e) in
            let same : (generation == r.tracker.generation) ≡ true = ground (arith, e) in
            let law : (u : ℕ)
                → get (put offset true d) u ≡ (if offset == u then some true else get d u) =
              λ u. get-put offset u true d in
            let a : Advances (put offset true d) r.tracker.processed after =
              advance-Advances (put offset true d) r.tracker.processed 0
                (rw (keys-put_old offset true d old) i.ascending) in
            record {
              ascending = a.above;
              below = λ u h. ground (arith, a.less u h, law u, i.below u);
              stage = moved-stage r after offset generation fails old same f a i.stage;
              commits = omega (arith, i.commits, a.grows);
              saves = omega (arith, i.saves, a.grows);
            }))
