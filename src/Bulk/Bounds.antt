-- ===== src/Bulk/Bounds.antt =====
-- Proofs about core/bulk_runner.py, `iter_publish_async`: the semaphore and the byte budget.
use rabbitkit.Prelude.{
  ℕ, zero, suc, ◌+◌, ◌≤◌, ◌≡◌, refl, ap, true, Option, none, some, List, [], ◌∷◌, arith, length,
  or_default, if_cases, Text,
}
use rabbitkit.Bulk.Preparation.{prepare, body_bytes}
use rabbitkit.Bulk.Run.{
  Options, InFlight, Operation, Ended, fresh_drained, fresh_only, next_index, Fate, overdue,
  no_room, granted, has_room, admit, meet, offered, nth_flight, without, one_done, Event, offers,
  settles, happens, run, start,
}

-- The bytes in flight.
unfoldable pub total : List InFlight → ℕ
total [] = 0
total (f ∷ fs) = f.bytes + total fs

-- The semaphore and the budget count what is in flight, and the budget is kept.
abbrev Bounded : Options → Operation → Type 0
Bounded c o =
    (o.slots + length o.running ≡ c.max_in_flight)
    × (o.used ≡ total o.running)
    × (o.used ≤ c.max_buffer_bytes)

admit-Bounded :
    (c : Options) (n : ℕ) (o : Operation)
    → has_room c n o ≡ true
    → Bounded c o
    → Bounded c (admit n o)
unfolding admit fresh_drained next_index has_room total
admit-Bounded c n o h (slots, used, below) =
    (ground (arith, h, slots), ground (arith, used), ground (arith, h))

meet-Bounded :
    (c : Options) (n : ℕ) (fate : Fate) (o : Operation) → Bounded c o → Bounded c (meet c n fate o)
unfolding meet fresh_drained fresh_only next_index
meet-Bounded c n overdue o h = h
meet-Bounded c n (no_room reason) o h = h
meet-Bounded c n granted o h =
    if_cases (Bounded c) (has_room c n o) (admit n o) o (λ e. admit-Bounded c n o e h) (λ e. h)

offered-Bounded :
    (c : Options) (n : ℕ) (reason : Option Text) (fate : Fate) (o : Operation)
    → Bounded c o
    → Bounded c (offered c n reason fate o)
unfolding offered fresh_drained next_index
offered-Bounded c n none fate o h = meet-Bounded c n fate o h
offered-Bounded c n (some reason) fate o h = h

length-without :
    (n : ℕ) (fs : List InFlight) (f : InFlight)
    → nth_flight n fs ≡ some f
    → (length fs ≡ suc (length (without n fs))) × (total fs ≡ f.bytes + total (without n fs))
unfolding without nth_flight total
length-without n [] f h = ground (arith, h)
length-without zero (g ∷ fs) f h =
    let path : g ≡ f = ap (λ o. or_default o g) h in
    (omega arith, ap (λ k. k.bytes + total fs) path)
length-without (suc n) (g ∷ fs) f h =
    let (l, t) = length-without n fs f h in (omega arith, omega arith)

one_done-Bounded :
    (c : Options) (n : ℕ) (a : Ended) (o : Operation) (found : Option InFlight)
    → ((f : InFlight)
        → found ≡ some f
        → (length o.running ≡ suc (length (without n o.running)))
          × (total o.running ≡ f.bytes + total (without n o.running)))
    → Bounded c o
    → Bounded c (one_done n found a o)
unfolding one_done
one_done-Bounded c n a o none out h = h
one_done-Bounded c n a o (some f) out (slots, used, below) =
    let (l, t) = out f refl in (omega arith, omega arith, omega arith)

happens-Bounded :
    (c : Options) (e : Event) (o : Operation) → Bounded c o → Bounded c (happens c e o)
unfolding happens
happens-Bounded c (offers raw fate) o h =
    offered-Bounded c (body_bytes raw) (prepare c.max_message_bytes c.max_buffer_bytes raw) fate o h
happens-Bounded c (settles n a) o h =
    one_done-Bounded c n a o (nth_flight n o.running) (length-without n o.running) h

run-Bounded : (c : Options) (es : List Event) (o : Operation) → Bounded c o → Bounded c (run c es o)
unfolding run
run-Bounded c [] o h = h
run-Bounded c (e ∷ es) o h = run-Bounded c es (happens c e o) (happens-Bounded c e o h)

start-Bounded : (c : Options) → Bounded c (start c)
unfolding start total
start-Bounded c = (omega arith, refl, omega arith)

-- At every point of a bulk operation, at most `max_in_flight` publishes are in flight, their bodies
-- have at most `max_buffer_bytes` bytes together, and the byte budget's count is exact.
pub in_flight-bounded :
    (c : Options) (es : List Event)
    → let o = run c es (start c) in
      (length o.running ≤ c.max_in_flight)
      × (total o.running ≤ c.max_buffer_bytes)
      × (o.used ≡ total o.running)
in_flight-bounded c es =
    let (slots, used, below) = run-Bounded c es (start c) (start-Bounded c) in
    (omega arith, omega arith, used)
