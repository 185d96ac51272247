-- ===== src/DeadLetter/Verified.antt =====
-- Proofs about core/dead_letter.py: what a positive answer of the guard rests on.
use rabbitkit.Prelude.{
  ℕ, suc, ◌+◌, ◌≡◌, refl, Bool, true, false, ◌&&◌, Option, none, some, List, [], ◌∷◌, arith,
  if◌then◌else◌, if_cases, leb, Text, same_text,
}
use rabbitkit.Prelude.Codes.{same_text_refl}
use rabbitkit.DeadLetter.{
  Check, Guard, Run, Event, declares, begins, ends, ProbeAnswer, exists, absent, failed, update,
  set_target, is_cached, found, not_found, check_from, check_to, check_answered, nth_check,
  to_verify, happens, run, start,
}

-- A probe found the target, in a check that began at most `ttl` before.
unfoldable pub vouched : ℕ → List Check → Text → ℕ → Bool
vouched ttl [] target now = false
vouched ttl ((u, t) ∷ ks) target now =
    let rest = vouched ttl ks target now in
    if same_text u target && leb now (t + ttl) then true else rest

unfoldable pub all_vouched : ℕ → List Check → List Check → Bool
all_vouched ttl positives [] = true
all_vouched ttl positives ((target, now) ∷ ks) =
    let rest = all_vouched ttl positives ks in
    if vouched ttl positives target now then rest else false

abbrev Sound : ℕ → Guard → List Check → Type 0
Sound ttl g positives =
    (target : Text) (now : ℕ)
    → is_cached target now g ≡ true
    → vouched ttl positives target now ≡ true

abbrev Good : ℕ → Run → Type 0
Good ttl s = Sound ttl s.guard s.positives × (all_vouched ttl s.positives s.allowed ≡ true)

-- To forget a key is sound.
forgotten-Sound :
    (ttl : ℕ) (k : Text) (g : Guard) (positives : List Check)
    → Sound ttl g positives
    → Sound ttl (record g { verified_until = update k 0 g.verified_until }) positives
unfolding is_cached
forgotten-Sound ttl k g positives h target now e = ground (arith, e, h target now)

all_vouched-more :
    (ttl : ℕ) (k : Check) (positives ks : List Check)
    → all_vouched ttl positives ks ≡ true
    → all_vouched ttl (k ∷ positives) ks ≡ true
unfolding all_vouched vouched
all_vouched-more ttl (u, t) positives [] h = h
all_vouched-more ttl (u, t) positives ((target, now) ∷ ks) h =
    ground (arith, h, all_vouched-more ttl (u, t) positives ks)

check_from-Good :
    (ttl : ℕ) (o : Option Text) (now : ℕ) (s : Run) → Good ttl s → Good ttl (check_from o now s)
unfolding check_from all_vouched is_cached
check_from-Good ttl none now s h = h
check_from-Good ttl (some target) now s (sound, good) =
    let g = s.guard in
    if_cases (Good ttl) (is_cached target now g) (record s { allowed = (target, now) ∷ s.allowed })
      (record s { guard = record g { probes = suc g.probes }; waiting = (target, now) ∷ s.waiting })
      (λ e. (sound, ground (arith, good, sound target now e))) (λ e. (sound, good))

found-Good :
    (ttl : ℕ) (target : Text) (now : ℕ) (s : Run)
    → Good ttl s
    → Good ttl (check_to ttl exists (target, now) s)
unfolding check_to found is_cached vouched all_vouched
found-Good ttl target now s (sound, good) = (
  λ j t e. ground (arith, e, sound j t),
  ground
      (arith, same_text_refl target, all_vouched-more ttl (target, now) s.positives s.allowed good),
)

check_to-Good :
    (ttl : ℕ) (answer : ProbeAnswer) (k : Check) (s : Run)
    → Good ttl s
    → Good ttl (check_to ttl answer k s)
unfolding check_to not_found is_cached
check_to-Good ttl exists (target, now) s h = found-Good ttl target now s h
check_to-Good ttl absent (target, now) s (sound, good) =
    (forgotten-Sound ttl target s.guard s.positives sound, good)
check_to-Good ttl failed (target, now) s (sound, good) =
    (forgotten-Sound ttl target s.guard s.positives sound, good)

check_answered-Good :
    (ttl : ℕ) (answer : ProbeAnswer) (o : Option Check) (s : Run)
    → Good ttl s
    → Good ttl (check_answered ttl answer o s)
unfolding check_answered
check_answered-Good ttl answer none s h = h
check_answered-Good ttl answer (some k) s h = check_to-Good ttl answer k s h

happens-Good : (ttl : ℕ) (e : Event) (s : Run) → Good ttl s → Good ttl (happens ttl e s)
unfolding happens set_target is_cached
happens-Good ttl (declares queue exchange key) s (sound, good) =
    (forgotten-Sound ttl queue s.guard s.positives sound, good)
happens-Good ttl (begins route now) s h = check_from-Good ttl (to_verify route s.guard) now s h
happens-Good ttl (ends n answer) s h = check_answered-Good ttl answer (nth_check n s.waiting) s h

run-Good : (ttl : ℕ) (es : List Event) (s : Run) → Good ttl s → Good ttl (run ttl es s)
unfolding run
run-Good ttl [] s h = h
run-Good ttl (e ∷ es) s h = run-Good ttl es (happens ttl e s) (happens-Good ttl e s h)

start-Good : (ttl : ℕ) → Good ttl start
unfolding start is_cached all_vouched
start-Good ttl = (λ target now e. ground (arith, e), refl)

-- However checks of many routes, their probes and declarations of queues interleave: each check
-- of a verifiable target that returned True has a probe that found the queue, in this check or in
-- one that read the clock at most `ttl` before it.
pub allowed-vouched :
    (ttl : ℕ) (es : List Event)
    → let s = run ttl es start in all_vouched ttl s.positives s.allowed ≡ true
allowed-vouched ttl es = (run-Good ttl es start (start-Good ttl)).1
