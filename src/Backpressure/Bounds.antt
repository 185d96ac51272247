-- ===== src/Backpressure/Bounds.antt =====
-- FlowController under any interleaving of callers.
use rabbitkit.Prelude.{
  ℕ, zero, suc, ◌≤◌, ◌<◌, ◌≡◌, ◌≢◌, ◌⊎◌, refl, if_cases, not, ◌&&◌, if◌then◌else◌, ◌-◌, Bool, true,
  false, Option, none, some, List, [], ◌∷◌, arith, ltb, Bool-cases, inl, inr,
}
use rabbitkit.Backpressure.{
  TokenBucket, acquire_token, FlowController, new_controller, on_blocked, on_unblocked,
  release_slot, take_slot, Policy, waits, raises, drops, Phase, entering, checking, block_pressed,
  rate_pressed, slot_pressed, has_token, acquired, dropped, raised, check_rate, check, handle_rate,
  wait_token, claim_slot, acquire_step, enter, handle, slot_lost, wait_event,
}

-- A step of one of the callers, a release, or a notification of the broker.
pub data Event : Type 0 where
  acts : Policy → Bool → ℕ → Phase → Event
  releases blocks unblocks : Event

unfoldable pub happens : FlowController → Event → FlowController
happens f (acts policy expired now phase) = (acquire_step policy expired now f phase).0
happens f releases = release_slot f
happens f blocks = on_blocked f
happens f unblocks = on_unblocked f

unfoldable pub is_acquired : Phase → Bool
is_acquired acquired = true
is_acquired _ = false

-- Whether a step grants its caller a publish.
unfoldable pub grants : FlowController → Event → Bool
unfolding is_acquired
grants f (acts policy expired now phase) =
    not (is_acquired phase) && is_acquired (acquire_step policy expired now f phase).1
grants f _ = false

-- The publishes that were granted and not released since.
unfoldable pub held_after : FlowController → Event → ℕ → ℕ
unfolding grants
held_after f releases held = held - 1
held_after f e held = if grants f e then suc held else held

unfoldable pub all_happen : FlowController → ℕ → List Event → FlowController × ℕ
unfolding happens held_after
all_happen f held [] = (f, held)
all_happen f held (e ∷ es) = all_happen (happens f e) (held_after f e held) es

-- At most `max_in_flight` are in flight, and a cleared event means that there is no free slot.
pub record IsBounded (f : FlowController) : Type 0 where
  pub bound : f.in_flight ≤ f.max_in_flight
  pub awake : (f.slot_event ≡ true) ⊎ (f.max_in_flight ≤ f.in_flight)

take_slot-IsBounded :
    (f : FlowController) → IsBounded f → f.in_flight < f.max_in_flight → IsBounded (take_slot f)
unfolding take_slot
take_slot-IsBounded f i h = record { bound = omega arith; awake = ground (arith, i.awake) }

check_rate-IsBounded :
    (f : FlowController) (limiter : Option TokenBucket) (now : ℕ)
    → IsBounded f
    → f.in_flight < f.max_in_flight
    → IsBounded (check_rate f limiter now).0
unfolding check_rate
check_rate-IsBounded f none now i h = take_slot-IsBounded f i h
check_rate-IsBounded f (some b) now i h =
    let (b', taken) = acquire_token b now in
    let g : FlowController = record f { rate_limiter = some b' } in
    let j : IsBounded g = record { bound = i.bound; awake = i.awake } in
    elim (Bool-cases taken) [ inl e ↦ rw e (take_slot-IsBounded g j h) | inr e ↦ rw e j ]

check-IsBounded : (f : FlowController) (now : ℕ) → IsBounded f → IsBounded (check f now).0
unfolding check
check-IsBounded f now i = elim (Bool-cases (ltb f.in_flight f.max_in_flight)) [
  | inl e ↦ rw e (check_rate-IsBounded f f.rate_limiter now i (ground arith))
  | inr e ↦ rw e (record { bound = i.bound; awake = inr (ground arith) })
]

claim_slot-IsBounded : (f : FlowController) → IsBounded f → IsBounded (claim_slot f).0
unfolding claim_slot
claim_slot-IsBounded f i = elim (Bool-cases (ltb f.in_flight f.max_in_flight)) [
  | inl e ↦ rw e (take_slot-IsBounded f i (ground arith))
  | inr e ↦ rw e i
]

wait_token-IsBounded :
    (f : FlowController) (limiter : Option TokenBucket) (expired : Bool) (now : ℕ)
    → IsBounded f
    → IsBounded (wait_token f limiter expired now).0
unfolding wait_token
wait_token-IsBounded f none expired now i = i
wait_token-IsBounded f (some b) expired now i = record { bound = i.bound; awake = i.awake }

handle_rate-IsBounded :
    (f : FlowController) (policy : Policy) (expired : Bool) (now : ℕ)
    → IsBounded f
    → IsBounded (handle_rate f policy expired now).0
unfolding handle_rate
handle_rate-IsBounded f waits expired now i = wait_token-IsBounded f f.rate_limiter expired now i
handle_rate-IsBounded f raises expired now i = i
handle_rate-IsBounded f drops expired now i = i

acquire_step-IsBounded :
    (policy : Policy) (expired : Bool) (now : ℕ) (f : FlowController) (phase : Phase)
    → IsBounded f
    → IsBounded (acquire_step policy expired now f phase).0
unfolding acquire_step
acquire_step-IsBounded policy expired now f checking i = check-IsBounded f now i
acquire_step-IsBounded policy expired now f rate_pressed i =
    handle_rate-IsBounded f policy expired now i
acquire_step-IsBounded policy expired now f has_token i = claim_slot-IsBounded f i
acquire_step-IsBounded policy expired now f _ i = i

happens-IsBounded : (f : FlowController) (e : Event) → IsBounded f → IsBounded (happens f e)
unfolding happens release_slot on_blocked on_unblocked
happens-IsBounded f (acts policy expired now phase) i =
    acquire_step-IsBounded policy expired now f phase i
happens-IsBounded f releases i = record { bound = omega (arith, i.bound); awake = inl refl }
happens-IsBounded f blocks i = record { bound = i.bound; awake = i.awake }
happens-IsBounded f unblocks i = record { bound = i.bound; awake = i.awake }

-- A step that grants takes one slot, any other takes none.
abbrev Counts : FlowController → FlowController × Phase → Type 0
Counts f (f', phase) =
    (f'.max_in_flight ≡ f.max_in_flight)
    × (f'.in_flight ≡ (if is_acquired phase then suc f.in_flight else f.in_flight))

taken-Counts :
    (f g : FlowController) (b : Bool) (phase : Phase)
    → (g.max_in_flight ≡ f.max_in_flight)
    → (g.in_flight ≡ f.in_flight)
    → is_acquired phase ≡ false
    → Counts f (if b then (take_slot g, acquired) else (g, phase))
unfolding take_slot is_acquired
taken-Counts f g b phase same kept open_phase = ground (arith, same, kept, open_phase)

check_rate-Counts :
    (f : FlowController) (limiter : Option TokenBucket) (now : ℕ)
    → Counts f (check_rate f limiter now)
unfolding check_rate take_slot is_acquired
check_rate-Counts f none now = (refl, omega arith)
check_rate-Counts f (some b) now =
    let (b', taken) = acquire_token b now in
    taken-Counts f (record f { rate_limiter = some b' }) taken rate_pressed refl refl refl

check-Counts : (f : FlowController) (now : ℕ) → Counts f (check f now)
unfolding check is_acquired
check-Counts f now =
    if_cases (Counts f) (ltb f.in_flight f.max_in_flight) (check_rate f f.rate_limiter now)
      (record f { slot_event = false }, slot_pressed) (λ h. check_rate-Counts f f.rate_limiter now)
      (λ h. (refl, refl))

wait_token-Counts :
    (f : FlowController) (limiter : Option TokenBucket) (expired : Bool) (now : ℕ)
    → Counts f (wait_token f limiter expired now)
unfolding wait_token is_acquired
wait_token-Counts f none expired now = (refl, refl)
wait_token-Counts f (some b) expired now = (refl, ground arith)

handle_rate-Counts :
    (f : FlowController) (policy : Policy) (expired : Bool) (now : ℕ)
    → Counts f (handle_rate f policy expired now)
unfolding handle_rate is_acquired
handle_rate-Counts f waits expired now = wait_token-Counts f f.rate_limiter expired now
handle_rate-Counts f raises expired now = (refl, refl)
handle_rate-Counts f drops expired now = (refl, refl)

-- A wait ends in no grant.
is_acquired-handle :
    (policy : Policy) (set expired : Bool) (here : Phase)
    → is_acquired here ≡ false
    → is_acquired (handle policy (wait_event set expired here)) ≡ false
unfolding handle wait_event is_acquired
is_acquired-handle waits set expired here h = ground (arith, h)
is_acquired-handle raises set expired here h = refl
is_acquired-handle drops set expired here h = refl

acquire_step-Counts :
    (policy : Policy) (expired : Bool) (now : ℕ) (f : FlowController) (phase : Phase)
    → is_acquired phase ≡ false
    → Counts f (acquire_step policy expired now f phase)
unfolding acquire_step is_acquired enter
acquire_step-Counts policy expired now f entering h = (refl, ground arith)
acquire_step-Counts policy expired now f checking h = check-Counts f now
acquire_step-Counts policy expired now f block_pressed h =
    (refl, ground (arith, is_acquired-handle policy f.unblock_event expired block_pressed h))
acquire_step-Counts policy expired now f rate_pressed h = handle_rate-Counts f policy expired now
acquire_step-Counts policy expired now f slot_pressed h =
    (refl, ground (arith, is_acquired-handle policy f.slot_event expired slot_pressed h))
acquire_step-Counts policy expired now f has_token h =
    taken-Counts f f (ltb f.in_flight f.max_in_flight) slot_lost refl refl refl
acquire_step-Counts policy expired now f slot_lost h =
    (refl, ground (arith, is_acquired-handle waits f.slot_event expired slot_lost h))
acquire_step-Counts policy expired now f acquired h = absurd (ground (arith, h))
acquire_step-Counts policy expired now f dropped h = (refl, refl)
acquire_step-Counts policy expired now f raised h = (refl, refl)

acquired_stays :
    (policy : Policy) (expired : Bool) (now : ℕ) (f : FlowController) (phase : Phase)
    → is_acquired phase ≡ true
    → (acquire_step policy expired now f phase).0 ≡ f
unfolding acquire_step is_acquired
acquired_stays policy expired now f acquired h = refl
acquired_stays policy expired now f entering h = absurd (ground (arith, h))
acquired_stays policy expired now f checking h = absurd (ground (arith, h))
acquired_stays policy expired now f block_pressed h = absurd (ground (arith, h))
acquired_stays policy expired now f rate_pressed h = absurd (ground (arith, h))
acquired_stays policy expired now f slot_pressed h = absurd (ground (arith, h))
acquired_stays policy expired now f has_token h = absurd (ground (arith, h))
acquired_stays policy expired now f slot_lost h = absurd (ground (arith, h))
acquired_stays policy expired now f dropped h = absurd (ground (arith, h))
acquired_stays policy expired now f raised h = absurd (ground (arith, h))

-- The controller counts what is held, up to a limit that stays.
abbrev Held : ℕ → FlowController → ℕ → Type 0
Held limit f held = (f.max_in_flight ≡ limit) × (f.in_flight ≡ held)

happens-Held :
    (limit : ℕ) (f : FlowController) (held : ℕ) (e : Event)
    → Held limit f held
    → Held limit (happens f e) (held_after f e held)
unfolding happens held_after grants release_slot on_blocked on_unblocked
happens-Held limit f held (acts policy expired now phase) (same, count) =
    elim (Bool-cases (is_acquired phase)) [
      | inl e ↦ rw (e, acquired_stays policy expired now f phase e) (same, count)
      | inr e ↦
          let (limits, counts) = acquire_step-Counts policy expired now f phase e in
          (ground (arith, limits, same), ground (arith, counts, count, e))
    ]
happens-Held limit f held releases (same, count) = (same, omega (arith, count))
happens-Held limit f held blocks h = h
happens-Held limit f held unblocks h = h

all_happen-IsBounded :
    (limit : ℕ) (f : FlowController) (held : ℕ) (es : List Event)
    → IsBounded f
    → Held limit f held
    → let (f', held') = all_happen f held es in IsBounded f' × Held limit f' held'
unfolding all_happen
all_happen-IsBounded limit f held [] i h = (i, h)
all_happen-IsBounded limit f held (e ∷ es) i h =
    all_happen-IsBounded limit (happens f e) (held_after f e held) es (happens-IsBounded f e i)
      (happens-Held limit f held e h)

-- From a new controller on, whatever steps of whatever calls of `acquire`, releases and notifications
-- follow in any order: the publishes that an `acquire` granted and no release gave back are at most
-- `max_in_flight`, and where the slot event is cleared they are that many, so that no caller waits
-- for a slot that it could have.
pub in_flight_le :
    (max_in_flight : ℕ) (limiter : Option TokenBucket) (es : List Event)
    → let (f, held) = all_happen (new_controller max_in_flight limiter) 0 es in
      (held ≤ max_in_flight) × ((f.slot_event ≡ true) ⊎ (max_in_flight ≤ held))
unfolding new_controller
in_flight_le max_in_flight limiter es =
    let (i, (same, count)) =
      all_happen-IsBounded max_in_flight (new_controller max_in_flight limiter) 0 es
        (record { bound = omega arith; awake = inl refl }) (refl, refl) in
    (omega (arith, i.bound, same, count), ground (arith, i.awake, same, count))

-- The ends of an `acquire`.
abbrev pub is_final : Phase → Bool
is_final acquired = true
is_final dropped = true
is_final raised = true
is_final _ = false

unfoldable pub steps : ℕ → Policy → ℕ → FlowController → Phase → FlowController × Phase
steps zero policy now f phase = (f, phase)
steps (suc n) policy now f phase =
    let (f', phase') = acquire_step policy false now f phase in steps n policy now f' phase'

-- What `check` can end in.
abbrev Checked : Phase → Type 0
Checked phase = (phase ≡ acquired) ⊎ (phase ≡ rate_pressed) ⊎ (phase ≡ slot_pressed)

check_rate-Checked :
    (f : FlowController) (limiter : Option TokenBucket) (now : ℕ)
    → Checked (check_rate f limiter now).1
unfolding check_rate
check_rate-Checked f none now = inl refl
check_rate-Checked f (some b) now = elim (Bool-cases (acquire_token b now).1) [
  | inl e ↦ rw e (inl refl)
  | inr e ↦ rw e (inr (inl refl))
]

check-Checked : (f : FlowController) (now : ℕ) → Checked (check f now).1
unfolding check
check-Checked f now = elim (Bool-cases (ltb f.in_flight f.max_in_flight)) [
  | inl e ↦ rw e (check_rate-Checked f f.rate_limiter now)
  | inr e ↦ rw e (inr (inr refl))
]

Checked-is_final :
    (policy : Policy) (now : ℕ) (f : FlowController) (phase : Phase)
    → policy ≢ waits
    → Checked phase
    → is_final (acquire_step policy false now f phase).1 ≡ true
unfolding acquire_step handle handle_rate
Checked-is_final waits now f phase h k = absurd (h refl)
Checked-is_final raises now f phase h (inl e) = rw e refl
Checked-is_final raises now f phase h (inr (inl e)) = rw e refl
Checked-is_final raises now f phase h (inr (inr e)) = rw e refl
Checked-is_final drops now f phase h (inl e) = rw e refl
Checked-is_final drops now f phase h (inr (inl e)) = rw e refl
Checked-is_final drops now f phase h (inr (inr e)) = rw e refl

entered :
    (policy : Policy) (now : ℕ) (f : FlowController) (phase : Phase)
    → policy ≢ waits
    → (phase ≡ block_pressed) ⊎ (phase ≡ checking)
    → is_final (steps 2 policy now f phase).1 ≡ true
unfolding steps acquire_step handle
entered waits now f phase h k = absurd (h refl)
entered raises now f phase h (inl e) = rw e refl
entered drops now f phase h (inl e) = rw e refl
entered policy now f phase h (inr e) =
    rw e (Checked-is_final policy now (check f now).0 (check f now).1 h (check-Checked f now))

enter-cases : (f : FlowController) → (enter f ≡ block_pressed) ⊎ (enter f ≡ checking)
unfolding enter
enter-cases f = ground arith

-- Under a policy that does not wait, a call of `acquire` that nobody interrupts ends within three
-- steps, its deadline not needed.
pub is_final-steps :
    (policy : Policy) (now : ℕ) (f : FlowController)
    → policy ≢ waits
    → is_final (steps 3 policy now f entering).1 ≡ true
unfolding steps acquire_step
is_final-steps policy now f h = entered policy now f (enter f) h (enter-cases f)
