-- ===== src/Backpressure/Rate.antt =====
-- The token bucket admits no more than its rate.
use rabbitkit.Prelude.{
  ℕ, suc, ◌+◌, ◌-◌, ◌*◌, ◌≤◌, ◌≡◌, refl, Bool, true, false, List, [], ◌∷◌, arith, if◌then◌else◌,
}
use rabbitkit.Backpressure.{TokenBucket, new_bucket, refill, take_token, acquire_token}

-- Calls of `acquire` on a clock that shows `now` at first and goes on by the given numbers of ticks:
-- the bucket, and how many of the calls got a token.
pub acquire_all : TokenBucket → ℕ → List ℕ → TokenBucket × ℕ
acquire_all b now [] = (b, 0)
acquire_all b now (d ∷ ds) =
    let (b', taken) = acquire_token b (now + d) in
    let rest = acquire_all b' (now + d) ds in (rest.0, if taken then suc rest.1 else rest.1)

abbrev pub sum : List ℕ → ℕ
sum [] = 0
sum (d ∷ ds) = d + sum ds

refill_le :
    (b : TokenBucket) (now d : ℕ)
    → b.last_refill ≡ now
    → (refill b (now + d)).tokens ≤ b.tokens + d * b.rate
unfolding refill
refill_le b now d same =
    let elapsed : now + d - b.last_refill ≡ d = omega (arith, same) in rw elapsed (omega arith)

acquire_token_le :
    (b : TokenBucket) (now d : ℕ)
    → b.last_refill ≡ now
    → let (b', taken) = acquire_token b (now + d) in
      (if taken then b.ticks else 0) + b'.tokens ≤ b.tokens + d * b.rate
unfolding acquire_token take_token
acquire_token_le b now d same = ground (arith, refill_le b now d same)

-- The rate stays, and the time of the refill is kept.
acquire_token_same :
    (b : TokenBucket) (now : ℕ)
    → let b' = (acquire_token b now).0 in
      (b'.ticks ≡ b.ticks) × (b'.rate ≡ b.rate) × (b'.last_refill ≡ now)
unfolding acquire_token take_token refill
acquire_token_same b now = ground arith

step_le :
    (taken : Bool) (r t after before d s q : ℕ)
    → (if taken then t else 0) + after ≤ before + d * q
    → r * t ≤ after + s * q
    → (if taken then suc r else r) * t ≤ before + (d + s) * q
step_le true r t after before d s q h k = omega arith
step_le false r t after before d s q h k = omega arith

acquire_all_le :
    (b : TokenBucket) (now : ℕ) (ds : List ℕ)
    → b.last_refill ≡ now
    → (acquire_all b now ds).1 * b.ticks ≤ b.tokens + sum ds * b.rate
unfolding acquire_all
acquire_all_le b now [] same = omega arith
acquire_all_le b now (d ∷ ds) same =
    let (b', taken) = acquire_token b (now + d) in
    let (same_ticks, same_rate, refilled) = acquire_token_same b (now + d) in
    let rest : (acquire_all b' (now + d) ds).1 * b.ticks ≤ b'.tokens + sum ds * b.rate =
      ground (arith, acquire_all_le b' (now + d) ds refilled, same_ticks, same_rate) in
    step_le taken (acquire_all b' (now + d) ds).1 b.ticks b'.tokens b.tokens d (sum ds) b.rate
      (acquire_token_le b now d same) rest

-- From a new bucket on, at whatever times of a clock that does not go back its `acquire` is called and
-- however often: the calls that get a token are at most the burst of `rate` and `rate` for each
-- second that has passed.
pub acquire_all_bounded :
    (rate ticks now : ℕ) (ds : List ℕ)
    → (acquire_all (new_bucket rate ticks now) now ds).1 * ticks ≤ rate * ticks + sum ds * rate
unfolding new_bucket
acquire_all_bounded rate ticks now ds = acquire_all_le (new_bucket rate ticks now) now ds refl
