-- ===== src/Retry/Tiers.antt =====
-- The names of the delay queues, and what the broker's history of them says.
use rabbitkit.Prelude.{
  ℕ, ◌≤◌, ◌≡◌, ◌∙◌, refl, ap, inl, inr, some, true, false, Bool-cases, List, [], ◌∷◌, ◌++◌,
  append_assoc, arith, ◌==◌, Text, codes, strip_prefix, decimal,
}
use rabbitkit.Prelude.Codes.{
  strip_prefix-append, before-decimal_end, before-decimal_dot, is_decimal-decimal,
  digits_value-decimal,
}
use rabbitkit.Failure.Headers.{Death, table}
use rabbitkit.Retry.{retry_prefix, shard_queue_name, tier_value, queue_tier, death_tier, floor_of}

tier_value-decimal : (n : ℕ) → tier_value (decimal n) ≡ n
unfolding tier_value
tier_value-decimal n = rw (is_decimal-decimal n, digits_value-decimal n) refl

plain :
    (prefix : Text) (attempt : ℕ)
    → queue_tier (strip_prefix prefix (prefix ++ decimal attempt)) ≡ attempt
unfolding queue_tier
plain prefix attempt =
    rw (strip_prefix-append prefix (decimal attempt), before-decimal_end attempt)
      (tier_value-decimal attempt)

sharded :
    (prefix : Text) (attempt : ℕ) (shard : Text)
    → queue_tier (strip_prefix prefix (prefix ++ (decimal attempt ++ (codes ".s" ++ shard))))
      ≡ attempt
unfolding queue_tier
sharded prefix attempt shard =
    rw
      (
        strip_prefix-append prefix (decimal attempt ++ (codes ".s" ++ shard)),
        before-decimal_dot attempt (codes "s" ++ shard),
      )
      (tier_value-decimal attempt)

plain_name :
    (source_queue : Text) (attempt shard : ℕ)
    → (shard == 0) ≡ true
    → shard_queue_name source_queue attempt shard ≡ retry_prefix source_queue ++ decimal attempt
unfolding shard_queue_name
plain_name source_queue attempt shard e = ground (arith, e)

sharded_name :
    (source_queue : Text) (attempt shard : ℕ)
    → (shard == 0) ≡ false
    → shard_queue_name source_queue attempt shard
      ≡ retry_prefix source_queue ++ (decimal attempt ++ (codes ".s" ++ decimal shard))
unfolding shard_queue_name
sharded_name source_queue attempt shard e =
    let prefix = retry_prefix source_queue in
    let number = decimal attempt in
    rw e (
      append_assoc (prefix ++ number) (codes ".s") (decimal shard)
      ∙ append_assoc prefix number (codes ".s" ++ decimal shard))

-- The tier of a delay queue's name is the attempt that it was made for, whatever the source queue is
-- called and whichever shard it is.
pub death_tier-shard_queue_name :
    (source_queue : Text) (attempt shard : ℕ)
    → death_tier
        (retry_prefix source_queue)
        (table (some (shard_queue_name source_queue attempt shard)))
      ≡ attempt
unfolding death_tier
death_tier-shard_queue_name source_queue attempt shard =
    let prefix = retry_prefix source_queue in
    let read : Text → ℕ = λ t. queue_tier (strip_prefix prefix t) in
    elim (Bool-cases (shard == 0)) [
      | inl e ↦ ap read (plain_name source_queue attempt shard e) ∙ plain prefix attempt
      | inr e ↦
          ap read (sharded_name source_queue attempt shard e)
          ∙ sharded prefix attempt (decimal shard)
    ]

-- The floor of a history that names a delay queue of the source is at least that queue's attempt.
pub floor_of-ge :
    (source_queue : Text) (attempt shard : ℕ) (newer older : List Death)
    → attempt
      ≤ floor_of
          (retry_prefix source_queue)
          (newer ++ table (some (shard_queue_name source_queue attempt shard)) ∷ older)
unfolding floor_of
floor_of-ge source_queue attempt shard [] older =
    omega (arith, death_tier-shard_queue_name source_queue attempt shard)
floor_of-ge source_queue attempt shard (death ∷ newer) older =
    omega (arith, floor_of-ge source_queue attempt shard newer older)
