-- ===== src/Deduplication/Caches.antt =====
-- The local cache and the marks of the policies.
use rabbitkit.Prelude.{
  ℕ, ◌≡◌, ◌≢◌, refl, Bool, true, false, not, ◌||◌, Option, none, some, List, [], ◌∷◌, ◌++◌, arith,
  is_some, Text, same_text,
}
use rabbitkit.Deduplication.{
  DeduplicationConfig, MarkPolicy, on_success, on_start, claim, Cache, is_in, without, oldest_out,
  local_is_dup, local_mark, local_remove, in_flight, is_in_flight,
}
use rabbitkit.Deduplication.Scope.{Phase, duplicate, replayed}

-- Whether a value under a key makes a delivery a duplicate, by the policy.
abbrev pub marks : MarkPolicy → Option Text → Bool
marks on_success v = is_some v
marks on_start v = false
marks claim v = not (is_in_flight v)

abbrev pub is_skip : {R : Type 0} → Phase R → Bool
is_skip duplicate = true
is_skip (replayed result) = true
is_skip _ = false

pub marks-none : (p : MarkPolicy) → marks p none ≡ false
unfolding is_in_flight
marks-none on_success = refl
marks-none on_start = refl
marks-none claim = refl

pub in_flight-unmarked : marks claim (some in_flight) ≢ true
unfolding is_in_flight same_text
in_flight-unmarked h = cc

pub marks_of_value :
    (p : MarkPolicy) (found : Option Text)
    → p ≢ on_start
    → is_in_flight found ≡ false
    → marks p found ≡ true
unfolding is_in_flight
marks_of_value on_success none other h = absurd (ground (arith, h))
marks_of_value on_success (some v) other h = refl
marks_of_value on_start found other h = absurd (other refl)
marks_of_value claim found other h = rw h refl

pub local_is_dup-is_in :
    (c : DeduplicationConfig) (k : Text) (cache : Cache)
    → local_is_dup c k cache ≡ true
    → is_in k cache ≡ true
unfolding local_is_dup
local_is_dup-is_in c k cache h = ground arith

pub is_in-append :
    (j k : Text) (ks : List Text) → is_in j (ks ++ k ∷ []) ≡ (is_in j ks || same_text k j)
unfolding is_in
is_in-append j k [] = ground arith
is_in-append j k (i ∷ ks) = ground (arith, is_in-append j k ks)

pub is_in-without :
    (j k : Text) (ks : List Text) → is_in j (without k ks) ≡ true → is_in j ks ≡ true
unfolding is_in without
is_in-without j k [] h = h
is_in-without j k (i ∷ ks) h = ground (arith, is_in-without j k ks)

pub is_in-oldest_out :
    (j : Text) (n : ℕ) (ks : List Text) → is_in j (oldest_out n ks) ≡ true → is_in j ks ≡ true
unfolding is_in
is_in-oldest_out j n [] h = h
is_in-oldest_out j n (k ∷ ks) h = ground (arith, h)

pub is_in-local_mark :
    (c : DeduplicationConfig) (j k : Text) (cache : Cache)
    → is_in j (local_mark c k cache) ≡ true
    → is_in j (k ∷ cache) ≡ true
unfolding local_mark is_in
is_in-local_mark c j k cache h = ground (
  arith,
  is_in-oldest_out j c.local_cache_size (without k cache ++ k ∷ []),
  is_in-append j k (without k cache),
  is_in-without j k cache,
)

pub is_in-local_remove :
    (c : DeduplicationConfig) (j k : Text) (cache : Cache)
    → is_in j (local_remove c k cache) ≡ true
    → is_in j cache ≡ true
unfolding local_remove
is_in-local_remove c j k cache h = ground (arith, is_in-without j k cache)
