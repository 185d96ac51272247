-- ===== src/Deduplication/Examples.antt =====
-- A store that is a function from keys to values, and a message that comes twice.
use rabbitkit.Prelude.{
  ℕ, ◌≤◌, ◌≡◌, ◌⊎◌, inl, inr, refl, subst, if_cases, Bool, true, false, ◌&&◌, Option, none, some,
  List, [], ◌∷◌, if◌then◌else◌, is_some, length, Text, codes, same_text, strip_prefix,
}
use rabbitkit.Failure.Copy.{utf8_length}
use rabbitkit.Deduplication.{DeduplicationConfig, claim, nack_requeue, by_message_id}
use rabbitkit.Deduplication.Stored.{
  Envelope, Json, encode_completed, decode_stored, fitting, IsEnvelope, envelope_of,
  decode_stored-encode_completed,
}
use rabbitkit.Deduplication.Scope.{Redis, duplicate, raises, returns}
use rabbitkit.Deduplication.Runs.{
  RedisLaws, Delivery, Event, enters, ends, settles, crashes, all_happen, begin,
}
use rabbitkit.Deduplication.Bounds.{length-caches_le}

abbrev Store : Type 0
Store = Text → Option Text

abbrev written : Text → Option Text → Store → Store
written k v s j = if same_text k j then v else s j

abbrev redis : Redis Store
redis = record {
  set = λ nx k v ex s.
      if nx && is_some (s k) then (s, some false) else (written k (some v) s, some true);
  exists = λ k s. some (is_some (s k));
  get = λ k s. some (s k);
  delete = λ k s. written k none s;
}

written_cases :
    (k : Text) (v : Option Text) (s : Store) (j : Text)
    → (written k v s j ≡ s j) ⊎ (same_text k j ≡ true) × (written k v s j ≡ v)
written_cases k v s j =
    if_cases (λ o. (o ≡ s j) ⊎ (same_text k j ≡ true) × (o ≡ v)) (same_text k j) v (s j)
      (λ e. inr (e, refl)) (λ e. inl refl)

abbrev redis_laws : RedisLaws redis
redis_laws = record {
  value = λ s k. s k;
  expire = λ s k. none;
  value-set = λ nx k v ex s j.
      if_cases
        (λ (r : Store × Option Bool). (r.0 j ≡ s j) ⊎ (same_text k j ≡ true) × (r.0 j ≡ some v))
        (nx && is_some (s k)) (s, some false) (written k (some v) s, some true) (λ e. inl refl)
        (λ e. written_cases k (some v) s j);
  value-delete = λ k s j.
      if_cases (λ o. (o ≡ s j) ⊎ (o ≡ none)) (same_text k j) none (s j) (λ e. inr refl)
        (λ e. inl refl);
  value-expire = λ s j. inr refl;
  value-exists = λ k s e. cc e;
  value-get = λ k s found e. cc e;
}

-- A format for three optional members: a brace, a tag and a value of each number, and the text.
abbrev tagged : Option ℕ → Text → Text
tagged none rest = 0 ∷ 0 ∷ rest
tagged (some n) rest = 1 ∷ n ∷ rest

abbrev tagged_text : Option Text → Text
tagged_text none = 0 ∷ []
tagged_text (some t) = 1 ∷ t

abbrev read_number : ℕ → ℕ → Option ℕ
read_number ℕ.zero n = none
read_number (ℕ.suc tag) n = some n

abbrev read_text : Text → Option Text
read_text [] = none
read_text (ℕ.zero ∷ t) = none
read_text (ℕ.suc tag ∷ t) = some t

abbrev read_envelope : Text → Option (Envelope ℕ)
read_envelope (brace ∷ tv ∷ v ∷ tr ∷ r ∷ rest) =
    some (record { s = read_text rest; v = read_number tv v; r = read_number tr r })
read_envelope _ = none

abbrev json : Json ℕ
json = record {
  dumps = λ e. some (b'{' ∷ tagged e.v (tagged e.r (tagged_text e.s)));
  loads = read_envelope;
}

json_reads :
    (s : Option Text) (v r : Option ℕ)
    → let e : Envelope ℕ = record { s = s; v = v; r = r } in
      let t = b'{' ∷ tagged v (tagged r (tagged_text s)) in
      (is_some (strip_prefix (b'{' ∷ []) t) ≡ true) × (json.loads t ≡ some e)
unfolding strip_prefix
json_reads none none none = (refl, refl)
json_reads none none (some r) = (refl, refl)
json_reads none (some v) none = (refl, refl)
json_reads none (some v) (some r) = (refl, refl)
json_reads (some s) none none = (refl, refl)
json_reads (some s) none (some r) = (refl, refl)
json_reads (some s) (some v) none = (refl, refl)
json_reads (some s) (some v) (some r) = (refl, refl)

reads_back :
    (e : Envelope ℕ) (t : Text)
    → json.dumps e ≡ some t
    → (is_some (strip_prefix (b'{' ∷ []) t) ≡ true) × (json.loads t ≡ some e)
reads_back e t p =
    subst (λ u. (is_some (strip_prefix (b'{' ∷ []) u) ≡ true) × (json.loads u ≡ some e)) (cc p)
      (json_reads e.s e.v e.r)

decode_stored-encode_completed_example :
    (decode_stored json (b'{' ∷ 1 ∷ 1 ∷ 1 ∷ 7 ∷ 1 ∷ codes "completed") ≡ some 7)
    × ((other : Text) (r : ℕ)
        → decode_stored json other ≡ some r
        → IsEnvelope json (json.loads other) r)
decode_stored-encode_completed_example =
    decode_stored-encode_completed json (λ n. n) 7 100
      (b'{' ∷ 1 ∷ 1 ∷ 1 ∷ 7 ∷ 1 ∷ codes "completed") (λ t p. reads_back (envelope_of 7) t p)
      (unfold encode_completed fitting utf8_length in refl)

abbrev config : DeduplicationConfig
config = record {
  key_prefix = codes "rabbitkit:dedup";
  ttl = 86400;
  fallback_on_redis_error = true;
  key_source = by_message_id;
  mark_policy = claim;
  local_cache_size = 1;
  processing_timeout = 300;
  on_in_flight = nack_requeue;
  store_results = false;
  max_result_bytes = 65536;
  namespace_by_queue = true;
}

-- The first delivery fails with its process, the second is acked, the third comes too late.
abbrev events : List (Event ℕ)
events =
    enters 1 0 (codes "a")
    ∷ ends 1 raises
    ∷ crashes 0
    ∷ enters 2 1 (codes "a")
    ∷ ends 2 (returns (some 7) false)
    ∷ settles 2 true
    ∷ enters 3 1 (codes "a")
    ∷ []

abbrev late : Delivery ℕ
late = record { process = 1; key = codes "a"; phase = duplicate }

length-caches_le_example :
    length (
      (all_happen redis_laws json config (begin redis_laws json config (λ k. none)) events).caches
        1)
    ≤ 1
length-caches_le_example = length-caches_le config redis_laws json (λ k. none) events 1
