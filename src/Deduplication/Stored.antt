-- ===== src/Deduplication/Stored.antt =====
-- middleware/deduplication.py: a handler's result under its key. `json.dumps` and `json.loads` are
-- parameters, for results of any type.
use rabbitkit.Prelude.{
  ℕ, ◌≡◌, refl, ap, ==→eq, Bool, true, false, ◌&&◌, Option, none, some, arith, if◌then◌else◌, ltb,
  ◌==◌, is_some, Text, same_text, strip_prefix, ◌∷◌, [], Bool-cases, inl, inr,
}
use rabbitkit.Failure.Copy.{utf8_length}
use rabbitkit.Deduplication.{completed}

-- The members "s", "v" and "r" of a JSON object.
pub record Envelope (R : Type 0) : Type 0 where
  pub s : Option Text
  pub v : Option ℕ
  pub r : Option R

abbrev pub schema_version : ℕ
schema_version = 1

abbrev pub envelope_of : {R : Type 0} → R → Envelope R
envelope_of result = record { s = some completed; v = some schema_version; r = some result }

-- `dumps` is `none` where it raises; `loads` where it raises or gives no object.
pub record Json (R : Type 0) : Type 0 where
  pub dumps : Envelope R → Option Text
  pub loads : Text → Option (Envelope R)

module _ {R : Type 0} (json : Json R) where
  unfoldable pub fitting : ℕ → Option Text → Option Text
  unfolding utf8_length
  fitting max_bytes none = none
  fitting max_bytes (some t) = if ltb max_bytes (utf8_length t) then none else some t

  unfoldable pub encode_completed : R → ℕ → Option Text
  unfolding fitting
  encode_completed result max_bytes = fitting max_bytes (json.dumps (envelope_of result))

  abbrev pub has_version : Option ℕ → Bool
  has_version none = false
  has_version (some n) = n == schema_version

  abbrev pub has_status : Option Text → Bool
  has_status none = false
  has_status (some t) = same_text t completed

  unfoldable pub result_of : Option (Envelope R) → Option R
  result_of none = none
  result_of (some e) = if has_version e.v && has_status e.s then e.r else none

  -- A stored result, or `none` for (False, None).
  unfoldable pub decode_stored : Text → Option R
  unfolding result_of strip_prefix
  decode_stored raw =
      if is_some (strip_prefix (b'{' ∷ []) raw) then result_of (json.loads raw) else none

  fitting-some :
      (max_bytes : ℕ) (o : Option Text) (raw : Text) → fitting max_bytes o ≡ some raw → o ≡ some raw
  unfolding fitting
  fitting-some max_bytes none raw e = e
  fitting-some max_bytes (some t) raw e = elim (Bool-cases (ltb max_bytes (utf8_length t))) [
    | inl b ↦ absurd (ground (arith, e, b))
    | inr b ↦ ground (arith, e, b)
  ]

  result_of-envelope : (result : R) → result_of (some (envelope_of result)) ≡ some result
  unfolding result_of same_text
  result_of-envelope result = refl

  same_text-eq : (s t : Text) → same_text s t ≡ true → s ≡ t
  unfolding same_text
  same_text-eq [] [] h = refl
  same_text-eq [] (d ∷ t) h = absurd (ground (arith, h))
  same_text-eq (c ∷ s) [] h = absurd (ground (arith, h))
  same_text-eq (c ∷ s) (d ∷ t) h =
      let first : c ≡ d = ==→eq c d (ground (arith, h)) in
      let rest : s ≡ t = same_text-eq s t (ground (arith, h)) in rw (first, rest) refl

  has_version-eq : (o : Option ℕ) → has_version o ≡ true → o ≡ some schema_version
  has_version-eq none h = absurd (ground (arith, h))
  has_version-eq (some n) h = ap some (==→eq n schema_version h)

  has_status-eq : (o : Option Text) → has_status o ≡ true → o ≡ some completed
  has_status-eq none h = absurd (ground (arith, h))
  has_status-eq (some t) h = ap some (same_text-eq t completed h)

  -- What a result is read back from.
  abbrev pub IsEnvelope : Option (Envelope R) → R → Type 0
  IsEnvelope o r =
      (e : Envelope R) × (o ≡ some e)
      × (e.v ≡ some schema_version)
      × (e.s ≡ some completed)
      × (e.r ≡ some r)

  result_of-IsEnvelope : (o : Option (Envelope R)) (r : R) → result_of o ≡ some r → IsEnvelope o r
  unfolding result_of
  result_of-IsEnvelope none r h = absurd (cc h)
  result_of-IsEnvelope (some e) r h = elim (Bool-cases (has_version e.v && has_status e.s)) [
    | inl b ↦ (
      e,
      refl,
      has_version-eq e.v (ground (arith, b)),
      has_status-eq e.s (ground (arith, b)),
      rw b at h,
    )
    | inr b ↦ let gone : none ≡ some r = rw b at h in absurd (cc gone)
  ]

  decode_stored-IsEnvelope :
      (raw : Text) (r : R) → decode_stored raw ≡ some r → IsEnvelope (json.loads raw) r
  unfolding decode_stored
  decode_stored-IsEnvelope raw r h = elim (Bool-cases (is_some (strip_prefix (b'{' ∷ []) raw))) [
    | inl b ↦ result_of-IsEnvelope (json.loads raw) r (rw b at h)
    | inr b ↦ let gone : none ≡ some r = rw b at h in absurd (cc gone)
  ]

  -- What was stored for a result is read back as JSON gives that result back (`normal`: tuples come
  -- back as lists, say), where `dumps` writes an object, from which `loads` reads the members that
  -- were written; and whatever else is stored, a result is read back only from an object of this
  -- version with the status "completed".
  pub decode_stored-encode_completed :
      (normal : R → R) (result : R) (max_bytes : ℕ) (raw : Text)
      → ((t : Text)
          → json.dumps (envelope_of result) ≡ some t
          → (is_some (strip_prefix (b'{' ∷ []) t) ≡ true)
            × (json.loads t ≡ some (envelope_of (normal result))))
      → encode_completed result max_bytes ≡ some raw
      → (decode_stored raw ≡ some (normal result))
        × ((other : Text) (r : R) → decode_stored other ≡ some r → IsEnvelope (json.loads other) r)
  unfolding decode_stored encode_completed
  decode_stored-encode_completed normal result max_bytes raw reads written =
      let e = envelope_of result in
      let (brace, loaded) = reads raw (fitting-some max_bytes (json.dumps e) raw written) in
      (rw (brace, loaded) (result_of-envelope (normal result)), decode_stored-IsEnvelope)
