-- ===== src/Bulk/Preparation.antt =====
-- core/bulk.py, `_validate_header_value` and PublishPreparer: what must hold of an envelope before it
-- is submitted. A header value is told apart as far as the code asks.
use rabbitkit.Prelude.{
  ℕ, suc, ◌+◌, ◌≡◌, refl, ap, ◌∙◌, max, Bool, true, false, ◌&&◌, Option, none, some, arith,
  if◌then◌else◌, ltb, leb, Text, codes,
}

-- A scalar of a type in `_HEADER_SCALARS`, a list or tuple, a dict whose keys are strings or not,
-- or anything else.
mutual
  pub data HeaderValue : Type 0 where
    scalar : HeaderValue
    sequence : HeaderValues → HeaderValue
    table : HeaderEntries → HeaderValue
    unsupported : HeaderValue

  pub data HeaderValues : Type 0 where
    no_values : HeaderValues
    value : HeaderValue → HeaderValues → HeaderValues

  pub data HeaderEntries : Type 0 where
    no_entries : HeaderEntries
    entry : Bool → HeaderValue → HeaderEntries → HeaderEntries

abbrev pub max_depth : ℕ
max_depth = 8

unfoldable mutual
  pub validate_header_value : ℕ → HeaderValue → Bool
  validate_header_value depth scalar = leb depth max_depth
  validate_header_value depth (sequence vs) = leb depth max_depth && validate_values (suc depth) vs
  validate_header_value depth (table es) = leb depth max_depth && validate_entries (suc depth) es
  validate_header_value depth unsupported = false

  pub validate_values : ℕ → HeaderValues → Bool
  validate_values depth no_values = true
  validate_values depth (value v vs) = validate_header_value depth v && validate_values depth vs

  pub validate_entries : ℕ → HeaderEntries → Bool
  validate_entries depth no_entries = true
  validate_entries depth (entry is_str v es) =
      is_str && validate_header_value depth v && validate_entries depth es

-- An input of a bulk call: not a MessageEnvelope, or one with a body of so many bytes and headers.
pub data Input : Type 0 where
  foreign : Input
  envelope : ℕ → HeaderEntries → Input

unfoldable pub body_bytes : Input → ℕ
body_bytes foreign = 0
body_bytes (envelope n headers) = n

-- PublishPreparer.prepare: the INVALID item's reason, or `none` where the envelope is admissible.
unfoldable pub prepare : ℕ → ℕ → Input → Option Text
unfolding validate_entries
prepare max_message_bytes max_buffer_bytes foreign = some (codes "invalid_type")
prepare max_message_bytes max_buffer_bytes (envelope n headers) =
    if ltb 0 max_message_bytes && ltb max_message_bytes n
    then some (codes "body_too_large")
    else if ltb max_buffer_bytes n
    then some (codes "exceeds_max_buffer_bytes")
    else if validate_entries 0 headers
    then none
    else some (codes "invalid_headers")

-- What a field table is made of, at any depth, and how deep a value nests.
unfoldable mutual
  pub is_field_value : HeaderValue → Bool
  is_field_value scalar = true
  is_field_value (sequence vs) = are_field_values vs
  is_field_value (table es) = are_field_entries es
  is_field_value unsupported = false

  pub are_field_values : HeaderValues → Bool
  are_field_values no_values = true
  are_field_values (value v vs) = is_field_value v && are_field_values vs

  pub are_field_entries : HeaderEntries → Bool
  are_field_entries no_entries = true
  are_field_entries (entry is_str v es) = is_str && is_field_value v && are_field_entries es

unfoldable mutual
  pub nesting : HeaderValue → ℕ
  nesting scalar = 0
  nesting (sequence vs) = nesting_values vs
  nesting (table es) = nesting_entries es
  nesting unsupported = 0

  pub nesting_values : HeaderValues → ℕ
  nesting_values no_values = 0
  nesting_values (value v vs) = max (suc (nesting v)) (nesting_values vs)

  pub nesting_entries : HeaderEntries → ℕ
  nesting_entries no_entries = 0
  nesting_entries (entry is_str v es) = max (suc (nesting v)) (nesting_entries es)

mutual
  unfolding validate_header_value is_field_value nesting validate_values are_field_values
      nesting_values validate_entries are_field_entries nesting_entries

  value_fits :
      (d : ℕ) (v : HeaderValue)
      → validate_header_value d v ≡ (is_field_value v && leb (d + nesting v) max_depth)
  value_fits d scalar = ground arith
  value_fits d (sequence vs) = ground (arith, values_fit d vs)
  value_fits d (table es) = ground (arith, entries_fit d es)
  value_fits d unsupported = refl

  values_fit :
      (d : ℕ) (vs : HeaderValues)
      → leb d max_depth ≡ true
      → validate_values (suc d) vs ≡ (are_field_values vs && leb (d + nesting_values vs) max_depth)
  values_fit d no_values h = ground (arith, h)
  values_fit d (value v vs) h = ground (arith, h, value_fits (suc d) v, values_fit d vs h)

  entries_fit :
      (d : ℕ) (es : HeaderEntries)
      → leb d max_depth ≡ true
      → validate_entries (suc d) es
        ≡ (are_field_entries es && leb (d + nesting_entries es) max_depth)
  entries_fit d no_entries h = ground (arith, h)
  entries_fit d (entry is_str v es) h = ground (arith, h, value_fits (suc d) v, entries_fit d es h)

-- A header value passes the check exactly if it is made of scalars, lists and string-keyed dicts
-- throughout and nests no deeper than eight levels.
pub validate_header_value_lem :
    (v : HeaderValue) → validate_header_value 0 v ≡ (is_field_value v && leb (nesting v) max_depth)
validate_header_value_lem v =
    let level : 0 + nesting v ≡ nesting v = omega arith in
    value_fits 0 v ∙ ap (λ n. is_field_value v && leb n max_depth) level
