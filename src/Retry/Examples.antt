-- ===== src/Retry/Examples.antt =====
-- A queue of orders with two retries, and a handler that times out.
use rabbitkit.Prelude.{
  ℕ, ◌+◌, ◌*◌, ◌^◌, ◌≤◌, min, max, ◌≡◌, refl, true, false, none, some, List, [], ◌∷◌, arith, codes,
  is_empty, all_chars, length, if◌then◌else◌,
}
use rabbitkit.Message.{RabbitMessage, pending, Settlement, is_settled}
use rabbitkit.Failure.Headers.{str, list, table, Headers, get, put, get-put}
use rabbitkit.Failure.Classify.{
  Raised, transient, permanent, fails, classify_error, judged, is_final, retryable, unknown_outcome,
  classify_error-Decides,
}
use rabbitkit.Failure.Sanitizer.{ErrorSanitizer, sanitized, sanitize, is_code_safe}
use rabbitkit.Failure.Bounded.{sanitize-bounded}
use rabbitkit.Failure.Copy.{Delivery, MessageEnvelope, original_queue}
use rabbitkit.Failure.Kept.{get-put_same}
use rabbitkit.Retry.{RetryConfig, get_retry_count, retry_prefix, shard_queue_name, death_tier}
use rabbitkit.Retry.Handoff.{RetryHandoffConfig, new_tracker, record_failure, state_at}
use rabbitkit.Retry.Backoff.{
  all_happen, streak, streak_state, state_at-all_happen, record_failure-window, resets, succeeds,
}
use rabbitkit.Retry.Backoff
use rabbitkit.Retry.Copies.{Python}
use rabbitkit.Bulk.{confirmed}
use rabbitkit.Retry.Route.{World, Middleware, Moment, blocking, returns, handle_retry}
use rabbitkit.Retry.Safety.{Accounts, accepts, copy_of, handle_retry-Accounts}
use rabbitkit.Retry.Tiers.{death_tier-shard_queue_name}
use rabbitkit.Retry.Copied.{IsCarried}
use rabbitkit.Retry.Ladder.{Attempt, executions}
use rabbitkit.Retry.Ends.{executions_end_by_header, executions_end_by_history}

abbrev timeout : Raised
timeout = record {
  type_name = codes "HandlerTimeoutError";
  shown = some (codes "handler took\ntoo long");
  declared = none;
  outcome_unknown = true;
  is_shutdown = false;
  is_infrastructure = false;
  is_transient = true;
  is_permanent = false;
  is_timeout = true;
}

abbrev sanitizer : ErrorSanitizer
sanitizer = record { policy = sanitized; max_summary = 12; max_code = 64; allowed_codes = none }

abbrev config : RetryConfig
config = record {
  max_retries = 2;
  retry_header = "x-rabbitkit-retry-count";
  sharded = true;
  jitter_shards = 3;
  unknown_policy = permanent;
  max_retry_age = some 1000;
  dead_letters = true;
  trust_retry_header = true;
}

abbrev python : Python
python = record {
  fromisoformat = λ t. some (length t);
  isoformat = λ n. codes "now";
  redact = λ t. t;
  md5 = λ t. length t;
  shown = λ v. [];
  fresh = codes "id";
  now = 50;
}

abbrev message : RabbitMessage
message = record {
  delivery_tag = some 1;
  message_id = none;
  ack_fn = true;
  nack_fn = true;
  reject_fn = true;
  ack_async_fn = false;
  nack_async_fn = false;
  reject_async_fn = false;
  disposition = pending;
  settle_unknown = false;
  probe = none;
}

abbrev delivery_of : Headers → Delivery
delivery_of h = record {
  message = message;
  headers = h;
  exchange = codes "shop";
  routing_key = codes "orders.created";
  wire_body = codes "{}";
  wire_content_encoding = none;
  content_type = none;
  correlation_id = none;
  reply_to = none;
  priority = none;
  timestamp = none;
  delivery_mode = some 2;
  expiration = some (codes "100");
  type_ = none;
  app_id = none;
  user_id = none;
}

abbrev delivery : Delivery
delivery = delivery_of ((original_queue, str (codes "orders")) ∷ [])

-- The broker adds its history at the head of what came back.
abbrev redeliver : MessageEnvelope → Delivery
redeliver e = delivery_of (put "x-death" (list (table (some e.routing_key) ∷ [])) e.headers)

abbrev attempts : ℕ → Attempt
attempts k = record { python = python; exception = timeout }

classify_error-Decides_example :
    let c = classify_error ((λ e. fails) ∷ []) transient timeout in
    let given = judged ((λ e. fails) ∷ []) transient timeout in
    (c.severity ≡ (if is_final given then permanent else transient))
    × (c.category ≡ (
        if timeout.outcome_unknown
        then elim given [ retryable ↦ unknown_outcome | g ↦ g ]
        else given))
    × (c.outcome_unknown ≡ timeout.outcome_unknown)
classify_error-Decides_example = classify_error-Decides ((λ e. fails) ∷ []) transient timeout

sanitize-bounded_example :
    let e = sanitize (λ t. t) sanitizer timeout transient in
    (length e.code ≤ max 64 5)
    × (is_empty e.code ≡ false)
    × (all_chars is_code_safe e.code ≡ true)
    × (length e.summary ≤ 12)
sanitize-bounded_example = sanitize-bounded (λ t. t) sanitizer timeout transient

death_tier-shard_queue_name_example :
    death_tier (retry_prefix (codes "a.b")) (table (some (shard_queue_name (codes "a.b") 12 3)))
    ≡ 12
death_tier-shard_queue_name_example = death_tier-shard_queue_name (codes "a.b") 12 3

retry_header-IsCarried : IsCarried "x-rabbitkit-retry-count"
retry_header-IsCarried = record {
  kept = record {
    message = refl;
    category = refl;
    error_type = refl;
    error_class = refl;
    failure_category = refl;
    attempts = refl;
    last_failed_at = refl;
  };
  not_first = refl;
  not_id = refl;
}

executions_end_by_header_example :
    let (n, ended) = executions config [] sanitizer attempts redeliver 3 0 delivery in
    (ended ≡ true) × (n + get_retry_count config delivery.headers ≤ 3)
executions_end_by_header_example =
    executions_end_by_header config [] sanitizer attempts redeliver delivery refl
      retry_header-IsCarried (λ e. simp get-put)

executions_end_by_history_example :
    let (n, ended) = executions config [] sanitizer attempts redeliver 3 0 delivery in
    (ended ≡ true) × (n + get_retry_count config delivery.headers ≤ 3)
executions_end_by_history_example =
    executions_end_by_history config [] sanitizer attempts redeliver (codes "orders") refl delivery
      (unfold get in refl) refl (λ e. simp get-put)
      (λ e. ([], get-put_same "x-death" (list (table (some e.routing_key) ∷ [])) e.headers))

abbrev handoff : RetryHandoffConfig
handoff = record {
  backoff_initial = 50;
  backoff_max = 3000;
  jitter = 20;
  parts = 100;
  max_consecutive_failures = 3;
  recovery_deadline = 30000;
}

abbrev failures : List Backoff.Event
failures = succeeds ∷ Backoff.fails 10 50 ∷ Backoff.fails 20 0 ∷ Backoff.fails 30 99 ∷ []

state_at-all_happen_example :
    let t = all_happen (new_tracker handoff) failures in
    (state_at t 40 ≡ streak_state handoff (streak 0 none failures) 40)
    × (t.last_backoff ≤ 3000 * 100 * 100)
state_at-all_happen_example = state_at-all_happen handoff failures 40

record_failure-window_example :
    let base = min 3000 (50 * 2 ^ 0) in
    let backoff = (record_failure 10 50 (new_tracker handoff)).last_backoff in
    (base * 100 * 100 ≤ backoff + base * 20 * 100)
    × (backoff ≤ base * 100 * 100 + base * 20 * 100)
    × (backoff ≤ 3000 * 100 * 100)
unfolding new_tracker
record_failure-window_example =
    record_failure-window (new_tracker handoff) 10 50 (omega arith) (omega arith) (omega arith)

-- A world that records its settlements, whose broker accepts every copy.
abbrev world : World (List Settlement)
world = record {
  publish = λ e w. (w, returns confirmed);
  settle = λ s w. (s ∷ w, true);
  sleep = λ n w. (w, true);
  on_handoff_failure = λ n w. w;
  on_handoff_exhausted = λ w. w;
}

abbrev middleware : Middleware
middleware = record {
  config = config;
  sanitizer = sanitizer;
  predicates = [];
  has_publish = true;
  sleeps = true;
  tracker = new_tracker handoff;
  exhausted_logged = false;
}

abbrev moment : Moment
moment = record { now = 1; rng = 0; then_now = 2 }

handle_retry-Accounts_example :
    let r = handle_retry world blocking python moment timeout delivery [] middleware in
    Accounts
      (accepts world middleware (copy_of world python timeout delivery middleware) [])
      message
      r.ending
      r.message
handle_retry-Accounts_example =
    handle_retry-Accounts world blocking python moment timeout delivery [] middleware
      (unfold is_settled in refl)
