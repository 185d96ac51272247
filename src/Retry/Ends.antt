-- ===== src/Retry/Ends.antt =====
-- The attempts of a message end: by the count in its header, and by the broker's history alone.
use text.Mathlib.Text.{◌==◌}
use rabbitkit.Prelude.{
  ℕ, ◌+◌, ◌≤◌, ◌<◌, ◌≡◌, ◌∙◌, refl, ap, true, false, some, List, [], ◌∷◌, arith, Text, is_empty,
  pos,
}
use rabbitkit.Failure.Headers.{
  Death, table, str, int, list, Headers, get, header_int, header_text, non_negative,
}
use rabbitkit.Failure.Classify.{Raised, Opinion}
use rabbitkit.Failure.Sanitizer.{ErrorSanitizer}
use rabbitkit.Failure.Copy.{Delivery, MessageEnvelope, original_queue, stable_message_id}
use rabbitkit.Retry.{
  RetryConfig, get_retry_count, claimed_count, broker_count, decide, shard_queue_name,
  xdeath_retry_floor, deaths_floor,
}
use rabbitkit.Retry.Tiers.{floor_of-ge}
use rabbitkit.Retry.Copied.{
  IsCarried, retry_headers-count, retry_headers-carried, build_retry_envelope-fields,
}
use rabbitkit.Retry.Copies.{Python, delay_queue, queue_text}
use rabbitkit.Retry.Ladder.{
  Attempt, next_copy, next_copy-count, next_copy-built, executions, executions-end,
}

claimed_count-trusted :
    (c : RetryConfig) (h : Headers) (n : ℕ)
    → c.trust_retry_header ≡ true
    → get h c.retry_header ≡ some (int (pos n))
    → claimed_count c h ≡ n
unfolding claimed_count header_int non_negative
claimed_count-trusted c h n trust e = rw e (ground arith)

original_queue-IsCarried : IsCarried original_queue
original_queue-IsCarried = record {
  kept = record {
    message = refl;
    category = refl;
    error_type = refl;
    error_class = refl;
    failure_category = refl;
    attempts = refl;
    last_failed_at = refl;
  };
  not_first = refl;
  not_id = refl;
}

module _ (c : RetryConfig) (predicates : List (Raised → Opinion)) (sanitizer : ErrorSanitizer)
    (attempt : ℕ → Attempt) (redeliver : MessageEnvelope → Delivery) where
  claimed_rises :
      c.trust_retry_header ≡ true
      → IsCarried c.retry_header
      → ((e : MessageEnvelope)
          → get (redeliver e).headers c.retry_header ≡ get e.headers c.retry_header)
      → (k : ℕ) (d : Delivery) (e : MessageEnvelope)
      → next_copy c predicates sanitizer attempt redeliver k d ≡ some e
      → get_retry_count c d.headers < get_retry_count c (redeliver e).headers
  unfolding get_retry_count
  claimed_rises trust carried keeps k d e p =
      let a = attempt k in
      let decision =
        decide a.python.fromisoformat c predicates a.exception d.headers a.python.now in
      let n = get_retry_count c d.headers in
      let (headers, key, body) =
        build_retry_envelope-fields a.python c sanitizer d n a.exception decision.classified e
          (next_copy-built c predicates sanitizer attempt redeliver k d e p) in
      let written =
        keeps e
        ∙ ap (λ h. get h c.retry_header) headers
        ∙ retry_headers-count a.python c sanitizer d n a.exception decision.classified carried in
      omega (
        arith,
        next_copy-count c predicates sanitizer attempt redeliver k d e p,
        claimed_count-trusted c (redeliver e).headers _ trust written,
      )

  -- Where the header counts, where it is none that a copy stamps, and where the broker brings a copy
  -- back with the header that it was published with: whatever the exceptions, the times and the
  -- broker's history are, if every handoff to a delay queue is accepted, the attempts of a delivery
  -- end in a failure that is not retried, and the handler has run at most once more than the retries
  -- that were left.
  pub executions_end_by_header :
      (d : Delivery)
      → c.trust_retry_header ≡ true
      → IsCarried c.retry_header
      → ((e : MessageEnvelope)
          → get (redeliver e).headers c.retry_header ≡ get e.headers c.retry_header)
      → let (n, ended) =
          executions c predicates sanitizer attempt redeliver (c.max_retries + 1) 0 d in
        (ended ≡ true) × (n + get_retry_count c d.headers ≤ c.max_retries + 1)
  executions_end_by_header d trust carried keeps =
      executions-end c predicates sanitizer attempt redeliver (λ d'. Unit {0})
        (λ k d' e good p. (tt, claimed_rises trust carried keeps k d' e p)) (c.max_retries + 1) 0 d
        tt (omega arith)

  module _ (source_queue : Text) (named : is_empty source_queue ≡ false) where
    broker_count-history :
        (h : Headers) (n shard : ℕ) (older : List Death)
        → get h original_queue ≡ some (str source_queue)
        → get h "x-death"
          ≡ some (list (table (some (shard_queue_name source_queue n shard)) ∷ older))
        → n ≤ broker_count h
    unfolding broker_count xdeath_retry_floor deaths_floor header_text
    broker_count-history h n shard older origin history =
        rw (origin, named, history) (floor_of-ge source_queue n shard [] older)

    delay_queue-shard :
        (py : Python) (n : ℕ) (id : Text)
        → (shard : ℕ) × (delay_queue py c source_queue n id ≡ shard_queue_name source_queue n shard)
    unfolding delay_queue
    delay_queue-shard py n id = (_, refl)

    history_rises :
        IsCarried original_queue
        → (c.retry_header == original_queue) ≡ false
        → ((e : MessageEnvelope)
            → get (redeliver e).headers original_queue ≡ get e.headers original_queue)
        → ((e : MessageEnvelope)
            → (older : List Death) × (get (redeliver e).headers "x-death"
                ≡ some (list (table (some e.routing_key) ∷ older))))
        → (k : ℕ) (d : Delivery) (e : MessageEnvelope)
        → get d.headers original_queue ≡ some (str source_queue)
        → next_copy c predicates sanitizer attempt redeliver k d ≡ some e
        → (get (redeliver e).headers original_queue ≡ some (str source_queue))
          × (get_retry_count c d.headers < get_retry_count c (redeliver e).headers)
    unfolding get_retry_count queue_text
    history_rises carried other keeps history k d e origin p =
        let a = attempt k in
        let decision =
          decide a.python.fromisoformat c predicates a.exception d.headers a.python.now in
        let n = get_retry_count c d.headers in
        let (headers, key, body) =
          build_retry_envelope-fields a.python c sanitizer d n a.exception decision.classified e
            (next_copy-built c predicates sanitizer attempt redeliver k d e p) in
        let kept =
          keeps e
          ∙ ap (λ h. get h original_queue) headers
          ∙ retry_headers-carried a.python c sanitizer d n a.exception decision.classified
              original_queue (str source_queue) carried other origin in
        let id = (stable_message_id a.python.fresh d d.headers).0 in
        let (shard, name) = delay_queue-shard a.python (n + 1) id in
        let (older, deaths) = history e in
        let routed =
          key ∙ ap (λ v. delay_queue a.python c (queue_text a.python v) (n + 1) id) origin ∙ name in
        let seen = deaths ∙ ap (λ t. some (list (table (some t) ∷ older))) routed in
        (
          kept,
          omega (
            arith,
            next_copy-count c predicates sanitizer attempt redeliver k d e p,
            broker_count-history (redeliver e).headers (n + 1) shard older kept seen,
          ),
        )

    -- The same without any trust in the header, where the broker's history of a copy that comes back
    -- names the delay queue that it was published to first, the source queue has a name that the
    -- delivery says, and the broker keeps that header: if every handoff to a delay queue is accepted,
    -- the attempts of a delivery end in a failure that is not retried, and the handler has run at most
    -- once more than the retries that were left.
    pub executions_end_by_history :
        (d : Delivery)
        → get d.headers original_queue ≡ some (str source_queue)
        → (c.retry_header == original_queue) ≡ false
        → ((e : MessageEnvelope)
            → get (redeliver e).headers original_queue ≡ get e.headers original_queue)
        → ((e : MessageEnvelope)
            → (older : List Death) × (get (redeliver e).headers "x-death"
                ≡ some (list (table (some e.routing_key) ∷ older))))
        → let (n, ended) =
            executions c predicates sanitizer attempt redeliver (c.max_retries + 1) 0 d in
          (ended ≡ true) × (n + get_retry_count c d.headers ≤ c.max_retries + 1)
    executions_end_by_history d origin other keeps history =
        executions-end c predicates sanitizer attempt redeliver
          (λ d'. get d'.headers original_queue ≡ some (str source_queue))
          (λ k d' e. history_rises original_queue-IsCarried other keeps history k d' e)
          (c.max_retries + 1) 0 d origin (omega arith)
