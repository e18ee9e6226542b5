-- ===== src/Engine/Memory/Webhooks/Matching.antt =====
-- A webhook reaches the one run that it was sent for.
use parity_lab.Prelude.{
  ℕ, ◌+◌, ◌≤◌, ◌<◌, String, Bool, true, false, List, [], ◌∷◌, ◌++◌, Option, none, some, ◌==◌,
  string_eq, ◌≡◌, refl, sym, ap, subst, ◌∙◌, ◌≢◌, arith, eq_iff, ◌⊎◌, inl, inr, Bool-cases,
  if◌then◌else◌, ◌&&◌, leb, length, length-append, All,
}
use parity_lab.Prelude.Table.{Table, lookup, get_or, IsMap, lookup-insert_self, lookup-insert_ne}
use parity_lab.Failure.{Try, ok}
use parity_lab.Domain.{Time, Run, Event, zero_run}
use parity_lab.Engine.Records.{
  Digest, WebhookReceipt, matched, WebhookProcessingResult, build_webhook_run_event,
  is_supported_stripe_webhook_type,
}
use parity_lab.Engine.Memory.{MemoryRepository}
use parity_lab.Engine.Memory.Webhooks.Receipts.{fresh_answer}
use parity_lab.Engine.Memory.Webhooks.{
  close_webhook, matches_in, next_sequence, project_match, decide_match, process_receipt,
  process_stripe_webhook,
}

-- a run carries the object and the correlation of a receipt
pub record Carries (receipt : WebhookReceipt) (r : MemoryRepository) (run_id : String) (run : Run)
    : Type 0 where
  pub stored : lookup run_id r.runs ≡ some run
  pub object : run.stripe_object_id ≡ receipt.stripe_object_id
  pub correlation : get_or run_id "" r.correlation_by_run ≡ receipt.correlation_id

-- the webhook went to the run of the result, the only one that carries it: one event is appended
-- to that run, later than all its others, its count is that of its events, and no other run changed
pub record Correlated (receipt : WebhookReceipt) (r : MemoryRepository)
    (result : WebhookProcessingResult) (r' : MemoryRepository) : Type 0 where
  pub run : Run
  pub supported : is_supported_stripe_webhook_type receipt.event_type ≡ true
  pub carries : Carries receipt r result.run_id run
  pub only :
      (run_id : String) (other : Run) → Carries receipt r run_id other → run_id ≡ result.run_id
  pub project : result.project_id ≡ get_or result.run_id "" r.project_by_run
  pub event : Event
  pub appended :
      lookup result.run_id r'.events ≡ some (get_or result.run_id [] r.events ++ event ∷ [])
  pub latest : All (λ e. e.sequence < event.sequence) (get_or result.run_id [] r.events)
  pub counted :
      lookup result.run_id r'.runs
      ≡ some (record run { event_count = length (get_or result.run_id [] r.events) + 1 })
  pub others :
      (run_id : String)
      → run_id ≢ result.run_id
      → (lookup run_id r'.runs ≡ lookup run_id r.runs)
        × (lookup run_id r'.events ≡ lookup run_id r.events)
        × (lookup run_id r'.reports ≡ lookup run_id r.reports)

-- the webhook found no run, and none changed
pub record Untouched (r : MemoryRepository) (result : WebhookProcessingResult)
    (r' : MemoryRepository) : Type 0 where
  pub unmatched : result.status ≢ matched
  pub runs : r'.runs ≡ r.runs
  pub events : r'.events ≡ r.events
  pub reports : r'.reports ≡ r.reports

-- every outcome of a processing is one of the two
abbrev pub Outcome :
    WebhookReceipt → MemoryRepository → Try WebhookProcessingResult × MemoryRepository → Type 0
Outcome receipt r out =
    (result : WebhookProcessingResult) × (out.0 ≡ ok result)
    × (Correlated receipt r result out.1 ⊎ Untouched r result out.1)

-- `next_sequence n` is above `n` and every sequence
next_sequence-above :
    (n : ℕ) (events : List Event)
    → (n ≤ next_sequence n events) × All (λ e. e.sequence < next_sequence n events) events
unfolding next_sequence
next_sequence-above n [] = (omega arith, tt)
next_sequence-above n (event ∷ events) =
    let (high, rest) =
      next_sequence-above (if leb n event.sequence then event.sequence + 1 else n) events in
    (ground (arith, high), (ground (arith, high), rest))

listed : String → List String → Bool
listed id [] = false
listed id (x ∷ xs) = if x == id then true else listed id xs

module _ (receipt : WebhookReceipt) (correlations : Table String String) where
  is_match : String → Run → Bool
  is_match run_id run =
      run.stripe_object_id == receipt.stripe_object_id
      && (get_or run_id "" correlations == receipt.correlation_id)

  matches_in_lem :
      (run_id : String) (runs : Table String Run)
      → IsMap runs
      → listed run_id (matches_in receipt correlations runs).1
        ≡ elim (lookup run_id runs) [ none ↦ false | some run ↦ is_match run_id run ]
  unfolding listed is_match matches_in lookup
  matches_in_lem run_id [] h = refl
  matches_in_lem run_id ((k, run) ∷ runs) h =
      ground (arith, matches_in_lem run_id runs h.1, h.0, eq_iff k run_id)

  found_of :
      (run_id : String) (found : Option Run)
      → elim found [ none ↦ false | some run ↦ is_match run_id run ] ≡ true
      → (run : Run) × (found ≡ some run)
        × (run.stripe_object_id ≡ receipt.stripe_object_id)
        × (get_or run_id "" correlations ≡ receipt.correlation_id)
  unfolding is_match
  found_of run_id none h = ground arith
  found_of run_id (some run) h = (
    run,
    refl,
    ground (arith, eq_iff run.stripe_object_id receipt.stripe_object_id),
    ground (arith, eq_iff (get_or run_id "" correlations) receipt.correlation_id),
  )

run_or_zero : Option Run → Run
run_or_zero none = zero_run
run_or_zero (some run) = run

module _ (sha256 : String → Digest) (now : Time) (event_id : String) (receipt : WebhookReceipt)
    (r : MemoryRepository) where
  project_match-Correlated :
      (run_id : String)
      → IsMap r.runs
      → is_supported_stripe_webhook_type receipt.event_type ≡ true
      → (matches_in receipt r.correlation_by_run r.runs).1 ≡ run_id ∷ []
      → Outcome receipt r (project_match sha256 now event_id receipt run_id r)
  unfolding project_match listed is_match run_or_zero build_webhook_run_event
  project_match-Correlated run_id h supported one =
      let (run, stored, object, correlation) = found_of receipt r.correlation_by_run run_id _ (
        sym (matches_in_lem receipt r.correlation_by_run run_id r.runs h)
        ∙ ap (listed run_id) one
        ∙ ground (arith, eq_iff run_id run_id)) in
      let before = get_or run_id [] r.events in
      let event = build_webhook_run_event sha256 now receipt run_id (next_sequence 1 before) in
      (
        _,
        refl,
        inl (record {
          run = run;
          supported = supported;
          carries = record { stored = stored; object = object; correlation = correlation };
          only = λ other_id other carries. ground (
            arith,
            matches_in_lem receipt r.correlation_by_run other_id r.runs h,
            one,
            carries.stored,
            carries.object,
            carries.correlation,
            eq_iff run_id other_id,
            eq_iff other.stripe_object_id receipt.stripe_object_id,
            eq_iff (get_or other_id "" r.correlation_by_run) receipt.correlation_id,
          );
          project = refl;
          event = event;
          appended = lookup-insert_self run_id _ r.events;
          latest = (next_sequence-above 1 before).1;
          counted =
              lookup-insert_self run_id _ r.runs
              ∙ ap
                  (λ found.
                    some
                      (record (run_or_zero found) { event_count = length (before ++ event ∷ []) }))
                  stored
              ∙ ap (λ n. some (record run { event_count = n })) (length-append before (event ∷ []));
          others = λ other_id ne. (
            lookup-insert_ne run_id other_id _ r.runs ne,
            lookup-insert_ne run_id other_id _ r.events ne,
            lookup-insert_ne run_id other_id _ r.reports ne,
          );
        }),
      )

  close_webhook-Untouched :
      (result : WebhookProcessingResult)
      → result.status ≢ matched
      → Outcome receipt r (close_webhook event_id result r)
  close_webhook-Untouched result h =
      (result, refl, inr (record { unmatched = h; runs = refl; events = refl; reports = refl }))

  decide_match-Outcome :
      (objects correlated : List String)
      → IsMap r.runs
      → is_supported_stripe_webhook_type receipt.event_type ≡ true
      → (matches_in receipt r.correlation_by_run r.runs).1 ≡ correlated
      → Outcome receipt r (decide_match sha256 now event_id receipt objects correlated r)
  unfolding decide_match
  decide_match-Outcome [] correlated h s e = close_webhook-Untouched _ (ground arith)
  decide_match-Outcome (o ∷ objects) [] h s e = close_webhook-Untouched _ (ground arith)
  decide_match-Outcome (o ∷ objects) (run_id ∷ []) h s e = project_match-Correlated run_id h s e
  decide_match-Outcome (o ∷ objects) (c ∷ c' ∷ correlated) h s e =
      close_webhook-Untouched _ (ground arith)

  process_receipt-Outcome :
      IsMap r.runs → Outcome receipt r (process_receipt sha256 now event_id receipt r)
  unfolding process_receipt
  process_receipt-Outcome h =
      elim (Bool-cases (is_supported_stripe_webhook_type receipt.event_type)) [
        | inr unsupported ↦
            rw (unsupported, process_receipt) (close_webhook-Untouched _ (ground arith))
        | inl supported ↦ elim (Bool-cases (receipt.stripe_object_id == "")) [
          | inl missing ↦
              rw (supported, process_receipt, missing) (close_webhook-Untouched _ (ground arith))
          | inr present ↦ elim (Bool-cases (receipt.correlation_id == "")) [
            | inl missing ↦
                rw (supported, process_receipt, present, missing)
                  (close_webhook-Untouched _ (ground arith))
            | inr complete ↦
                rw (supported, process_receipt, present, complete)
                  (decide_match-Outcome _ _ h supported refl)
          ]
        ]
      ]

  -- The first processing of a stored webhook always succeeds. Either it reaches the one run that has
  -- the object and the correlation of the webhook, which gets one event behind all its others and
  -- the count of its events, no other run being touched; or the outcome is not a match, and no run,
  -- event or report changes. The condition is that the table of runs has one entry for an id.
  pub process_stripe_webhook-Outcome :
      IsMap r.runs
      → lookup event_id r.webhook_results ≡ none
      → lookup event_id r.webhooks ≡ some receipt
      → Outcome receipt r (process_stripe_webhook sha256 now event_id r)
  process_stripe_webhook-Outcome h fresh seen =
      subst (Outcome receipt r) (sym (fresh_answer sha256 now event_id r fresh seen))
        (process_receipt-Outcome h)
