-- ===== src/Webhooks/Worker.antt =====
-- `process` of src/modules/webhooks/application/inbound-webhook.service.ts, which the inbound worker
-- calls for a queued delivery. The normalizer is a parameter; whether the bus takes the event, and
-- which of the writes fail, are inputs.
pub mod Settled
use armstrong_bot.Prelude.{ℕ, String, Bool, if◌then◌else◌, Option, none, some, Result, ok, err}
use armstrong_bot.Webhooks.Deliveries.{
  processing, processed, failed, IngressDelivery, InboundError, endpoint_disabled,
  payload_too_large, signature_invalid, other_error, IntegrationEvent, delivery_failed,
  integration_event, InboundState, find_by_id, update_delivery, update_ingress_status, emit,
}

-- The text of an error.
abbrev message_of : InboundError → String
message_of (signature_invalid m) = m
message_of (other_error m) = m
message_of endpoint_disabled = "endpoint disabled"
message_of (payload_too_large _ _) = "payload too large"

-- Which of the updates of the status throw: to `processing`, to `processed` and to `failed`.
pub record WorkerFaults : Type 0 where
  pub start_fails : Bool
  pub finish_fails : Bool
  pub mark_fails : Bool

-- `markFailed` and the `throw` after it; a failing update throws its own error.
abbrev mark_failed :
    WorkerFaults
    → IngressDelivery
    → InboundError
    → InboundState
    → Result InboundError (Unit {0}) × InboundState
mark_failed faults d x s = if faults.mark_fails then (err (other_error "database"), s) else (
  err x,
  emit (delivery_failed d.id d.guild_id d.provider (message_of x))
      (update_ingress_status d.id failed (some (message_of x)) s),
)

abbrev finish_row : Option String → IngressDelivery → IngressDelivery
finish_row event_type d = record d { status = processed; event_type = event_type }

abbrev finish_processed : ℕ → Option String → InboundState → InboundState
finish_processed id event_type s = record s {
  deliveries = update_delivery id (finish_row event_type) s.deliveries;
}

-- The last update, inside of the `try`.
finish_row_of :
    WorkerFaults
    → IngressDelivery
    → Option String
    → InboundState
    → Result InboundError (Unit {0}) × InboundState
finish_row_of faults d event_type s =
    if faults.finish_fails
    then mark_failed faults d (other_error "database") s
    else (ok tt, finish_processed d.id event_type s)

-- `process` once the row is `processing`, by what its normalizer gives and whether the bus takes it.
finish_process :
    WorkerFaults
    → IngressDelivery
    → Result InboundError (Option IntegrationEvent)
    → Result InboundError (Unit {0})
    → InboundState
    → Result InboundError (Unit {0}) × InboundState
finish_process faults d (err x) emitted s = mark_failed faults d x s
finish_process faults d (ok none) emitted s = finish_row_of faults d d.event_type s
finish_process faults d (ok (some e)) (err x) s = mark_failed faults d x s
finish_process faults d (ok (some e)) (ok _) s =
    finish_row_of faults d (some e.event_type) (emit (integration_event e) s)

module _ (normalize : IngressDelivery → Result InboundError (Option IntegrationEvent)) where
  unfoldable pub process :
      WorkerFaults
      → Result InboundError (Unit {0})
      → ℕ
      → InboundState
      → Result InboundError (Unit {0}) × InboundState
  unfolding finish_process finish_row_of
  process faults emitted id s = elim (find_by_id id s.deliveries) [
    | none ↦ (ok tt, s)
    | some d ↦
        if faults.start_fails
        then (err (other_error "database"), s)
        else finish_process faults d (normalize d) emitted
            (update_ingress_status d.id processing d.reject_reason s)
  ]
