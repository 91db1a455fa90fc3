-- ===== src/Webhooks/Tests.antt =====
-- Runs of the inbound webhooks at concrete inputs.
use armstrong_bot.Prelude.{
  ℕ, ◌≡◌, refl, String, true, false, List, [], ◌∷◌, Option, none, some, if◌then◌else◌, Result, ok,
  err, eqb,
}
use armstrong_bot.Webhooks.Deliveries.{
  github, verified, InboundHeaders, WebhookEndpointRecord, IngressDelivery, InboundError,
  signature_invalid, other_error, IntegrationEvent, InboundState, Faults,
}
use armstrong_bot.Webhooks.Inbound.{AcceptResult, WebhooksConfig, Inbound, Verifier, accept}
use armstrong_bot.Webhooks.Inbound.Accepted.{IsAccepted, accept-IsAccepted}
use armstrong_bot.Webhooks.Inbound.Duplicates.{accept-accept}
use armstrong_bot.Webhooks.Inbound.Genuine.{accept-genuine}
use armstrong_bot.Webhooks.Inbound.Shadowed.{IsShadowed, accept-forged, accept-retry}
use armstrong_bot.Webhooks.Worker.{WorkerFaults, process}
use armstrong_bot.Webhooks.Worker.Settled.{IsSettled, process-IsSettled}

abbrev config : WebhooksConfig
config = record {
  max_inbound_body_bytes = 4;
  signature_tolerance_seconds = 300;
  dedupe_ttl_seconds = 60;
}

abbrev endpoint : WebhookEndpointRecord
endpoint = record {
  id = 7;
  token = "t";
  guild_id = some "g";
  provider = github;
  signing_secret = "cipher";
  is_enabled = true;
  deleted = false;
}

abbrev endpoints : List WebhookEndpointRecord
endpoints = endpoint ∷ []

abbrev decrypt : String → Result InboundError String
decrypt s = ok "secret"

-- A body is signed if it starts with a one.
abbrev verify_first_byte : Verifier
verify_first_byte provider [] headers secret tolerance = err (signature_invalid "empty")
verify_first_byte provider (b ∷ _) headers secret tolerance =
    if eqb b 1 then ok tt else err (signature_invalid "forged")

abbrev digest : List ℕ → String
digest body = "digest"

abbrev headers : InboundHeaders
headers = ("x-github-delivery", some "d1") ∷ ("x-other", none) ∷ []

abbrev genuine : Inbound
genuine = record { token = "t"; raw_body = 1 ∷ 2 ∷ []; headers = headers }

abbrev forged : Inbound
forged = record { token = "t"; raw_body = 3 ∷ []; headers = headers }

abbrev all_works : Faults
all_works = record { create_fails = false; update_fails = false; enqueue_fails = false }

abbrev queue_down : Faults
queue_down = record { create_fails = false; update_fails = false; enqueue_fails = true }

abbrev empty : InboundState
empty = record { deliveries = []; claims = []; queue = []; events = []; next_id = 0 }

abbrev run : Faults → Inbound → InboundState → Result InboundError AcceptResult × InboundState
run = accept config endpoints decrypt verify_first_byte digest

accept-IsAccepted_example :
    IsAccepted config endpoints decrypt verify_first_byte digest genuine empty
      (record { internal_delivery_id = 0; deduped = false })
      (run all_works genuine empty).1
unfolding accept
accept-IsAccepted_example =
    accept-IsAccepted config endpoints decrypt verify_first_byte digest all_works genuine empty
      (record { internal_delivery_id = 0; deduped = false }) refl refl

accept-accept_example :
    run queue_down genuine (run all_works genuine empty).1
    ≡ (ok (record { internal_delivery_id = 0; deduped = true }), (run all_works genuine empty).1)
unfolding accept
accept-accept_example =
    accept-accept config endpoints decrypt verify_first_byte digest all_works queue_down genuine
      empty (record { internal_delivery_id = 0; deduped = false }) endpoint "d1" refl refl refl refl

accept-forged_example :
    ((run all_works forged empty).0 ≡ err (signature_invalid "forged"))
    × IsShadowed config endpoints decrypt verify_first_byte digest all_works genuine empty
        (run all_works forged empty)
unfolding accept
accept-forged_example =
    accept-forged config endpoints decrypt verify_first_byte digest all_works all_works forged
      genuine empty endpoint "d1" "secret" (signature_invalid "forged") refl refl
      (record { small = refl; live = refl; unseen = refl }) refl refl refl refl refl refl

accept-retry_example :
    ((run queue_down genuine empty).0 ≡ err (other_error "queue"))
    × IsShadowed config endpoints decrypt verify_first_byte digest all_works genuine empty
        (run queue_down genuine empty)
unfolding accept
accept-retry_example =
    accept-retry config endpoints decrypt verify_first_byte digest queue_down all_works genuine
      empty endpoint "d1" "secret" refl refl refl
      (record { small = refl; live = refl; unseen = refl }) refl refl refl

abbrev stored_row : IngressDelivery
stored_row = record {
  id = 0;
  endpoint_id = 7;
  guild_id = some "g";
  provider = github;
  external_id = some "d1";
  event_type = none;
  status = verified;
  raw_body = 1 ∷ 2 ∷ [];
  headers = ("x-github-delivery", "d1") ∷ [];
  reject_reason = none;
}

abbrev push_event : IngressDelivery → Result InboundError (Option IntegrationEvent)
push_event d = ok (some (record { event_type = "github.push" }))

-- The bus is down, and the row is marked.
abbrev bus_down : WorkerFaults
bus_down = record { start_fails = false; finish_fails = false; mark_fails = false }

process-IsSettled_example :
    IsSettled bus_down 0 stored_row
      (process push_event bus_down (err (other_error "bus")) 0 (run all_works genuine empty).1)
unfolding accept
process-IsSettled_example =
    process-IsSettled push_event bus_down (err (other_error "bus")) 0 stored_row
      (run all_works genuine empty).1 refl refl

accept-genuine_example :
    (run all_works genuine empty).0 ≡ ok (record { internal_delivery_id = 0; deduped = false })
unfolding accept
accept-genuine_example =
    accept-genuine config endpoints decrypt verify_first_byte digest all_works genuine empty
      endpoint (refl, refl, refl) (record { small = refl; live = refl; unseen = refl })
      (record { secret = "secret"; opened = refl; checked = refl })
