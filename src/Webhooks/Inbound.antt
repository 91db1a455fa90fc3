-- ===== src/Webhooks/Inbound.antt =====
-- src/modules/webhooks/application/inbound-webhook.service.ts. The verifiers of the providers, the
-- cipher, the digest and the normalizers are parameters; a call takes which of its writes fail.
pub mod Accepted
pub mod Duplicates
pub mod Shadowed
pub mod Genuine
use armstrong_bot.Prelude.{
  ℕ, String, Bool, true, false, ◌&&◌, not, List, [], ◌∷◌, Option, none, some, ltb, if◌then◌else◌,
  Result, ok, err, lookup, find, length, ◌==◌,
}
use armstrong_bot.Webhooks.Deliveries.{
  WebhookProvider, github, stripe, received, verified, rejected, InboundHeaders,
  WebhookEndpointRecord, IngressDelivery, InboundError, endpoint_disabled, payload_too_large,
  signature_invalid, other_error, delivery_failed, InboundState, Faults, ClaimKey,
  find_by_external_id, update_ingress_status, create_ingress, cache_key, claim, release, emit,
}

pub record AcceptResult : Type 0 where
  pub internal_delivery_id : ℕ
  pub deduped : Bool

pub record WebhooksConfig : Type 0 where
  pub max_inbound_body_bytes : ℕ
  pub signature_tolerance_seconds : ℕ
  pub dedupe_ttl_seconds : ℕ

-- A request at the ingress controller.
pub record Inbound : Type 0 where
  pub token : String
  pub raw_body : List ℕ
  pub headers : InboundHeaders

abbrev delivery_id_header : WebhookProvider → String
delivery_id_header github = "x-github-delivery"
delivery_id_header stripe = "stripe-signature"
delivery_id_header _ = "x-webhook-delivery"

-- The names above are in lower case, so the second look-up of `header` is the first.
abbrev header : InboundHeaders → String → Option String
header headers name = elim (lookup name headers) [ none ↦ none | some v ↦ v ]

abbrev non_empty : Option String → Option String
non_empty none = none
non_empty (some v) = if v == "" then none else some v

abbrev pub extract_delivery_id : WebhookProvider → InboundHeaders → Option String
extract_delivery_id provider headers = non_empty (header headers (delivery_id_header provider))

abbrev pub sanitize_headers : InboundHeaders → List (String × String)
sanitize_headers [] = []
sanitize_headers ((key, none) ∷ rest) = sanitize_headers rest
sanitize_headers ((key, some value) ∷ rest) = (key, value) ∷ sanitize_headers rest

abbrev pub find_by_token : String → List WebhookEndpointRecord → Option WebhookEndpointRecord
find_by_token token endpoints = find (λ e. e.token == token) endpoints

abbrev pub resolve_endpoint : String → List WebhookEndpointRecord → Option WebhookEndpointRecord
resolve_endpoint token endpoints = elim (find_by_token token endpoints) [
  | none ↦ none
  | some e ↦ if e.is_enabled && not e.deleted then some e else none
]

abbrev pub find_prior :
    WebhookEndpointRecord → Option String → InboundState → Option IngressDelivery
find_prior e none s = none
find_prior e (some x) s = find_by_external_id e.id x s.deliveries

abbrev pub new_delivery : WebhookEndpointRecord → Inbound → InboundState → IngressDelivery
new_delivery e q s = record {
  id = s.next_id;
  endpoint_id = e.id;
  guild_id = e.guild_id;
  provider = e.provider;
  external_id = extract_delivery_id e.provider q.headers;
  event_type = none;
  status = received;
  raw_body = q.raw_body;
  headers = sanitize_headers q.headers;
  reject_reason = none;
}

abbrev reason_of : InboundError → String
reason_of (signature_invalid message) = message
reason_of _ = "signature verification error"

-- The rest of `persistRejected`, once its row is created or not.
finish_rejected :
    Faults
    → WebhookEndpointRecord
    → InboundError
    → Result InboundError ℕ × InboundState
    → InboundState
finish_rejected faults e x (err _, s) = s
finish_rejected faults e x (ok id, s) =
    if faults.update_fails
    then s
    else emit (delivery_failed id e.guild_id e.provider (reason_of x))
        (update_ingress_status id rejected (some (reason_of x)) s)

unfoldable pub persist_rejected :
    Faults → WebhookEndpointRecord → Inbound → InboundError → InboundState → InboundState
unfolding finish_rejected create_ingress
persist_rejected faults e q x s =
    finish_rejected faults e x (create_ingress faults (new_delivery e q s) s)

-- The rest of the `try` block, once the row is created or not, and its `catch`.
finish_store :
    Faults
    → ClaimKey
    → Result InboundError ℕ × InboundState
    → Result InboundError AcceptResult × InboundState
finish_store faults key (err x, s) = (err x, release key s)
finish_store faults key (ok id, s) =
    if faults.update_fails
    then (err (other_error "database"), release key s)
    else let s' = update_ingress_status id verified none s in
      if faults.enqueue_fails then (err (other_error "queue"), release key s') else (
        ok (record { internal_delivery_id = id; deduped = false }),
        record s' { queue = id ∷ s'.queue },
      )

store :
    Faults
    → ClaimKey
    → WebhookEndpointRecord
    → Inbound
    → InboundState
    → Result InboundError AcceptResult × InboundState
store faults key e q s = finish_store faults key (create_ingress faults (new_delivery e q s) s)

abbrev pub duplicate : IngressDelivery → AcceptResult
duplicate d = record { internal_delivery_id = d.id; deduped = true }

-- After the claim: the second look-up is only made when the key was claimed before.
after_claim :
    Faults
    → ClaimKey
    → WebhookEndpointRecord
    → Inbound
    → Bool × InboundState
    → Result InboundError AcceptResult × InboundState
after_claim faults key e q (true, s) = store faults key e q s
after_claim faults key e q (false, s) =
    elim (find_prior e (extract_delivery_id e.provider q.headers) s) [
      | some d ↦ (ok (duplicate d), s)
      | none ↦ store faults key e q s
    ]

-- The verifier of a provider by its raw body, headers, secret and tolerance.
abbrev pub Verifier : Type 0
Verifier = WebhookProvider → List ℕ → InboundHeaders → String → ℕ → Result InboundError (Unit {0})

module _ (config : WebhooksConfig) (endpoints : List WebhookEndpointRecord)
    (decrypt : String → Result InboundError String) (verify : Verifier)
    (digest : List ℕ → String) where
  abbrev pub check_signature :
      WebhookEndpointRecord → Inbound → String → Result InboundError (Unit {0})
  check_signature e q secret =
      verify e.provider q.raw_body q.headers secret config.signature_tolerance_seconds

  abbrev pub dedupe_key : WebhookEndpointRecord → Inbound → ClaimKey
  dedupe_key e q =
      cache_key e.guild_id
        (elim (extract_delivery_id e.provider q.headers) [ none ↦ digest q.raw_body | some x ↦ x ])

  pub after_check :
      Faults
      → WebhookEndpointRecord
      → Inbound
      → Result InboundError (Unit {0})
      → InboundState
      → Result InboundError AcceptResult × InboundState
  unfolding after_claim store finish_store
  after_check faults e q (err x) s = (err x, persist_rejected faults e q x s)
  after_check faults e q (ok _) s =
      after_claim faults (dedupe_key e q) e q (claim (dedupe_key e q) config.dedupe_ttl_seconds s)

  -- `verifySignature`, whose call of `decrypt` stands before its `try`, and what follows it.
  verify_and_store :
      Faults
      → WebhookEndpointRecord
      → Inbound
      → Result InboundError String
      → InboundState
      → Result InboundError AcceptResult × InboundState
  verify_and_store faults e q (err x) s = (err x, s)
  verify_and_store faults e q (ok secret) s = after_check faults e q (check_signature e q secret) s

  at_endpoint :
      Faults
      → WebhookEndpointRecord
      → Inbound
      → InboundState
      → Result InboundError AcceptResult × InboundState
  at_endpoint faults e q s = elim (find_prior e (extract_delivery_id e.provider q.headers) s) [
    | some d ↦ (ok (duplicate d), s)
    | none ↦ verify_and_store faults e q (decrypt e.signing_secret) s
  ]

  unfoldable pub accept :
      Faults → Inbound → InboundState → Result InboundError AcceptResult × InboundState
  unfolding at_endpoint verify_and_store after_check after_claim store finish_store persist_rejected
      finish_rejected create_ingress claim
  accept faults q s =
      if ltb config.max_inbound_body_bytes (length q.raw_body)
      then (err (payload_too_large (length q.raw_body) config.max_inbound_body_bytes), s)
      else elim (resolve_endpoint q.token endpoints) [
        | none ↦ (err endpoint_disabled, s)
        | some e ↦ at_endpoint faults e q s
      ]
