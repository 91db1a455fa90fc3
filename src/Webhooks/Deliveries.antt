-- ===== src/Webhooks/Deliveries.antt =====
-- src/modules/webhooks: the rows of repositories/webhook-delivery.repository.ts and their changes,
-- the claims of domain/idempotency.guard.ts, and the queue and the events that the services fill.
-- The times in the rows are left out.
use armstrong_bot.Prelude.{
  ℕ, ◌+◌, String, Bool, true, false, ◌&&◌, List, [], ◌∷◌, ◌++◌, Option, none, some, eqb,
  if◌then◌else◌, Result, ok, err, filter, find, not, ◌==◌,
}

pub data WebhookProvider : Type 0 where
  github stripe fivem custom : WebhookProvider

pub data DeliveryStatus : Type 0 where
  received verified rejected processing processed failed dead_lettered : DeliveryStatus

-- A header that is present may still have no value.
abbrev pub InboundHeaders : Type 0
InboundHeaders = List (String × Option String)

pub record WebhookEndpointRecord : Type 0 where
  pub id : ℕ
  pub token : String
  pub guild_id : Option String
  pub provider : WebhookProvider
  pub signing_secret : String
  pub is_enabled : Bool
  -- `deletedAt !== null`
  pub deleted : Bool

pub record IngressDelivery : Type 0 where
  pub id : ℕ
  pub endpoint_id : ℕ
  pub guild_id : Option String
  pub provider : WebhookProvider
  pub external_id : Option String
  pub event_type : Option String
  pub status : DeliveryStatus
  pub raw_body : List ℕ
  pub headers : List (String × String)
  pub reject_reason : Option String

pub data InboundError : Type 0 where
  endpoint_disabled : InboundError
  payload_too_large : ℕ → ℕ → InboundError
  signature_invalid : String → InboundError
  -- an error of the database, of the queue, of the cipher or of a normalizer
  other_error : String → InboundError

pub record IntegrationEvent : Type 0 where
  pub event_type : String

pub data WebhookEvent : Type 0 where
  delivery_failed : ℕ → Option String → WebhookProvider → String → WebhookEvent
  integration_event : IntegrationEvent → WebhookEvent

-- The guild and the delivery id of a claim, which are the parts of its cache key.
pub record ClaimKey : Type 0 where
  pub guild : Option String
  pub delivery_id : String

-- The tables, the keys in the cache that have not expired, the jobs and the events.
pub record InboundState : Type 0 where
  pub deliveries : List IngressDelivery
  pub claims : List ClaimKey
  pub queue : List ℕ
  pub events : List WebhookEvent
  pub next_id : ℕ

-- Which of the writes fail during a call.
pub record Faults : Type 0 where
  pub create_fails : Bool
  pub update_fails : Bool
  pub enqueue_fails : Bool

abbrev has_external_id : String → Option String → Bool
has_external_id x none = false
has_external_id x (some y) = y == x

abbrev pub is_of : ℕ → String → IngressDelivery → Bool
is_of endpoint x d = eqb d.endpoint_id endpoint && has_external_id x d.external_id

-- `findIngressByExternalId`
abbrev pub find_by_external_id : ℕ → String → List IngressDelivery → Option IngressDelivery
find_by_external_id endpoint x rows = find (is_of endpoint x) rows

abbrev pub find_by_id : ℕ → List IngressDelivery → Option IngressDelivery
find_by_id id rows = find (λ d. eqb d.id id) rows

abbrev pub update_delivery :
    ℕ → (IngressDelivery → IngressDelivery) → List IngressDelivery → List IngressDelivery
update_delivery id f [] = []
update_delivery id f (d ∷ rows) = (if eqb d.id id then f d else d) ∷ update_delivery id f rows

abbrev pub mark : DeliveryStatus → Option String → IngressDelivery → IngressDelivery
mark status reason d = record d { status = status; reject_reason = reason }

-- `updateIngressStatus` with the status and the reason for it
abbrev pub update_ingress_status : ℕ → DeliveryStatus → Option String → InboundState → InboundState
update_ingress_status id status reason s = record s {
  deliveries = update_delivery id (mark status reason) s.deliveries;
}

-- Whether the unique index on the endpoint and the external id has such a row.
abbrev pub conflicts : ℕ → Option String → List IngressDelivery → Bool
conflicts endpoint none rows = false
conflicts endpoint (some x) rows = elim (find_by_external_id endpoint x rows) [
  | none ↦ false
  | some _ ↦ true
]

abbrev pub with_delivery : IngressDelivery → InboundState → InboundState
with_delivery d s = record s { deliveries = s.deliveries ++ d ∷ []; next_id = s.next_id + 1 }

-- `createIngress`: the id of the new row.
unfoldable pub create_ingress :
    Faults → IngressDelivery → InboundState → Result InboundError ℕ × InboundState
create_ingress faults d s =
    if faults.create_fails
    then (err (other_error "database"), s)
    else if conflicts d.endpoint_id d.external_id s.deliveries
    then (err (other_error "unique"), s)
    else (ok d.id, with_delivery d s)

abbrev same_guild : Option String → Option String → Bool
same_guild none none = true
same_guild (some a) (some b) = a == b
same_guild _ _ = false

abbrev same_claim : ClaimKey → ClaimKey → Bool
same_claim a b = same_guild a.guild b.guild && a.delivery_id == b.delivery_id

abbrev pub is_claimed : ClaimKey → List ClaimKey → Bool
is_claimed k [] = false
is_claimed k (c ∷ cs) = if same_claim c k then true else is_claimed k cs

-- `guildId ? forGuild : forGlobal`
abbrev pub cache_key : Option String → String → ClaimKey
cache_key none id = record { guild = none; delivery_id = id }
cache_key (some g) id = record { guild = if g == "" then none else some g; delivery_id = id }

-- `IdempotencyGuard.claim`: whether this is the first sighting.
unfoldable pub claim : ClaimKey → ℕ → InboundState → Bool × InboundState
claim k ttl_seconds s =
    if eqb ttl_seconds 0
    then (true, s)
    else if is_claimed k s.claims
    then (false, s)
    else (true, record s { claims = k ∷ s.claims })

abbrev pub release : ClaimKey → InboundState → InboundState
release k s = record s { claims = filter (λ c. not (same_claim c k)) s.claims }

abbrev pub emit : WebhookEvent → InboundState → InboundState
emit e s = record s { events = e ∷ s.events }
