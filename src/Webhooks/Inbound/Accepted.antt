-- ===== src/Webhooks/Inbound/Accepted.antt =====
-- How a call of `accept` in inbound-webhook.service.ts goes that ends well and is no duplicate.
use armstrong_bot.Prelude.{
  ℕ, ◌+◌, ◌≡◌, refl, sym, ap, ◌∙◌, subst, ◌⊎◌, inl, inr, String, Bool, true, false, List, [], ◌∷◌,
  ◌++◌, Option, none, some, eqb, ltb, Result, ok, err, arith, Bool-cases, Option-cases,
  Result-cases, length,
}
use armstrong_bot.Webhooks.Deliveries.{
  DeliveryStatus, verified, InboundError, other_error, WebhookEndpointRecord, IngressDelivery,
  InboundState, Faults, ClaimKey, is_of, find_by_external_id, update_delivery, mark, conflicts,
  is_claimed, create_ingress, with_delivery, claim,
}
use armstrong_bot.Webhooks.Inbound.{
  AcceptResult, WebhooksConfig, Inbound, Verifier, extract_delivery_id, resolve_endpoint,
  find_prior, new_delivery, finish_store, store, after_claim, check_signature, dedupe_key,
  after_check, verify_and_store, at_endpoint, accept,
}

-- The row that was just stored is the one that its external id finds.
pub find_by_external_id-stored :
    (endpoint : ℕ) (x : String) (d : IngressDelivery) (status : DeliveryStatus)
    (reason : Option String) (rows : List IngressDelivery)
    → find_by_external_id endpoint x rows ≡ none
    → is_of endpoint x d ≡ true
    → find_by_external_id endpoint x (update_delivery d.id (mark status reason) (rows ++ d ∷ []))
      ≡ some (mark status reason d)
find_by_external_id-stored endpoint x d status reason [] fresh own = ground arith
find_by_external_id-stored endpoint x d status reason (r ∷ rows) fresh own =
    ground (arith, find_by_external_id-stored endpoint x d status reason rows)

-- A claim changes the claims only.
pub claim-cases :
    (k : ClaimKey) (ttl : ℕ) (s : InboundState)
    → (first : Bool) × (cs : List ClaimKey) × (claim k ttl s ≡ (first, record s { claims = cs }))
unfolding claim
claim-cases k ttl s = elim (Bool-cases (eqb ttl 0)) [
  | inl off ↦ (true, s.claims, rw (off))
  | inr on ↦ elim (Bool-cases (is_claimed k s.claims)) [
    | inl known ↦ (false, s.claims, rw (on, known))
    | inr new ↦ (true, k ∷ s.claims, rw (on, new))
  ]
]

-- What a call did that was accepted, and not as a duplicate.
pub record IsStored (e : WebhookEndpointRecord) (q : Inbound) (s : InboundState) (r : AcceptResult)
    (t : InboundState) : Type 0 where
  pub result : r ≡ record { internal_delivery_id = s.next_id; deduped = false }
  pub rows :
      t.deliveries
      ≡ update_delivery s.next_id (mark verified none) (s.deliveries ++ new_delivery e q s ∷ [])
  pub jobs : t.queue ≡ s.next_id ∷ s.queue
  pub ids : t.next_id ≡ s.next_id + 1

pub create_ingress-cases :
    (faults : Faults) (d : IngressDelivery) (s : InboundState)
    → ((x : InboundError) × (create_ingress faults d s ≡ (err x, s)))
      ⊎ (create_ingress faults d s ≡ (ok d.id, with_delivery d s))
unfolding create_ingress
create_ingress-cases faults d s = elim (Bool-cases faults.create_fails) [
  | inl broken ↦ inl (other_error "database", rw (broken))
  | inr works ↦ elim (Bool-cases (conflicts d.endpoint_id d.external_id s.deliveries)) [
    | inl taken ↦ inl (other_error "unique", rw (works, taken))
    | inr free ↦ inr (rw (works, free))
  ]
]

store-IsStored :
    (faults : Faults) (key : ClaimKey) (e : WebhookEndpointRecord) (q : Inbound) (s : InboundState)
    (r : AcceptResult)
    → (store faults key e q s).0 ≡ ok r
    → IsStored e q s r (store faults key e q s).1
unfolding store finish_store
store-IsStored faults key e q s r h = elim (create_ingress-cases faults (new_delivery e q s) s) [
  | inl (x, stopped) ↦ absurd (cc (rw (stopped, store, finish_store) at h))
  | inr created ↦ elim (Bool-cases faults.update_fails) [
    | inl broken ↦ absurd (cc (rw (created, broken, store, finish_store) at h))
    | inr works ↦ elim (Bool-cases faults.enqueue_fails) [
      | inl full ↦ absurd (cc (rw (created, works, full, store, finish_store) at h))
      | inr queued ↦ record {
        result = cc (rw (created, works, queued, store, finish_store) at h);
        rows = rw (created, works, queued);
        jobs = rw (created, works, queued);
        ids = rw (created, works, queued);
      }
    ]
  ]
]

store-IsStored_claims :
    (faults : Faults) (key : ClaimKey) (e : WebhookEndpointRecord) (q : Inbound) (s : InboundState)
    (cs : List ClaimKey) (r : AcceptResult)
    → (store faults key e q (record s { claims = cs })).0 ≡ ok r
    → IsStored e q s r (store faults key e q (record s { claims = cs })).1
store-IsStored_claims faults key e q s cs r h =
    let stored = store-IsStored faults key e q (record s { claims = cs }) r h in
    record { result = stored.result; rows = stored.rows; jobs = stored.jobs; ids = stored.ids }

pub find_prior-claims :
    (e : WebhookEndpointRecord) (x : Option String) (s : InboundState) (cs : List ClaimKey)
    → find_prior e x (record s { claims = cs }) ≡ find_prior e x s
find_prior-claims e none s cs = refl
find_prior-claims e (some x) s cs = refl

after_claim-IsStored_at :
    (faults : Faults) (key : ClaimKey) (e : WebhookEndpointRecord) (q : Inbound) (s : InboundState)
    (first : Bool) (cs : List ClaimKey) (r : AcceptResult)
    → find_prior e (extract_delivery_id e.provider q.headers) s ≡ none
    → (after_claim faults key e q (first, record s { claims = cs })).0 ≡ ok r
    → IsStored e q s r (after_claim faults key e q (first, record s { claims = cs })).1
unfolding after_claim
after_claim-IsStored_at faults key e q s true cs r unseen h =
    store-IsStored_claims faults key e q s cs r h
after_claim-IsStored_at faults key e q s false cs r unseen h =
    let still : find_prior e (extract_delivery_id e.provider q.headers) (record s { claims = cs })
        ≡ none =
      find_prior-claims e (extract_delivery_id e.provider q.headers) s cs ∙ unseen in
    let runs : after_claim faults key e q (false, record s { claims = cs })
        ≡ store faults key e q (record s { claims = cs }) =
      rw (still, after_claim) in
    subst (λ (o : Result InboundError AcceptResult × InboundState). IsStored e q s r o.1) (sym runs)
      (store-IsStored_claims faults key e q s cs r (ap (λ o. o.0) (sym runs) ∙ h))

after_claim-IsStored :
    (faults : Faults) (key : ClaimKey) (e : WebhookEndpointRecord) (q : Inbound) (s : InboundState)
    (ttl : ℕ) (r : AcceptResult)
    → find_prior e (extract_delivery_id e.provider q.headers) s ≡ none
    → (after_claim faults key e q (claim key ttl s)).0 ≡ ok r
    → IsStored e q s r (after_claim faults key e q (claim key ttl s)).1
unfolding after_claim
after_claim-IsStored faults key e q s ttl r unseen h =
    let (first, cs, claimed) = claim-cases key ttl s in
    subst (λ (c : Bool × InboundState). IsStored e q s r (after_claim faults key e q c).1)
      (sym claimed)
      (after_claim-IsStored_at faults key e q s first cs r unseen
        (subst (λ (c : Bool × InboundState). (after_claim faults key e q c).0 ≡ ok r) claimed h))

-- How a call went that was accepted, and not as a duplicate.
module _ (config : WebhooksConfig) (endpoints : List WebhookEndpointRecord)
    (decrypt : String → Result InboundError String) (verify : Verifier)
    (digest : List ℕ → String) where
  -- The request is for a live endpoint, it is small enough, and no row has its id yet.
  pub record IsNew (q : Inbound) (s : InboundState) (e : WebhookEndpointRecord) : Type 0 where
    pub small : ltb config.max_inbound_body_bytes (length q.raw_body) ≡ false
    pub live : resolve_endpoint q.token endpoints ≡ some e
    pub unseen : find_prior e (extract_delivery_id e.provider q.headers) s ≡ none

  -- Its signature is the endpoint's, by the secret that the endpoint holds.
  pub record IsSigned (q : Inbound) (e : WebhookEndpointRecord) : Type 0 where
    pub secret : String
    pub opened : decrypt e.signing_secret ≡ ok secret
    pub checked : check_signature config endpoints decrypt verify digest e q secret ≡ ok tt

  abbrev pub accept_here :
      Faults → Inbound → InboundState → Result InboundError AcceptResult × InboundState
  accept_here = accept config endpoints decrypt verify digest

  pub record IsAccepted (q : Inbound) (s : InboundState) (r : AcceptResult) (t : InboundState)
      : Type 0 where
    pub endpoint : WebhookEndpointRecord
    pub is_new : IsNew q s endpoint
    pub is_signed : IsSigned q endpoint
    pub stored : IsStored endpoint q s r t

  after_check-IsAccepted :
      (faults : Faults) (q : Inbound) (s : InboundState) (e : WebhookEndpointRecord)
      (secret : String) (r : AcceptResult)
      → IsNew q s e
      → decrypt e.signing_secret ≡ ok secret
      → (after_check config endpoints decrypt verify digest faults e q
          (check_signature config endpoints decrypt verify digest e q secret)
          s).0
        ≡ ok r
      → IsAccepted q s r
          (after_check config endpoints decrypt verify digest faults e q
            (check_signature config endpoints decrypt verify digest e q secret)
            s).1
  unfolding after_check
  after_check-IsAccepted faults q s e secret r new opened h =
      elim (Result-cases (check_signature config endpoints decrypt verify digest e q secret)) [
        | inr (x, forged) ↦ absurd (cc (rw (forged, after_check) at h))
        | inl (u, good) ↦
            let stored =
              after_claim-IsStored faults (dedupe_key config endpoints decrypt verify digest e q) e
                q s config.dedupe_ttl_seconds r new.unseen (rw (good, after_check) at h) in
            record {
              endpoint = e;
              is_new = new;
              is_signed = record { secret = secret; opened = opened; checked = good };
              stored = rw good stored;
            }
      ]

  -- A delivery that is accepted, and not as a duplicate, was for a live endpoint, no larger than the
  -- limit, with an id that no row of the endpoint had, and its signature was verified with the
  -- secret of the endpoint; exactly one row was added, with the status `verified`, and one job.
  pub accept-IsAccepted :
      (faults : Faults) (q : Inbound) (s : InboundState) (r : AcceptResult)
      → (accept_here faults q s).0 ≡ ok r
      → r.deduped ≡ false
      → IsAccepted q s r (accept_here faults q s).1
  unfolding accept at_endpoint verify_and_store
  accept-IsAccepted faults q s r h first =
      elim (Bool-cases (ltb config.max_inbound_body_bytes (length q.raw_body))) [
        | inl large ↦ absurd (cc (rw (large, accept) at h))
        | inr small ↦ elim (Option-cases (resolve_endpoint q.token endpoints)) [
          | inl gone ↦ absurd (cc (rw (small, gone, accept) at h))
          | inr (e, live) ↦
              elim (Option-cases (find_prior e (extract_delivery_id e.provider q.headers) s)) [
                | inr (d, seen) ↦ absurd (cc (rw (small, live, seen, accept, at_endpoint) at h))
                | inl unseen ↦ elim (Result-cases (decrypt e.signing_secret)) [
                  | inr (x, shut) ↦ absurd (
                      cc (
                        rw (small, live, unseen, shut, accept, at_endpoint, verify_and_store) at h))
                  | inl (secret, opened) ↦
                      rw (small, live, unseen, opened, at_endpoint, verify_and_store)
                        (after_check-IsAccepted faults q s e secret r
                          (record { small = small; live = live; unseen = unseen }) opened
                          (rw (small, live, unseen, opened, accept, at_endpoint, verify_and_store)
                            at h))
                ]
              ]
        ]
      ]
