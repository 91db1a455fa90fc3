-- ===== src/Webhooks/Inbound/Genuine.antt =====
-- That a true delivery gets through inbound-webhook.service.ts.
use armstrong_bot.Prelude.{ℕ, ◌≡◌, ap, ◌∙◌, String, Bool, true, false, List, none, Result, ok}
use armstrong_bot.Webhooks.Deliveries.{
  InboundError, WebhookEndpointRecord, InboundState, Faults, ClaimKey,
}
use armstrong_bot.Webhooks.Inbound.{
  AcceptResult, WebhooksConfig, Inbound, Verifier, extract_delivery_id, find_prior, finish_store,
  store, after_claim, dedupe_key, after_check, accept,
}
use armstrong_bot.Webhooks.Inbound.Accepted.{IsNew, IsSigned, claim-cases, find_prior-claims}
use armstrong_bot.Webhooks.Inbound.Shadowed.{create_ingress-new, accept-new}

-- No write fails.
abbrev pub AllWork : Faults → Type 0
AllWork faults =
    (faults.create_fails ≡ false) × (faults.update_fails ≡ false) × (faults.enqueue_fails ≡ false)

abbrev fresh_result : InboundState → Result InboundError AcceptResult
fresh_result s = ok (record { internal_delivery_id = s.next_id; deduped = false })

store-works :
    (faults : Faults) (key : ClaimKey) (e : WebhookEndpointRecord) (q : Inbound) (s : InboundState)
    → AllWork faults
    → find_prior e (extract_delivery_id e.provider q.headers) s ≡ none
    → (store faults key e q s).0 ≡ fresh_result s
unfolding store finish_store
store-works faults key e q s (creates, updates, queues) unseen =
    let created = create_ingress-new faults e q s creates unseen in
    rw (created, updates, queues, store, finish_store)

after_claim-works :
    (faults : Faults) (key : ClaimKey) (e : WebhookEndpointRecord) (q : Inbound) (s : InboundState)
    (first : Bool) (cs : List ClaimKey)
    → AllWork faults
    → find_prior e (extract_delivery_id e.provider q.headers) s ≡ none
    → (after_claim faults key e q (first, record s { claims = cs })).0 ≡ fresh_result s
unfolding after_claim
after_claim-works faults key e q s true cs works unseen =
    store-works faults key e q (record s { claims = cs }) works
      (find_prior-claims e (extract_delivery_id e.provider q.headers) s cs ∙ unseen)
after_claim-works faults key e q s false cs works unseen =
    let still : find_prior e (extract_delivery_id e.provider q.headers) (record s { claims = cs })
        ≡ none =
      find_prior-claims e (extract_delivery_id e.provider q.headers) s cs ∙ unseen in
    let runs : after_claim faults key e q (false, record s { claims = cs })
        ≡ store faults key e q (record s { claims = cs }) =
      rw (still, after_claim) in
    ap (λ (o : Result InboundError AcceptResult × InboundState). o.0) runs
    ∙ store-works faults key e q (record s { claims = cs }) works still

module _ (config : WebhooksConfig) (endpoints : List WebhookEndpointRecord)
    (decrypt : String → Result InboundError String) (verify : Verifier)
    (digest : List ℕ → String) where
  -- A request that is for a live endpoint, within the limit, new by its id and truly signed is
  -- accepted and not taken for a duplicate, if no write fails, also when its key is still claimed by
  -- an attempt that left no row.
  pub accept-genuine :
      (faults : Faults) (q : Inbound) (s : InboundState) (e : WebhookEndpointRecord)
      → AllWork faults
      → IsNew config endpoints decrypt verify digest q s e
      → IsSigned config endpoints decrypt verify digest q e
      → (accept config endpoints decrypt verify digest faults q s).0
        ≡ ok (record { internal_delivery_id = s.next_id; deduped = false })
  unfolding after_check
  accept-genuine faults q s e works new signed =
      let key = dedupe_key config endpoints decrypt verify digest e q in
      let (first, cs, claimed) = claim-cases key config.dedupe_ttl_seconds s in
      let good = signed.checked in
      let goes : accept config endpoints decrypt verify digest faults q s
          ≡ after_claim faults key e q (first, record s { claims = cs }) =
        accept-new config endpoints decrypt verify digest faults q s e signed.secret new
          signed.opened
        ∙ rw (good, after_check, claimed) in
      ap (λ (o : Result InboundError AcceptResult × InboundState). o.0) goes
      ∙ after_claim-works faults key e q s first cs works new.unseen
