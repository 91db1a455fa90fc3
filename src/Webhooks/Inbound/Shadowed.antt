-- ===== src/Webhooks/Inbound/Shadowed.antt =====
-- Where a delivery is lost behind a row of its id at inbound-webhook.service.ts.
use armstrong_bot.Prelude.{
  ℕ, ◌≡◌, refl, sym, ap, ◌∙◌, subst, String, Bool, true, false, List, [], ◌∷◌, ◌++◌, Option, none,
  some, ltb, Result, ok, err, length,
}
use armstrong_bot.Webhooks.Deliveries.{
  DeliveryStatus, verified, rejected, InboundError, other_error, WebhookEndpointRecord,
  InboundState, Faults, ClaimKey, find_by_external_id, update_delivery, mark, update_ingress_status,
  conflicts, create_ingress, with_delivery, release, emit, delivery_failed,
}
use armstrong_bot.Webhooks.Inbound.{
  AcceptResult, WebhooksConfig, Inbound, Verifier, extract_delivery_id, resolve_endpoint,
  find_prior, new_delivery, persist_rejected, finish_rejected, finish_store, store, reason_of,
  after_claim, check_signature, dedupe_key, after_check, verify_and_store, at_endpoint, accept,
}
use armstrong_bot.Webhooks.Inbound.Accepted.{IsNew, claim-cases, find_prior-claims}
use armstrong_bot.Webhooks.Inbound.Duplicates.{find_by_external_id-new, accept-found}

-- The states after a bad signature, and after a refusal of the queue.
abbrev rejected_state : WebhookEndpointRecord → Inbound → InboundError → InboundState → InboundState
rejected_state e q y s = emit (delivery_failed s.next_id e.guild_id e.provider (reason_of y)) (
    update_ingress_status s.next_id rejected (some (reason_of y))
      (with_delivery (new_delivery e q s) s))

abbrev unqueued_state : ClaimKey → WebhookEndpointRecord → Inbound → InboundState → InboundState
unqueued_state key e q s =
    release key
      (update_ingress_status s.next_id verified none (with_delivery (new_delivery e q s) s))

conflicts-new :
    (e : WebhookEndpointRecord) (x : Option String) (s : InboundState)
    → find_prior e x s ≡ none
    → conflicts e.id x s.deliveries ≡ false
conflicts-new e none s unseen = refl
conflicts-new e (some x) s unseen =
    let none_found : find_by_external_id e.id x s.deliveries ≡ none = unseen in
    rw (none_found, conflicts)

pub create_ingress-new :
    (faults : Faults) (e : WebhookEndpointRecord) (q : Inbound) (s : InboundState)
    → faults.create_fails ≡ false
    → find_prior e (extract_delivery_id e.provider q.headers) s ≡ none
    → create_ingress faults (new_delivery e q s) s
      ≡ (ok s.next_id, with_delivery (new_delivery e q s) s)
unfolding create_ingress
create_ingress-new faults e q s creates unseen =
    rw (creates, conflicts-new e (extract_delivery_id e.provider q.headers) s unseen)

store-full :
    (faults : Faults) (key : ClaimKey) (e : WebhookEndpointRecord) (q : Inbound) (s : InboundState)
    → faults.create_fails ≡ false
    → faults.update_fails ≡ false
    → faults.enqueue_fails ≡ true
    → find_prior e (extract_delivery_id e.provider q.headers) s ≡ none
    → store faults key e q s ≡ (err (other_error "queue"), unqueued_state key e q s)
unfolding store finish_store
store-full faults key e q s creates updates full unseen =
    rw (create_ingress-new faults e q s creates unseen, updates, full, finish_store)

after_claim-full :
    (faults : Faults) (key : ClaimKey) (e : WebhookEndpointRecord) (q : Inbound) (s : InboundState)
    (first : Bool) (cs : List ClaimKey)
    → faults.create_fails ≡ false
    → faults.update_fails ≡ false
    → faults.enqueue_fails ≡ true
    → find_prior e (extract_delivery_id e.provider q.headers) s ≡ none
    → after_claim faults key e q (first, record s { claims = cs })
      ≡ (err (other_error "queue"), unqueued_state key e q (record s { claims = cs }))
unfolding after_claim
after_claim-full faults key e q s true cs creates updates full unseen =
    store-full faults key e q (record s { claims = cs }) creates updates full
      (find_prior-claims e (extract_delivery_id e.provider q.headers) s cs ∙ unseen)
after_claim-full faults key e q s false cs creates updates full unseen =
    let still : find_prior e (extract_delivery_id e.provider q.headers) (record s { claims = cs })
        ≡ none =
      find_prior-claims e (extract_delivery_id e.provider q.headers) s cs ∙ unseen in
    let runs : after_claim faults key e q (false, record s { claims = cs })
        ≡ store faults key e q (record s { claims = cs }) =
      rw (still, after_claim) in
    runs ∙ store-full faults key e q (record s { claims = cs }) creates updates full still

module _ (config : WebhooksConfig) (endpoints : List WebhookEndpointRecord)
    (decrypt : String → Result InboundError String) (verify : Verifier)
    (digest : List ℕ → String) where
  -- The job queue is as before, and the request is then a duplicate that changes nothing.
  abbrev pub IsShadowed :
      Faults → Inbound → InboundState → Result InboundError AcceptResult × InboundState → Type 0
  IsShadowed faults q s outcome =
      (outcome.1.queue ≡ s.queue)
      × (accept config endpoints decrypt verify digest faults q outcome.1
          ≡ (ok (record { internal_delivery_id = s.next_id; deduped = true }), outcome.1))

  -- A later request with the id of a row that was just stored is shadowed.
  IsShadowed-stored :
      (faults : Faults) (q q' : Inbound) (s t : InboundState) (e : WebhookEndpointRecord)
      (x : String) (status : DeliveryStatus) (reason : Option String)
      (result : Result InboundError AcceptResult)
      → find_prior e (extract_delivery_id e.provider q.headers) s ≡ none
      → extract_delivery_id e.provider q.headers ≡ some x
      → ltb config.max_inbound_body_bytes (length q'.raw_body) ≡ false
      → resolve_endpoint q'.token endpoints ≡ some e
      → extract_delivery_id e.provider q'.headers ≡ some x
      → t.queue ≡ s.queue
      → t.deliveries
        ≡ update_delivery s.next_id (mark status reason) (s.deliveries ++ new_delivery e q s ∷ [])
      → IsShadowed faults q' s (result, t)
  IsShadowed-stored faults q q' s t e x status reason result unseen named small live named' jobs
        rows =
      (
        jobs,
        accept-found config endpoints decrypt verify digest faults q' t e x
            (mark status reason (new_delivery e q s)) small live named'
            (ap (find_by_external_id e.id x) rows
              ∙ find_by_external_id-new e q s x status reason named unseen),
      )

  pub accept-new :
      (faults : Faults) (q : Inbound) (s : InboundState) (e : WebhookEndpointRecord)
      (secret : String)
      → IsNew config endpoints decrypt verify digest q s e
      → decrypt e.signing_secret ≡ ok secret
      → accept config endpoints decrypt verify digest faults q s
        ≡ after_check config endpoints decrypt verify digest faults e q
            (check_signature config endpoints decrypt verify digest e q secret)
            s
  unfolding accept at_endpoint verify_and_store
  accept-new faults q s e secret new opened =
      rw (new.small, new.live, new.unseen, opened, at_endpoint, verify_and_store)

  -- A forgery shadows the real delivery: after a request with a bad signature is turned away, the
  -- true request with the same id is accepted as a duplicate, whatever its signature, and nothing
  -- of it is stored or queued.
  pub accept-forged :
      (faults faults' : Faults) (q q' : Inbound) (s : InboundState) (e : WebhookEndpointRecord)
      (x secret : String) (y : InboundError)
      → faults.create_fails ≡ false
      → faults.update_fails ≡ false
      → IsNew config endpoints decrypt verify digest q s e
      → decrypt e.signing_secret ≡ ok secret
      → check_signature config endpoints decrypt verify digest e q secret ≡ err y
      → extract_delivery_id e.provider q.headers ≡ some x
      → ltb config.max_inbound_body_bytes (length q'.raw_body) ≡ false
      → resolve_endpoint q'.token endpoints ≡ some e
      → extract_delivery_id e.provider q'.headers ≡ some x
      → ((accept config endpoints decrypt verify digest faults q s).0 ≡ err y)
        × IsShadowed faults' q' s (accept config endpoints decrypt verify digest faults q s)
  unfolding after_check persist_rejected finish_rejected
  accept-forged faults faults' q q' s e x secret y creates updates new opened forged named small
        live named' =
      let created = create_ingress-new faults e q s creates new.unseen in
      let rejects : persist_rejected faults e q y s ≡ rejected_state e q y s =
        rw (created, updates, finish_rejected) in
      let goes : accept config endpoints decrypt verify digest faults q s
          ≡ (err y, rejected_state e q y s) =
        accept-new faults q s e secret new opened ∙ rw (forged, after_check, rejects) in
      subst
        (λ (o : Result InboundError AcceptResult × InboundState).
          (o.0 ≡ err y) × IsShadowed faults' q' s o)
        (sym goes)
        (
          refl,
          IsShadowed-stored faults' q q' s (rejected_state e q y s) e x rejected
              (some (reason_of y)) (err y) new.unseen named small live named' refl refl,
        )

  -- A retry is lost: if the row of a true request is stored and its job is then refused by the
  -- queue, the caller gets the error, and the retry of the same request is accepted as a duplicate
  -- and queues no job either.
  pub accept-retry :
      (faults faults' : Faults) (q : Inbound) (s : InboundState) (e : WebhookEndpointRecord)
      (x secret : String)
      → faults.create_fails ≡ false
      → faults.update_fails ≡ false
      → faults.enqueue_fails ≡ true
      → IsNew config endpoints decrypt verify digest q s e
      → decrypt e.signing_secret ≡ ok secret
      → check_signature config endpoints decrypt verify digest e q secret ≡ ok tt
      → extract_delivery_id e.provider q.headers ≡ some x
      → ((accept config endpoints decrypt verify digest faults q s).0 ≡ err (other_error "queue"))
        × IsShadowed faults' q s (accept config endpoints decrypt verify digest faults q s)
  unfolding after_check
  accept-retry faults faults' q s e x secret creates updates full new opened good named =
      let key = dedupe_key config endpoints decrypt verify digest e q in
      let (first, cs, claimed) = claim-cases key config.dedupe_ttl_seconds s in
      let goes : accept config endpoints decrypt verify digest faults q s
          ≡ (err (other_error "queue"), unqueued_state key e q (record s { claims = cs })) =
        accept-new faults q s e secret new opened
        ∙ rw (good, after_check, claimed)
            (after_claim-full faults key e q s first cs creates updates full new.unseen) in
      subst
        (λ (o : Result InboundError AcceptResult × InboundState).
          (o.0 ≡ err (other_error "queue")) × IsShadowed faults' q s o)
        (sym goes)
        (
          refl,
          IsShadowed-stored faults' q q s (unqueued_state key e q (record s { claims = cs })) e x
              verified none (err (other_error "queue")) new.unseen named new.small new.live named
              refl refl,
        )
