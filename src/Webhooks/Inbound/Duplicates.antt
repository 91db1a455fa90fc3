-- ===== src/Webhooks/Inbound/Duplicates.antt =====
-- Second deliveries of one id at inbound-webhook.service.ts.
use armstrong_bot.Prelude.{
  ℕ, ◌≡◌, sym, ap, ◌∙◌, subst, String, true, false, List, [], ◌∷◌, ◌++◌, Option, none, some, eqb,
  ltb, Result, ok, arith, length, eq_refl,
}
use armstrong_bot.Webhooks.Deliveries.{
  DeliveryStatus, verified, InboundError, WebhookEndpointRecord, IngressDelivery, InboundState,
  Faults, is_of, find_by_external_id, update_delivery, mark,
}
use armstrong_bot.Webhooks.Inbound.{
  AcceptResult, WebhooksConfig, Inbound, Verifier, extract_delivery_id, resolve_endpoint,
  find_prior, new_delivery, duplicate, at_endpoint, accept,
}
use armstrong_bot.Webhooks.Inbound.Accepted.{find_by_external_id-stored, accept-IsAccepted}

is_of-new_delivery :
    (e : WebhookEndpointRecord) (q : Inbound) (s : InboundState) (x : String)
    → extract_delivery_id e.provider q.headers ≡ some x
    → is_of e.id x (new_delivery e q s) ≡ true
is_of-new_delivery e q s x h =
    let same : eqb e.id e.id ≡ true = ground arith in rw (h, same, eq_refl x)

-- The row of a request with a new id, once it is stored, is found by that id.
pub find_by_external_id-new :
    (e : WebhookEndpointRecord) (q : Inbound) (s : InboundState) (x : String)
    (status : DeliveryStatus) (reason : Option String)
    → extract_delivery_id e.provider q.headers ≡ some x
    → find_prior e (extract_delivery_id e.provider q.headers) s ≡ none
    → find_by_external_id e.id x
        (update_delivery s.next_id (mark status reason) (s.deliveries ++ new_delivery e q s ∷ []))
      ≡ some (mark status reason (new_delivery e q s))
find_by_external_id-new e q s x status reason named unseen =
    find_by_external_id-stored e.id x (new_delivery e q s) status reason s.deliveries
      (ap (λ y. find_prior e y s) (sym named) ∙ unseen) (is_of-new_delivery e q s x named)

module _ (config : WebhooksConfig) (endpoints : List WebhookEndpointRecord)
    (decrypt : String → Result InboundError String) (verify : Verifier)
    (digest : List ℕ → String) where
  -- A request whose id a row of its endpoint has is a duplicate, and changes nothing.
  pub accept-found :
      (faults : Faults) (q : Inbound) (s : InboundState) (e : WebhookEndpointRecord) (x : String)
      (d : IngressDelivery)
      → ltb config.max_inbound_body_bytes (length q.raw_body) ≡ false
      → resolve_endpoint q.token endpoints ≡ some e
      → extract_delivery_id e.provider q.headers ≡ some x
      → find_by_external_id e.id x s.deliveries ≡ some d
      → accept config endpoints decrypt verify digest faults q s ≡ (ok (duplicate d), s)
  unfolding accept at_endpoint
  accept-found faults q s e x d small live named found = rw (small, live, named, found, at_endpoint)

  -- Once a delivery with an id of its provider is accepted, each repetition of it is reported as a
  -- duplicate of the row of the first, even while writes fail, and changes nothing: there is no
  -- second row and no second job.
  pub accept-accept :
      (faults faults' : Faults) (q : Inbound) (s : InboundState) (r : AcceptResult)
      (e : WebhookEndpointRecord) (x : String)
      → (accept config endpoints decrypt verify digest faults q s).0 ≡ ok r
      → r.deduped ≡ false
      → resolve_endpoint q.token endpoints ≡ some e
      → extract_delivery_id e.provider q.headers ≡ some x
      → accept config endpoints decrypt verify digest faults' q
          (accept config endpoints decrypt verify digest faults q s).1
        ≡ (
          ok (record { internal_delivery_id = r.internal_delivery_id; deduped = true }),
          (accept config endpoints decrypt verify digest faults q s).1,
        )
  accept-accept faults faults' q s r e x h first live named =
      let a = accept-IsAccepted config endpoints decrypt verify digest faults q s r h first in
      let same : e ≡ a.endpoint = cc (live, a.is_new.live) in
      let named' : extract_delivery_id a.endpoint.provider q.headers ≡ some x =
        subst (λ (y : WebhookEndpointRecord). extract_delivery_id y.provider q.headers ≡ some x)
          same named in
      let found =
        accept-found faults' q (accept config endpoints decrypt verify digest faults q s).1
          a.endpoint x (mark verified none (new_delivery a.endpoint q s)) a.is_new.small
          a.is_new.live named'
          (ap (find_by_external_id a.endpoint.id x) a.stored.rows
            ∙ find_by_external_id-new a.endpoint q s x verified none named' a.is_new.unseen) in
      found
      ∙ ap
          (λ (i : ℕ). (
            ok (record { internal_delivery_id = i; deduped = true }),
            (accept config endpoints decrypt verify digest faults q s).1,
          ))
          (sym (ap (λ (y : AcceptResult). y.internal_delivery_id) a.stored.result))
