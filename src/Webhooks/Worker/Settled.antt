-- ===== src/Webhooks/Worker/Settled.antt =====
-- How `process` of inbound-webhook.service.ts leaves a delivery.
use armstrong_bot.Prelude.{
  Bool-cases, inl, inr, Bool, false, if◌then◌else◌, String, ℕ, ◌≡◌, refl, sym, ap, ◌∙◌, subst, List,
  [], ◌∷◌, Option, none, some, Result, ok, err, arith,
}
use armstrong_bot.Webhooks.Deliveries.{
  DeliveryStatus, processing, processed, failed, InboundError, other_error, integration_event, emit,
  IntegrationEvent, IngressDelivery, InboundState, find_by_id, update_delivery,
  update_ingress_status, mark,
}
use armstrong_bot.Webhooks.Worker.{
  WorkerFaults, mark_failed, finish_row_of, finish_processed, finish_process, finish_row,
  message_of, process,
}

-- The row that an id finds has that id, and an update of that id is found in its place.
find_by_id-update_delivery :
    (id : ℕ) (f : IngressDelivery → IngressDelivery) (rows : List IngressDelivery)
    (d : IngressDelivery)
    → ((x : IngressDelivery) → (f x).id ≡ x.id)
    → find_by_id id rows ≡ some d
    → (d.id ≡ id) × (find_by_id id (update_delivery id f rows) ≡ some (f d))
find_by_id-update_delivery id f [] d keeps h = cc
find_by_id-update_delivery id f (r ∷ rows) d keeps h =
    ground (arith, keeps r, find_by_id-update_delivery id f rows d keeps)

find_by_id-updated :
    (id : ℕ) (d c : IngressDelivery) (f : IngressDelivery → IngressDelivery)
    (rows : List IngressDelivery)
    → ((x : IngressDelivery) → (f x).id ≡ x.id)
    → d.id ≡ id
    → find_by_id id rows ≡ some c
    → find_by_id id (update_delivery d.id f rows) ≡ some (f c)
find_by_id-updated id d c f rows keeps same found =
    ap (λ i. find_by_id id (update_delivery i f rows)) same
    ∙ (find_by_id-update_delivery id f rows c keeps found).1

-- The status that a delivery is left with when its processing could begin.
abbrev pub outcome_status : WorkerFaults → Result InboundError (Unit {0}) → DeliveryStatus
outcome_status faults (ok _) = processed
outcome_status faults (err _) = if faults.mark_fails then processing else failed

-- What a job leaves: the row of its id has the status that the end of the job asks for, and its body.
pub record IsSettled (faults : WorkerFaults) (id : ℕ) (d : IngressDelivery)
    (outcome : Result InboundError (Unit {0}) × InboundState) : Type 0 where
  pub row : IngressDelivery
  pub found : find_by_id id outcome.1.deliveries ≡ some row
  pub settled : row.status ≡ outcome_status faults outcome.0
  pub kept : row.raw_body ≡ d.raw_body

module _ (faults : WorkerFaults) (id : ℕ) (d c : IngressDelivery) (same : d.id ≡ id)
    (is_processing : c.status ≡ processing) (body : c.raw_body ≡ d.raw_body) where
  mark_failed-IsSettled :
      (x : InboundError) (s : InboundState)
      → find_by_id id s.deliveries ≡ some c
      → IsSettled faults id d (mark_failed faults d x s)
  mark_failed-IsSettled x s found = elim (Bool-cases faults.mark_fails) [
    | inl fails ↦
        rw (fails, mark_failed)
          (record {
            row = c;
            found = found;
            settled = ground (arith, is_processing, fails);
            kept = body;
          })
    | inr works ↦
        rw (works, mark_failed)
          (record {
            row = mark failed (some (message_of x)) c;
            found =
                find_by_id-updated id d c (mark failed (some (message_of x))) s.deliveries
                  (λ y. refl) same found;
            settled = ground (arith, works);
            kept = body;
          })
  ]

  finish_row_of-IsSettled :
      (event_type : Option String) (s : InboundState)
      → find_by_id id s.deliveries ≡ some c
      → IsSettled faults id d (finish_row_of faults d event_type s)
  unfolding finish_row_of
  finish_row_of-IsSettled event_type s found =
      let failing = mark_failed faults d (other_error "database") s in
      let done : Result InboundError (Unit {0}) × InboundState =
        (ok tt, finish_processed d.id event_type s) in
      let Settled =
        λ (o : Result InboundError (Unit {0}) × InboundState). IsSettled faults id d o in
      elim (Bool-cases faults.finish_fails) [
        | inl fails ↦
            subst (λ (b : Bool). Settled (if b then failing else done)) (sym fails)
              (mark_failed-IsSettled (other_error "database") s found)
        | inr works ↦
            subst (λ (b : Bool). Settled (if b then failing else done)) (sym works)
              (record {
                row = finish_row event_type c;
                found =
                    find_by_id-updated id d c (finish_row event_type) s.deliveries (λ y. refl) same
                      found;
                settled = refl;
                kept = body;
              })
      ]

  finish_process-IsSettled :
      (normalized : Result InboundError (Option IntegrationEvent))
      (emitted : Result InboundError (Unit {0})) (s : InboundState)
      → find_by_id id s.deliveries ≡ some c
      → IsSettled faults id d (finish_process faults d normalized emitted s)
  unfolding finish_process
  finish_process-IsSettled (err x) emitted s found = mark_failed-IsSettled x s found
  finish_process-IsSettled (ok none) emitted s found = finish_row_of-IsSettled d.event_type s found
  finish_process-IsSettled (ok (some e)) (err x) s found = mark_failed-IsSettled x s found
  finish_process-IsSettled (ok (some e)) (ok _) s found =
      finish_row_of-IsSettled (some e.event_type) (emit (integration_event e) s) found

-- A job that finds its delivery, and whose first update of the status does not fail, leaves the row
-- processed if it returns. If it throws, then the row is failed, unless the update to `failed` fails
-- too: only then it stays processing. The row keeps its raw body. The other updates, the normalizer
-- and the bus may fail.
pub process-IsSettled :
    (normalize : IngressDelivery → Result InboundError (Option IntegrationEvent))
    (faults : WorkerFaults) (emitted : Result InboundError (Unit {0})) (id : ℕ)
    (d : IngressDelivery) (s : InboundState)
    → find_by_id id s.deliveries ≡ some d
    → faults.start_fails ≡ false
    → IsSettled faults id d (process normalize faults emitted id s)
unfolding process
process-IsSettled normalize faults emitted id d s found begins =
    let f : IngressDelivery → IngressDelivery = mark processing d.reject_reason in
    let (same, moved) = find_by_id-update_delivery id f s.deliveries d (λ y. refl) found in
    let runs : process normalize faults emitted id s
        ≡ finish_process faults d (normalize d) emitted
            (update_ingress_status d.id processing d.reject_reason s) =
      rw (found, begins, process) in
    subst (λ (o : Result InboundError (Unit {0}) × InboundState). IsSettled faults id d o)
      (sym runs)
      (finish_process-IsSettled faults id d (f d) same refl refl (normalize d) emitted
        (update_ingress_status d.id processing d.reject_reason s)
        (ap (λ i. find_by_id id (update_delivery i f s.deliveries)) same ∙ moved))
