-- ===== src/Subscription/Process.antt =====
-- Deliveries of the billing provider (`process` of src/subscriptions/operator-subscription-events.service.ts
-- and of src/subscriptions/driver-subscription-events.service.ts): they return, they leave the keys
-- unique, and what they may change.
use saprk_parking_api.Prelude.{
  ℕ, ◌≡◌, refl, sym, ap, subst, ◌∙◌, inl, inr, Bool, true, false, Option, none, some, List, ◌∷◌,
  ==_iff, if◌then◌else◌, arith, Option-cases,
}
use saprk_parking_api.Store.Table.{find_row, update_row, find_row-update_row}
use saprk_parking_api.Subscription.{
  SubscriberType, BillingEventType, checkout_completed, subscription_updated, subscription_deleted,
  invoice_payment_failed, BillingEvent, EventOutcome, duplicate, event_processed,
  provider_subscription_cancelled, provider_cancel_failed, Subscription, Desk,
}
use saprk_parking_api.Subscription.Writes.{Ran, done, set_outcome, key_of, event_key}
use saprk_parking_api.Subscription.Sound.{IsSound, with_rows}
use saprk_parking_api.Subscription.Change.{
  Change, kept, Handled, Handled-of, apply_subscription_updated-Handled,
  apply_subscription_deleted-Handled, apply_payment_failed-Handled,
}
use saprk_parking_api.Subscription.Checkout.{is_known, apply_checkout_completed-Handled}
use saprk_parking_api.Subscription.Events.{
  HandlerResult, subscriber_for, apply_checkout_completed, apply_subscription_updated,
  apply_subscription_deleted, apply_payment_failed, dispatch, record_event, conclude, process,
}

-- What a delivery needs of the tables: unique keys, a new id that no row has, and the row of the
-- subscriber that a purchase names.
pub record IsReady (side : SubscriberType) (e : BillingEvent) (new_id : ℕ) (d : Desk) : Type 0 where
  pub sound : IsSound d.subscriptions
  pub fresh : find_row key_of new_id d.subscriptions ≡ none
  pub known : is_known (subscriber_for side e.subscriber) d.subscribers ≡ true

module _ (side : SubscriberType) (e : BillingEvent) (new_id now : ℕ) where
  dispatch-by_type :
      (t : BillingEventType) (d : Desk)
      → e.event_type ≡ t
      → IsReady side e new_id d
      → Handled e new_id d (dispatch side e new_id now d)
  unfolding dispatch
  dispatch-by_type checkout_completed d h ready =
      Handled-of e new_id d _ (apply_checkout_completed side e new_id now d) (ground arith) (
        apply_checkout_completed-Handled side e new_id now d ready.sound ready.fresh ready.known
          (rw h refl))
  dispatch-by_type subscription_updated d h ready =
      Handled-of e new_id d _ (apply_subscription_updated e now d) (ground arith)
        (apply_subscription_updated-Handled e new_id d ready.sound now)
  dispatch-by_type subscription_deleted d h ready =
      Handled-of e new_id d _ (apply_subscription_deleted e now d) (ground arith)
        (apply_subscription_deleted-Handled e new_id d ready.sound now)
  dispatch-by_type invoice_payment_failed d h ready =
      Handled-of e new_id d _ (apply_payment_failed e d) (ground arith)
        (apply_payment_failed-Handled e new_id d ready.sound)

  dispatch-Handled :
      (d : Desk) → IsReady side e new_id d → Handled e new_id d (dispatch side e new_id now d)
  dispatch-Handled d ready = dispatch-by_type e.event_type d refl ready

-- The event of a delivery is in the ledger.
abbrev pub is_recorded : ℕ → Desk → Bool
is_recorded k d = elim (find_row event_key k d.events) [ none ↦ false | some r ↦ true ]

-- What a delivery leaves.
pub record Processed (e : BillingEvent) (new_id : ℕ) (d : Desk) (run : Ran EventOutcome)
    : Type 0 where
  pub outcome : EventOutcome
  pub left : Desk
  pub ran : run ≡ done outcome left
  pub sound : IsSound left.subscriptions
  pub change : Change e new_id d.subscriptions left.subscriptions
  pub recorded : is_recorded e.id left ≡ true
  pub remembered : (k : ℕ) → is_recorded k d ≡ true → is_recorded k left ≡ true

module _ (side : SubscriberType) (took : Bool) (e : BillingEvent) (new_id now : ℕ) (d : Desk) where
  pub process-again :
      is_recorded e.id d ≡ true → process side took e new_id now d ≡ done duplicate d
  unfolding process record_event
  process-again h = elim (Option-cases (find_row event_key e.id d.events)) [
    | inl f ↦ absurd (ground arith)
    | inr (r, f) ↦ ground arith
  ]

  -- The tables once the delivery is entered, and once it is handled.
  abbrev pub entered : Desk
  entered = record d { events = record { provider_event_id = e.id; outcome = none } ∷ d.events }

  abbrev pub closed : HandlerResult → List Subscription → Desk
  closed r rows = record d {
    subscriptions = rows;
    events =
        update_row event_key e.id (set_outcome r.outcome)
          (record { provider_event_id = e.id; outcome = none } ∷ d.events);
    audit = record { action = event_processed r.outcome; entity_id = r.entity_id } ∷ d.audit;
  }

  closed-recorded :
      (r : HandlerResult) (rows : List Subscription) → is_recorded e.id (closed r rows) ≡ true
  closed-recorded r rows = ground (arith, ==_iff e.id e.id)

  closed-remembered :
      (r : HandlerResult) (rows : List Subscription) (k : ℕ)
      → is_recorded k d ≡ true
      → is_recorded k (closed r rows) ≡ true
  closed-remembered r rows k h = ground (
    arith,
    find_row-update_row event_key e.id k (set_outcome r.outcome)
        (record { provider_event_id = e.id; outcome = none } ∷ d.events) (λ x. refl),
    Option-cases (find_row event_key k d.events),
  )

  abbrev pub told : Option ℕ → HandlerResult → Desk → Desk
  told none r d' = d'
  told (some p) r d' = record d' {
    audit =
        record {
          action = (if took then provider_subscription_cancelled p else provider_cancel_failed p);
          entity_id = r.entity_id;
        }
        ∷ d'.audit;
  }

  pub conclude-told :
      (r : HandlerResult) (d' : Desk)
      → conclude side took r d' ≡ done r.outcome (told r.cancel_provider_subscription_id r d')
  conclude-told r d' = elim (Option-cases r.cancel_provider_subscription_id) [
    | inl h ↦ ground arith
    | inr (p, h) ↦ ground arith
  ]

  pub told-keeps :
      (o : Option ℕ) (r : HandlerResult) (d' : Desk)
      → ((told o r d').subscriptions ≡ d'.subscriptions) × ((told o r d').events ≡ d'.events)
  told-keeps none r d' = (refl, refl)
  told-keeps (some p) r d' = (refl, refl)

  pub process-runs :
      (r : HandlerResult) (rows : List Subscription)
      → find_row event_key e.id d.events ≡ none
      → dispatch side e new_id now entered ≡ done r (with_rows entered rows)
      → process side took e new_id now d ≡ conclude side took r (closed r rows)
  unfolding process record_event
  process-runs r rows f ran = ground arith

  process-first :
      find_row event_key e.id d.events ≡ none
      → IsReady side e new_id d
      → Processed e new_id d (process side took e new_id now d)
  process-first f ready =
      let handled =
        dispatch-Handled side e new_id now entered
          (record { sound = ready.sound; fresh = ready.fresh; known = ready.known }) in
      let r = handled.value in
      let (same, logged) = told-keeps r.cancel_provider_subscription_id r (closed r handled.rows) in
      record {
        outcome = r.outcome;
        left = told r.cancel_provider_subscription_id r (closed r handled.rows);
        ran = process-runs r handled.rows f handled.ran ∙ conclude-told r (closed r handled.rows);
        sound = subst IsSound (sym same) handled.sound;
        change = subst (Change e new_id d.subscriptions) (sym same) handled.change;
        recorded =
            ap (λ rows. is_recorded e.id (record d { events = rows })) logged
            ∙ closed-recorded r handled.rows;
        remembered = λ k h.
            ap (λ rows. is_recorded k (record d { events = rows })) logged
            ∙ closed-remembered r handled.rows k h;
      }

  pub process-Processed :
      IsReady side e new_id d → Processed e new_id d (process side took e new_id now d)
  process-Processed ready = elim (Option-cases (find_row event_key e.id d.events)) [
    | inl f ↦ process-first f ready
    | inr (r, f) ↦ record {
      outcome = duplicate;
      left = d;
      ran = process-again (rw (is_recorded, f) refl);
      sound = ready.sound;
      change = kept d.subscriptions;
      recorded = rw (is_recorded, f) refl;
      remembered = λ k h. h;
    }
  ]
