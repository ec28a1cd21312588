-- ===== src/Subscription/Events.antt =====
-- What a delivery of the billing provider does (`OperatorSubscriptionEventsService` of
-- src/subscriptions/operator-subscription-events.service.ts and `DriverSubscriptionEventsService` of
-- src/subscriptions/driver-subscription-events.service.ts, which are one text up to the names of
-- their tables). `side` says which of the two, and the desk has its tables. The row lock is the
-- order of the transactions. `now` is the clock, `new_id` the id of a row that is created.
use saprk_parking_api.Prelude.{
  ℕ, Bool, true, false, ◌&&◌, Option, none, some, ◌==◌, ltb, if◌then◌else◌, find_first,
}
use saprk_parking_api.Subscription.{
  SubscriberType, SubscriptionStatus, active, past_due, cancelled, checkout_completed,
  subscription_updated, subscription_deleted, invoice_payment_failed, Subscriber, BillingEvent,
  Plan, Subscription, BillingCustomer, EventOutcome, processed, duplicate, not_a_subscriber,
  unmatched_plan, unmatched_subscription, already_applied, stale, EntityId, of_event, of_subscriber,
  of_subscription, event_processed, provider_subscription_cancelled, provider_cancel_failed, Desk,
  is_cancelled, is_past_due, status_from_provider, same_type, is_some_of,
}
use saprk_parking_api.Subscription.Writes.{
  WriteError, event_exists, Ran, done, thrown, M, ◌>>=◌, ◌>>◌, return, live_of, billed_by,
  update_subscription, create_subscription, create_event, update_event, add_audit,
}

pub record HandlerResult : Type 0 where
  pub outcome : EventOutcome
  pub entity_id : EntityId
  pub cancel_provider_subscription_id : Option ℕ

abbrev pub result : EventOutcome → EntityId → HandlerResult
result outcome entity_id = record {
  outcome = outcome;
  entity_id = entity_id;
  cancel_provider_subscription_id = none;
}

abbrev pub or_else : Option ℕ → Option ℕ → Option ℕ
or_else none o = o
or_else (some a) o = some a

-- `this.status(event)`
abbrev pub status_of : BillingEvent → Option SubscriptionStatus
status_of e = elim e.status [ none ↦ none | some s ↦ some (status_from_provider s) ]

abbrev pub with_status : Option SubscriptionStatus → SubscriptionStatus → SubscriptionStatus
with_status none s = s
with_status (some t) s = t

-- `event.eventCreatedAt < found.lastEventAt`
abbrev pub is_before : ℕ → Option ℕ → Bool
is_before at none = false
is_before at (some mark) = ltb at mark

unfoldable pub is_out_of_order : BillingEvent → Subscription → Bool
is_out_of_order e found = is_before e.event_created_at found.last_event_at

abbrev pub by_provider_id : Option ℕ → Desk → Option Subscription
by_provider_id none d = none
by_provider_id (some p) d = find_first (billed_by p) d.subscriptions

abbrev pub customer_of : ℕ → Desk → Option BillingCustomer
customer_of c d = find_first (λ (x : BillingCustomer). x.provider_customer_id == c) d.customers

abbrev pub by_customer : Option ℕ → Desk → Option Subscription
by_customer none d = none
by_customer (some c) d = elim (customer_of c d) [
  | none ↦ none
  | some customer ↦ find_first (live_of customer.subscriber_id) d.subscriptions
]

unfoldable pub find_subscription : BillingEvent → Desk → Option Subscription
find_subscription e d = elim (by_provider_id e.provider_subscription_id d) [
  | some s ↦ some s
  | none ↦ by_customer e.provider_customer_id d
]

abbrev pub unmatched : BillingEvent → HandlerResult
unmatched e = result unmatched_subscription (of_event e.id)

-- What an update writes.
abbrev pub updated_row : BillingEvent → ℕ → Subscription → Subscription
updated_row e now s = record s {
  last_event_at = some e.event_created_at;
  status = with_status (status_of e) s.status;
  current_period_end = or_else e.current_period_end s.current_period_end;
  cancelled_at =
      (if is_cancelled (with_status (status_of e) active) then some now else s.cancelled_at);
  provider_subscription_id = or_else s.provider_subscription_id e.provider_subscription_id;
}

abbrev pub names_nothing : BillingEvent → Bool
names_nothing e = elim e.status [
  | some s ↦ false
  | none ↦ elim e.current_period_end [ some at ↦ false | none ↦ true ]
]

abbrev pub apply_update : BillingEvent → ℕ → Subscription → M HandlerResult
apply_update e now found =
    if is_out_of_order e found
    then return (result stale (of_subscription found.id))
    else (if is_cancelled found.status
        then return (result stale (of_subscription found.id))
        else (if names_nothing e
            then return (result stale (of_subscription found.id))
            else (update_subscription found.id (updated_row e now)
                >> return (result processed (of_subscription found.id)))))

-- The row that a handler is for, or no row.
abbrev pub on_found :
    BillingEvent → (Subscription → M HandlerResult) → Option Subscription → M HandlerResult
on_found e act none = return (unmatched e)
on_found e act (some found) = act found

unfoldable pub apply_subscription_updated : BillingEvent → ℕ → M HandlerResult
unfolding find_subscription is_out_of_order
apply_subscription_updated e now d = on_found e (apply_update e now) (find_subscription e d) d

abbrev pub deleted_row : BillingEvent → ℕ → Subscription → Subscription
deleted_row e now s = record s {
  status = cancelled;
  cancelled_at = some now;
  last_event_at = some e.event_created_at;
}

abbrev pub apply_delete : BillingEvent → ℕ → Subscription → M HandlerResult
apply_delete e now found =
    if is_out_of_order e found
    then return (result stale (of_subscription found.id))
    else (if is_cancelled found.status
        then return (result already_applied (of_subscription found.id))
        else (update_subscription found.id (deleted_row e now)
            >> return (result processed (of_subscription found.id))))

unfoldable pub apply_subscription_deleted : BillingEvent → ℕ → M HandlerResult
unfolding find_subscription is_out_of_order
apply_subscription_deleted e now d = on_found e (apply_delete e now) (find_subscription e d) d

abbrev pub failed_row : BillingEvent → Subscription → Subscription
failed_row e s = record s { status = past_due; last_event_at = some e.event_created_at }

abbrev pub apply_failure : BillingEvent → Subscription → M HandlerResult
apply_failure e found =
    if is_out_of_order e found
    then return (result stale (of_subscription found.id))
    else (if is_cancelled found.status
        then return (result stale (of_subscription found.id))
        else (if is_past_due found.status
            then return (result already_applied (of_subscription found.id))
            else (update_subscription found.id (failed_row e)
                >> return (result processed (of_subscription found.id)))))

unfoldable pub apply_payment_failed : BillingEvent → M HandlerResult
unfolding find_subscription is_out_of_order
apply_payment_failed e d = on_found e (apply_failure e) (find_subscription e d) d

-- `subscriber?.type !== side || !subscriber.id`
abbrev pub subscriber_for : SubscriberType → Option Subscriber → Option ℕ
subscriber_for side none = none
subscriber_for side (some s) = elim s.kind [
  | none ↦ none
  | some kind ↦ if same_type kind side then s.id else none
]

abbrev pub active_plan : ℕ → Desk → Option Plan
active_plan k d = find_first (λ (p : Plan). p.id == k && p.is_active) d.plans

-- The fields that a purchase writes on a row.
abbrev pub purchased_row : BillingEvent → Plan → ℕ → Subscription → Subscription
purchased_row e plan now s = record s {
  plan_id = plan.id;
  status = with_status (status_of e) active;
  current_period_start = now;
  current_period_end = or_else e.current_period_end s.current_period_end;
  provider_subscription_id = or_else e.provider_subscription_id s.provider_subscription_id;
  cancelled_at = (if is_cancelled (with_status (status_of e) active) then some now else none);
  last_event_at = some e.event_created_at;
}

abbrev pub empty_row : ℕ → ℕ → Subscription
empty_row new_id subscriber_id = record {
  id = new_id;
  subscriber_id = subscriber_id;
  plan_id = 0;
  status = active;
  current_period_start = 0;
  current_period_end = none;
  cancelled_at = none;
  provider_subscription_id = none;
  last_event_at = none;
}

abbrev pub retired_row : ℕ → Subscription → Subscription
retired_row now s = record s { status = cancelled; cancelled_at = some now }

-- `current?.providerSubscriptionId != null && … !== event.providerSubscriptionId`
abbrev pub superseded_by : BillingEvent → Subscription → Option ℕ
superseded_by e current = elim current.provider_subscription_id [
  | none ↦ none
  | some p ↦ if is_some_of e.provider_subscription_id p then none else some p
]

abbrev pub purchase_result : ℕ → Option ℕ → HandlerResult
purchase_result k superseded = record {
  outcome = processed;
  entity_id = of_subscription k;
  cancel_provider_subscription_id = superseded;
}

abbrev pub create_purchased : BillingEvent → ℕ → Plan → ℕ → ℕ → Option ℕ → M HandlerResult
create_purchased e subscriber_id plan new_id now superseded = do
  create_subscription (purchased_row e plan now (empty_row new_id subscriber_id))
  return (purchase_result new_id superseded)

abbrev pub purchase_over :
    BillingEvent → ℕ → Plan → ℕ → ℕ → Subscription → Option ℕ → M HandlerResult
purchase_over e subscriber_id plan new_id now current none = do
  update_subscription current.id (purchased_row e plan now)
  return (purchase_result current.id none)
purchase_over e subscriber_id plan new_id now current (some p) = do
  update_subscription current.id (retired_row now)
  create_purchased e subscriber_id plan new_id now (some p)

unfoldable pub purchase : BillingEvent → ℕ → Plan → ℕ → ℕ → M HandlerResult
purchase e subscriber_id plan new_id now d =
    elim (find_first (live_of subscriber_id) d.subscriptions) [
      | none ↦ create_purchased e subscriber_id plan new_id now none d
      | some current ↦
          purchase_over e subscriber_id plan new_id now current (superseded_by e current) d
    ]

abbrev pub checkout_of : BillingEvent → ℕ → ℕ → ℕ → ℕ → M HandlerResult
checkout_of e subscriber_id plan_id new_id now d =
    elim (by_provider_id e.provider_subscription_id d) [
      | some already ↦ done (result already_applied (of_subscription already.id)) d
      | none ↦ elim (active_plan plan_id d) [
        | none ↦ done (result unmatched_plan (of_subscriber subscriber_id)) d
        | some plan ↦ purchase e subscriber_id plan new_id now d
      ]
    ]

module _ (side : SubscriberType) where
  unfoldable pub apply_checkout_completed : BillingEvent → ℕ → ℕ → M HandlerResult
  unfolding purchase
  apply_checkout_completed e new_id now d = elim (subscriber_for side e.subscriber) [
    | none ↦ done (result not_a_subscriber (of_event e.id)) d
    | some subscriber_id ↦ elim e.plan_id [
      | none ↦ done (result unmatched_plan (of_subscriber subscriber_id)) d
      | some plan_id ↦ checkout_of e subscriber_id plan_id new_id now d
    ]
  ]

  unfoldable pub dispatch : BillingEvent → ℕ → ℕ → M HandlerResult
  unfolding apply_checkout_completed apply_subscription_updated apply_subscription_deleted
      apply_payment_failed
  dispatch e new_id now = elim e.event_type [
    | checkout_completed ↦ apply_checkout_completed e new_id now
    | subscription_updated ↦ apply_subscription_updated e now
    | subscription_deleted ↦ apply_subscription_deleted e now
    | invoice_payment_failed ↦ apply_payment_failed e
  ]

  -- The transaction's body.
  unfoldable pub record_event : BillingEvent → ℕ → ℕ → M HandlerResult
  unfolding dispatch
  record_event e new_id now = do
    create_event e.id
    handled ← dispatch e new_id now
    update_event e.id handled.outcome
    add_audit (event_processed handled.outcome) handled.entity_id
    return handled

  -- `took` is whether the provider took the cancellation.
  abbrev pub cancel_superseded : Bool → ℕ → EntityId → M (Unit {0})
  cancel_superseded took p entity_id =
      add_audit (if took then provider_subscription_cancelled p else provider_cancel_failed p)
        entity_id

  abbrev pub conclude : Bool → HandlerResult → M EventOutcome
  conclude took r = elim r.cancel_provider_subscription_id [
    | none ↦ return r.outcome
    | some p ↦ cancel_superseded took p r.entity_id >> return r.outcome
  ]

  -- Of the errors of the transaction, that of the deliveries' key is a replay.
  abbrev pub on_error : WriteError → Desk → Ran EventOutcome
  on_error event_exists d = done duplicate d
  on_error e d = thrown e d

  unfoldable pub process : Bool → BillingEvent → ℕ → ℕ → M EventOutcome
  unfolding record_event
  process took e new_id now d = elim (record_event e new_id now d) [
    | done r d' ↦ conclude took r d'
    | thrown err d' ↦ on_error err d
  ]
