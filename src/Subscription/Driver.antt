-- ===== src/Subscription/Driver.antt =====
-- The drivers' side (`DriverSubscriptionEventsService` of
-- src/subscriptions/driver-subscription-events.service.ts): the handlers of Events, which are its text
-- with the drivers' tables and the subscriber type 'driver'.
use saprk_parking_api.Prelude.{ℕ, Bool, Option}
use saprk_parking_api.Subscription.{
  BillingEvent, Subscription, Desk, EntityId, EventOutcome, driver,
}
use saprk_parking_api.Subscription.Writes.{M}
use saprk_parking_api.Subscription.Events.{HandlerResult}
use saprk_parking_api.Subscription.Events

abbrev pub find_subscription : BillingEvent → Desk → Option Subscription
find_subscription = Events.find_subscription

abbrev pub apply_checkout_completed : BillingEvent → ℕ → ℕ → M HandlerResult
apply_checkout_completed = Events.apply_checkout_completed driver

abbrev pub apply_subscription_updated : BillingEvent → ℕ → M HandlerResult
apply_subscription_updated = Events.apply_subscription_updated

abbrev pub apply_subscription_deleted : BillingEvent → ℕ → M HandlerResult
apply_subscription_deleted = Events.apply_subscription_deleted

abbrev pub apply_payment_failed : BillingEvent → M HandlerResult
apply_payment_failed = Events.apply_payment_failed

abbrev pub dispatch : BillingEvent → ℕ → ℕ → M HandlerResult
dispatch = Events.dispatch driver

abbrev pub cancel_superseded : Bool → ℕ → EntityId → M (Unit {0})
cancel_superseded = Events.cancel_superseded driver

abbrev pub process : Bool → BillingEvent → ℕ → ℕ → M EventOutcome
process = Events.process driver
