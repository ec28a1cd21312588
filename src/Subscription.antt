-- ===== src/Subscription.antt =====
-- The subscriptions of operators and of drivers, and what the billing provider says of them (the models
-- OperatorSubscription and DriverSubscription with their plans and billing customers in
-- prisma/schema.prisma, src/subscriptions/subscriptions.constants.ts, and the event of
-- vendor/subscription-billing). Each side has tables of its own, of one shape; a desk is one side's.
pub mod Writes
pub mod Sound
pub mod Change
pub mod Checkout
pub mod Process
pub mod Deliveries
pub mod Grants
pub mod Driver
pub mod Entitlements
pub mod Events
use saprk_parking_api.Prelude.{ℕ, Bool, true, false, Option, none, some, List, ◌==◌}

pub data SubscriberType : Type 0 where
  operator driver : SubscriberType

pub data SubscriptionStatus : Type 0 where
  trialing active past_due cancelled : SubscriptionStatus

-- The provider's vocabulary.
pub data SubscriptionBillingStatus : Type 0 where
  active trialing past_due canceled : SubscriptionBillingStatus

pub data BillingEventType : Type 0 where
  checkout_completed subscription_updated subscription_deleted invoice_payment_failed :
      BillingEventType

-- Another type of subscriber, or an empty id, is `none`.
pub record Subscriber : Type 0 where
  pub kind : Option SubscriberType
  pub id : Option ℕ

-- An empty text is absent.
pub record BillingEvent : Type 0 where
  pub id : ℕ
  pub event_type : BillingEventType
  pub event_created_at : ℕ
  pub subscriber : Option Subscriber
  pub plan_id : Option ℕ
  pub provider_subscription_id : Option ℕ
  pub provider_customer_id : Option ℕ
  pub status : Option SubscriptionBillingStatus
  pub current_period_end : Option ℕ

pub record Plan : Type 0 where
  pub id : ℕ
  pub is_active : Bool

pub record Subscription : Type 0 where
  pub id : ℕ
  pub subscriber_id : ℕ
  pub plan_id : ℕ
  pub status : SubscriptionStatus
  pub current_period_start : ℕ
  pub current_period_end : Option ℕ
  pub cancelled_at : Option ℕ
  pub provider_subscription_id : Option ℕ
  pub last_event_at : Option ℕ

-- The customer of the configured provider that a subscriber is.
pub record BillingCustomer : Type 0 where
  pub provider_customer_id : ℕ
  pub subscriber_id : ℕ

-- `not_a_subscriber` is 'not_an_operator' of the one side and 'not_a_driver' of the other.
pub data EventOutcome : Type 0 where
  processed duplicate not_a_subscriber unmatched_plan unmatched_subscription already_applied stale :
      EventOutcome

-- `entityId`: the id of the event, of a subscriber or of a subscription.
pub data EntityId : Type 0 where
  of_event of_subscriber of_subscription : ℕ → EntityId

pub data AuditAction : Type 0 where
  event_processed : EventOutcome → AuditAction
  provider_subscription_cancelled provider_cancel_failed : ℕ → AuditAction

pub record AuditRow : Type 0 where
  pub action : AuditAction
  pub entity_id : EntityId

-- A delivery of this side's surface; `outcome` is null until the handler has run.
pub record EventRow : Type 0 where
  pub provider_event_id : ℕ
  pub outcome : Option EventOutcome

-- `subscribers` are the ids of the operators' or the users' table.
pub record Desk : Type 0 where
  pub subscribers : List ℕ
  pub plans : List Plan
  pub subscriptions : List Subscription
  pub customers : List BillingCustomer
  pub events : List EventRow
  pub audit : List AuditRow

abbrev pub is_cancelled : SubscriptionStatus → Bool
is_cancelled cancelled = true
is_cancelled _ = false

-- `status: { in: LIVE_SUBSCRIPTION_STATUSES }`
abbrev pub is_live : SubscriptionStatus → Bool
is_live cancelled = false
is_live _ = true

abbrev pub is_past_due : SubscriptionStatus → Bool
is_past_due past_due = true
is_past_due _ = false

abbrev pub status_from_provider : SubscriptionBillingStatus → SubscriptionStatus
status_from_provider active = active
status_from_provider trialing = trialing
status_from_provider past_due = past_due
status_from_provider canceled = cancelled

abbrev pub same_type : SubscriberType → SubscriberType → Bool
same_type operator operator = true
same_type driver driver = true
same_type _ _ = false

abbrev pub is_some_of : Option ℕ → ℕ → Bool
is_some_of none k = false
is_some_of (some j) k = j == k
