-- ===== src/Examples/Subscriptions.antt =====
-- One operator, its plan and what the provider delivers (src/subscriptions).
use saprk_parking_api.Prelude.{
  ℕ, ◌+◌, ◌≡◌, ◌↔◌, refl, true, none, some, List, [], ◌∷◌, arith, ◌==◌, count_if,
}
use saprk_parking_api.Store.Table.{find_row}
use saprk_parking_api.Tariff.Quote.{LifecycleStatus}
use saprk_parking_api.Subscription.{
  operator, active, cancelled, BillingEventType, checkout_completed, subscription_updated,
  subscription_deleted, BillingEvent, Subscription, EventOutcome, processed, duplicate, Desk,
}
use saprk_parking_api.Subscription.Writes.{done, after, key_of, update_subscription}
use saprk_parking_api.Subscription.Sound.{IsSound}
use saprk_parking_api.Subscription.Events.{process}
use saprk_parking_api.Subscription.Process.{IsReady}
use saprk_parking_api.Subscription.Deliveries.{
  Delivery, deliver, after_deliveries, mark_le, deliver-returns, after_deliveries-terminal,
  deliver-replay, deliver-mark,
}
use saprk_parking_api.Subscription.Grants.{has_plan, process-grants}
use saprk_parking_api.Subscription.Entitlements.{
  Entitlements, OperatorTables, given, assert_usage_fits_entitlements,
}
use saprk_parking_api.Subscription.Entitlements.Bounded.{
  FitsLimit, takes_facility, takes_plan, takes_seat, assert_usage_fits_entitlements_iff,
}

abbrev event : BillingEventType → ℕ → BillingEvent
event kind id = record {
  id = id;
  event_type = kind;
  event_created_at = 100 + id;
  subscriber = some (record { kind = some operator; id = some 5 });
  plan_id = some 3;
  provider_subscription_id = some 70;
  provider_customer_id = none;
  status = none;
  current_period_end = some 900;
}

abbrev ended : Subscription
ended = record {
  id = 1;
  subscriber_id = 5;
  plan_id = 3;
  status = cancelled;
  current_period_start = 0;
  current_period_end = none;
  cancelled_at = some 50;
  provider_subscription_id = some 60;
  last_event_at = some 40;
}

abbrev running : Subscription
running = record ended {
  id = 2;
  status = active;
  cancelled_at = none;
  provider_subscription_id = some 70;
}

abbrev office : List Subscription → Desk
office rows = record {
  subscribers = 5 ∷ [];
  plans = record { id = 3; is_active = true } ∷ [];
  subscriptions = rows;
  customers = [];
  events = [];
  audit = [];
}

one_row-IsSound : (s : Subscription) → IsSound (s ∷ [])
one_row-IsSound s = record {
  ids = λ k. ground arith;
  providers = λ p. ground arith;
  lives = λ k. ground arith;
}

abbrev ended_desk : Desk
ended_desk = office (ended ∷ [])

abbrev running_desk : Desk
running_desk = office (running ∷ [])

IsReady-ended : IsReady operator (event checkout_completed 11) 4 ended_desk
IsReady-ended = record { sound = one_row-IsSound ended; fresh = refl; known = refl }

IsReady-running : IsReady operator (event subscription_updated 12) 4 running_desk
IsReady-running = record { sound = one_row-IsSound running; fresh = refl; known = refl }

abbrev purchase_delivery : Delivery operator
purchase_delivery = record {
  event = event checkout_completed 11;
  took = true;
  new_id = 4;
  now = 120;
}

abbrev renewal : Delivery operator
renewal = record { event = event subscription_updated 12; took = true; new_id = 4; now = 120 }

deliver-returns_example :
    (outcome : EventOutcome) × (left : Desk) × (deliver operator purchase_delivery ended_desk
      ≡ done outcome left)
    × IsSound left.subscriptions
deliver-returns_example = deliver-returns operator purchase_delivery ended_desk IsReady-ended

after_deliveries-terminal_example :
    find_row key_of 1 (after_deliveries operator (purchase_delivery ∷ []) ended_desk).subscriptions
    ≡ some ended
after_deliveries-terminal_example =
    after_deliveries-terminal operator (purchase_delivery ∷ []) 1 ended ended_desk
      (IsReady-ended, tt) refl refl

deliver-replay_example :
    deliver operator purchase_delivery
      (after_deliveries operator (purchase_delivery ∷ []) ended_desk)
    ≡ done duplicate (after_deliveries operator (purchase_delivery ∷ []) ended_desk)
deliver-replay_example =
    deliver-replay operator purchase_delivery purchase_delivery [] ended_desk refl
      (IsReady-ended, tt)

deliver-mark_example :
    (t : Subscription) × (find_row key_of 2
        (after (deliver operator renewal running_desk)).subscriptions
      ≡ some t)
    × (mark_le (some 40) t.last_event_at ≡ true)
deliver-mark_example =
    deliver-mark operator renewal 2 running running_desk IsReady-running refl refl

process-grants_example :
    (left : Desk) × (process operator true (event checkout_completed 11) 4 120 ended_desk
      ≡ done processed left)
    × (has_plan 5 3 left ≡ true)
process-grants_example =
    process-grants operator true (event checkout_completed 11) 4 120 5 3
      (record { id = 3; is_active = true }) ended_desk IsReady-ended refl refl refl refl refl refl
      refl refl

abbrev small : Entitlements
small = record {
  max_facilities = some 2;
  max_tariff_plans = none;
  max_staff_seats = some 3;
  features = [];
  commission_bps = 900;
}

abbrev books : OperatorTables
books = record {
  plans = [];
  subscriptions = [];
  facilities =
      record { operator_id = some 5; lifecycle_status = LifecycleStatus.active }
      ∷ record { operator_id = some 5; lifecycle_status = LifecycleStatus.archived }
      ∷ [];
  tariff_plans =
      record { operator_id = 5; is_active = true; lifecycle_status = LifecycleStatus.active } ∷ [];
  memberships = 5 ∷ [];
  invites = [];
}

assert_usage_fits_entitlements_iff_example :
    (assert_usage_fits_entitlements 0 5 small 10 books ≡ given tt) ↔ (
      FitsLimit 0 (some 2) (count_if (takes_facility 0 5) books.facilities)
      × FitsLimit 0 none (count_if (takes_plan 0 5) books.tariff_plans)
      × FitsLimit 0
          (some 3)
          (count_if (λ j. j == 5) books.memberships + count_if (takes_seat 0 5 10) books.invites))
assert_usage_fits_entitlements_iff_example =
    assert_usage_fits_entitlements_iff 0 5 small 10 books refl

-- A deletion that names a provider's subscription that no row has reaches the customer's live row,
-- which another subscription of the provider bills.
abbrev other_deleted : BillingEvent
other_deleted = record (event subscription_deleted 13) {
  provider_subscription_id = some 99;
  provider_customer_id = some 8;
}

abbrev customer_desk : Desk
customer_desk = record running_desk {
  customers = record { provider_customer_id = 8; subscriber_id = 5 } ∷ [];
}

deleted-other :
    find_row key_of 2
      (after (process operator true other_deleted 4 130 customer_desk)).subscriptions
    ≡ some
        (record running { status = cancelled; cancelled_at = some 130; last_event_at = some 113 })
unfolding process update_subscription
deleted-other = refl

-- A purchase of a plan that comes late moves the mark of a live row back.
abbrev bare_desk : Desk
bare_desk =
    office (record running { provider_subscription_id = none; last_event_at = some 400 } ∷ [])

purchased-late :
    find_row key_of 2
      (after (process operator true (event checkout_completed 11) 4 120 bare_desk)).subscriptions
    ≡ some (record running {
      current_period_start = 120;
      current_period_end = some 900;
      provider_subscription_id = some 70;
      last_event_at = some 111;
    })
unfolding process update_subscription
purchased-late = refl
