-- ===== src/Subscription/Grants.antt =====
-- What a purchase grants (`applyCheckoutCompleted` of
-- src/subscriptions/operator-subscription-events.service.ts and of its twin).
use saprk_parking_api.Prelude.{
  ℕ, ◌≡◌, refl, ap, ◌∙◌, inl, inr, Bool, true, false, Option, none, some, List, ◌∷◌, ◌==◌, ==_iff,
  find_first, arith, Option-cases,
}
use saprk_parking_api.Store.Table.{find_row, update_row}
use saprk_parking_api.Subscription.{
  SubscriberType, checkout_completed, BillingEvent, processed, EventRow, Plan, Subscription, Desk,
  is_live, active,
}
use saprk_parking_api.Store.Rows.{find_first-update_row}
use saprk_parking_api.Subscription.Writes.{Ran, done, key_of, live_of, is_there, event_key}
use saprk_parking_api.Subscription.Sound.{IsSound, with_rows, update_subscription-done}
use saprk_parking_api.Subscription.Change.{is_checkout, own-IsFree}
use saprk_parking_api.Subscription.Checkout.{
  create-done, IsFree-or, unbilled-update_row, no_live-retired, fresh-retired, holder, row-current,
}
use saprk_parking_api.Subscription.Events.{
  HandlerResult, by_provider_id, with_status, status_of, purchased_row, empty_row, retired_row,
  superseded_by, purchase_result, purchase_over, purchase, active_plan, subscriber_for,
  apply_checkout_completed, dispatch, process,
}
use saprk_parking_api.Subscription.Process.{
  IsReady, process-runs, conclude-told, entered, closed, told, told-keeps,
}

-- The subscriber has a live row, and it is of the plan.
abbrev pub has_plan : ℕ → ℕ → Desk → Bool
has_plan k plan d = elim (find_first (live_of k) d.subscriptions) [
  | none ↦ false
  | some s ↦ s.plan_id == plan
]

-- A run that ends with the subscriber's row of a plan.
record Granted (e : BillingEvent) (k : ℕ) (plan : Plan) (d : Desk) (run : Ran HandlerResult)
    : Type 0 where
  pub value : HandlerResult
  pub rows : List Subscription
  pub ran : run ≡ done value (with_rows d rows)
  pub named : value.outcome ≡ processed
  pub held : has_plan k plan.id (with_rows d rows) ≡ true

module _ (e : BillingEvent) (new_id now k : ℕ) (plan : Plan) (buy : is_checkout e.event_type ≡ true)
    (going : is_live (with_status (status_of e) active) ≡ true) where
  bought-live :
      (s : Subscription) → s.subscriber_id ≡ k → live_of k (purchased_row e plan now s) ≡ true
  bought-live s same = ground (arith, ==_iff s.subscriber_id k)

  head-plan :
      (d : Desk) (rows : List Subscription)
      → has_plan k plan.id (with_rows d (purchased_row e plan now (empty_row new_id k) ∷ rows))
        ≡ true
  head-plan d rows = ground (arith, bought-live (empty_row new_id k) refl, ==_iff plan.id plan.id)

  plan-found :
      (d : Desk) (s : Subscription) (rows : List Subscription)
      → find_first (live_of k) rows ≡ some (purchased_row e plan now s)
      → has_plan k plan.id (with_rows d rows) ≡ true
  plan-found d s rows h = rw (has_plan, h) ((==_iff plan.id plan.id).1 refl)

  module _ (d : Desk) (sound : IsSound d.subscriptions) (there : is_there k d.subscribers ≡ true)
      (fresh : find_row key_of new_id d.subscriptions ≡ none)
      (unbilled : by_provider_id e.provider_subscription_id d ≡ none) where
    over-Granted :
        (s : Subscription) (superseded : Option ℕ)
        → find_first (live_of k) d.subscriptions ≡ some s
        → Granted e k plan d (purchase_over e k plan new_id now s superseded d)
    over-Granted s none current =
        let row = row-current e new_id now k plan buy d sound there fresh unbilled s current in
        let held = holder e new_id now k plan buy d sound there fresh unbilled s current in
        let (ran, kept) =
          update_subscription-done s (purchased_row e plan now) d row sound refl refl held.1
            (IsFree-or e.provider_subscription_id s.provider_subscription_id d unbilled) in
        record {
          value = purchase_result s.id none;
          rows = update_row key_of s.id (purchased_row e plan now) d.subscriptions;
          ran = ground arith;
          named = refl;
          held = plan-found d s _ (
              find_first-update_row key_of (live_of k) (purchased_row e plan now) d.subscriptions s
                current row (bought-live s held.0));
        }
    over-Granted s (some p) current =
        let row = row-current e new_id now k plan buy d sound there fresh unbilled s current in
        let held = holder e new_id now k plan buy d sound there fresh unbilled s current in
        let (retired, kept) =
          update_subscription-done s (retired_row now) d row sound refl refl held.1
            (own-IsFree s d.subscriptions) in
        let (ran, last) =
          create-done e new_id now k plan buy
            (with_rows d (update_row key_of s.id (retired_row now) d.subscriptions)) (some p) kept
            there (fresh-retired e new_id now k plan buy d sound there fresh unbilled s current)
            (unbilled-update_row e.provider_subscription_id s (retired_row now) d row refl unbilled)
            (no_live-retired e new_id now k plan buy d sound there fresh unbilled s current) in
        record {
          value = purchase_result new_id (some p);
          rows =
              purchased_row e plan now (empty_row new_id k)
              ∷ update_row key_of s.id (retired_row now) d.subscriptions;
          ran = ground arith;
          named = refl;
          held = head-plan d _;
        }

    purchase-Granted : Granted e k plan d (purchase e k plan new_id now d)
    unfolding purchase
    purchase-Granted = elim (Option-cases (find_first (live_of k) d.subscriptions)) [
      | inl no_live ↦
          let (ran, last) =
            create-done e new_id now k plan buy d none sound there fresh unbilled no_live in
          record {
            value = purchase_result new_id none;
            rows = purchased_row e plan now (empty_row new_id k) ∷ d.subscriptions;
            ran = ground arith;
            named = refl;
            held = head-plan d _;
          }
      | inr (s, current) ↦
          let over = over-Granted s (superseded_by e s) current in
          record {
            value = over.value;
            rows = over.rows;
            ran = ground (arith, over.ran);
            named = over.named;
            held = over.held;
          }
    ]

unbilled-entered :
    (o : Option ℕ) (d : Desk) (events : List EventRow)
    → by_provider_id o d ≡ none
    → by_provider_id o (record d { events = events }) ≡ none
unbilled-entered none d events h = refl
unbilled-entered (some p) d events h = h

dispatch-purchase :
    (side : SubscriberType) (e : BillingEvent) (new_id now k plan_id : ℕ) (plan : Plan) (d : Desk)
    → e.event_type ≡ checkout_completed
    → subscriber_for side e.subscriber ≡ some k
    → e.plan_id ≡ some plan_id
    → active_plan plan_id d ≡ some plan
    → by_provider_id e.provider_subscription_id d ≡ none
    → dispatch side e new_id now d ≡ purchase e k plan new_id now d
unfolding dispatch apply_checkout_completed
dispatch-purchase side e new_id now k plan_id plan d buy who names planned unbilled = ground arith

module _ (side : SubscriberType) (took : Bool) (e : BillingEvent) (new_id now k plan_id : ℕ)
    (plan : Plan) (d : Desk) where
  -- A first delivery of a purchase, which names a subscriber of this side and an active plan, and a
  -- provider's subscription that no row has, is processed, and the subscriber's live row is of the
  -- plan, where the tables are ready for it and it does not say that the subscription is cancelled.
  pub process-grants :
      IsReady side e new_id d
      → e.event_type ≡ checkout_completed
      → find_row event_key e.id d.events ≡ none
      → subscriber_for side e.subscriber ≡ some k
      → is_there k d.subscribers ≡ true
      → e.plan_id ≡ some plan_id
      → active_plan plan_id d ≡ some plan
      → by_provider_id e.provider_subscription_id d ≡ none
      → is_live (with_status (status_of e) active) ≡ true
      → (left : Desk) × (process side took e new_id now d ≡ done processed left)
        × (has_plan k plan.id left ≡ true)
  process-grants ready buy first who there names planned unbilled going =
      let unbilled_still =
        unbilled-entered e.provider_subscription_id d
          (record { provider_event_id = e.id; outcome = none } ∷ d.events) unbilled in
      let granted =
        purchase-Granted e new_id now k plan (rw buy refl) going (entered side took e new_id now d)
          ready.sound there ready.fresh unbilled_still in
      let r = granted.value in
      let shut = closed side took e new_id now d r granted.rows in
      let ran =
        dispatch-purchase side e new_id now k plan_id plan (entered side took e new_id now d) buy
          who names planned unbilled_still
        ∙ granted.ran in
      (
        told side took e new_id now d r.cancel_provider_subscription_id r shut,
        process-runs side took e new_id now d r granted.rows first ran
            ∙ conclude-told side took e new_id now d r shut
            ∙ ap
                (λ o.
                  done o (told side took e new_id now d r.cancel_provider_subscription_id r shut))
                granted.named,
        ap (λ rows. has_plan k plan.id (record d { subscriptions = rows }))
              (told-keeps side took e new_id now d r.cancel_provider_subscription_id r shut).0
            ∙ granted.held,
      )
