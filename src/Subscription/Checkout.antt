-- ===== src/Subscription/Checkout.antt =====
-- A purchase changes a side's subscriptions in one of the ways of Change (`applyCheckoutCompleted` of
-- src/subscriptions/operator-subscription-events.service.ts and of its twin).
use saprk_parking_api.Prelude.{
  ℕ, ◌≡◌, refl, inl, inr, Bool, true, Option, none, some, List, [], ◌∷◌, ==_iff, find_first,
  find_first-holds, count_if, arith, Option-cases,
}
use saprk_parking_api.Store.Table.{find_row, update_row, find_row-update_row}
use saprk_parking_api.Subscription.{
  SubscriberType, BillingEvent, Plan, Subscription, Desk, is_live, not_a_subscriber, unmatched_plan,
  already_applied, of_event, of_subscriber, of_subscription,
}
use saprk_parking_api.Store.Rows.{count-none, count-update_row-exact}
use saprk_parking_api.Subscription.Writes.{done, live_of, billed_by, key_of, is_there}
use saprk_parking_api.Subscription.Sound.{
  IsSound, IsFree, with_rows, update_subscription-done, create_subscription-done,
}
use saprk_parking_api.Subscription.Change.{
  is_checkout, opened, replaced, Handled, Handled-of, untouched, written, own-IsFree, live_of-row,
}
use saprk_parking_api.Subscription.Events.{
  result, or_else, by_provider_id, purchased_row, empty_row, retired_row, superseded_by,
  purchase_result, create_purchased, purchase_over, purchase, active_plan, checkout_of,
  subscriber_for, apply_checkout_completed,
}

-- A search that finds nothing counts nothing, and the other way round.
none-count {ℓ} :
    {A : Type ℓ} (test : A → Bool) (rows : List A)
    → count_if test rows ≡ 0
    → find_first test rows ≡ none
none-count test [] h = refl
none-count test (r ∷ rows) h = ground (arith, none-count test rows)

pub IsFree-or :
    (o was : Option ℕ) (d : Desk)
    → by_provider_id o d ≡ none
    → IsFree was (or_else o was) d.subscriptions
IsFree-or none none d h = tt
IsFree-or none (some p) d h = inl refl
IsFree-or (some p) was d h = inr h

-- A write that keeps the provider's id of the row leaves an id unused that no row had.
pub unbilled-update_row :
    (o : Option ℕ) (s : Subscription) (f : Subscription → Subscription) (d : Desk)
    → find_row key_of s.id d.subscriptions ≡ some s
    → (f s).provider_subscription_id ≡ s.provider_subscription_id
    → by_provider_id o d ≡ none
    → by_provider_id o (with_rows d (update_row key_of s.id f d.subscriptions)) ≡ none
unbilled-update_row none s f d row same h = refl
unbilled-update_row (some p) s f d row same h =
    none-count (billed_by p) (update_row key_of s.id f d.subscriptions) (
      ground (
        arith,
        count-update_row-exact key_of (billed_by p) s.id f d.subscriptions s row,
        count-none (billed_by p) d.subscriptions,
      ))

live-subscriber :
    (k : ℕ) (s : Subscription)
    → live_of k s ≡ true
    → (s.subscriber_id ≡ k) × (is_live s.status ≡ true)
live-subscriber k s h = ground (arith, ==_iff s.subscriber_id k)

module _ (e : BillingEvent) (new_id now k : ℕ) (plan : Plan)
    (buy : is_checkout e.event_type ≡ true) where
  -- A row is opened for a subscriber without a live row.
  pub create-done :
      (d : Desk) (superseded : Option ℕ)
      → IsSound d.subscriptions
      → is_there k d.subscribers ≡ true
      → find_row key_of new_id d.subscriptions ≡ none
      → by_provider_id e.provider_subscription_id d ≡ none
      → find_first (live_of k) d.subscriptions ≡ none
      → (create_purchased e k plan new_id now superseded d
          ≡ done
              (purchase_result new_id superseded)
              (with_rows d (purchased_row e plan now (empty_row new_id k) ∷ d.subscriptions)))
        × IsSound (purchased_row e plan now (empty_row new_id k) ∷ d.subscriptions)
  create-done d superseded sound there fresh unbilled no_live =
      let (ran, after_sound) =
        create_subscription-done (purchased_row e plan now (empty_row new_id k)) d sound there fresh
          (IsFree-or e.provider_subscription_id none d unbilled) no_live in
      (ground arith, after_sound)

  module _ (d : Desk) (sound : IsSound d.subscriptions) (there : is_there k d.subscribers ≡ true)
      (fresh : find_row key_of new_id d.subscriptions ≡ none)
      (unbilled : by_provider_id e.provider_subscription_id d ≡ none) where
    module _ (s : Subscription) (current : find_first (live_of k) d.subscriptions ≡ some s) where
      pub holder : (s.subscriber_id ≡ k) × (is_live s.status ≡ true)
      holder = live-subscriber k s (find_first-holds (live_of k) d.subscriptions s current)

      pub row-current : find_row key_of s.id d.subscriptions ≡ some s
      row-current = live_of-row k d s sound current

      pub no_live-retired :
          find_first (live_of k) (update_row key_of s.id (retired_row now) d.subscriptions) ≡ none
      no_live-retired =
          none-count (live_of k) (update_row key_of s.id (retired_row now) d.subscriptions) (
            ground (
              arith,
              ==_iff s.subscriber_id k,
              holder,
              sound.lives k,
              count-update_row-exact key_of (live_of k) s.id (retired_row now) d.subscriptions s
                  row-current,
            ))

      pub fresh-retired :
          find_row key_of new_id (update_row key_of s.id (retired_row now) d.subscriptions) ≡ none
      fresh-retired = ground (
        arith,
        find_row-update_row key_of s.id new_id (retired_row now) d.subscriptions (λ r. refl),
      )

      -- The row that was held is retired, and another opened.
      replace-Handled :
          (p : ℕ) → Handled e new_id d (purchase_over e k plan new_id now s (some p) d)
      replace-Handled p =
          let (retired, kept) =
            update_subscription-done s (retired_row now) d row-current sound refl refl holder.1
              (own-IsFree s d.subscriptions) in
          let (ran, sound_after) =
            create-done (with_rows d (update_row key_of s.id (retired_row now) d.subscriptions))
              (some p) kept there fresh-retired
              (unbilled-update_row e.provider_subscription_id s (retired_row now) d row-current refl
                unbilled)
              no_live-retired in
          record {
            value = purchase_result new_id (some p);
            rows =
                purchased_row e plan now (empty_row new_id k)
                ∷ update_row key_of s.id (retired_row now) d.subscriptions;
            ran = ground arith;
            sound = sound_after;
            change =
                replaced d.subscriptions s _ (retired_row now) row-current holder.1 (λ r. refl) refl
                  buy;
          }

      over-Handled :
          (superseded : Option ℕ)
          → Handled e new_id d (purchase_over e k plan new_id now s superseded d)
      over-Handled none =
          written e new_id d sound s (purchased_row e plan now) (purchase_result s.id none)
            row-current holder.1 (λ x. refl) refl
            (IsFree-or e.provider_subscription_id s.provider_subscription_id d unbilled) refl
            (λ other. absurd (ground arith))
      over-Handled (some p) = replace-Handled p

    purchase-Handled : Handled e new_id d (purchase e k plan new_id now d)
    unfolding purchase
    purchase-Handled = elim (Option-cases (find_first (live_of k) d.subscriptions)) [
      | inl no_live ↦
          let (ran, sound_after) = create-done d none sound there fresh unbilled no_live in
          record {
            value = purchase_result new_id none;
            rows = purchased_row e plan now (empty_row new_id k) ∷ d.subscriptions;
            ran = ground arith;
            sound = sound_after;
            change = opened d.subscriptions _ refl buy;
          }
      | inr (s, current) ↦
          Handled-of e new_id d _ _ (ground arith) (over-Handled s current (superseded_by e s))
    ]

-- The subscriber of an event, if it names one, is in the table.
abbrev pub is_known : Option ℕ → List ℕ → Bool
is_known none ids = true
is_known (some k) ids = is_there k ids

module _ (side : SubscriberType) (e : BillingEvent) (new_id now : ℕ) (d : Desk)
    (sound : IsSound d.subscriptions) (fresh : find_row key_of new_id d.subscriptions ≡ none)
    (known : is_known (subscriber_for side e.subscriber) d.subscribers ≡ true)
    (buy : is_checkout e.event_type ≡ true) where
  checkout_of-Handled :
      (k plan_id : ℕ)
      → is_there k d.subscribers ≡ true
      → Handled e new_id d (checkout_of e k plan_id new_id now d)
  checkout_of-Handled k plan_id there =
      elim (Option-cases (by_provider_id e.provider_subscription_id d)) [
        | inr (s, f) ↦
            untouched e new_id d _ (result already_applied (of_subscription s.id)) sound
              (ground arith)
        | inl unbilled ↦ elim (Option-cases (active_plan plan_id d)) [
          | inl f ↦
              untouched e new_id d _ (result unmatched_plan (of_subscriber k)) sound (ground arith)
          | inr (plan, f) ↦
              Handled-of e new_id d _ _ (ground arith)
                (purchase-Handled e new_id now k plan buy d sound there fresh unbilled)
        ]
      ]

  pub apply_checkout_completed-Handled :
      Handled e new_id d (apply_checkout_completed side e new_id now d)
  unfolding apply_checkout_completed
  apply_checkout_completed-Handled = elim (Option-cases (subscriber_for side e.subscriber)) [
    | inl f ↦ untouched e new_id d _ (result not_a_subscriber (of_event e.id)) sound (ground arith)
    | inr (k, f) ↦ elim (Option-cases e.plan_id) [
      | inl g ↦
          untouched e new_id d _ (result unmatched_plan (of_subscriber k)) sound (ground arith)
      | inr (plan_id, g) ↦
          Handled-of e new_id d _ _ (ground arith) (checkout_of-Handled k plan_id (rw f at known))
    ]
  ]
