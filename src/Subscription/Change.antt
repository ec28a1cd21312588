-- ===== src/Subscription/Change.antt =====
-- How a delivery may change a side's subscriptions (the handlers of
-- src/subscriptions/operator-subscription-events.service.ts and of
-- src/subscriptions/driver-subscription-events.service.ts).
use saprk_parking_api.Prelude.{
  ℕ, ◌≡◌, refl, sym, subst, ◌∙◌, inl, inr, Bool, true, false, Option, none, some, List, ◌∷◌,
  if◌then◌else◌, find_first, find_first-holds, arith, Option-cases,
}
use saprk_parking_api.Store.Table.{find_row, update_row}
use saprk_parking_api.Subscription.{
  BillingEventType, checkout_completed, BillingEvent, Subscription, Desk, is_cancelled, is_live,
  is_past_due,
}
use saprk_parking_api.Store.Rows.{find_row-of_found}
use saprk_parking_api.Subscription.Writes.{
  Ran, done, M, ◌>>◌, return, live_of, billed_by, key_of, update_subscription,
}
use saprk_parking_api.Subscription.Sound.{IsSound, IsFree, with_rows, update_subscription-done}
use saprk_parking_api.Subscription.Events.{
  HandlerResult, or_else, is_before, is_out_of_order, by_provider_id, customer_of, by_customer,
  find_subscription, updated_row, names_nothing, apply_update, on_found, unmatched,
  apply_subscription_updated, deleted_row, apply_delete, apply_subscription_deleted, failed_row,
  apply_failure, apply_payment_failed,
}

abbrev pub is_checkout : BillingEventType → Bool
is_checkout checkout_completed = true
is_checkout _ = false

-- No row changes; a live row is written, and by an event that is no purchase only if it is not older
-- than the last; a row with the new id is opened; a live row is written and another opened.
pub data Change (e : BillingEvent) (new_id : ℕ)
    : List Subscription → List Subscription → Type 0 where
  kept : (rows : List Subscription) → Change e new_id rows rows
  moved :
      (rows : List Subscription) (s : Subscription) (f : Subscription → Subscription)
      → find_row key_of s.id rows ≡ some s
      → is_live s.status ≡ true
      → ((r : Subscription) → (f r).id ≡ r.id)
      → (f s).last_event_at ≡ some e.event_created_at
      → (is_checkout e.event_type ≡ false → is_before e.event_created_at s.last_event_at ≡ false)
      → Change e new_id rows (update_row key_of s.id f rows)
  opened :
      (rows : List Subscription) (t : Subscription)
      → t.id ≡ new_id
      → is_checkout e.event_type ≡ true
      → Change e new_id rows (t ∷ rows)
  replaced :
      (rows : List Subscription) (s t : Subscription) (f : Subscription → Subscription)
      → find_row key_of s.id rows ≡ some s
      → is_live s.status ≡ true
      → ((r : Subscription) → (f r).id ≡ r.id)
      → t.id ≡ new_id
      → is_checkout e.event_type ≡ true
      → Change e new_id rows (t ∷ update_row key_of s.id f rows)

-- A handler returned, changed no table but the subscriptions, those in one of these ways, and left
-- the keys unique.
pub record Handled (e : BillingEvent) (new_id : ℕ) (d : Desk) (run : Ran HandlerResult)
    : Type 0 where
  pub value : HandlerResult
  pub rows : List Subscription
  pub ran : run ≡ done value (with_rows d rows)
  pub sound : IsSound rows
  pub change : Change e new_id d.subscriptions rows

-- A run that is another run.
pub Handled-of :
    (e : BillingEvent) (new_id : ℕ) (d : Desk) (run other : Ran HandlerResult)
    → run ≡ other
    → Handled e new_id d other
    → Handled e new_id d run
Handled-of e new_id d run other q h = subst (Handled e new_id d) (sym q) h

-- A handler that returned and wrote nothing.
pub untouched :
    (e : BillingEvent) (new_id : ℕ) (d : Desk) (run : Ran HandlerResult) (r : HandlerResult)
    → IsSound d.subscriptions
    → run ≡ done r d
    → Handled e new_id d run
untouched e new_id d run r sound q = record {
  value = r;
  rows = d.subscriptions;
  ran = q;
  sound = sound;
  change = kept d.subscriptions;
}

by_provider_id-row :
    (o : Option ℕ) (d : Desk) (s : Subscription)
    → IsSound d.subscriptions
    → by_provider_id o d ≡ some s
    → find_row key_of s.id d.subscriptions ≡ some s
by_provider_id-row none d s sound h = cc
by_provider_id-row (some p) d s sound h =
    find_row-of_found key_of (billed_by p) d.subscriptions s h (sound.ids s.id)

pub live_of-row :
    (k : ℕ) (d : Desk) (s : Subscription)
    → IsSound d.subscriptions
    → find_first (live_of k) d.subscriptions ≡ some s
    → find_row key_of s.id d.subscriptions ≡ some s
live_of-row k d s sound h =
    find_row-of_found key_of (live_of k) d.subscriptions s h (sound.ids s.id)

by_customer-row :
    (o : Option ℕ) (d : Desk) (s : Subscription)
    → IsSound d.subscriptions
    → by_customer o d ≡ some s
    → find_row key_of s.id d.subscriptions ≡ some s
by_customer-row none d s sound h = cc
by_customer-row (some c) d s sound h = elim (Option-cases (customer_of c d)) [
  | inl e ↦ absurd (ground arith)
  | inr (x, e) ↦ live_of-row x.subscriber_id d s sound (rw (by_customer, e) at h)
]

find_subscription-row :
    (e : BillingEvent) (d : Desk) (s : Subscription)
    → IsSound d.subscriptions
    → find_subscription e d ≡ some s
    → find_row key_of s.id d.subscriptions ≡ some s
unfolding find_subscription
find_subscription-row e d s sound h =
    elim (Option-cases (by_provider_id e.provider_subscription_id d)) [
      | inl f ↦ by_customer-row e.provider_customer_id d s sound (rw (find_subscription, f) at h)
      | inr (t, f) ↦
          by_provider_id-row e.provider_subscription_id d s sound
            (f ∙ rw (find_subscription, f) at h)
    ]

billed-some :
    (s : Subscription) (p : ℕ) → billed_by p s ≡ true → s.provider_subscription_id ≡ none → ⊥
billed-some s p h e = ground arith

find_subscription-provider :
    (e : BillingEvent) (d : Desk) (p : ℕ) (t : Subscription)
    → e.provider_subscription_id ≡ some p
    → find_first (billed_by p) d.subscriptions ≡ some t
    → find_subscription e d ≡ some t
unfolding find_subscription
find_subscription-provider e d p t named f = ground arith

adopted-free :
    (e : BillingEvent) (d : Desk) (s : Subscription) (p : ℕ)
    → e.provider_subscription_id ≡ some p
    → s.provider_subscription_id ≡ none
    → find_subscription e d ≡ some s
    → find_first (billed_by p) d.subscriptions ≡ none
adopted-free e d s p named bare h = elim (Option-cases (find_first (billed_by p) d.subscriptions)) [
  | inl f ↦ f
  | inr (t, f) ↦ absurd (
      billed-some s p
        (find_first-holds (billed_by p) d.subscriptions s
          (f ∙ sym (find_subscription-provider e d p t named f) ∙ h))
        bare)
]

find_subscription-IsFree :
    (e : BillingEvent) (d : Desk) (s : Subscription)
    → find_subscription e d ≡ some s
    → IsFree s.provider_subscription_id
        (or_else s.provider_subscription_id e.provider_subscription_id)
        d.subscriptions
find_subscription-IsFree e d s h = elim (Option-cases s.provider_subscription_id) [
  | inr (q, was) ↦ rw was (inl refl)
  | inl bare ↦ elim (Option-cases e.provider_subscription_id) [
    | inl f ↦ rw (bare, f) tt
    | inr (p, f) ↦ rw (bare, f) (inr (adopted-free e d s p f bare h))
  ]
]

pub own-IsFree :
    (s : Subscription) (rows : List Subscription)
    → IsFree s.provider_subscription_id s.provider_subscription_id rows
own-IsFree s rows = elim (Option-cases s.provider_subscription_id) [
  | inl e ↦ rw e tt
  | inr (p, e) ↦ rw e (inl refl)
]

cancelled-live : (s : Subscription) → is_cancelled s.status ≡ false → is_live s.status ≡ true
cancelled-live s h = ground arith

module _ (e : BillingEvent) (new_id : ℕ) (d : Desk) (sound : IsSound d.subscriptions) where
  -- A live row that is there is written, and the handler returns.
  pub written :
      (s : Subscription) (f : Subscription → Subscription) (r : HandlerResult)
      → find_row key_of s.id d.subscriptions ≡ some s
      → is_live s.status ≡ true
      → ((x : Subscription) → (f x).id ≡ x.id)
      → (f s).subscriber_id ≡ s.subscriber_id
      → IsFree s.provider_subscription_id (f s).provider_subscription_id d.subscriptions
      → (f s).last_event_at ≡ some e.event_created_at
      → (is_checkout e.event_type ≡ false → is_before e.event_created_at s.last_event_at ≡ false)
      → Handled e new_id d ((update_subscription s.id f >> return r) d)
  written s f r row live same_id same_sub free mark order =
      let (ran, after_sound) =
        update_subscription-done s f d row sound (same_id s) same_sub live free in
      record {
        value = r;
        rows = update_row key_of s.id f d.subscriptions;
        ran = ground arith;
        sound = after_sound;
        change = moved d.subscriptions s f row live same_id mark order;
      }

  pub returned : (r : HandlerResult) → Handled e new_id d (return r d)
  returned r = untouched e new_id d (return r d) r sound refl

  pub if-Handled :
      (b : Bool) (m n : M HandlerResult)
      → (b ≡ true → Handled e new_id d (m d))
      → (b ≡ false → Handled e new_id d (n d))
      → Handled e new_id d ((if b then m else n) d)
  if-Handled true m n h k = h refl
  if-Handled false m n h k = k refl

  module _ (s : Subscription) (h : find_subscription e d ≡ some s) (now : ℕ) where
    apply_update-Handled : Handled e new_id d (apply_update e now s d)
    unfolding is_out_of_order
    apply_update-Handled =
        if-Handled (is_out_of_order e s) _ _ (λ late. returned _)
          (λ on_time.
            if-Handled (is_cancelled s.status) _ _ (λ over. returned _)
              (λ held.
                if-Handled (names_nothing e) _ _ (λ empty. returned _)
                  (λ named.
                    written s (updated_row e now) _ (find_subscription-row e d s sound h)
                      (cancelled-live s held) (λ x. refl) refl (find_subscription-IsFree e d s h)
                      refl (λ other. on_time))))

    apply_delete-Handled : Handled e new_id d (apply_delete e now s d)
    unfolding is_out_of_order
    apply_delete-Handled =
        if-Handled (is_out_of_order e s) _ _ (λ late. returned _)
          (λ on_time.
            if-Handled (is_cancelled s.status) _ _ (λ over. returned _)
              (λ held.
                written s (deleted_row e now) _ (find_subscription-row e d s sound h)
                  (cancelled-live s held) (λ x. refl) refl (own-IsFree s d.subscriptions) refl
                  (λ other. on_time)))

    apply_failure-Handled : Handled e new_id d (apply_failure e s d)
    unfolding is_out_of_order
    apply_failure-Handled =
        if-Handled (is_out_of_order e s) _ _ (λ late. returned _)
          (λ on_time.
            if-Handled (is_cancelled s.status) _ _ (λ over. returned _)
              (λ held.
                if-Handled (is_past_due s.status) _ _ (λ failed. returned _)
                  (λ fresh.
                    written s (failed_row e) _ (find_subscription-row e d s sound h)
                      (cancelled-live s held) (λ x. refl) refl (own-IsFree s d.subscriptions) refl
                      (λ other. on_time))))

  on_found-Handled :
      (act : Subscription → M HandlerResult) (o : Option Subscription)
      → ((s : Subscription) → o ≡ some s → Handled e new_id d (act s d))
      → Handled e new_id d (on_found e act o d)
  on_found-Handled act none h = returned (unmatched e)
  on_found-Handled act (some s) h = h s refl

  pub apply_subscription_updated-Handled :
      (now : ℕ) → Handled e new_id d (apply_subscription_updated e now d)
  unfolding apply_subscription_updated
  apply_subscription_updated-Handled now =
      on_found-Handled (apply_update e now) (find_subscription e d)
        (λ s h. apply_update-Handled s h now)

  pub apply_subscription_deleted-Handled :
      (now : ℕ) → Handled e new_id d (apply_subscription_deleted e now d)
  unfolding apply_subscription_deleted
  apply_subscription_deleted-Handled now =
      on_found-Handled (apply_delete e now) (find_subscription e d)
        (λ s h. apply_delete-Handled s h now)

  pub apply_payment_failed-Handled : Handled e new_id d (apply_payment_failed e d)
  unfolding apply_payment_failed
  apply_payment_failed-Handled =
      on_found-Handled (apply_failure e) (find_subscription e d)
        (λ s h. apply_failure-Handled s h 0)
