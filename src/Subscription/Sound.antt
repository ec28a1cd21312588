-- ===== src/Subscription/Sound.antt =====
-- The unique keys of a side's subscriptions, and the writes that they let through.
use saprk_parking_api.Prelude.{
  ℕ, ◌+◌, ◌≤◌, ◌≡◌, ◌⊎◌, inl, inr, true, Option, none, some, List, ◌∷◌, ◌==◌, ==_iff, find_first,
  count_if, arith, Bool-cases, Option-cases,
}
use saprk_parking_api.Store.Table.{find_row, update_row}
use saprk_parking_api.Subscription.{Subscription, Desk, is_live, is_some_of}
use saprk_parking_api.Store.Rows.{
  one_if, count-none, count-head, count-update_row-exact, count-no_row,
}
use saprk_parking_api.Subscription.Writes.{
  done, is_sub, live_of, billed_by, key_of, write_row, update_subscription, is_there,
  create_subscription,
}

-- Ids are unique, and so are the provider's ids and the live row of a subscriber.
pub record IsSound (rows : List Subscription) : Type 0 where
  pub ids : (k : ℕ) → count_if (is_sub k) rows ≤ 1
  pub providers : (p : ℕ) → count_if (billed_by p) rows ≤ 1
  pub lives : (k : ℕ) → count_if (live_of k) rows ≤ 1

-- The provider's id of a row as written: it had it, or no row has it.
abbrev pub IsFree : Option ℕ → Option ℕ → List Subscription → Type 0
IsFree was none rows = Unit
IsFree was (some p) rows = (was ≡ some p) ⊎ (find_first (billed_by p) rows ≡ none)

abbrev pub with_rows : Desk → List Subscription → Desk
with_rows d rows = record d { subscriptions = rows }

free-count :
    (was now : Option ℕ) (rows : List Subscription) (p : ℕ)
    → IsFree was now rows
    → count_if (billed_by p) rows ≤ 1
    → count_if (billed_by p) rows + one_if (is_some_of now p) ≤ 1 + one_if (is_some_of was p)
free-count was none rows p free unique = ground arith
free-count was (some q) rows p (inl e) unique = rw e (ground arith)
free-count was (some q) rows p (inr e) unique = elim (Bool-cases (q == p)) [
  | inr f ↦ ground arith
  | inl f ↦ ground (arith, ==_iff q p, count-none (billed_by p) rows)
]

module _ (s : Subscription) (f : Subscription → Subscription) (rows : List Subscription)
    (found : find_row key_of s.id rows ≡ some s) (sound : IsSound rows) where
  update-providers :
      (p : ℕ)
      → IsFree s.provider_subscription_id (f s).provider_subscription_id rows
      → count_if (billed_by p) (update_row key_of s.id f rows) ≤ 1
  update-providers p free = omega (
    arith,
    count-update_row-exact key_of (billed_by p) s.id f rows s found,
    free-count s.provider_subscription_id (f s).provider_subscription_id rows p free
        (sound.providers p),
  )

  update-lives :
      (k : ℕ)
      → (f s).subscriber_id ≡ s.subscriber_id
      → is_live s.status ≡ true
      → count_if (live_of k) (update_row key_of s.id f rows) ≤ 1
  update-lives k same live =
      ground (arith, count-update_row-exact key_of (live_of k) s.id f rows s found, sound.lives k)

  update-ids : (k : ℕ) → (f s).id ≡ s.id → count_if (is_sub k) (update_row key_of s.id f rows) ≤ 1
  update-ids k same =
      ground (arith, count-update_row-exact key_of (is_sub k) s.id f rows s found, sound.ids k)

  -- An update of a live row that keeps its id and its subscriber, and writes a provider's id that the
  -- row has or that is free, leaves the keys unique.
  update-IsSound :
      (f s).id ≡ s.id
      → (f s).subscriber_id ≡ s.subscriber_id
      → is_live s.status ≡ true
      → IsFree s.provider_subscription_id (f s).provider_subscription_id rows
      → IsSound (update_row key_of s.id f rows)
  update-IsSound same_id same_sub live free = record {
    ids = λ k. update-ids k same_id;
    providers = λ p. update-providers p free;
    lives = λ k. update-lives k same_sub live;
  }

write_row-done :
    (s : Subscription) (rows : List Subscription) (d : Desk)
    → IsSound rows
    → write_row s rows d ≡ done tt (with_rows d rows)
write_row-done s rows d sound = elim (Option-cases s.provider_subscription_id) [
  | inl e ↦ ground (arith, sound.lives s.subscriber_id)
  | inr (p, e) ↦ ground (arith, sound.lives s.subscriber_id, sound.providers p)
]

pub update_subscription-done :
    (s : Subscription) (f : Subscription → Subscription) (d : Desk)
    → find_row key_of s.id d.subscriptions ≡ some s
    → IsSound d.subscriptions
    → (f s).id ≡ s.id
    → (f s).subscriber_id ≡ s.subscriber_id
    → is_live s.status ≡ true
    → IsFree s.provider_subscription_id (f s).provider_subscription_id d.subscriptions
    → (update_subscription s.id f d
        ≡ done tt (with_rows d (update_row key_of s.id f d.subscriptions)))
      × IsSound (update_row key_of s.id f d.subscriptions)
unfolding update_subscription
update_subscription-done s f d found sound same_id same_sub live free =
    let kept = update-IsSound s f d.subscriptions found sound same_id same_sub live free in
    (rw found (write_row-done (f s) (update_row key_of s.id f d.subscriptions) d kept), kept)

module _ (s : Subscription) (rows : List Subscription) (sound : IsSound rows) where
  create-IsSound :
      find_row key_of s.id rows ≡ none
      → IsFree none s.provider_subscription_id rows
      → find_first (live_of s.subscriber_id) rows ≡ none
      → IsSound (s ∷ rows)
  create-IsSound fresh free no_live = record {
    ids = λ k. ground (arith, ==_iff s.id k, sound.ids k, count-no_row key_of s.id rows fresh);
    providers = λ p. omega (
      arith,
      count-head (billed_by p) s rows,
      free-count none s.provider_subscription_id rows p free (sound.providers p),
    );
    lives = λ k. ground (
      arith,
      ==_iff s.subscriber_id k,
      sound.lives k,
      count-none (live_of s.subscriber_id) rows no_live,
    );
  }

pub create_subscription-done :
    (s : Subscription) (d : Desk)
    → IsSound d.subscriptions
    → is_there s.subscriber_id d.subscribers ≡ true
    → find_row key_of s.id d.subscriptions ≡ none
    → IsFree none s.provider_subscription_id d.subscriptions
    → find_first (live_of s.subscriber_id) d.subscriptions ≡ none
    → (create_subscription s d ≡ done tt (with_rows d (s ∷ d.subscriptions)))
      × IsSound (s ∷ d.subscriptions)
unfolding create_subscription
create_subscription-done s d sound there fresh free no_live =
    let kept = create-IsSound s d.subscriptions sound fresh free no_live in
    (rw there (write_row-done s (s ∷ d.subscriptions) d kept), kept)
