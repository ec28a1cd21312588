-- ===== src/Subscription/Deliveries.antt =====
-- Sequences of deliveries of the billing provider (src/subscriptions).
use saprk_parking_api.Prelude.{
  ℕ, ◌≡◌, refl, sym, ap, subst, ◌∙◌, inl, inr, Bool, true, false, Option, none, some, List, [], ◌∷◌,
  ◌==◌, ==_iff, leb, arith, Bool-cases,
}
use saprk_parking_api.Store.Table.{find_row, update_row, find_row-update_row}
use saprk_parking_api.Subscription.{
  SubscriberType, BillingEvent, EventOutcome, duplicate, Subscription, Desk, is_live, is_cancelled,
}
use saprk_parking_api.Subscription.Writes.{Ran, done, after, key_of}
use saprk_parking_api.Subscription.Sound.{IsSound}
use saprk_parking_api.Subscription.Change.{is_checkout, Change, kept, moved, opened, replaced}
use saprk_parking_api.Subscription.Events.{is_before, process}
use saprk_parking_api.Subscription.Process.{
  IsReady, Processed, is_recorded, process-again, process-Processed,
}

update-cancelled :
    (k : ℕ) (r s : Subscription) (f : Subscription → Subscription) (rows : List Subscription)
    → find_row key_of s.id rows ≡ some s
    → is_live s.status ≡ true
    → ((x : Subscription) → (f x).id ≡ x.id)
    → find_row key_of k rows ≡ some r
    → is_cancelled r.status ≡ true
    → find_row key_of k (update_row key_of s.id f rows) ≡ some r
update-cancelled k r s f rows row live same found over = elim (Bool-cases (s.id == k)) [
  | inl e ↦ absurd (ground (arith, ==_iff s.id k))
  | inr e ↦ ground (arith, find_row-update_row key_of s.id k f rows same)
]

-- A row of another id is where it was once a row with a new id is before it.
opened-other :
    (new_id k : ℕ) (r t : Subscription) (rows old : List Subscription)
    → t.id ≡ new_id
    → find_row key_of new_id old ≡ none
    → find_row key_of k old ≡ some r
    → find_row key_of k (t ∷ rows) ≡ find_row key_of k rows
opened-other new_id k r t rows old new fresh found = elim (Bool-cases (t.id == k)) [
  | inl e ↦ absurd (ground (arith, ==_iff t.id k))
  | inr e ↦ ground arith
]

-- A cancelled row is as it was, whatever the change.
Change-terminal :
    (e : BillingEvent) (new_id k : ℕ) (r : Subscription) {rows rows' : List Subscription}
    → Change e new_id rows rows'
    → find_row key_of new_id rows ≡ none
    → find_row key_of k rows ≡ some r
    → is_cancelled r.status ≡ true
    → find_row key_of k rows' ≡ some r
Change-terminal e new_id k r (kept rows) fresh found over = found
Change-terminal e new_id k r (moved rows s f row live same mark order) fresh found over =
    update-cancelled k r s f rows row live same found over
Change-terminal e new_id k r (opened rows t new buy) fresh found over =
    opened-other new_id k r t rows rows new fresh found ∙ found
Change-terminal e new_id k r (replaced rows s t f row live same new buy) fresh found over =
    opened-other new_id k r t (update_row key_of s.id f rows) rows new fresh found
    ∙ update-cancelled k r s f rows row live same found over

-- The mark of a row does not go back.
abbrev pub mark_le : Option ℕ → Option ℕ → Bool
mark_le none m = true
mark_le (some a) none = false
mark_le (some a) (some b) = leb a b

mark_le_refl : (m : Option ℕ) → mark_le m m ≡ true
mark_le_refl none = refl
mark_le_refl (some a) = ground arith

mark_le-written :
    (at : ℕ) (was now : Option ℕ)
    → is_before at was ≡ false
    → now ≡ some at
    → mark_le was now ≡ true
mark_le-written at none now h e = refl
mark_le-written at (some m) now h e = rw e (ground arith)

-- An event that is no purchase moves no mark back.
Change-mark :
    (e : BillingEvent) (new_id k : ℕ) (r : Subscription) {rows rows' : List Subscription}
    → Change e new_id rows rows'
    → is_checkout e.event_type ≡ false
    → find_row key_of k rows ≡ some r
    → (t : Subscription) × (find_row key_of k rows' ≡ some t)
      × (mark_le r.last_event_at t.last_event_at ≡ true)
Change-mark e new_id k r (kept rows) other found = (r, found, mark_le_refl r.last_event_at)
Change-mark e new_id k r (moved rows s f row live same mark order) other found =
    elim (Bool-cases (s.id == k)) [
      | inl q ↦ (
        f r,
        ground (arith, find_row-update_row key_of s.id k f rows same),
        mark_le-written e.event_created_at r.last_event_at (f r).last_event_at
            (ground (arith, ==_iff s.id k, order other)) (ground (arith, ==_iff s.id k)),
      )
      | inr q ↦ (
        r,
        ground (arith, find_row-update_row key_of s.id k f rows same),
        mark_le_refl r.last_event_at,
      )
    ]
Change-mark e new_id k r (opened rows t new buy) other found = absurd (cc)
Change-mark e new_id k r (replaced rows s t f row live same new buy) other found = absurd (cc)

module _ (side : SubscriberType) where
  -- One delivery: what arrives, what a cancellation at the provider answers, the clock and the new id.
  pub record Delivery : Type 0 where
    pub event : BillingEvent
    pub took : Bool
    pub new_id : ℕ
    pub now : ℕ

  abbrev pub deliver : Delivery → Desk → Ran EventOutcome
  deliver x d = process side x.took x.event x.new_id x.now d

  abbrev pub after_deliveries : List Delivery → Desk → Desk
  after_deliveries [] d = d
  after_deliveries (x ∷ xs) d = after_deliveries xs (after (deliver x d))

  -- Each delivery finds tables that it is ready for.
  abbrev pub AllReady : List Delivery → Desk → Type 0
  AllReady [] d = Unit
  AllReady (x ∷ xs) d = IsReady side x.event x.new_id d × AllReady xs (after (deliver x d))

  deliver-Processed :
      (x : Delivery) (d : Desk)
      → IsReady side x.event x.new_id d
      → Processed x.event x.new_id d (deliver x d)
  deliver-Processed x d ready = process-Processed side x.took x.event x.new_id x.now d ready

  -- On tables with unique keys, a fresh id for a new row, and the row of the subscriber that the event
  -- names, a delivery returns an outcome and leaves the keys unique: no write meets a unique key.
  pub deliver-returns :
      (x : Delivery) (d : Desk)
      → IsReady side x.event x.new_id d
      → (outcome : EventOutcome) × (left : Desk) × (deliver x d ≡ done outcome left)
        × IsSound left.subscriptions
  deliver-returns x d ready =
      let p = deliver-Processed x d ready in (p.outcome, p.left, p.ran, p.sound)

  deliver-terminal :
      (x : Delivery) (k : ℕ) (r : Subscription) (d : Desk)
      → IsReady side x.event x.new_id d
      → find_row key_of k d.subscriptions ≡ some r
      → is_cancelled r.status ≡ true
      → find_row key_of k (after (deliver x d)).subscriptions ≡ some r
  deliver-terminal x k r d ready found over =
      let p = deliver-Processed x d ready in
      subst (λ d'. find_row key_of k d'.subscriptions ≡ some r) (sym (ap after p.ran))
        (Change-terminal x.event x.new_id k r p.change ready.fresh found over)

  -- Over a sequence of deliveries that each find the tables ready, a cancelled subscription stays as
  -- it was cancelled.
  pub after_deliveries-terminal :
      (xs : List Delivery) (k : ℕ) (r : Subscription) (d : Desk)
      → AllReady xs d
      → find_row key_of k d.subscriptions ≡ some r
      → is_cancelled r.status ≡ true
      → find_row key_of k (after_deliveries xs d).subscriptions ≡ some r
  after_deliveries-terminal [] k r d ready found over = found
  after_deliveries-terminal (x ∷ xs) k r d ready found over =
      after_deliveries-terminal xs k r (after (deliver x d)) ready.1
        (deliver-terminal x k r d ready.0 found over) over

  after_deliveries-recorded :
      (xs : List Delivery) (k : ℕ) (d : Desk)
      → AllReady xs d
      → is_recorded k d ≡ true
      → is_recorded k (after_deliveries xs d) ≡ true
  after_deliveries-recorded [] k d ready h = h
  after_deliveries-recorded (x ∷ xs) k d ready h =
      let p = deliver-Processed x d ready.0 in
      after_deliveries-recorded xs k (after (deliver x d)) ready.1
        (subst (λ d'. is_recorded k d' ≡ true) (sym (ap after p.ran)) (p.remembered k h))

  -- A delivery that comes again, after whatever deliveries that each find the tables ready, is a
  -- duplicate and changes nothing, whatever it now says.
  pub deliver-replay :
      (first again : Delivery) (xs : List Delivery) (d : Desk)
      → again.event.id ≡ first.event.id
      → AllReady (first ∷ xs) d
      → deliver again (after_deliveries (first ∷ xs) d)
        ≡ done duplicate (after_deliveries (first ∷ xs) d)
  deliver-replay first again xs d same ready =
      let p = deliver-Processed first d ready.0 in
      process-again side again.took again.event again.new_id again.now
        (after_deliveries (first ∷ xs) d)
        (subst (λ k. is_recorded k (after_deliveries (first ∷ xs) d) ≡ true) (sym same)
          (after_deliveries-recorded xs first.event.id (after (deliver first d)) ready.1
            (subst (λ d'. is_recorded first.event.id d' ≡ true) (sym (ap after p.ran)) p.recorded)))

  -- A delivery that is no purchase, and finds the tables ready, keeps every subscription and moves
  -- the time of its last event back for none.
  pub deliver-mark :
      (x : Delivery) (k : ℕ) (r : Subscription) (d : Desk)
      → IsReady side x.event x.new_id d
      → is_checkout x.event.event_type ≡ false
      → find_row key_of k d.subscriptions ≡ some r
      → (t : Subscription) × (find_row key_of k (after (deliver x d)).subscriptions ≡ some t)
        × (mark_le r.last_event_at t.last_event_at ≡ true)
  deliver-mark x k r d ready other found =
      let p = deliver-Processed x d ready in
      let (t, there, marked) = Change-mark x.event x.new_id k r p.change other found in
      (
        t,
        subst (λ d'. find_row key_of k d'.subscriptions ≡ some t) (sym (ap after p.ran)) there,
        marked,
      )
