-- ===== src/Lifecycle/Webhooks.antt =====
-- The rows of bookings over a webhook of the payment provider.
use saprk_parking_api.Prelude.{ℕ, ◌≡◌, refl, inl, inr, Option, none, some, ◌∷◌, arith, Option-cases}
use saprk_parking_api.Store.{
  BookingStatus, cancelled, expired, Booking, Refund, Db, PaymentEventOutcome, WebhookEvent,
}
use saprk_parking_api.Store.Table.{find_row-key}
use saprk_parking_api.Store.Monad.{done, after, booking_row}
use saprk_parking_api.Booking.Confirm.{set_status, set_confirmed}
use saprk_parking_api.PaymentEvents.{
  PaymentWebhookEvent, PaymentWithBooking, EventKind, payment_succeeded, payment_failed,
  refund_settled, refund_failed, unknown, by_ref, classify, find_payment, apply_payment_succeeded,
  apply_payment_failed, apply_settled, apply_failed, apply_refund_settled, apply_refund_failed,
  apply_found, apply_kind, dispatch,
}
use saprk_parking_api.PaymentEvents.Process.{process_event, process, event_row}
use saprk_parking_api.Lifecycle.{RowsKept, RowKept-refl}
use saprk_parking_api.Lifecycle.Handlers.{update_row-RowKept}

find_payment-booking :
    (e : PaymentWebhookEvent) (db : Db) (f : PaymentWithBooking)
    → find_payment e db ≡ some f
    → booking_row f.booking.id db ≡ some f.booking
unfolding find_payment
find_payment-booking e db f h = elim (Option-cases e.provider_payment_id) [
  | inl q ↦ ground arith
  | inr (ref, q) ↦ elim (Option-cases (by_ref ref db.payments)) [
    | inl r ↦ ground arith
    | inr (p, r) ↦ elim (Option-cases (booking_row p.booking_id db)) [
      | inl s ↦ ground arith
      | inr (b, s) ↦
          ground (arith, find_row-key (λ (x : Booking). x.id) p.booking_id db.bookings b s)
    ]
  ]
]

module _ (f : PaymentWithBooking) (db : Db)
    (here : booking_row f.booking.id db ≡ some f.booking) where
  succeeded-RowsKept :
      (now secret : ℕ) → RowsKept db (after (apply_payment_succeeded f now secret db))
  unfolding apply_payment_succeeded
  succeeded-RowsKept now secret j =
      let b = f.booking in
      ground (
        arith,
        RowKept-refl (booking_row j db),
        update_row-RowKept b.id j (set_status expired) db.bookings b (λ c. refl) here,
        update_row-RowKept b.id j (set_confirmed b.quoted_price_cents secret) db.bookings b
            (λ c. refl) here,
      )

  failed-RowsKept : RowsKept db (after (apply_payment_failed f db))
  unfolding apply_payment_failed
  failed-RowsKept j =
      let b = f.booking in
      ground (
        arith,
        RowKept-refl (booking_row j db),
        update_row-RowKept b.id j (set_status cancelled) db.bookings b (λ c. refl) here,
      )

  settled-RowsKept :
      (ref : Option ℕ) (r : Option Refund) → RowsKept db (after (apply_settled f ref r db))
  settled-RowsKept ref none j = ground (arith, RowKept-refl (booking_row j db))
  settled-RowsKept ref (some r) j =
      let b = f.booking in
      ground (
        arith,
        RowKept-refl (booking_row j db),
        update_row-RowKept b.id j (set_status BookingStatus.refunded) db.bookings b (λ c. refl)
            here,
      )

  failed_refund-RowsKept : (r : Option Refund) → RowsKept db (after (apply_failed f r db))
  failed_refund-RowsKept none j = RowKept-refl (booking_row j db)
  failed_refund-RowsKept (some r) j = ground (arith, RowKept-refl (booking_row j db))

  kind-RowsKept :
      (kind : EventKind) (e : PaymentWebhookEvent) (now secret : ℕ)
      → RowsKept db (after (apply_kind kind e f now secret db))
  kind-RowsKept payment_succeeded e now secret = succeeded-RowsKept now secret
  kind-RowsKept payment_failed e now secret = failed-RowsKept
  kind-RowsKept refund_settled e now secret =
      unfold apply_refund_settled in settled-RowsKept e.provider_refund_id f.refund
  kind-RowsKept refund_failed e now secret =
      unfold apply_refund_failed in failed_refund-RowsKept f.refund
  kind-RowsKept unknown e now secret = λ j. RowKept-refl (booking_row j db)

found-RowsKept :
    (kind : EventKind) (e : PaymentWebhookEvent) (now secret : ℕ) (db : Db)
    (o : Option PaymentWithBooking)
    → ((f : PaymentWithBooking) → o ≡ some f → booking_row f.booking.id db ≡ some f.booking)
    → RowsKept db (after (apply_found kind e o now secret db))
found-RowsKept unknown e now secret db o h j = RowKept-refl (booking_row j db)
found-RowsKept payment_succeeded e now secret db none h j = RowKept-refl (booking_row j db)
found-RowsKept payment_failed e now secret db none h j = RowKept-refl (booking_row j db)
found-RowsKept refund_settled e now secret db none h j = RowKept-refl (booking_row j db)
found-RowsKept refund_failed e now secret db none h j = RowKept-refl (booking_row j db)
found-RowsKept payment_succeeded e now secret db (some f) h j =
    kind-RowsKept f db (h f refl) payment_succeeded e now secret j
found-RowsKept payment_failed e now secret db (some f) h j =
    kind-RowsKept f db (h f refl) payment_failed e now secret j
found-RowsKept refund_settled e now secret db (some f) h j =
    kind-RowsKept f db (h f refl) refund_settled e now secret j
found-RowsKept refund_failed e now secret db (some f) h j =
    kind-RowsKept f db (h f refl) refund_failed e now secret j

dispatch-RowsKept :
    (e : PaymentWebhookEvent) (now secret : ℕ) (db : Db)
    → RowsKept db (after (dispatch e now secret db))
dispatch-RowsKept e now secret db =
    unfold dispatch in
    found-RowsKept (classify e) e now secret db (find_payment e db) (find_payment-booking e db)

abbrev with_event : ℕ → Db → Db
with_event k db = record db {
  webhook_events = record { provider_event_id = k; outcome = none } ∷ db.webhook_events;
}

process_event-RowsKept :
    (e : PaymentWebhookEvent) (now secret : ℕ) (db : Db)
    → RowsKept db (after (process_event e now secret db))
unfolding process_event
process_event-RowsKept e now secret db j =
    let kept : RowsKept db (after (dispatch e now secret (with_event e.id db))) =
      dispatch-RowsKept e now secret (with_event e.id db) in
    let row = kept j in
    elim (Option-cases (event_row e.id db)) [
      | inr (w, q) ↦ ground (arith, RowKept-refl (booking_row j db))
      | inl q ↦ ground (arith, RowKept-refl (booking_row j db), row)
    ]

-- A webhook, replayed or not, keeps every booking's row and moves its status along an allowed edge.
pub process-RowsKept :
    (e : PaymentWebhookEvent) (now secret : ℕ) (db : Db)
    → RowsKept db (after (process e now secret db))
unfolding process
process-RowsKept e now secret db j = ground (arith, process_event-RowsKept e now secret db j)

-- An event whose id is in the log already is answered as a duplicate and changes nothing.
pub process-replay :
    (e : PaymentWebhookEvent) (now secret : ℕ) (db : Db) (w : WebhookEvent PaymentEventOutcome)
    → event_row e.id db ≡ some w
    → process e now secret db ≡ done PaymentEventOutcome.duplicate db
unfolding process process_event
process-replay e now secret db w seen = ground arith
