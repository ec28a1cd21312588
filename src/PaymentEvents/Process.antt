-- ===== src/PaymentEvents/Process.antt =====
-- The replay gate, the transaction and the notification of a webhook (`process` of
-- src/booking/payment-events.service.ts).
use saprk_parking_api.Prelude.{ℕ, Option, none, some, ◌∷◌}
use saprk_parking_api.Store.{
  Db, WebhookEvent, PaymentEventOutcome, duplicate, confirmation, confirmation_push,
}
use saprk_parking_api.Store.Table.{find_row, update_row}
use saprk_parking_api.Store.Monad.{
  Thrown, unique_event, M, ◌>>=◌, ◌>>◌, return, throw, transaction, ◌catch◌, notify, done, thrown,
}
use saprk_parking_api.PaymentEvents.{PaymentWebhookEvent, HandlerResult, dispatch}

abbrev pub event_row : ℕ → Db → Option (WebhookEvent PaymentEventOutcome)
event_row k db =
    find_row (λ (w : WebhookEvent PaymentEventOutcome). w.provider_event_id) k db.webhook_events

-- The insert that is the replay gate: the event's id is unique on this surface.
abbrev pub insert_event : ℕ → M (Unit {0})
insert_event k db = elim (event_row k db) [
  | none ↦ done tt (record db {
    webhook_events = record { provider_event_id = k; outcome = none } ∷ db.webhook_events;
  })
  | some w ↦ thrown unique_event db
]

abbrev pub set_outcome : ℕ → PaymentEventOutcome → M (Unit {0})
set_outcome k o db = done tt (record db {
  webhook_events =
      update_row (λ w. w.provider_event_id) k (λ w. record w { outcome = some o })
        db.webhook_events;
})

-- The notification of a confirmed booking goes out after the commit; its failure is swallowed.
abbrev pub announce : Option ℕ → M (Unit {0})
announce none = return tt
announce (some k) = do notify (confirmation k); notify (confirmation_push k)

-- `none` stands for a replay that the gate has stopped.
abbrev pub acknowledge_replay : Thrown → M (Option HandlerResult)
acknowledge_replay unique_event = return none
acknowledge_replay e = throw e

abbrev pub answer : Option HandlerResult → M PaymentEventOutcome
answer none = return duplicate
answer (some handled) = do announce handled.notification; return handled.outcome

unfoldable pub process_event : PaymentWebhookEvent → ℕ → ℕ → M (Option HandlerResult)
process_event e now secret = transaction (do
  insert_event e.id
  handled ← dispatch e now secret
  set_outcome e.id handled.outcome
  return (some handled))

unfoldable pub process : PaymentWebhookEvent → ℕ → ℕ → M PaymentEventOutcome
process e now secret = do
  handled ← (process_event e now secret catch acknowledge_replay)
  answer handled
