-- ===== src/Subscription/Writes.antt =====
-- Handlers over the tables of one side, which return or throw, and the writes with the unique keys
-- of the tables: the provider's subscription id, and one live row for each subscriber
-- (prisma/schema.prisma, and the partial indexes of prisma/migrations).
use saprk_parking_api.Prelude.{
  ℕ, Bool, true, false, ◌&&◌, ◌||◌, not, Option, none, some, List, [], ◌∷◌, ◌==◌, leb,
  if◌then◌else◌, count_if,
}
use saprk_parking_api.Store.Table.{find_row, update_row}
use saprk_parking_api.Subscription.{
  Subscription, EventOutcome, EntityId, AuditAction, EventRow, Desk, is_live, is_some_of,
}

pub data WriteError : Type 0 where
  event_exists provider_subscription_exists live_row_exists no_subscriber row_missing : WriteError

pub data Ran {ℓ} (A : Type ℓ) : Type ℓ where
  done : A → Desk → Ran A
  thrown : WriteError → Desk → Ran A

abbrev pub after {ℓ} : {A : Type ℓ} → Ran A → Desk
after (done a d) = d
after (thrown e d) = d

abbrev pub M {ℓ} : Type ℓ → Type ℓ
M A = Desk → Ran A

infixl 5 ◌>>=◌ ◌>>◌
abbrev pub ◌>>=◌ {ℓ κ} : {A : Type ℓ} {B : Type κ} → M A → (A → M B) → M B
◌>>=◌ m f d = elim (m d) [ done a d' ↦ f a d' | thrown e d' ↦ thrown e d' ]

abbrev pub ◌>>◌ {ℓ} : {B : Type ℓ} → M (Unit {0}) → M B → M B
m >> k = m >>= λ _. k

abbrev pub return {ℓ} : {A : Type ℓ} → A → M A
return a d = done a d

abbrev pub desk : M Desk
desk d = done d d

abbrev pub is_sub : ℕ → Subscription → Bool
is_sub k s = s.id == k

-- A live row of a subscriber.
abbrev pub live_of : ℕ → Subscription → Bool
live_of k s = s.subscriber_id == k && is_live s.status

abbrev pub billed_by : ℕ → Subscription → Bool
billed_by p s = is_some_of s.provider_subscription_id p

abbrev pub key_of : Subscription → ℕ
key_of s = s.id

abbrev pub provider_free : Option ℕ → List Subscription → Bool
provider_free none rows = true
provider_free (some p) rows = leb (count_if (billed_by p) rows) 1

abbrev pub live_free : Subscription → List Subscription → Bool
live_free s rows = not (is_live s.status) || leb (count_if (live_of s.subscriber_id) rows) 1

-- A write of a row, which the unique keys may refuse; `rows` has the row as written.
abbrev pub write_row : Subscription → List Subscription → M (Unit {0})
write_row s rows d =
    if provider_free s.provider_subscription_id rows
    then (if live_free s rows
        then done tt (record d { subscriptions = rows })
        else thrown live_row_exists d)
    else thrown provider_subscription_exists d

abbrev pub update_at : Option Subscription → ℕ → (Subscription → Subscription) → M (Unit {0})
update_at none k f d = thrown row_missing d
update_at (some s) k f d = write_row (f s) (update_row key_of k f d.subscriptions) d

unfoldable pub update_subscription : ℕ → (Subscription → Subscription) → M (Unit {0})
update_subscription k f d = update_at (find_row key_of k d.subscriptions) k f d

abbrev pub is_there : ℕ → List ℕ → Bool
is_there k [] = false
is_there k (j ∷ js) = j == k || is_there k js

unfoldable pub create_subscription : Subscription → M (Unit {0})
create_subscription s d =
    if is_there s.subscriber_id d.subscribers
    then write_row s (s ∷ d.subscriptions) d
    else thrown no_subscriber d

abbrev pub event_key : EventRow → ℕ
event_key r = r.provider_event_id

abbrev pub create_event : ℕ → M (Unit {0})
create_event k d = elim (find_row event_key k d.events) [
  | none ↦
      done tt (record d { events = record { provider_event_id = k; outcome = none } ∷ d.events })
  | some r ↦ thrown event_exists d
]

abbrev pub set_outcome : EventOutcome → EventRow → EventRow
set_outcome o r = record r { outcome = some o }

abbrev pub update_event : ℕ → EventOutcome → M (Unit {0})
update_event k o d = done tt (record d { events = update_row event_key k (set_outcome o) d.events })

abbrev pub add_audit : AuditAction → EntityId → M (Unit {0})
add_audit action k d =
    done tt (record d { audit = record { action = action; entity_id = k } ∷ d.audit })
