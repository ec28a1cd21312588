-- ===== src/Ticket/Scan.antt =====
-- Tickets at the barrier (src/booking/ticket.service.ts). The ids of bookings are numbers in the
-- tables and `id_text` is their text; secrets are numbers too. A scan has the tables and the cache
-- of the scanned tickets.
pub mod Once
pub mod Issued
use saprk_parking_api.Prelude.{
  ℕ, Bool, true, false, ◌&&◌, ◌||◌, not, Option, none, some, List, [], ◌∷◌, Text, text_eq, ◌==◌,
  if◌then◌else◌, find_first,
}
use saprk_parking_api.Store.{
  BookingStatus, confirmed, checked_in, Booking, Db, booking_checked_in, is_status,
}
use saprk_parking_api.Store.Monad.{
  Thrown, malformed_ticket, ticket_not_found, ticket_verification_unavailable, ticket_not_issuable,
  Ran, done, thrown, M, ◌>>=◌, ◌>>◌, return, unless_throw, found_or, tables, transaction, meanwhile,
  booking_row, update_booking, add_history, add_audit,
}
use saprk_parking_api.Booking.Access.{AuthUser, OperatorScope, resolve_scope, operator_of, in_scope}
use saprk_parking_api.Booking.Confirm.{set_status, has_status}
use saprk_parking_api.Ticket.Payload.{
  QrPayloadParts, parse_qr_payload, sign_qr_code, signatures_match, within_skew_window,
  current_unix_minute, payload_expires_at, build_qr_payload,
}
use saprk_parking_api.Ticket.Replay.{
  Redis, ReplayClaim, claimed, replayed, claim_unavailable, claim,
}

pub data TicketVerdict : Type 0 where
  valid invalid_signature outside_time_window already_used not_honourable : TicketVerdict

pub data TicketMethod : Type 0 where
  by_qr by_access_code : TicketMethod

pub data CheckInOutcome : Type 0 where
  performed already_checked_in not_applicable : CheckInOutcome

-- The vehicle and the name of the facility are no columns of these tables.
pub record TicketBookingSummary : Type 0 where
  pub id : ℕ
  pub access_code : ℕ
  pub status : BookingStatus
  pub starts_at : ℕ
  pub ends_at : ℕ
  pub facility_id : ℕ

pub record TicketVerification : Type 0 where
  pub verdict : TicketVerdict
  pub is_valid : Bool
  pub method : TicketMethod
  pub check_in : Option CheckInOutcome
  pub booking : TicketBookingSummary

pub record IssuedTicket : Type 0 where
  pub booking_id : ℕ
  pub payload : Text
  pub unix_minute : ℕ
  pub expires_at : ℕ

abbrev pub is_honourable : BookingStatus → Bool
is_honourable status = is_status status confirmed || is_status status checked_in

abbrev pub is_valid_verdict : TicketVerdict → Bool
is_valid_verdict valid = true
is_valid_verdict _ = false

unfoldable pub status_verdict : Booking → TicketVerdict
status_verdict b = if is_honourable b.status then valid else not_honourable

-- `findFirst({ where: { ...match, facility: scopeWhere(scope) } })`
unfoldable pub resolve : AuthUser → (Booking → Bool) → M Booking
unfolding resolve_scope
resolve user matches = do
  scope ← resolve_scope user
  db ← tables
  found_or (find_first (λ b. matches b && in_scope scope (operator_of b db)) db.bookings)
      ticket_not_found

-- The compare-and-set of a scan.
unfoldable pub check_in_scan : AuthUser → Booking → M CheckInOutcome
check_in_scan user b = transaction (do
  db ← tables
  if has_status confirmed (booking_row b.id db)
      then (do
        update_booking b.id (set_status checked_in)
        add_history b.id checked_in (some user.id)
        add_audit (some user.id) booking_checked_in b.id
        return performed)
      else return (
          if has_status checked_in (booking_row b.id db)
          then already_checked_in
          else not_applicable))

abbrev pub to_summary : Booking → BookingStatus → TicketBookingSummary
to_summary b status = record {
  id = b.id;
  access_code = b.access_code;
  status = status;
  starts_at = b.starts_at;
  ends_at = b.ends_at;
  facility_id = b.facility_id;
}

abbrev pub status_after : Booking → Option CheckInOutcome → BookingStatus
status_after b (some performed) = checked_in
status_after b (some already_checked_in) = checked_in
status_after b _ = b.status

abbrev pub verification_of :
    Booking → TicketVerdict → TicketMethod → Option CheckInOutcome → TicketVerification
verification_of b verdict method outcome = record {
  verdict = verdict;
  is_valid = is_valid_verdict verdict;
  method = method;
  check_in = outcome;
  booking = to_summary b (status_after b outcome);
}

-- `others` is what other requests commit between the lookup and the check-in.
unfoldable pub settle :
    AuthUser → Booking → TicketVerdict → TicketMethod → Bool → (Db → Db) → M TicketVerification
unfolding check_in_scan
settle user b verdict method auto_check_in others = do
  meanwhile others
  if is_valid_verdict verdict && auto_check_in
      then (check_in_scan user b >>= λ outcome.
          return (verification_of b verdict method (some outcome)))
      else return (verification_of b verdict method none)

unfoldable pub verify_access_code : AuthUser → ℕ → Bool → (Db → Db) → M TicketVerification
unfolding resolve settle status_verdict
verify_access_code user access_code auto_check_in others = do
  b ← resolve user (λ b. b.access_code == access_code)
  settle user b (status_verdict b) by_access_code auto_check_in others

module _ (redis : Redis) (hmac : ℕ → Text → Text) (id_text : ℕ → Text) where
  abbrev pub verdict_of_claim : Booking → ReplayClaim → Option TicketVerdict
  verdict_of_claim b claimed = some (status_verdict b)
  verdict_of_claim b replayed = some already_used
  verdict_of_claim b claim_unavailable = none

  abbrev pub qr_verdict_with :
      ℕ → Booking → QrPayloadParts → ℕ → redis.State → Option TicketVerdict × redis.State
  qr_verdict_with secret b parts now s =
      if signatures_match parts.signature
        (sign_qr_code hmac secret (id_text b.id) parts.unix_minute)
      then (if within_skew_window parts.unix_minute (current_unix_minute now)
          then (let (answer, s') = claim redis (id_text b.id) parts.unix_minute now s in
              (verdict_of_claim b answer, s'))
          else (some outside_time_window, s))
      else (some invalid_signature, s)

  -- No verdict stands for the error that the claim throws.
  unfoldable pub qr_verdict :
      Booking → QrPayloadParts → ℕ → redis.State → Option TicketVerdict × redis.State
  unfolding claim status_verdict
  qr_verdict b parts now s = elim b.qr_secret [
    | none ↦ (some not_honourable, s)
    | some secret ↦ qr_verdict_with secret b parts now s
  ]

  abbrev pub settle_verdict :
      AuthUser → Booking → Bool → (Db → Db) → Option TicketVerdict → M TicketVerification
  settle_verdict user b auto_check_in others none db =
      thrown ticket_verification_unavailable (others db)
  settle_verdict user b auto_check_in others (some verdict) db =
      settle user b verdict by_qr auto_check_in others db

  abbrev pub verify_parts :
      AuthUser
      → QrPayloadParts
      → Bool
      → ℕ
      → (Db → Db)
      → redis.State
      → Db
      → Ran TicketVerification × redis.State
  verify_parts user parts auto_check_in now others s db =
      elim (resolve user (λ b. text_eq (id_text b.id) parts.booking_id) db) [
        | thrown e db' ↦ (thrown e db', s)
        | done b db' ↦
            let (verdict, s') = qr_verdict b parts now s in
            (settle_verdict user b auto_check_in others verdict db', s')
      ]

  unfoldable pub verify_qr :
      AuthUser
      → Text
      → Bool
      → ℕ
      → (Db → Db)
      → redis.State
      → Db
      → Ran TicketVerification × redis.State
  unfolding resolve settle qr_verdict
  verify_qr user payload auto_check_in now others s db = elim (parse_qr_payload payload) [
    | none ↦ (thrown malformed_ticket db, s)
    | some parts ↦ verify_parts user parts auto_check_in now others s db
  ]

  unfoldable pub issue : AuthUser → Text → ℕ → M IssuedTicket
  issue user booking_id now = do
    db ← tables
    b ← found_or (find_first (λ b. text_eq (id_text b.id) booking_id) db.bookings) ticket_not_found
    unless_throw (b.user_id == user.id) ticket_not_found
    unless_throw (is_honourable b.status) ticket_not_issuable
    secret ← found_or b.qr_secret ticket_not_issuable
    return (record {
      booking_id = b.id;
      payload = build_qr_payload hmac secret (id_text b.id) (current_unix_minute now);
      unix_minute = current_unix_minute now;
      expires_at = payload_expires_at (current_unix_minute now);
    })
