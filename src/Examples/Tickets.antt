-- ===== src/Examples/Tickets.antt =====
-- One ticket, a digest that is constant and a server that keeps every key (src/booking/ticket.service.ts).
use saprk_parking_api.Prelude.{
  ℕ, ◌+◌, ◌*◌, ◌≤◌, ◌<◌, ◌≡◌, ◌≢◌, refl, Bool, true, false, ◌&&◌, ◌||◌, none, some, List, [], ◌∷◌,
  ltb, lt→ltb, if◌then◌else◌, length, arith, Text, text_eq, text_eq_iff, Bool-cases, inl, inr,
}
use saprk_parking_api.Store.{confirmed, business, Facility, Booking, Db}
use saprk_parking_api.Store.Monad.{done}
use saprk_parking_api.Booking.Access.{AuthUser, platform, regular_user, super_admin, resolve_scope}
use saprk_parking_api.Ticket.Payload.{
  is_url_char, is_digit, all_chars, qr_signature_length, parse_qr_payload, build_qr_payload,
  sign_qr_code, current_unix_minute, within_skew_window, print_number, signatures_match,
}
use saprk_parking_api.Ticket.Payload.RoundTrip.{parse_qr_payload-build_qr_payload}
use saprk_parking_api.Ticket.Credentials.{generate_access_code}
use saprk_parking_api.Ticket.Credentials.Packed.{
  code_number, bytes_number, generate_access_code-number,
}
use saprk_parking_api.Ticket.Replay.{Redis, SetAnswer, was_set, was_there, claim_key, claim}
use saprk_parking_api.Ticket.Scan.{
  IssuedTicket, issue, verify_qr, resolve, settle, qr_verdict, status_verdict,
}
use saprk_parking_api.Ticket.Scan.Once.{is_accepted, Scan, run_scan, after_scans, verify_qr-once}
use saprk_parking_api.Ticket.Scan.Issued.{verify_qr-issue}

abbrev digest : ℕ → Text → Text
digest key text =
    b'A' ∷ b'A' ∷ b'A' ∷ b'A' ∷ b'A' ∷ b'A' ∷ b'A' ∷ b'A' ∷ b'A' ∷ b'A' ∷ b'A' ∷ b'A' ∷ b'A' ∷ b'A'
    ∷ b'A' ∷ b'A' ∷ b'A' ∷ b'A' ∷ b'A' ∷ b'A' ∷ b'A' ∷ b'A' ∷ []

digest-chars : (key : ℕ) (text : Text) → all_chars is_url_char (digest key text) ≡ true
unfolding is_url_char
digest-chars key text = refl

digest-length : (key : ℕ) (text : Text) → qr_signature_length ≤ length (digest key text)
digest-length key text = omega arith

abbrev name_of : ℕ → Text
name_of k = b'b' ∷ (b'0' + k) ∷ []

abbrev is_held : Text → ℕ → List (Text × ℕ) → Bool
is_held key at [] = false
is_held key at ((k, expiry) ∷ s) = (text_eq k key && ltb at expiry) || is_held key at s

abbrev set_key : Text → ℕ → ℕ → List (Text × ℕ) → SetAnswer × List (Text × ℕ)
set_key key seconds now s =
    if is_held key now s then (was_there, s) else (was_set, (key, now + seconds * 1_000) ∷ s)

set_key-held :
    (key : Text) (seconds now later : ℕ) (s : List (Text × ℕ))
    → (set_key key seconds now s).0 ≡ was_set
    → now ≤ later
    → later < now + seconds * 1_000
    → is_held key later (set_key key seconds now s).1 ≡ true
set_key-held key seconds now later s h from below = elim (Bool-cases (is_held key now s)) [
  | inl e ↦ absurd (ground arith)
  | inr e ↦ ground (arith, (text_eq_iff key key).1 refl, lt→ltb later (now + seconds * 1_000) below)
]

set_key-others :
    (key other : Text) (seconds now later : ℕ) (s : List (Text × ℕ))
    → now ≤ later
    → is_held key later s ≡ true
    → is_held key later (set_key other seconds now s).1 ≡ true
set_key-others key other seconds now later s from h = elim (Bool-cases (is_held other now s)) [
  | inl e ↦ ground arith
  | inr e ↦ ground arith
]

set_key-not :
    (key : Text) (seconds now : ℕ) (s : List (Text × ℕ))
    → is_held key now s ≡ true
    → (set_key key seconds now s).0 ≢ was_set
set_key-not key seconds now s h = λ e. ground arith

abbrev server : Redis
server = record {
  State = List (Text × ℕ);
  set_nx = set_key;
  held = is_held;
  set_then_held = set_key-held;
  others_kept = set_key-others;
  held_not_set = set_key-not;
}

abbrev garage : Facility
garage = record {
  id = 1;
  operator_id = some 5;
  online_quota = 3;
  is_active = true;
  is_published = true;
  kind = business;
}

abbrev driver : AuthUser
driver = record { id = 9; role = regular_user; memberships = [] }

abbrev guard : AuthUser
guard = record { id = 2; role = super_admin; memberships = [] }

abbrev ticketed : Booking
ticketed = record {
  id = 7;
  facility_id = 1;
  user_id = 9;
  status = confirmed;
  starts_at = 100;
  ends_at = 200;
  expires_at = none;
  quoted_price_cents = 500;
  discount_cents = 0;
  final_price_cents = some 500;
  price_adjustment_cents = none;
  currency = 978;
  access_code = 77;
  idempotency_key = none;
  qr_secret = some 33;
  tariff_plan_id = none;
  tariff_plan_version = none;
}

abbrev barrier : Db
barrier = record {
  facilities = garage ∷ [];
  bookings = ticketed ∷ [];
  payments = [];
  refunds = [];
  history = [];
  audit = [];
  webhook_events = [];
  outbox = [];
}

abbrev ticket_text : Text
ticket_text = build_qr_payload digest 33 (name_of 7) 5

parse_qr_payload-build_qr_payload_example :
    parse_qr_payload (build_qr_payload digest 33 (name_of 7) 5)
    ≡ some (record {
      booking_id = name_of 7;
      unix_minute = 5;
      signature = sign_qr_code digest 33 (name_of 7) 5;
    })
unfolding is_url_char
parse_qr_payload-build_qr_payload_example =
    parse_qr_payload-build_qr_payload digest digest-chars digest-length 33 (name_of 7) 5 refl
      (omega arith)

abbrev sixteen : List ℕ
sixteen = 255 ∷ 1 ∷ 2 ∷ 3 ∷ 4 ∷ 5 ∷ 6 ∷ 7 ∷ 8 ∷ 9 ∷ 10 ∷ 11 ∷ 12 ∷ 13 ∷ 14 ∷ 128 ∷ []

generate_access_code-number_example :
    (length (generate_access_code sixteen) ≡ 26)
    × (code_number 0 (generate_access_code sixteen) ≡ bytes_number 0 sixteen * 4)
generate_access_code-number_example = generate_access_code-number sixteen refl (
  omega arith,
  (
    omega arith,
    (
      omega arith,
      (
        omega arith,
        (
          omega arith,
          (
            omega arith,
            (
              omega arith,
              (
                omega arith,
                (
                  omega arith,
                  (
                    omega arith,
                    (
                      omega arith,
                      (omega arith, (omega arith, (omega arith, (omega arith, (omega arith, tt))))),
                    ),
                  ),
                ),
              ),
            ),
          ),
        ),
      ),
    ),
  ),
)

abbrev first_scan : Scan server digest name_of
first_scan = record {
  user = guard;
  payload = ticket_text;
  auto_check_in = true;
  now = 300_000;
  others = λ d. d;
  db = barrier;
}

abbrev second_scan : Scan server digest name_of
second_scan = record {
  user = guard;
  payload = ticket_text;
  auto_check_in = false;
  now = 360_000;
  others = λ d. d;
  db = barrier;
}

first_scan-accepted : is_accepted (run_scan server digest name_of first_scan []).0 ≡ true
unfolding verify_qr parse_qr_payload build_qr_payload claim_key within_skew_window signatures_match
    status_verdict is_url_char is_digit print_number sign_qr_code claim resolve settle qr_verdict
first_scan-accepted = refl

verify_qr-once_example :
    is_accepted
      (run_scan server digest name_of second_scan
        (after_scans server digest name_of [] (run_scan server digest name_of first_scan []).1)).0
    ≡ false
verify_qr-once_example =
    verify_qr-once server digest name_of first_scan second_scan [] [] refl (omega arith) tt
      first_scan-accepted

resolve_scope-guard : resolve_scope guard barrier ≡ done platform barrier
unfolding resolve_scope
resolve_scope-guard = refl

minute-window :
    within_skew_window (current_unix_minute 300_000) (current_unix_minute 360_000) ≡ true
unfolding within_skew_window
minute-window = refl

claim-set :
    (set_key (claim_key (name_of 7) (current_unix_minute 300_000)) 600 360_000 []).0 ≡ was_set
claim-set = refl

verify_qr-issue_example :
    (ticket : IssuedTicket) × (issue server digest name_of driver (name_of 7) 300_000 barrier
      ≡ done ticket barrier)
    × (is_accepted
          (verify_qr server digest name_of guard ticket.payload true 360_000 (λ d. d) [] barrier).0
        ≡ true)
unfolding is_url_char
verify_qr-issue_example =
    verify_qr-issue server digest name_of digest-chars digest-length driver guard platform ticketed
      33 300_000 360_000 true (λ d. d) [] barrier refl refl refl refl refl (omega arith)
      resolve_scope-guard refl minute-window claim-set
