-- ===== src/Ticket/Scan/Issued.antt =====
-- What the owner is issued opens the barrier (src/booking/ticket.service.ts, src/booking/qr-ticket.ts).
use saprk_parking_api.Prelude.{
  ℕ, ◌≤◌, ◌<◌, ◌^◌, ◌≡◌, refl, inl, inr, Bool, true, ◌&&◌, some, List, [], ◌∷◌, Text, text_eq,
  text_eq_iff, ==_iff, length, find_first, arith, Bool-cases, Option-cases,
}
use saprk_parking_api.Store.{Booking, Db}
use saprk_parking_api.Store.Monad.{Ran-cases, done, booking_row}
use saprk_parking_api.Booking.Access.{AuthUser, OperatorScope, resolve_scope, operator_of, in_scope}
use saprk_parking_api.Ticket.Payload.{
  QrPayloadParts, parse_qr_payload, sign_qr_code, signatures_match, within_skew_window,
  current_unix_minute, is_url_char, all_chars, is_run, qr_signature_length, build_qr_payload,
  payload_expires_at,
}
use saprk_parking_api.Ticket.Payload.RoundTrip.{parse_qr_payload-build_qr_payload}
use saprk_parking_api.Ticket.Replay.{Redis, was_set, claim, claim_key, qr_replay_ttl_seconds}
use saprk_parking_api.Ticket.Scan.{
  valid, IssuedTicket, TicketMethod, by_qr, CheckInOutcome, status_verdict, is_honourable, resolve,
  settle, check_in_scan, qr_verdict, verify_parts, verify_qr, issue,
}
use saprk_parking_api.Ticket.Scan.Once.{is_accepted}

text_eq_refl : (s : Text) → text_eq s s ≡ true
text_eq_refl s = (text_eq_iff s s).1 refl

signatures_match_refl : (s : Text) → signatures_match s s ≡ true
unfolding signatures_match
signatures_match_refl s = text_eq_refl s

-- What the first row of a `where` is, the first row of a `where` that asks more is, where it passes.
find_first-and :
    (p q : Booking → Bool) (rows : List Booking) (b : Booking)
    → find_first p rows ≡ some b
    → q b ≡ true
    → find_first (λ r. p r && q r) rows ≡ some b
find_first-and p q [] b h k = h
find_first-and p q (r ∷ rows) b h k = ground (arith, find_first-and p q rows b)

resolve-found :
    (user : AuthUser) (scope : OperatorScope) (p : Booking → Bool) (b : Booking) (db : Db)
    → resolve_scope user db ≡ done scope db
    → find_first p db.bookings ≡ some b
    → in_scope scope (operator_of b db) ≡ true
    → resolve user p db ≡ done b db
unfolding resolve
resolve-found user scope p b db rights found place =
    ground
      (arith, find_first-and p (λ r. in_scope scope (operator_of r db)) db.bookings b found place)

check_in_scan-returns :
    (user : AuthUser) (b : Booking) (db : Db)
    → (o : CheckInOutcome) × (db' : Db) × (check_in_scan user b db ≡ done o db')
unfolding check_in_scan
check_in_scan-returns user b db = elim (Ran-cases (check_in_scan user b db)) [
  | inl ran ↦ ran
  | inr (err, db', e) ↦ elim (Option-cases (booking_row b.id db)) [
    | inl row ↦ absurd (ground arith)
    | inr (r, row) ↦ absurd (ground arith)
  ]
]

settle-valid :
    (user : AuthUser) (b : Booking) (method : TicketMethod) (auto : Bool) (others : Db → Db)
    (db : Db)
    → is_accepted (settle user b valid method auto others db) ≡ true
unfolding settle
settle-valid user b method auto others db = elim (Bool-cases auto) [
  | inl e ↦ let (o, db', f) = check_in_scan-returns user b (others db) in ground arith
  | inr e ↦ ground arith
]

module _ (redis : Redis) (hmac : ℕ → Text → Text) (id_text : ℕ → Text) where
  genuine-valid :
      (b : Booking) (secret minute later : ℕ) (s : redis.State)
      → b.qr_secret ≡ some secret
      → is_honourable b.status ≡ true
      → within_skew_window minute (current_unix_minute later) ≡ true
      → (redis.set_nx (claim_key (id_text b.id) minute) qr_replay_ttl_seconds later s).0 ≡ was_set
      → (qr_verdict redis hmac id_text b
          (record {
            booking_id = id_text b.id;
            unix_minute = minute;
            signature = sign_qr_code hmac secret (id_text b.id) minute;
          })
          later
          s).0
        ≡ some valid
  unfolding qr_verdict claim status_verdict
  genuine-valid b secret minute later s key status window set =
      ground (arith, signatures_match_refl (sign_qr_code hmac secret (id_text b.id) minute))

  verify_parts-valid :
      (user : AuthUser) (b : Booking) (parts : QrPayloadParts) (auto : Bool) (later : ℕ)
      (others : Db → Db) (s : redis.State) (db : Db)
      → resolve user (λ r. text_eq (id_text r.id) parts.booking_id) db ≡ done b db
      → (qr_verdict redis hmac id_text b parts later s).0 ≡ some valid
      → is_accepted (verify_parts redis hmac id_text user parts auto later others s db).0 ≡ true
  verify_parts-valid user b parts auto later others s db found verdict =
      rw (verify_parts, found, verdict) (settle-valid user b by_qr auto others db)

  verify_qr-parsed :
      (user : AuthUser) (payload : Text) (parts : QrPayloadParts) (auto : Bool) (later : ℕ)
      (others : Db → Db) (s : redis.State) (db : Db)
      → parse_qr_payload payload ≡ some parts
      → verify_qr redis hmac id_text user payload auto later others s db
        ≡ verify_parts redis hmac id_text user parts auto later others s db
  unfolding verify_qr
  verify_qr-parsed user payload parts auto later others s db h = ground arith

  module _ (base64url : (key : ℕ) (text : Text) → all_chars is_url_char (hmac key text) ≡ true)
      (long : (key : ℕ) (text : Text) → qr_signature_length ≤ length (hmac key text)) where
    -- What the owner of a booking with a credential and an honourable status is issued is answered as
    -- valid at the barrier of the booking's operator, where the scan runs within the window of the
    -- minute of issue and the cache grants the claim.
    pub verify_qr-issue :
        (owner staff : AuthUser) (scope : OperatorScope) (b : Booking) (secret now later : ℕ)
        (auto : Bool) (others : Db → Db) (s : redis.State) (db : Db)
        → find_first (λ r. text_eq (id_text r.id) (id_text b.id)) db.bookings ≡ some b
        → b.user_id ≡ owner.id
        → b.qr_secret ≡ some secret
        → is_honourable b.status ≡ true
        → is_run is_url_char 1 64 (id_text b.id) ≡ true
        → current_unix_minute now < 10 ^ 15
        → resolve_scope staff db ≡ done scope db
        → in_scope scope (operator_of b db) ≡ true
        → within_skew_window (current_unix_minute now) (current_unix_minute later) ≡ true
        → (redis.set_nx
            (claim_key (id_text b.id) (current_unix_minute now))
            qr_replay_ttl_seconds
            later
            s).0
          ≡ was_set
        → (ticket : IssuedTicket) × (issue redis hmac id_text owner (id_text b.id) now db
            ≡ done ticket db)
          × (is_accepted
                (verify_qr redis hmac id_text staff ticket.payload auto later others s db).0
              ≡ true)
    unfolding issue
    verify_qr-issue owner staff scope b secret now later auto others s db found mine key status
          id_ok early rights place window set =
        (
          record {
            booking_id = b.id;
            payload = build_qr_payload hmac secret (id_text b.id) (current_unix_minute now);
            unix_minute = current_unix_minute now;
            expires_at = payload_expires_at (current_unix_minute now);
          },
          ground (arith, ==_iff b.user_id owner.id),
          rw
              (verify_qr-parsed staff
                (build_qr_payload hmac secret (id_text b.id) (current_unix_minute now)) _ auto later
                others s db
                (parse_qr_payload-build_qr_payload hmac base64url long secret (id_text b.id)
                  (current_unix_minute now) id_ok early))
              (verify_parts-valid staff b _ auto later others s db
                (resolve-found staff scope (λ r. text_eq (id_text r.id) (id_text b.id)) b db rights
                  found place)
                (genuine-valid b secret (current_unix_minute now) later s key status window set)),
        )
