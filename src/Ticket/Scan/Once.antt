-- ===== src/Ticket/Scan/Once.antt =====
-- A ticket is good for one scan (src/booking/ticket.service.ts, src/booking/qr-replay.cache.ts).
use saprk_parking_api.Prelude.{
  ℕ, ◌+◌, ◌*◌, ◌≤◌, ◌<◌, ◌≡◌, refl, sym, ap, ◌∙◌, inl, inr, Bool, true, false, ◌&&◌, Option, none,
  some, List, [], ◌∷◌, Text, text_eq, text_eq_iff, find_first, find_first-holds, All, arith,
  Bool-cases, Option-cases,
}
use mathlib.Core.Option.{some-injective}
use saprk_parking_api.Store.{Booking, Db}
use saprk_parking_api.Store.Monad.{Ran, Ran-cases, ticket_not_found, done, thrown, found_or}
use saprk_parking_api.Booking.Access.{AuthUser, OperatorScope, resolve_scope, operator_of, in_scope}
use saprk_parking_api.Ticket.Payload.{
  QrPayloadParts, parse_qr_payload, within_skew_window, current_unix_minute,
}
use saprk_parking_api.Ticket.Replay.{
  Redis, was_set, claimed, claim, claim_key, qr_replay_ttl_seconds,
}
use saprk_parking_api.Ticket.Scan.{
  TicketVerdict, valid, invalid_signature, outside_time_window, already_used, not_honourable,
  TicketVerification, resolve, settle, qr_verdict, settle_verdict, verify_parts, verify_qr,
}

-- The barrier is told that the ticket is good.
abbrev pub is_accepted : Ran TicketVerification → Bool
is_accepted (done v db) = v.is_valid
is_accepted (thrown e db) = false

lookup-matches :
    (matches : Booking → Bool) (scope : OperatorScope) (b : Booking) (db db' : Db)
    → found_or
        (find_first (λ b. matches b && in_scope scope (operator_of b db)) db.bookings)
        ticket_not_found
        db
      ≡ done b db'
    → matches b ≡ true
lookup-matches matches scope b db db' h =
    elim (Option-cases
      (find_first (λ b. matches b && in_scope scope (operator_of b db)) db.bookings)) [
        | inl e ↦ absurd (ground arith)
        | inr (c, e) ↦ ground (
          arith,
          find_first-holds (λ b. matches b && in_scope scope (operator_of b db)) db.bookings c e,
        )
      ]

resolve-matches :
    (user : AuthUser) (matches : Booking → Bool) (b : Booking) (db db' : Db)
    → resolve user matches db ≡ done b db'
    → matches b ≡ true
unfolding resolve
resolve-matches user matches b db db' h = elim (Ran-cases (resolve_scope user db)) [
  | inl (scope, db1, e) ↦ ground (arith, lookup-matches matches scope b db1 db')
  | inr (err, db1, e) ↦ absurd (ground arith)
]

module _ (redis : Redis) (hmac : ℕ → Text → Text) (id_text : ℕ → Text) where
  -- A claim that is granted, as the command that the server ran.
  claim-cases :
      (id : Text) (minute now : ℕ) (s : redis.State)
      → (claim redis id minute now s).0 ≡ claimed
      → (redis.set_nx (claim_key id minute) qr_replay_ttl_seconds now s).0 ≡ was_set
  unfolding claim
  claim-cases id minute now s h = ground arith

  claim-state :
      (id : Text) (minute now : ℕ) (s : redis.State)
      → (claim redis id minute now s).1
        ≡ (redis.set_nx (claim_key id minute) qr_replay_ttl_seconds now s).1
  unfolding claim
  claim-state id minute now s = refl

  -- A good verdict was claimed within the window.
  qr_verdict-valid :
      (b : Booking) (parts : QrPayloadParts) (now : ℕ) (s : redis.State)
      → (qr_verdict redis hmac id_text b parts now s).0 ≡ some valid
      → (within_skew_window parts.unix_minute (current_unix_minute now) ≡ true)
        × ((claim redis (id_text b.id) parts.unix_minute now s).0 ≡ claimed)
        × ((qr_verdict redis hmac id_text b parts now s).1
            ≡ (claim redis (id_text b.id) parts.unix_minute now s).1)
  unfolding qr_verdict
  qr_verdict-valid b parts now s h = ground arith

  -- What an accepted scan did to the cache.
  record AcceptedScan (payload : Text) (now : ℕ) (s s' : redis.State) : Type 0 where
    parts : QrPayloadParts
    read : parse_qr_payload payload ≡ some parts
    fresh : within_skew_window parts.unix_minute (current_unix_minute now) ≡ true
    set :
        (redis.set_nx (claim_key parts.booking_id parts.unix_minute) qr_replay_ttl_seconds now s).0
        ≡ was_set
    left :
        s'
        ≡ (redis.set_nx
            (claim_key parts.booking_id parts.unix_minute)
            qr_replay_ttl_seconds
            now
            s).1

  settle-verdict :
      (user : AuthUser) (b : Booking) (auto : Bool) (others : Db → Db)
      (verdict : Option TicketVerdict) (db : Db)
      → is_accepted (settle_verdict redis hmac id_text user b auto others verdict db) ≡ true
      → verdict ≡ some valid
  unfolding settle
  settle-verdict user b auto others none db h = absurd (ground arith)
  settle-verdict user b auto others (some valid) db h = refl
  settle-verdict user b auto others (some invalid_signature) db h = absurd (cc)
  settle-verdict user b auto others (some outside_time_window) db h = absurd (cc)
  settle-verdict user b auto others (some already_used) db h = absurd (cc)
  settle-verdict user b auto others (some not_honourable) db h = absurd (cc)

  verify_parts-accepted :
      (user : AuthUser) (payload : Text) (parts : QrPayloadParts) (auto : Bool) (now : ℕ)
      (others : Db → Db) (s : redis.State) (db : Db)
      → parse_qr_payload payload ≡ some parts
      → is_accepted (verify_parts redis hmac id_text user parts auto now others s db).0 ≡ true
      → AcceptedScan payload now s
          (verify_parts redis hmac id_text user parts auto now others s db).1
  verify_parts-accepted user payload parts auto now others s db read h =
      elim (Ran-cases (resolve user (λ b. text_eq (id_text b.id) parts.booking_id) db)) [
        | inr (err, db1, e) ↦ absurd (ground arith)
        | inl (b, db1, e) ↦
            let verdict = (qr_verdict redis hmac id_text b parts now s).0 in
            let step : verify_parts redis hmac id_text user parts auto now others s db ≡ (
              settle_verdict redis hmac id_text user b auto others verdict db1,
              (qr_verdict redis hmac id_text b parts now s).1,
            ) =
              rw (verify_parts, e) refl in
            let (fresh, granted, left) = qr_verdict-valid b parts now s (
              settle-verdict user b auto others verdict db1
                (ap (λ p. is_accepted p.0) (sym step) ∙ h)) in
            let same : id_text b.id ≡ parts.booking_id =
              (text_eq_iff (id_text b.id) parts.booking_id).0 (resolve-matches user _ b db db1 e) in
            record {
              parts = parts;
              read = read;
              fresh = fresh;
              set =
                  ap
                    (λ id.
                      (redis.set_nx (claim_key id parts.unix_minute) qr_replay_ttl_seconds now s).0)
                    (sym same)
                  ∙ claim-cases (id_text b.id) parts.unix_minute now s granted;
              left =
                  ap (λ p. p.1) step
                  ∙ left
                  ∙ claim-state (id_text b.id) parts.unix_minute now s
                  ∙ ap
                      (λ id.
                        (redis.set_nx (claim_key id parts.unix_minute) qr_replay_ttl_seconds now
                          s).1)
                      same;
            }
      ]

  verify_qr-accepted :
      (user : AuthUser) (payload : Text) (auto : Bool) (now : ℕ) (others : Db → Db)
      (s : redis.State) (db : Db)
      → is_accepted (verify_qr redis hmac id_text user payload auto now others s db).0 ≡ true
      → AcceptedScan payload now s
          (verify_qr redis hmac id_text user payload auto now others s db).1
  unfolding verify_qr
  verify_qr-accepted user payload auto now others s db h =
      elim (Option-cases (parse_qr_payload payload)) [
        | inl e ↦ absurd (ground arith)
        | inr (parts, e) ↦
            ground (arith, verify_parts-accepted user payload parts auto now others s db e)
      ]

  qr_verdict-held :
      (key : Text) (later : ℕ) (b : Booking) (parts : QrPayloadParts) (now : ℕ) (s : redis.State)
      → now ≤ later
      → redis.held key later s ≡ true
      → redis.held key later (qr_verdict redis hmac id_text b parts now s).1 ≡ true
  unfolding qr_verdict claim
  qr_verdict-held key later b parts now s h k = ground (
    arith,
    redis.others_kept key (claim_key (id_text b.id) parts.unix_minute) qr_replay_ttl_seconds now
        later s,
  )

  verify_qr-held :
      (key : Text) (later : ℕ) (user : AuthUser) (payload : Text) (auto : Bool) (now : ℕ)
      (others : Db → Db) (s : redis.State) (db : Db)
      → now ≤ later
      → redis.held key later s ≡ true
      → redis.held key later (verify_qr redis hmac id_text user payload auto now others s db).1
        ≡ true
  unfolding verify_qr
  verify_qr-held key later user payload auto now others s db h k =
      elim (Option-cases (parse_qr_payload payload)) [
        | inl e ↦ ground arith
        | inr (parts, e) ↦
            elim (Ran-cases (resolve user (λ b. text_eq (id_text b.id) parts.booking_id) db)) [
              | inl (b, db1, f) ↦ ground (arith, qr_verdict-held key later b parts now s)
              | inr (err, db1, f) ↦ ground arith
            ]
      ]

  -- The scans of other requests, each with the tables that it finds.
  pub record Scan : Type 0 where
    pub user : AuthUser
    pub payload : Text
    pub auto_check_in : Bool
    pub now : ℕ
    pub others : Db → Db
    pub db : Db

  abbrev pub run_scan : Scan → redis.State → Ran TicketVerification × redis.State
  run_scan q s = verify_qr redis hmac id_text q.user q.payload q.auto_check_in q.now q.others s q.db

  abbrev pub after_scans : List Scan → redis.State → redis.State
  after_scans [] s = s
  after_scans (q ∷ scans) s = after_scans scans (run_scan q s).1

  after_scans-held :
      (key : Text) (later : ℕ) (scans : List Scan) (s : redis.State)
      → All (λ q. q.now ≤ later) scans
      → redis.held key later s ≡ true
      → redis.held key later (after_scans scans s) ≡ true
  after_scans-held key later [] s h k = k
  after_scans-held key later (q ∷ scans) s h k =
      after_scans-held key later scans (run_scan q s).1 h.1
        (verify_qr-held key later q.user q.payload q.auto_check_in q.now q.others s q.db h.0 k)

  window-below-ttl :
      (minute now later : ℕ)
      → within_skew_window minute (current_unix_minute now) ≡ true
      → within_skew_window minute (current_unix_minute later) ≡ true
      → later < now + qr_replay_ttl_seconds * 1_000
  unfolding within_skew_window
  window-below-ttl minute now later h k = ground arith

  no-second :
      (p q : Text) (now later : ℕ) (s s' t t' : redis.State)
      → AcceptedScan p now s s'
      → AcceptedScan q later t t'
      → q ≡ p
      → now ≤ later
      → ((key : Text) → redis.held key later s' ≡ true → redis.held key later t ≡ true)
      → ⊥
  no-second p q now later s s' t t' one two same order kept =
      let parts : two.parts ≡ one.parts =
        some-injective _ _ (sym two.read ∙ ap parse_qr_payload same ∙ one.read) in
      let key = claim_key one.parts.booking_id one.parts.unix_minute in
      let fresh : within_skew_window one.parts.unix_minute (current_unix_minute later) ≡ true =
        ap (λ (r : QrPayloadParts). within_skew_window r.unix_minute (current_unix_minute later))
          (sym parts)
        ∙ two.fresh in
      let set : (redis.set_nx key qr_replay_ttl_seconds later t).0 ≡ was_set =
        ap
          (λ (r : QrPayloadParts).
            (redis.set_nx (claim_key r.booking_id r.unix_minute) qr_replay_ttl_seconds later t).0)
          (sym parts)
        ∙ two.set in
      let held : redis.held key later s' ≡ true =
        ap (redis.held key later) one.left
        ∙ redis.set_then_held key qr_replay_ttl_seconds now later s one.set order
            (window-below-ttl one.parts.unix_minute now later one.fresh fresh) in
      redis.held_not_set key qr_replay_ttl_seconds later t (kept key held) set

  -- Once a scan of a payload was answered as valid, no scan of that payload, by whomever and with
  -- whatever tables, is answered so at the same or a later time, whatever scans run between the two.
  pub verify_qr-once :
      (first second : Scan) (scans : List Scan) (s : redis.State)
      → second.payload ≡ first.payload
      → first.now ≤ second.now
      → All (λ q. q.now ≤ second.now) scans
      → is_accepted (run_scan first s).0 ≡ true
      → is_accepted (run_scan second (after_scans scans (run_scan first s).1)).0 ≡ false
  verify_qr-once first second scans s same order between accepted =
      elim (Bool-cases (is_accepted (run_scan second (after_scans scans (run_scan first s).1)).0)) [
        | inr refused ↦ refused
        | inl again ↦
            let one =
              verify_qr-accepted first.user first.payload first.auto_check_in first.now first.others
                s first.db accepted in
            let two =
              verify_qr-accepted second.user second.payload second.auto_check_in second.now
                second.others (after_scans scans (run_scan first s).1) second.db again in
            absurd (
              no-second first.payload second.payload first.now second.now s (run_scan first s).1
                (after_scans scans (run_scan first s).1)
                (run_scan second (after_scans scans (run_scan first s).1)).1 one two same order
                (λ key. after_scans-held key second.now scans (run_scan first s).1 between))
      ]
