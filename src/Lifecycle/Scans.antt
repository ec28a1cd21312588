-- ===== src/Lifecycle/Scans.antt =====
-- The rows of bookings over the scan of a ticket (src/booking/ticket.service.ts).
use saprk_parking_api.Prelude.{
  ℕ, ◌≡◌, refl, sym, ap, subst, ◌∙◌, inl, inr, Bool, Option, none, some, arith, Option-cases, Text,
  ◌==◌, text_eq,
}
use saprk_parking_api.Store.{checked_in, Booking, Db}
use saprk_parking_api.Store.Monad.{Ran, Ran-cases, done, thrown, M, ◌>>=◌, after, booking_row}
use saprk_parking_api.Booking.Access.{AuthUser, resolve_scope}
use saprk_parking_api.Booking.Confirm.{set_status}
use saprk_parking_api.Lifecycle.{RowsKept, RowKept-refl}
use saprk_parking_api.Lifecycle.Handlers.{update_row-RowKept}
use saprk_parking_api.Ticket.Payload.{QrPayloadParts, parse_qr_payload}
use saprk_parking_api.Ticket.Replay.{Redis}
use saprk_parking_api.Ticket.Scan.{
  TicketVerdict, TicketMethod, resolve, check_in_scan, settle, settle_verdict, qr_verdict,
  status_verdict, by_qr, by_access_code, verify_parts, verify_access_code, verify_qr,
}

check_in_scan-RowsKept :
    (u : AuthUser) (b : Booking) (db : Db) → RowsKept db (after (check_in_scan u b db))
unfolding check_in_scan
check_in_scan-RowsKept u b db j = elim (Option-cases (booking_row b.id db)) [
  | inl e ↦ ground (arith, RowKept-refl (booking_row j db))
  | inr (r, e) ↦ ground (
    arith,
    RowKept-refl (booking_row j db),
    update_row-RowKept b.id j (set_status checked_in) db.bookings r (λ c. refl) e,
  )
]

settle-RowsKept :
    (u : AuthUser) (b : Booking) (verdict : TicketVerdict) (method : TicketMethod) (auto : Bool)
    (db : Db)
    → RowsKept db (after (settle u b verdict method auto (λ d. d) db))
unfolding settle
settle-RowsKept u b verdict method auto db j =
    ground (arith, RowKept-refl (booking_row j db), check_in_scan-RowsKept u b db j)

resolve-keeps :
    (u : AuthUser) (matches : Booking → Bool) (db : Db) → after (resolve u matches db) ≡ db
unfolding resolve resolve_scope
resolve-keeps u matches db = ground arith

ran-RowsKept {ℓ κ} :
    {A : Type ℓ} {B : Type κ} (r : Ran A) (k : A → M B) (db : Db)
    → after r ≡ db
    → ((a : A) → RowsKept db (after (k a db)))
    → RowsKept db (after (((λ d. r) >>= k) db))
ran-RowsKept (done a db1) k db same kept =
    subst (λ d. RowsKept db (after (k a d))) (sym same) (kept a)
ran-RowsKept (thrown e db1) k db same kept = λ j. rw same (RowKept-refl (booking_row j db))

bind-RowsKept {ℓ κ} :
    {A : Type ℓ} {B : Type κ} (m : M A) (k : A → M B) (db : Db)
    → after (m db) ≡ db
    → ((a : A) → RowsKept db (after (k a db)))
    → RowsKept db (after ((m >>= k) db))
bind-RowsKept m k db same kept = ran-RowsKept (m db) k db same kept

-- The scan of an access code, with no other request in between, keeps every booking's row and moves
-- its status along an allowed edge.
pub verify_access_code-RowsKept :
    (u : AuthUser) (code : ℕ) (auto : Bool) (db : Db)
    → RowsKept db (after (verify_access_code u code auto (λ d. d) db))
unfolding verify_access_code
verify_access_code-RowsKept u code auto db =
    bind-RowsKept (resolve u (λ b. b.access_code == code)) _ db (resolve-keeps u _ db)
      (λ b. settle-RowsKept u b (status_verdict b) by_access_code auto db)

module _ (redis : Redis) (hmac : ℕ → Text → Text) (id_text : ℕ → Text) where
  settle_verdict-RowsKept :
      (u : AuthUser) (b : Booking) (auto : Bool) (verdict : Option TicketVerdict) (db : Db)
      → RowsKept db (after (settle_verdict redis hmac id_text u b auto (λ d. d) verdict db))
  settle_verdict-RowsKept u b auto none db j = RowKept-refl (booking_row j db)
  settle_verdict-RowsKept u b auto (some verdict) db j = settle-RowsKept u b verdict by_qr auto db j

  verify_parts-RowsKept :
      (u : AuthUser) (parts : QrPayloadParts) (auto : Bool) (now : ℕ) (s : redis.State) (db : Db)
      → RowsKept db (after (verify_parts redis hmac id_text u parts auto now (λ d. d) s db).0)
  verify_parts-RowsKept u parts auto now s db =
      elim (Ran-cases (resolve u (λ b. text_eq (id_text b.id) parts.booking_id) db)) [
        | inl (b, db1, e) ↦
            rw (verify_parts, e, ap after (sym e) ∙ resolve-keeps u _ db)
              (settle_verdict-RowsKept u b auto (qr_verdict redis hmac id_text b parts now s).0 db)
        | inr (err, db1, e) ↦
            rw (verify_parts, e, ap after (sym e) ∙ resolve-keeps u _ db)
              (λ j. RowKept-refl (booking_row j db))
      ]

  -- The scan of a QR code, with no other request in between, keeps every booking's row and moves its
  -- status along an allowed edge.
  pub verify_qr-RowsKept :
      (u : AuthUser) (payload : Text) (auto : Bool) (now : ℕ) (s : redis.State) (db : Db)
      → RowsKept db (after (verify_qr redis hmac id_text u payload auto now (λ d. d) s db).0)
  unfolding verify_qr
  verify_qr-RowsKept u payload auto now s db j = elim (Option-cases (parse_qr_payload payload)) [
    | inl e ↦ ground (arith, RowKept-refl (booking_row j db))
    | inr (parts, e) ↦ ground (arith, verify_parts-RowsKept u parts auto now s db j)
  ]
