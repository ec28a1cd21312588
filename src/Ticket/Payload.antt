-- ===== src/Ticket/Payload.antt =====
-- The text of a QR ticket, "v1.<bookingId>.<unixMinute>.<sig>" (src/booking/qr-ticket.ts). The keyed
-- hash of the crypto library is the parameter `hmac`: its base64url digest of a text under a secret.
pub mod RoundTrip
use saprk_parking_api.Prelude.{
  ℕ, zero, suc, ◌+◌, ◌-◌, ◌*◌, ◌/◌, ◌%◌, ◌^◌, Bool, true, false, ◌&&◌, ◌||◌, Option, none, some,
  List, [], ◌∷◌, ◌++◌, Text, text_eq, ltb, leb, ◌==◌, if◌then◌else◌, length,
}

abbrev pub qr_payload_version : Text
qr_payload_version = b'v' ∷ b'1' ∷ []

abbrev pub qr_signature_length : ℕ
qr_signature_length = 22

abbrev pub qr_skew_minutes : ℕ
qr_skew_minutes = 2

abbrev pub dot : ℕ
dot = b'.'

-- `[A-Za-z0-9_-]`
unfoldable pub is_url_char : ℕ → Bool
is_url_char c =
    (leb b'A' c && leb c b'Z')
    || ((leb b'a' c && leb c b'z') || ((leb b'0' c && leb c b'9') || (c == b'_' || c == b'-')))

-- `\d`
unfoldable pub is_digit : ℕ → Bool
is_digit c = leb b'0' c && leb c b'9'

abbrev pub all_chars : (ℕ → Bool) → Text → Bool
all_chars test [] = true
all_chars test (c ∷ s) = test c && all_chars test s

-- A run of a class that is from `lo` to `hi` long: `[…]{lo,hi}`.
abbrev pub is_run : (ℕ → Bool) → ℕ → ℕ → Text → Bool
is_run test lo hi s = all_chars test s && (leb lo (length s) && leb (length s) hi)

-- `split('.')`
abbrev pub push : ℕ → List Text → List Text
push c [] = (c ∷ []) ∷ []
push c (part ∷ parts) = (c ∷ part) ∷ parts

unfoldable pub split_dots : Text → List Text
split_dots [] = [] ∷ []
split_dots (c ∷ s) = let rest = split_dots s in if c == dot then [] ∷ rest else push c rest

-- `Number(minute)`, of a run of digits.
unfoldable pub number_from : ℕ → Text → ℕ
number_from acc [] = acc
number_from acc (c ∷ s) = number_from (acc * 10 + (c - b'0')) s

-- What a number prints as. The seconds of the calendar that the runtime can express give minutes of
-- at most 12 digits; 16 digits print every integer that the runtime holds exactly.
unfoldable pub print_digits : ℕ → ℕ → Text
print_digits zero n = []
print_digits (suc places) n =
    let front = print_digits places (n / 10) in
    if ltb n 10 then (b'0' + n) ∷ [] else front ++ (b'0' + n % 10) ∷ []

unfoldable pub print_number : ℕ → Text
unfolding print_digits
print_number n = print_digits 16 n

pub record QrPayloadParts : Type 0 where
  pub booking_id : Text
  pub unix_minute : ℕ
  pub signature : Text

-- `Number.MAX_SAFE_INTEGER`
abbrev pub max_safe_integer : ℕ
max_safe_integer = 2 ^ 53 - 1

-- No class of the pattern holds a dot, so that it is a test of the four parts.
unfoldable pub qr_payload_pattern : List Text → Bool
unfolding is_url_char is_digit
qr_payload_pattern (version ∷ id ∷ minute ∷ signature ∷ []) =
    (text_eq version qr_payload_version && is_run is_url_char 1 64 id)
    && (is_run is_digit 1 15 minute
        && is_run is_url_char qr_signature_length qr_signature_length signature)
qr_payload_pattern parts = false

-- `[, bookingId, minute, signature]` of the parts, with the tests that follow.
abbrev pub parts_of : List Text → Option QrPayloadParts
parts_of (version ∷ (c ∷ id) ∷ minute ∷ (d ∷ signature) ∷ parts) =
    let unix_minute = number_from 0 minute in
    if leb unix_minute max_safe_integer
    then some (record { booking_id = c ∷ id; unix_minute = unix_minute; signature = d ∷ signature })
    else none
parts_of parts = none

unfoldable pub parse_qr_payload : Text → Option QrPayloadParts
unfolding qr_payload_pattern split_dots number_from
parse_qr_payload payload =
    if qr_payload_pattern (split_dots payload) then parts_of (split_dots payload) else none

-- `slice(0, n)`
abbrev pub take : ℕ → Text → Text
take zero s = []
take (suc n) [] = []
take (suc n) (c ∷ s) = c ∷ take n s

abbrev pub current_unix_minute : ℕ → ℕ
current_unix_minute now = now / 60_000

-- `Math.abs(serverMinute - unixMinute) <= QR_SKEW_MINUTES`
unfoldable pub within_skew_window : ℕ → ℕ → Bool
within_skew_window unix_minute server_minute =
    leb (server_minute - unix_minute) qr_skew_minutes
    && leb (unix_minute - server_minute) qr_skew_minutes

unfoldable pub payload_expires_at : ℕ → ℕ
payload_expires_at unix_minute = (unix_minute + qr_skew_minutes + 1) * 60_000

-- A comparison of the bytes, in constant time.
unfoldable pub signatures_match : Text → Text → Bool
signatures_match presented expected = text_eq presented expected

module _ (hmac : ℕ → Text → Text) where
  unfoldable pub sign_qr_code : ℕ → Text → ℕ → Text
  sign_qr_code qr_secret booking_id unix_minute =
      take qr_signature_length (hmac qr_secret (booking_id ++ b'|' ∷ print_number unix_minute))

  unfoldable pub build_qr_payload : ℕ → Text → ℕ → Text
  unfolding print_number sign_qr_code
  build_qr_payload qr_secret booking_id unix_minute =
      qr_payload_version
      ++ dot
        ∷ (booking_id
            ++ dot
              ∷ (print_number unix_minute ++ dot ∷ sign_qr_code qr_secret booking_id unix_minute))
