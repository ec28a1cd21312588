-- ===== src/Ticket/Payload/RoundTrip.antt =====
-- What a ticket is built from is read back (src/booking/qr-ticket.ts).
use saprk_parking_api.Prelude.{
  ℕ, zero, suc, ◌+◌, ◌-◌, ◌*◌, ◌/◌, ◌%◌, ◌^◌, ◌≤◌, ◌<◌, ◌≡◌, refl, Bool, true, false, ◌&&◌, some,
  [], ◌∷◌, ◌++◌, Text, ltb, ◌==◌, length, length-append, arith, inl, inr, Bool-cases,
}
use saprk_parking_api.Ticket.Payload.{
  qr_payload_version, qr_signature_length, dot, is_url_char, is_digit, all_chars, is_run,
  split_dots, number_from, print_digits, print_number, qr_payload_pattern, parts_of,
  parse_qr_payload, take, sign_qr_code, build_qr_payload, max_safe_integer,
}

url-ne-dot : (c : ℕ) → is_url_char c ≡ true → (c == dot) ≡ false
unfolding is_url_char
url-ne-dot c h = ground arith

digit-ne-dot : (c : ℕ) → is_digit c ≡ true → (c == dot) ≡ false
unfolding is_digit
digit-ne-dot c h = ground arith

module _ (test : ℕ → Bool) (no_dot : (c : ℕ) → test c ≡ true → (c == dot) ≡ false) where
  split_dots-append :
      (s rest : Text) → all_chars test s ≡ true → split_dots (s ++ dot ∷ rest) ≡ s ∷ split_dots rest
  unfolding split_dots
  split_dots-append [] rest h = refl
  split_dots-append (c ∷ s) rest h = ground (arith, no_dot c, split_dots-append s rest)

  split_dots-whole : (s : Text) → all_chars test s ≡ true → split_dots s ≡ s ∷ []
  unfolding split_dots
  split_dots-whole [] h = refl
  split_dots-whole (c ∷ s) h = ground (arith, no_dot c, split_dots-whole s)

-- Ten to the power.
abbrev pow10 : ℕ → ℕ
pow10 zero = 1
pow10 (suc k) = 10 * pow10 k

number_from-append :
    (acc d : ℕ) (s : Text) → number_from acc (s ++ (b'0' + d) ∷ []) ≡ number_from acc s * 10 + d
unfolding number_from
number_from-append acc d [] = omega arith
number_from-append acc d (c ∷ s) = number_from-append (acc * 10 + (c - b'0')) d s

print_digits-number : (places n : ℕ) → n < pow10 places → number_from 0 (print_digits places n) ≡ n
unfolding print_digits
print_digits-number zero n h = unfold number_from in omega arith
print_digits-number (suc places) n h = elim (Bool-cases (ltb n 10)) [
  | inl e ↦ rw e (unfold number_from in ground arith)
  | inr e ↦
      rw
        (
          e,
          number_from-append 0 (n % 10) (print_digits places (n / 10)),
          print_digits-number places (n / 10) (omega arith),
        )
        (omega arith)
]

all_chars-append :
    (test : ℕ → Bool) (s t : Text)
    → all_chars test (s ++ t) ≡ (all_chars test s && all_chars test t)
all_chars-append test [] t = refl
all_chars-append test (c ∷ s) t = ground (arith, all_chars-append test s t)

print_digits-digits : (places n : ℕ) → all_chars is_digit (print_digits places n) ≡ true
unfolding print_digits is_digit
print_digits-digits zero n = refl
print_digits-digits (suc places) n = elim (Bool-cases (ltb n 10)) [
  | inl e ↦ rw e (ground arith)
  | inr e ↦
      rw
        (
          e,
          all_chars-append is_digit (print_digits places (n / 10)) ((b'0' + n % 10) ∷ []),
          print_digits-digits places (n / 10),
        )
        (ground arith)
]

print_digits-empty : (n : ℕ) → print_digits 0 n ≡ []
unfolding print_digits
print_digits-empty n = refl

-- A number below 10 ^ most prints in at most `most` places.
length-print_digits-le :
    (places most n : ℕ) → n < pow10 (suc most) → length (print_digits places n) ≤ suc most
unfolding print_digits
length-print_digits-le zero most n h = omega arith
length-print_digits-le (suc places) zero n h = elim (Bool-cases (ltb n 10)) [
  | inl e ↦ rw e (omega arith)
  | inr e ↦ absurd (ground arith)
]
length-print_digits-le (suc places) (suc most) n h = elim (Bool-cases (ltb n 10)) [
  | inl e ↦ rw e (omega arith)
  | inr e ↦
      rw (e, length-append (print_digits places (n / 10)) ((b'0' + n % 10) ∷ []))
        (omega (arith, length-print_digits-le places most (n / 10) (omega arith)))
]

length-print_digits-pos : (places n : ℕ) → 0 < length (print_digits (suc places) n)
unfolding print_digits
length-print_digits-pos places n = elim (Bool-cases (ltb n 10)) [
  | inl e ↦ rw e (omega arith)
  | inr e ↦
      rw (e, length-append (print_digits places (n / 10)) ((b'0' + n % 10) ∷ [])) (omega arith)
]

all_chars-take :
    (test : ℕ → Bool) (k : ℕ) (s : Text)
    → all_chars test s ≡ true
    → all_chars test (take k s) ≡ true
all_chars-take test zero s h = refl
all_chars-take test (suc k) [] h = refl
all_chars-take test (suc k) (c ∷ s) h = ground (arith, all_chars-take test k s)

length-take : (k : ℕ) (s : Text) → k ≤ length s → length (take k s) ≡ k
length-take zero s h = refl
length-take (suc k) [] h = omega arith
length-take (suc k) (c ∷ s) h = omega (arith, length-take k s (omega arith))

version-chars : all_chars is_url_char qr_payload_version ≡ true
unfolding is_url_char
version-chars = refl

-- The four parts of a payload that is put together from parts without a dot.
split_dots-parts :
    (id digits sig : Text)
    → all_chars is_url_char id ≡ true
    → all_chars is_digit digits ≡ true
    → all_chars is_url_char sig ≡ true
    → split_dots (qr_payload_version ++ dot ∷ (id ++ dot ∷ (digits ++ dot ∷ sig)))
      ≡ qr_payload_version ∷ id ∷ digits ∷ sig ∷ []
split_dots-parts id digits sig hid hd hs =
    rw
      (
        split_dots-append is_url_char url-ne-dot qr_payload_version
            (id ++ dot ∷ (digits ++ dot ∷ sig)) version-chars,
        split_dots-append is_url_char url-ne-dot id (digits ++ dot ∷ sig) hid,
        split_dots-append is_digit digit-ne-dot digits sig hd,
        split_dots-whole is_url_char url-ne-dot sig hs,
      )
      refl

parts_of-parts :
    (id digits sig : Text)
    → 0 < length id
    → 0 < length sig
    → number_from 0 digits ≤ max_safe_integer
    → parts_of (qr_payload_version ∷ id ∷ digits ∷ sig ∷ [])
      ≡ some (record { booking_id = id; unix_minute = number_from 0 digits; signature = sig })
parts_of-parts [] digits sig hid hs hn = absurd (omega arith)
parts_of-parts (c ∷ id) digits [] hid hs hn = absurd (omega arith)
parts_of-parts (c ∷ id) digits (d ∷ sig) hid hs hn = ground arith

is_run-intro :
    (test : ℕ → Bool) (lo hi : ℕ) (s : Text)
    → all_chars test s ≡ true
    → lo ≤ length s
    → length s ≤ hi
    → is_run test lo hi s ≡ true
is_run-intro test lo hi s h l u = ground arith

module _ (hmac : ℕ → Text → Text)
    (base64url : (key : ℕ) (text : Text) → all_chars is_url_char (hmac key text) ≡ true)
    (long : (key : ℕ) (text : Text) → qr_signature_length ≤ length (hmac key text)) where
  sign-chars :
      (key : ℕ) (id : Text) (minute : ℕ)
      → all_chars is_url_char (sign_qr_code hmac key id minute) ≡ true
  unfolding sign_qr_code
  sign-chars key id minute = all_chars-take is_url_char qr_signature_length _ (base64url _ _)

  length-sign :
      (key : ℕ) (id : Text) (minute : ℕ)
      → length (sign_qr_code hmac key id minute) ≡ qr_signature_length
  unfolding sign_qr_code
  length-sign key id minute = length-take qr_signature_length _ (long _ _)

  number-printed : (minute : ℕ) → minute < 10 ^ 15 → number_from 0 (print_number minute) ≡ minute
  unfolding print_number
  number-printed minute h = print_digits-number 16 minute (omega arith)

  is_run-printed :
      (minute : ℕ) → minute < 10 ^ 15 → is_run is_digit 1 15 (print_number minute) ≡ true
  unfolding print_number
  is_run-printed minute h =
      is_run-intro is_digit 1 15 _ (print_digits-digits 16 minute)
        (length-print_digits-pos 15 minute) (length-print_digits-le 16 14 minute h)

  pattern-parts :
      (id digits sig : Text)
      → is_run is_url_char 1 64 id ≡ true
      → is_run is_digit 1 15 digits ≡ true
      → is_run is_url_char qr_signature_length qr_signature_length sig ≡ true
      → qr_payload_pattern (qr_payload_version ∷ id ∷ digits ∷ sig ∷ []) ≡ true
  unfolding qr_payload_pattern
  pattern-parts id digits sig hid hd hs = rw (hid, hd, hs) refl

  run-chars :
      (test : ℕ → Bool) (lo hi : ℕ) (s : Text)
      → is_run test lo hi s ≡ true
      → all_chars test s ≡ true
  run-chars test lo hi s h = ground arith

  run-length : (test : ℕ → Bool) (lo hi : ℕ) (s : Text) → is_run test lo hi s ≡ true → lo ≤ length s
  run-length test lo hi s h = ground arith

  -- A payload that is built for an id of 1 to 64 characters of the base64url alphabet and a minute
  -- of at most 15 digits is read back as its id, its minute and its signature, where the digests are
  -- texts of that alphabet of at least the length that is kept.
  pub parse_qr_payload-build_qr_payload :
      (key : ℕ) (id : Text) (minute : ℕ)
      → is_run is_url_char 1 64 id ≡ true
      → minute < 10 ^ 15
      → parse_qr_payload (build_qr_payload hmac key id minute)
        ≡ some (record {
          booking_id = id;
          unix_minute = minute;
          signature = sign_qr_code hmac key id minute;
        })
  unfolding parse_qr_payload build_qr_payload
  parse_qr_payload-build_qr_payload key id minute hid hm =
      let digits = print_number minute in
      let sig = sign_qr_code hmac key id minute in
      let len = length-sign key id minute in
      let digit_run = is_run-printed minute hm in
      let parts : split_dots (qr_payload_version ++ dot ∷ (id ++ dot ∷ (digits ++ dot ∷ sig)))
          ≡ qr_payload_version ∷ id ∷ digits ∷ sig ∷ [] =
        split_dots-parts id digits sig (run-chars is_url_char 1 64 id hid)
          (run-chars is_digit 1 15 digits digit_run) (sign-chars key id minute) in
      let good : qr_payload_pattern (qr_payload_version ∷ id ∷ digits ∷ sig ∷ []) ≡ true =
        pattern-parts id digits sig hid digit_run (
          is_run-intro is_url_char qr_signature_length qr_signature_length sig
            (sign-chars key id minute) (omega (arith, len)) (omega (arith, len))) in
      let read : parts_of (qr_payload_version ∷ id ∷ digits ∷ sig ∷ [])
          ≡ some (record { booking_id = id; unix_minute = number_from 0 digits; signature = sig }) =
        parts_of-parts id digits sig (run-length is_url_char 1 64 id hid) (omega (arith, len))
          (omega (arith, number-printed minute hm)) in
      rw (parts, good, read, number-printed minute hm) refl
