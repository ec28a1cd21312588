-- ===== src/Ticket/Credentials/Packed.antt =====
-- What an access code is of its random bytes (src/booking/credentials.ts).
use saprk_parking_api.Prelude.{
  ℕ, zero, suc, ◌+◌, ◌-◌, ◌*◌, ◌/◌, ◌%◌, ◌^◌, ◌<◌, ◌≡◌, refl, ap, ◌∙◌, Bool, true, false, ◌&&◌,
  List, [], ◌∷◌, ◌++◌, Text, All, length, length-append, arith, ◌==◌, ==_iff, Bool-cases, inl, inr,
  if◌then◌else◌,
}
use saprk_parking_api.Ticket.Credentials.{
  access_code_alphabet, symbol, drained, bits_left, shift_in, rest_symbol, pack,
  generate_access_code,
}

-- The place of a character in the alphabet.
abbrev place_in : Text → ℕ → ℕ
place_in [] c = 0
place_in (d ∷ s) c = if d == c then 0 else suc (place_in s c)

-- A code read as a number to the base 32, most significant symbol first.
unfoldable pub code_number : ℕ → Text → ℕ
code_number acc [] = acc
code_number acc (c ∷ s) = code_number (acc * 32 + place_in access_code_alphabet c) s

-- Bytes read as a number to the base 256.
unfoldable pub bytes_number : ℕ → List ℕ → ℕ
bytes_number acc [] = acc
bytes_number acc (b ∷ bytes) = bytes_number (acc * 256 + b) bytes

code_number-append :
    (acc : ℕ) (s t : Text) → code_number acc (s ++ t) ≡ code_number (code_number acc s) t
unfolding code_number
code_number-append acc [] t = refl
code_number-append acc (c ∷ s) t =
    code_number-append (acc * 32 + place_in access_code_alphabet c) s t

eq_at : (a b : ℕ) → (a == b) ≡ true → a ≡ b
eq_at a b h = ground arith

-- A text that is the character at place `n`.
abbrev is_place : ℕ → Text → Bool
is_place n [] = false
is_place n (c ∷ []) = place_in access_code_alphabet c == n
is_place n (c ∷ d ∷ s) = false

module _ (test : ℕ → Bool) where
  abbrev all_below : ℕ → Bool
  all_below zero = true
  all_below (suc n) = test n && all_below n

  all_below-at : (m n : ℕ) → all_below m ≡ true → n < m → test n ≡ true
  all_below-at zero n h lt = absurd (omega arith)
  all_below-at (suc m) n h lt = elim (Bool-cases (m == n)) [
    | inl e ↦ ground (arith, ==_iff m n)
    | inr e ↦ ground (arith, all_below-at m n)
  ]

unfoldable is_placed : ℕ → Bool
unfolding symbol
is_placed n = is_place n (symbol n)

all_placed : all_below is_placed 32 ≡ true
unfolding is_placed
all_placed = refl

symbol-placed : (n : ℕ) → n < 32 → is_place n (symbol n) ≡ true
unfolding is_placed
symbol-placed n h = all_below-at is_placed 32 n all_placed h

read-place :
    (acc n : ℕ) (s t : Text)
    → is_place n s ≡ true
    → code_number acc (s ++ t) ≡ code_number (acc * 32 + n) t
unfolding code_number
read-place acc n [] t h = absurd (cc)
read-place acc n (c ∷ []) t h =
    ap (λ (x : ℕ). code_number (acc * 32 + x) t) (eq_at (place_in access_code_alphabet c) n h)
read-place acc n (c ∷ d ∷ s) t h = absurd (cc)

read-alone : (acc n : ℕ) (s : Text) → is_place n s ≡ true → code_number acc s ≡ acc * 32 + n
unfolding code_number
read-alone acc n [] h = absurd (cc)
read-alone acc n (c ∷ []) h =
    ap (λ (x : ℕ). acc * 32 + x) (eq_at (place_in access_code_alphabet c) n h)
read-alone acc n (c ∷ d ∷ s) h = absurd (cc)

read-symbol :
    (acc n : ℕ) (t : Text) → n < 32 → code_number acc (symbol n ++ t) ≡ code_number (acc * 32 + n) t
read-symbol acc n t h = read-place acc n (symbol n) t (symbol-placed n h)

read-last : (acc n : ℕ) → n < 32 → code_number acc (symbol n) ≡ acc * 32 + n
read-last acc n h = read-alone acc n (symbol n) (symbol-placed n h)

bits_left-below : (k : ℕ) → bits_left k < 5
bits_left-below zero = omega arith
bits_left-below (suc zero) = omega arith
bits_left-below (suc (suc zero)) = omega arith
bits_left-below (suc (suc (suc zero))) = omega arith
bits_left-below (suc (suc (suc (suc zero)))) = omega arith
bits_left-below (suc (suc (suc (suc (suc k))))) = bits_left-below k

-- The number that a code reads as once the symbols of the buffer are added.
abbrev acc_after : ℕ → ℕ → ℕ → ℕ
acc_after acc b (suc (suc (suc (suc (suc bits))))) = acc_after (acc * 32 + b / 2 ^ bits % 32) b bits
acc_after acc b bits = acc

read-drained : (acc b bits : ℕ) → code_number acc (drained b bits) ≡ acc_after acc b bits
unfolding code_number
read-drained acc b (suc (suc (suc (suc (suc bits))))) =
    rw (read-symbol acc (b / 2 ^ bits % 32) (drained b bits) (omega arith))
      (read-drained (acc * 32 + b / 2 ^ bits % 32) b bits)
read-drained acc b zero = refl
read-drained acc b (suc zero) = refl
read-drained acc b (suc (suc zero)) = refl
read-drained acc b (suc (suc (suc zero))) = refl
read-drained acc b (suc (suc (suc (suc zero)))) = refl

-- The code so far and the bits left of the buffer are the bytes so far.
abbrev Reads : ℕ → ℕ → ℕ → ℕ → Type 0
Reads acc b bits n = acc * 2 ^ bits + b % 2 ^ bits ≡ n

Reads-shift_in :
    (acc b y k n : ℕ)
    → k < 5
    → y < 256
    → Reads acc b k n
    → Reads (acc_after acc (shift_in b y) (k + 8)) (shift_in b y) (bits_left (k + 8)) (n * 256 + y)
Reads-shift_in acc b y zero n lt h r = omega arith
Reads-shift_in acc b y (suc zero) n lt h r = omega arith
Reads-shift_in acc b y (suc (suc zero)) n lt h r = omega arith
Reads-shift_in acc b y (suc (suc (suc zero))) n lt h r = omega arith
Reads-shift_in acc b y (suc (suc (suc (suc zero)))) n lt h r = omega arith
Reads-shift_in acc b y (suc (suc (suc (suc (suc k))))) n lt h r = absurd (omega arith)

-- The bits left after `m` bytes, and what the last symbol is padded by.
abbrev left_after : ℕ → ℕ → ℕ
left_after zero bits = bits
left_after (suc m) bits = left_after m (bits_left (bits + 8))

abbrev padding : ℕ → ℕ
padding zero = 1
padding (suc bits) = 2 ^ (5 - suc bits)

Reads-last :
    (acc b k n : ℕ)
    → suc k < 5
    → Reads acc b (suc k) n
    → acc * 32 + b * 2 ^ (5 - suc k) % 2 ^ 32 % 32 ≡ n * 2 ^ (5 - suc k)
Reads-last acc b zero n lt r = omega arith
Reads-last acc b (suc zero) n lt r = omega arith
Reads-last acc b (suc (suc zero)) n lt r = omega arith
Reads-last acc b (suc (suc (suc zero))) n lt r = omega arith
Reads-last acc b (suc (suc (suc (suc k)))) n lt r = absurd (omega arith)

bits_left-lt : (k : ℕ) → bits_left (k + 8) < 5
bits_left-lt k = bits_left-below (k + 8)

read-rest_symbol :
    (acc b k n : ℕ) → k < 5 → Reads acc b k n → code_number acc (rest_symbol b k) ≡ n * padding k
unfolding code_number
read-rest_symbol acc b zero n lt r = omega arith
read-rest_symbol acc b (suc k) n lt r =
    rw (read-last acc (b * 2 ^ (5 - suc k) % 2 ^ 32 % 32) (omega arith)) (Reads-last acc b k n lt r)

pub read-pack :
    (acc b k n : ℕ) (bytes : List ℕ)
    → k < 5
    → All (λ y. y < 256) bytes
    → Reads acc b k n
    → code_number acc (pack bytes b k)
      ≡ bytes_number n bytes * padding (left_after (length bytes) k)
unfolding pack bytes_number
read-pack acc b k n [] lt h r = read-rest_symbol acc b k n lt r
read-pack acc b k n (y ∷ bytes) lt h r =
    rw
      (
        code_number-append acc (drained (shift_in b y) (k + 8))
            (pack bytes (shift_in b y) (bits_left (k + 8))),
        read-drained acc (shift_in b y) (k + 8),
      )
      (read-pack (acc_after acc (shift_in b y) (k + 8)) (shift_in b y) (bits_left (k + 8))
        (n * 256 + y) bytes (bits_left-lt k) h.1 (Reads-shift_in acc b y k n lt h.0 r))

-- How many symbols `m` bytes add to a buffer of `bits` bits.
abbrev symbols_of : ℕ → ℕ
symbols_of (suc (suc (suc (suc (suc bits))))) = suc (symbols_of bits)
symbols_of bits = 0

length-alone : (s : Text) (n : ℕ) → is_place n s ≡ true → length s ≡ 1
length-alone [] n h = absurd (cc)
length-alone (c ∷ []) n h = refl
length-alone (c ∷ d ∷ s) n h = absurd (cc)

length-symbol : (n : ℕ) → n < 32 → length (symbol n) ≡ 1
length-symbol n h = length-alone (symbol n) n (symbol-placed n h)

length-drained : (b bits : ℕ) → length (drained b bits) ≡ symbols_of bits
length-drained b (suc (suc (suc (suc (suc bits))))) =
    rw
      (
        length-append (symbol (b / 2 ^ bits % 32)) (drained b bits),
        length-symbol (b / 2 ^ bits % 32) (omega arith),
        length-drained b bits,
      )
      (omega arith)
length-drained b zero = refl
length-drained b (suc zero) = refl
length-drained b (suc (suc zero)) = refl
length-drained b (suc (suc (suc zero))) = refl
length-drained b (suc (suc (suc (suc zero)))) = refl

abbrev last_symbols : ℕ → ℕ
last_symbols zero = 0
last_symbols (suc bits) = 1

abbrev symbols_after : ℕ → ℕ → ℕ
symbols_after zero bits = last_symbols bits
symbols_after (suc m) bits = symbols_of (bits + 8) + symbols_after m (bits_left (bits + 8))

length-rest_symbol : (b k : ℕ) → length (rest_symbol b k) ≡ last_symbols k
length-rest_symbol b zero = refl
length-rest_symbol b (suc k) = length-symbol (b * 2 ^ (5 - suc k) % 2 ^ 32 % 32) (omega arith)

length-pack : (b k : ℕ) (bytes : List ℕ) → length (pack bytes b k) ≡ symbols_after (length bytes) k
unfolding pack
length-pack b k [] = length-rest_symbol b k
length-pack b k (y ∷ bytes) =
    rw
      (
        length-append (drained (shift_in b y) (k + 8))
            (pack bytes (shift_in b y) (bits_left (k + 8))),
        length-drained (shift_in b y) (k + 8),
        length-pack (shift_in b y) (bits_left (k + 8)) bytes,
      )
      refl

-- Of 16 bytes, a code has 26 symbols, and read to the base 32 by the places of the alphabet it is
-- four times the number that the bytes are to the base 256: no bit of them is lost.
pub generate_access_code-number :
    (bytes : List ℕ)
    → length bytes ≡ 16
    → All (λ y. y < 256) bytes
    → (length (generate_access_code bytes) ≡ 26)
      × (code_number 0 (generate_access_code bytes) ≡ bytes_number 0 bytes * 4)
unfolding generate_access_code
generate_access_code-number bytes len h = (
  length-pack 0 0 bytes ∙ ap (λ m. symbols_after m 0) len,
  read-pack 0 0 0 0 bytes (omega arith) h (omega arith)
      ∙ ap (λ m. bytes_number 0 bytes * padding (left_after m 0)) len,
)
