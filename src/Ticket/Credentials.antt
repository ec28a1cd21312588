-- ===== src/Ticket/Credentials.antt =====
-- The access code that a booking is given (`generateAccessCode` of src/booking/credentials.ts). The
-- random bytes are its argument; the buffer is a 32-bit integer, whose shifts and masks are written
-- out on its unsigned value.
pub mod Packed
use saprk_parking_api.Prelude.{
  ℕ, zero, suc, ◌+◌, ◌-◌, ◌*◌, ◌/◌, ◌%◌, ◌^◌, List, [], ◌∷◌, ◌++◌, Text,
}

abbrev pub access_code_alphabet : Text
access_code_alphabet =
    b'0' ∷ b'1' ∷ b'2' ∷ b'3' ∷ b'4' ∷ b'5' ∷ b'6' ∷ b'7' ∷ b'8' ∷ b'9' ∷ b'A' ∷ b'B' ∷ b'C' ∷ b'D'
    ∷ b'E' ∷ b'F' ∷ b'G' ∷ b'H' ∷ b'J' ∷ b'K' ∷ b'M' ∷ b'N' ∷ b'P' ∷ b'Q' ∷ b'R' ∷ b'S' ∷ b'T'
    ∷ b'V' ∷ b'W' ∷ b'X' ∷ b'Y' ∷ b'Z' ∷ []

-- `ALPHABET[i]`, which is no text past the end.
abbrev pub char_at : Text → ℕ → Text
char_at [] i = []
char_at (c ∷ s) zero = c ∷ []
char_at (c ∷ s) (suc i) = char_at s i

unfoldable pub symbol : ℕ → Text
symbol i = char_at access_code_alphabet i

-- `while (bits >= 5) { bits -= 5; code += ALPHABET[(buffer >>> bits) & 31] }`: what is added to the
-- code, and the bits left.
abbrev pub drained : ℕ → ℕ → Text
drained buffer (suc (suc (suc (suc (suc bits))))) =
    symbol (buffer / 2 ^ bits % 32) ++ drained buffer bits
drained buffer bits = []

abbrev pub bits_left : ℕ → ℕ
bits_left (suc (suc (suc (suc (suc bits))))) = bits_left bits
bits_left bits = bits

-- `(buffer << 8) | byte`: the shift leaves its low 8 bits clear.
abbrev pub shift_in : ℕ → ℕ → ℕ
shift_in buffer byte = (buffer * 256 + byte) % 2 ^ 32

-- `if (bits > 0) code += ALPHABET[(buffer << (5 - bits)) & 31]`
abbrev pub rest_symbol : ℕ → ℕ → Text
rest_symbol buffer zero = []
rest_symbol buffer (suc bits) = symbol (buffer * 2 ^ (5 - suc bits) % 2 ^ 32 % 32)

unfoldable pub pack : List ℕ → ℕ → ℕ → Text
pack [] buffer bits = rest_symbol buffer bits
pack (byte ∷ bytes) buffer bits =
    drained (shift_in buffer byte) (bits + 8)
    ++ pack bytes (shift_in buffer byte) (bits_left (bits + 8))

unfoldable pub generate_access_code : List ℕ → Text
unfolding pack
generate_access_code bytes = pack bytes 0 0
