-- ===== src/Png/Crc.antt =====
-- The table and the loop of `crc32` in `encodePngRgba`, against the register that defines the checksum.
use Prim.Native.Nat.{bit_xor}
use weather_rtos.Base.{
  ℕ, zero, suc, ◌+◌, ◌*◌, ◌/◌, ◌%◌, ◌≡◌, refl, sym, ap, ap₂, ◌∙◌, [], ◌∷◌, ◌==◌, if◌then◌else◌,
  Bool-cases, inl, inr, arith,
}
use weather_rtos.Base.Text.{Text}
use weather_rtos.Base.Xor.{
  half-bit_xor, parity-bit_xor, bit_xor_swap, bit_xor_cancel, bit_xor_assoc, bit_xor_comm,
  bit_xor-parts, moved_up, low_byte, high_byte, low_digits, high_digits,
}
use weather_rtos.Png.{crc_bits, crc_entry, crc_loop, crc32}

-- The register of the PNG specification takes one bit: it moves down by one, and the polynomial
-- x^32 + x^26 + x^23 + x^22 + x^16 + x^12 + x^11 + x^10 + x^8 + x^7 + x^5 + x^4 + x^2 + x + 1, its
-- lowest power first, is added if the bit that leaves it and the one that comes differ.
unfoldable pub take_bit : ℕ → ℕ → ℕ
take_bit register bit =
    if (register + bit) % 2 == 1 then bit_xor (register / 2) 0xedb88320 else register / 2

-- So many bits of a byte, the lowest first.
unfoldable pub take_bits : ℕ → ℕ → ℕ → ℕ
unfolding take_bit
take_bits zero byte register = register
take_bits (suc n) byte register = take_bits n (byte / 2) (take_bit register (byte % 2))

unfoldable pub take_bytes : Text → ℕ → ℕ
unfolding take_bits
take_bytes [] register = register
take_bytes (byte ∷ bytes) register = take_bytes bytes (take_bits 8 byte register)

-- It starts with all ones, and its complement is the checksum.
unfoldable pub crc_reference : Text → ℕ
unfolding take_bytes
crc_reference bytes = bit_xor (take_bytes bytes 0xffffffff) 0xffffffff

-- One round of the inner loop for the table.
abbrev shift_down : ℕ → ℕ
shift_down crc = if crc % 2 == 1 then bit_xor 3988292384 (crc / 2) else crc / 2

shift_down-bit_xor : (a m : ℕ) → shift_down (bit_xor a (m * 2)) ≡ bit_xor (shift_down a) m
shift_down-bit_xor a m = elim (Bool-cases (a % 2 == 1)) [
  | inl odd ↦ rw (parity, half, odd) (sym (bit_xor_assoc 3988292384 (a / 2) m))
  | inr even ↦ rw (parity, half, even) refl
]
  where
    parity : bit_xor a (m * 2) % 2 ≡ a % 2
    parity = omega (arith, parity-bit_xor a (m * 2))

    half : bit_xor a (m * 2) / 2 ≡ bit_xor (a / 2) m
    half = half-bit_xor a (m * 2) ∙ ap (bit_xor (a / 2)) (omega arith)

-- The digits in front of those that leave are only moved down.
crc_bits-bit_xor : (n a b : ℕ) → crc_bits n (bit_xor a (moved_up n b)) ≡ bit_xor (crc_bits n a) b
unfolding crc_bits
crc_bits-bit_xor zero a b = refl
crc_bits-bit_xor (suc n) a b =
    ap (crc_bits n) (shift_down-bit_xor a (moved_up n b)) ∙ crc_bits-bit_xor n (shift_down a) b

crc_bits-parts : (x : ℕ) → crc_bits 8 x ≡ bit_xor (crc_bits 8 (x % 256)) (x / 256)
crc_bits-parts x =
    ap (crc_bits 8) (sym (bit_xor-parts 8 x))
    ∙ crc_bits-bit_xor 8 (low_digits 8 x) (high_digits 8 x)
    ∙ ap₂ (λ l h. bit_xor (crc_bits 8 l) h) (low_byte x) (high_byte x)

take_bit-bit_xor :
    (crc byte : ℕ) → bit_xor (take_bit crc (byte % 2)) (byte / 2) ≡ shift_down (bit_xor crc byte)
unfolding take_bit
take_bit-bit_xor crc byte = elim (Bool-cases ((crc + byte % 2) % 2 == 1)) [
  | inl odd ↦
      rw (odd, parity, odd)
        (bit_xor_swap (crc / 2) 3988292384 (byte / 2)
          ∙ bit_xor_comm (bit_xor (crc / 2) (byte / 2)) 3988292384
          ∙ ap (bit_xor 3988292384) (sym (half-bit_xor crc byte)))
  | inr even ↦ rw (even, parity, even) (sym (half-bit_xor crc byte))
]
  where
    parity : bit_xor crc byte % 2 ≡ (crc + byte % 2) % 2
    parity = omega (arith, parity-bit_xor crc byte)

take_bits-crc_bits :
    (n byte crc : ℕ)
    → bit_xor (take_bits n byte crc) (high_digits n byte) ≡ crc_bits n (bit_xor crc byte)
unfolding take_bits crc_bits
take_bits-crc_bits zero byte crc = refl
take_bits-crc_bits (suc n) byte crc =
    take_bits-crc_bits n (byte / 2) (take_bit crc (byte % 2))
    ∙ ap (crc_bits n) (take_bit-bit_xor crc byte)

high-bit_xor :
    (n x y : ℕ) → high_digits n (bit_xor x y) ≡ bit_xor (high_digits n x) (high_digits n y)
high-bit_xor zero x y = refl
high-bit_xor (suc n) x y = ap (high_digits n) (half-bit_xor x y) ∙ high-bit_xor n (x / 2) (y / 2)

-- The entry of the table does what the register does with the eight bits.
take_bits-entry :
    (byte crc : ℕ) → bit_xor (crc_entry (bit_xor crc byte % 256)) (crc / 256) ≡ take_bits 8 byte crc
unfolding crc_entry
take_bits-entry byte crc =
    sym (bit_xor_cancel (bit_xor entry (crc / 256)) (byte / 256))
    ∙ ap (λ t. bit_xor t (byte / 256)) (sym same)
    ∙ bit_xor_cancel (take_bits 8 byte crc) (byte / 256)
  where
    entry : ℕ
    entry = crc_bits 8 (bit_xor crc byte % 256)

    front : bit_xor crc byte / 256 ≡ bit_xor (crc / 256) (byte / 256)
    front =
        sym (high_byte (bit_xor crc byte))
        ∙ high-bit_xor 8 crc byte
        ∙ ap₂ bit_xor (high_byte crc) (high_byte byte)

    same :
        bit_xor (take_bits 8 byte crc) (byte / 256)
        ≡ bit_xor (bit_xor entry (crc / 256)) (byte / 256)
    same =
        ap (bit_xor (take_bits 8 byte crc)) (sym (high_byte byte))
        ∙ take_bits-crc_bits 8 byte crc
        ∙ crc_bits-parts (bit_xor crc byte)
        ∙ ap (bit_xor entry) front
        ∙ sym (bit_xor_assoc entry (crc / 256) (byte / 256))

crc_loop-take_bytes : (bytes : Text) (crc : ℕ) → crc_loop crc bytes ≡ take_bytes bytes crc
unfolding crc_loop take_bytes
crc_loop-take_bytes [] crc = refl
crc_loop-take_bytes (byte ∷ bytes) crc =
    ap (λ t. crc_loop t bytes) (take_bits-entry byte crc)
    ∙ crc_loop-take_bytes bytes (take_bits 8 byte crc)

-- The checksum that the loop computes byte by byte with its table is the CRC-32 of the PNG
-- specification, of which a register takes the bits of each byte one by one, the lowest first.
pub crc32-reference : (bytes : Text) → crc32 bytes ≡ crc_reference bytes
unfolding crc32 crc_reference
crc32-reference bytes = ap (λ t. bit_xor t 4294967295) (crc_loop-take_bytes bytes 4294967295)
