-- ===== src/Slots/Crc.antt =====
-- The ranges of the CRC-16 and of the hash slot of fqdnrules/fqdn_slots.py.
use Prim.Native.Nat.{bit_and, bit_xor, bit_and-bitwise, digits, min}
use fun_with_dragonfly_db.Prelude.{
  ℕ, zero, suc, ◌*◌, ◌/◌, ◌^◌, ◌≤◌, ◌<◌, [], ◌∷◌, inl, inr, arith, Bytes, Bool-cases, ◌==◌,
}
use fun_with_dragonfly_db.Slots.{crc16_bit, crc16_bits, crc16_from, crc16, slot, num_slots}

-- The digit recursion that `bit_and` stands for, on `n` digits.
and_digits-le : (n a b : ℕ) → digits (λ b. zero) min n a b ≤ b
and_digits-le zero a b = omega arith
and_digits-le (suc n) zero b = omega arith
and_digits-le (suc n) (suc a) b = omega (arith, and_digits-le n (suc a / 2) (b / 2))

pub bit_and-le : (a b : ℕ) → bit_and a b ≤ b
bit_and-le a b = omega (arith, bit_and-bitwise a b, and_digits-le a a b)

crc16_bit-le : (crc : ℕ) → crc16_bit crc ≤ 0xFFFF
unfolding crc16_bit
crc16_bit-le crc = elim (Bool-cases (bit_and crc 0x8000 == 0)) [
  | inl e ↦ rw e (bit_and-le (crc * 2) 0xFFFF)
  | inr e ↦ rw e (bit_and-le _ 0xFFFF)
]

crc16_bits-le : (n crc : ℕ) → crc16_bits (suc n) crc ≤ 0xFFFF
unfolding crc16_bits
crc16_bits-le zero crc = crc16_bit-le crc
crc16_bits-le (suc n) crc = crc16_bits-le n (crc16_bit crc)

crc16_from-le : (crc : ℕ) (bytes : Bytes) → crc ≤ 0xFFFF → crc16_from crc bytes ≤ 0xFFFF
unfolding crc16_from
crc16_from-le crc [] h = h
crc16_from-le crc (b ∷ bytes) h =
    crc16_from-le (crc16_bits 8 (bit_xor crc (b * 2 ^ 8))) bytes (crc16_bits-le 7 _)

-- The checksum stays a 16-bit word, and the slot is one of the cluster's.
pub crc16-slot_range : (bytes : Bytes) → (crc16 bytes ≤ 0xFFFF) × (slot bytes < num_slots)
unfolding crc16 slot
crc16-slot_range bytes =
    (crc16_from-le 0 bytes (omega arith), omega (arith, bit_and-le (crc16_from 0 bytes) 0x3FFF))
