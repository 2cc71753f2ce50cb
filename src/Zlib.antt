-- ===== src/Zlib.antt =====
-- `zlib.crc32` of the standard library, which fqdnrules/fqdn_pattern.py calls to pick a bucket.
use Prim.Native.Nat.{bit_xor}
use fun_with_dragonfly_db.Prelude.{
  ℕ, zero, suc, ◌%◌, ◌/◌, ◌≡◌, refl, [], ◌∷◌, ◌==◌, if◌then◌else◌, Bytes, codes,
}

-- One bit of the reflected CRC-32, polynomial 0xEDB88320.
crc32_bit : ℕ → ℕ
crc32_bit crc = if crc % 2 == 1 then bit_xor (crc / 2) 0xEDB88320 else crc / 2

crc32_bits : ℕ → ℕ → ℕ
unfolding crc32_bit
crc32_bits zero crc = crc
crc32_bits (suc n) crc = crc32_bits n (crc32_bit crc)

crc32_from : ℕ → Bytes → ℕ
unfolding crc32_bits
crc32_from crc [] = crc
crc32_from crc (b ∷ bs) = crc32_from (crc32_bits 8 (bit_xor crc b)) bs

unfoldable pub crc32 : Bytes → ℕ
unfolding crc32_from
crc32 bs = bit_xor (crc32_from 0xFFFFFFFF bs) 0xFFFFFFFF

crc32_check_value : crc32 (codes "123456789") ≡ 0xCBF43926
unfolding crc32
crc32_check_value = refl
