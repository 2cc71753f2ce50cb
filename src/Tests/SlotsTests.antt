-- ===== src/Tests/SlotsTests.antt =====
-- Examples for fqdnrules/fqdn_slots.py.
use fun_with_dragonfly_db.Prelude.{
  ℕ, ◌%◌, ◌≤◌, ◌<◌, ◌≡◌, ◌↔◌, refl, true, [], ◌∷◌, arith, Text, codes, encode, decimal, ok,
}
use fun_with_dragonfly_db.Slots.{
  crc16, slot, key_slot, range_lo, range_hi, bucket_has_modulo_match, BucketTable, token,
  compute_bucket_table,
}
use fun_with_dragonfly_db.Slots.KeySlot.{key_slot_tagged}
use fun_with_dragonfly_db.Slots.Modulo.{bucket_has_modulo_match_iff}
use fun_with_dragonfly_db.Slots.Ranges.{bucket_of, bucket_of-holds}
use fun_with_dragonfly_db.Slots.Table.{IsTable, compute_bucket_table_small}
use fun_with_dragonfly_db.Slots.Tokens.{token_in_share}

-- The check value of CRC-16/XMODEM.
crc16_check_value : crc16 (codes "123456789") ≡ 0x31C3
unfolding crc16
crc16_check_value = refl

-- The table of testdata/slot_tokens_golden.json for eight buckets.
abbrev table_8 : BucketTable
table_8 = record {
  tokens =
      codes "3"
      ∷ codes "43"
      ∷ codes "15"
      ∷ codes "95"
      ∷ codes "243"
      ∷ codes "56"
      ∷ codes "22"
      ∷ codes "80"
      ∷ [];
  slots = 1584 ∷ 3937 ∷ 4178 ∷ 6651 ∷ 9380 ∷ 11509 ∷ 13798 ∷ 14959 ∷ [];
  modulo_safe = true;
}

table_8_golden : compute_bucket_table 8 ≡ ok table_8
unfolding compute_bucket_table slot encode decimal
table_8_golden = refl

token_in_share_example :
    (tok : Text) × (token table_8 5 ≡ ok tok)
    × (range_lo 5 8 ≤ slot (encode tok))
    × (slot (encode tok) < range_hi 5 8)
token_in_share_example = token_in_share 8 5 table_8 table_8_golden (omega arith)

bucket_of-holds_example :
    (bucket_of 8 11509 < 8)
    × (range_lo (bucket_of 8 11509) 8 ≤ 11509)
    × (11509 < range_hi (bucket_of 8 11509) 8)
bucket_of-holds_example = bucket_of-holds 8 11509 (omega arith) (omega arith)

bucket_has_modulo_match_iff_example :
    (bucket_has_modulo_match 10240 12288 8 5 ≡ true)
    ↔ ((s : ℕ) × (10240 ≤ s) × (s < 12288) × (s % 8 ≡ 5))
bucket_has_modulo_match_iff_example = bucket_has_modulo_match_iff 10240 12288 8 5 (omega arith)

compute_bucket_table_small_example :
    (t : BucketTable) × (compute_bucket_table 16 ≡ ok t) × IsTable 16 t
compute_bucket_table_small_example = compute_bucket_table_small 16 (omega arith) (omega arith)

key_slot_tagged_example :
    key_slot (codes "r:{ns:example.com}:*:443") ≡ slot (encode (codes "ns:example.com"))
key_slot_tagged_example =
    key_slot_tagged (codes "r:") (codes "ns:example.com") (codes ":*:443") (omega arith)
      (omega arith) (cc)
