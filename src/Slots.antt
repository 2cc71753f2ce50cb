-- ===== src/Slots.antt =====
-- fqdnrules/fqdn_slots.py: CRC-16, hash slots, the partition of the slots and the token table.
pub mod Crc
pub mod KeySlot
pub mod Modulo
pub mod Ranges
pub mod Table
pub mod Tokens
use Prim.Native.Nat.{bit_and, bit_xor, max}
use fun_with_dragonfly_db.Prelude.{
  ℕ, zero, suc, ◌+◌, ◌-◌, ◌*◌, ◌/◌, ◌%◌, ◌^◌, Bool, true, false, not, ◌&&◌, ◌||◌, Option, none,
  some, List, [], ◌∷◌, ltb, leb, ◌==◌, if◌then◌else◌, length, get_elem?, set, replicate, drop, take,
  Text, Bytes, encode, decimal, Result, ok, err, value_error, index_error, runtime_error, ◌>>=◌,
  ◌>>◌, raise_if,
}

abbrev pub num_slots : ℕ
num_slots = 16384

-- One round of the inner loop: shift, and subtract the polynomial if the top bit was set.
unfoldable pub crc16_bit : ℕ → ℕ
crc16_bit crc =
    if bit_and crc 0x8000 == 0
    then bit_and (crc * 2) 0xFFFF
    else bit_and (bit_xor (crc * 2) 0x1021) 0xFFFF

unfoldable pub crc16_bits : ℕ → ℕ → ℕ
unfolding crc16_bit
crc16_bits zero crc = crc
crc16_bits (suc n) crc = crc16_bits n (crc16_bit crc)

unfoldable pub crc16_from : ℕ → Bytes → ℕ
unfolding crc16_bits
crc16_from crc [] = crc
crc16_from crc (byte ∷ bytes) = crc16_from (crc16_bits 8 (bit_xor crc (byte * 2 ^ 8))) bytes

unfoldable pub crc16 : Bytes → ℕ
unfolding crc16_from
crc16 bytes = crc16_from 0x0000 bytes

unfoldable pub slot : Bytes → ℕ
unfolding crc16
slot bytes = bit_and (crc16 bytes) 0x3FFF

-- `s.find(c)`
unfoldable pub find_at : ℕ → Text → Option ℕ
find_at b [] = none
find_at b (c ∷ s) =
    let rest = find_at b s in
    if c == b then some 0 else elim rest [ none ↦ none | some i ↦ some (suc i) ]

-- `s.find(c, start)`
unfoldable pub find_after : ℕ → ℕ → Text → Option ℕ
unfolding find_at
find_after b start s = elim (find_at b (drop start s)) [ none ↦ none | some i ↦ some (start + i) ]

-- `s[start:end]`
unfoldable pub slice : ℕ → ℕ → Text → Text
slice start end s = take (end - start) (drop start s)

-- The second half of `key_slot`: the closing brace, and a span that is not empty.
unfoldable pub span_slot : Text → ℕ → Option ℕ → ℕ
unfolding slice
span_slot key start none = slot (encode key)
span_slot key start (some end) =
    if end == start + 1 then slot (encode key) else slot (encode (slice (start + 1) end key))

unfoldable pub key_slot : Text → ℕ
unfolding find_at find_after span_slot
key_slot key = elim (find_at b'{' key) [
  | none ↦ slot (encode key)
  | some start ↦ span_slot key start (find_after b'}' (start + 1) key)
]

-- `slot_range(i, num_buckets)`, its two ends.
abbrev pub range_lo : ℕ → ℕ → ℕ
range_lo i num_buckets = i * num_slots / num_buckets

abbrev pub range_hi : ℕ → ℕ → ℕ
range_hi i num_buckets = (i + 1) * num_slots / num_buckets

abbrev pub slot_range : ℕ → ℕ → ℕ × ℕ
slot_range i num_buckets = (range_lo i num_buckets, range_hi i num_buckets)

-- `(bucket_index - lo) % num_buckets` is Python's, not negative; so a multiple of the modulus is
-- added before the subtraction.
unfoldable pub bucket_has_modulo_match : ℕ → ℕ → ℕ → ℕ → Bool
bucket_has_modulo_match lo hi num_buckets bucket_index =
    ltb (lo + (bucket_index + lo * num_buckets - lo) % num_buckets) hi

-- `all(... for i in range(num_buckets))`, over the first `i` buckets.
unfoldable pub modulo_safe_below : ℕ → ℕ → Bool
unfolding bucket_has_modulo_match
modulo_safe_below zero num_buckets = true
modulo_safe_below (suc i) num_buckets =
    modulo_safe_below i num_buckets
    && bucket_has_modulo_match (range_lo i num_buckets) (range_hi i num_buckets) num_buckets i

unfoldable pub is_modulo_safe : ℕ → Bool
unfolding modulo_safe_below
is_modulo_safe num_buckets = modulo_safe_below num_buckets num_buckets

-- `math.ceil(math.log(n))` for 2 ≤ n ≤ 22026: no power of e is a whole number, and these are the
-- whole numbers below the powers.
unfoldable pub ceil_log : ℕ → ℕ
ceil_log n =
    if leb n 2
    then 1
    else if leb n 7
    then 2
    else if leb n 20
    then 3
    else if leb n 54
    then 4
    else if leb n 148
    then 5
    else if leb n 403
    then 6
    else if leb n 1096
    then 7
    else if leb n 2980
    then 8
    else if leb n 8103
    then 9
    else 10

unfoldable pub iteration_cap : ℕ → ℕ
unfolding ceil_log
iteration_cap num_buckets = 200 * num_buckets * ceil_log (max num_buckets 2) + 10000

pub record BucketTable : Type 0 where
  pub tokens : List Text
  pub slots : List ℕ
  pub modulo_safe : Bool

abbrev pub item : Option Text → Result Text
item none = err index_error
item (some t) = ok t

-- `BucketTable.token`
unfoldable pub token : BucketTable → ℕ → Result Text
token table i =
    if ltb i (length table.tokens) then item (get_elem? table.tokens i) else err index_error

-- `[slot_range(i, n)[0] for i in range(n)]`: `rounds` bounds from `i` on.
unfoldable pub starts_from : ℕ → ℕ → ℕ → List ℕ
starts_from num_buckets i zero = []
starts_from num_buckets i (suc rounds) =
    range_lo i num_buckets ∷ starts_from num_buckets (suc i) rounds

-- `bisect.bisect_right` on a sorted list: how many of its items are at most `x`.
unfoldable pub bisect_right : List ℕ → ℕ → ℕ
bisect_right [] x = 0
bisect_right (a ∷ as') x = let rest = bisect_right as' x in if ltb x a then 0 else suc rest

-- The variables of the search loop, but `k`.
pub record Search : Type 0 where
  pub tokens : List (Option Text)
  pub slots : List (Option ℕ)
  pub filled : ℕ

abbrev pub is_unfilled : Option (Option Text) → Bool
is_unfilled (some none) = true
is_unfilled (some (some t)) = false
is_unfilled none = false

-- One candidate of the loop.
unfoldable pub draw : ℕ → List ℕ → Bool → ℕ → Search → Search
unfolding bisect_right
draw num_buckets starts modulo_safe k s =
    let candidate = decimal k in
    let sl = slot (encode candidate) in
    let bucket = bisect_right starts sl - 1 in
    if is_unfilled (get_elem? s.tokens bucket) && (not modulo_safe || sl % num_buckets == bucket)
    then record {
      tokens = set s.tokens bucket (some candidate);
      slots = set s.slots bucket (some sl);
      filled = s.filled + 1;
    }
    else s

-- `while filled < num_buckets`. `draws` is what is left of the code's own cap, `cap + 1 - k`; at 0
-- the loop raises.
unfoldable pub search_loop : ℕ → List ℕ → Bool → ℕ → ℕ → Search → Result Search
unfolding draw
search_loop num_buckets starts modulo_safe zero k s =
    if ltb s.filled num_buckets then err runtime_error else ok s
search_loop num_buckets starts modulo_safe (suc draws) k s =
    let rest =
      search_loop num_buckets starts modulo_safe draws (suc k)
        (draw num_buckets starts modulo_safe k s) in
    if ltb s.filled num_buckets then rest else ok s

-- `tuple(tokens)`: at the end of the loop no item is `None`.
unfoldable pub compact {ℓ} : {A : Type ℓ} → List (Option A) → List A
compact [] = []
compact (none ∷ xs) = compact xs
compact (some x ∷ xs) = x ∷ compact xs

unfoldable pub start_search : ℕ → Search
start_search num_buckets = record {
  tokens = replicate num_buckets none;
  slots = replicate num_buckets none;
  filled = 0;
}

abbrev pub to_table : Bool → Search → BucketTable
to_table modulo_safe s = record {
  tokens = compact s.tokens;
  slots = compact s.slots;
  modulo_safe = modulo_safe;
}

unfoldable pub compute_bucket_table : ℕ → Result BucketTable
unfolding starts_from is_modulo_safe iteration_cap search_loop compact start_search
compute_bucket_table num_buckets = do
  raise_if (not (leb 1 num_buckets && leb num_buckets 16384)) value_error
  let starts = starts_from num_buckets 0 num_buckets
  let modulo_safe = is_modulo_safe num_buckets
  let cap = iteration_cap num_buckets
  s ← search_loop num_buckets starts modulo_safe (cap + 1) 0 (start_search num_buckets)
  ok (to_table modulo_safe s)
