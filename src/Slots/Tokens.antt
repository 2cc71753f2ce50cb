-- ===== src/Slots/Tokens.antt =====
-- The tokens of a table of fqdnrules/fqdn_slots.py: in which slots the keys of a bucket land.
use fun_with_dragonfly_db.Prelude.{
  ℕ, ◌≤◌, ◌<◌, ◌%◌, ◌≡◌, ◌∙◌, true, Text, encode, ok, err, index_error, length,
}
use fun_with_dragonfly_db.Slots.{
  num_slots, range_lo, range_hi, slot, BucketTable, token, compute_bucket_table, is_modulo_safe,
}
use fun_with_dragonfly_db.Slots.Table.{IsToken, compute_bucket_table-IsTable}

token-IsToken :
    (n i : ℕ) (t : BucketTable) (tok : Text)
    → compute_bucket_table n ≡ ok t
    → i < n
    → token t i ≡ ok tok
    → IsToken n t.modulo_safe i tok
token-IsToken n i t tok e l there =
    let (tok', there', good, _) = (compute_bucket_table-IsTable n t e).each i l in
    let same : tok' ≡ tok = cc in rw (← same) good

-- In a table that is computed, every bucket has a token, and the token hashes into a slot of that
-- bucket's share.
pub token_in_share :
    (n i : ℕ) (t : BucketTable)
    → compute_bucket_table n ≡ ok t
    → i < n
    → (tok : Text) × (token t i ≡ ok tok)
      × (range_lo i n ≤ slot (encode tok))
      × (slot (encode tok) < range_hi i n)
token_in_share n i t e l =
    let (tok, there, good, _) = (compute_bucket_table-IsTable n t e).each i l in
    (tok, there, good.above, good.below)

-- When the test of modulo safety passes for the bucket count, every token's slot is also of its
-- bucket's residue: a placement by ranges and one by interleaving both spread the buckets.
pub token_of_residue :
    (n i : ℕ) (t : BucketTable) (tok : Text)
    → is_modulo_safe n ≡ true
    → compute_bucket_table n ≡ ok t
    → i < n
    → token t i ≡ ok tok
    → slot (encode tok) % n ≡ i
token_of_residue n i t tok safe e l there =
    (token-IsToken n i t tok e l there).residue ((compute_bucket_table-IsTable n t e).flag ∙ safe)

-- The token of a bucket out of range is an IndexError.
pub token_beyond :
    (n i : ℕ) (t : BucketTable)
    → compute_bucket_table n ≡ ok t
    → n ≤ i
    → token t i ≡ err index_error
token_beyond n i t e l = (compute_bucket_table-IsTable n t e).beyond i l

-- A table is computed for a legal bucket count only, with as many tokens as buckets.
pub compute_bucket_table-size :
    (n : ℕ) (t : BucketTable)
    → compute_bucket_table n ≡ ok t
    → (1 ≤ n) × (n ≤ num_slots) × (length t.tokens ≡ n)
compute_bucket_table-size n t e =
    let v = compute_bucket_table-IsTable n t e in let (low, high) = v.legal in (low, high, v.size)
