-- ===== src/Slots/KeySlot.antt =====
-- `key_slot` of fqdnrules/fqdn_slots.py hashes the first braced span of a key, and nothing else.
use native.Mathlib.Numerals.{add-one}
use fun_with_dragonfly_db.Prelude.{
  ℕ, suc, ◌+◌, ◌-◌, ◌≡◌, ◌≢◌, refl, ap, false, none, some, [], ◌∷◌, ◌++◌, arith, length, drop, take,
  Text, Lacks, encode, ne→==, ◌==◌,
}
use fun_with_dragonfly_db.Slots.{find_at, find_after, slice, key_slot, slot}

find_at-append : (b : ℕ) (p s : Text) → Lacks b p → find_at b (p ++ (b ∷ s)) ≡ some (length p)
unfolding find_at
find_at-append b [] s h = ground arith
find_at-append b (c ∷ p) s (hc, hp) = rw (ne→== c b hc, find_at-append b p s hp)

drop-length : (p s : Text) → drop (length p) (p ++ s) ≡ s
drop-length [] s = refl
drop-length (c ∷ p) s = drop-length p s

take-length : (p s : Text) → take (length p) (p ++ s) ≡ p
take-length [] s = refl
take-length (c ∷ p) s = ap (◌∷◌ c) (take-length p s)

drop-suc_past : (b : ℕ) (p s : Text) → drop (suc (length p)) (p ++ (b ∷ s)) ≡ s
drop-suc_past b [] s = refl
drop-suc_past b (c ∷ p) s = drop-suc_past b p s

drop_past : (b : ℕ) (p s : Text) → drop (length p + 1) (p ++ (b ∷ s)) ≡ s
drop_past b p s = rw add-one (drop-suc_past b p s)

module _ (p t rest : Text) (no_open : Lacks b'{' p) (no_close : Lacks b'}' t) where
  abbrev tagged : Text
  tagged = p ++ (b'{' ∷ (t ++ (b'}' ∷ rest)))

  find_open : find_at b'{' tagged ≡ some (length p)
  find_open = find_at-append b'{' p _ no_open

  find_close : find_after b'}' (length p + 1) tagged ≡ some (length p + 1 + length t)
  unfolding find_after
  find_close =
      rw (drop_past b'{' p (t ++ (b'}' ∷ rest)), find_at-append b'}' t rest no_close, find_after)

  tagged_slice : slice (length p + 1) (length p + 1 + length t) tagged ≡ t
  unfolding slice
  tagged_slice =
      let e : length p + 1 + length t - (length p + 1) ≡ length t = omega arith in
      rw (e, drop_past b'{' p (t ++ (b'}' ∷ rest))) (take-length t (b'}' ∷ rest))

  not_adjacent : t ≢ [] → (length p + 1 + length t == length p + 1) ≡ false
  not_adjacent h = ne→== _ _ (λ e. h (empty t (omega arith)))
    where
      empty : (s : Text) → length s ≡ 0 → s ≡ []
      empty [] q = refl
      empty (c ∷ s) q = absurd (omega arith)

  -- A key whose first brace opens a span `t`, not empty and closed, has the slot of `t`: what
  -- stands before and behind the span makes no difference.
  pub key_slot_tagged : t ≢ [] → key_slot tagged ≡ slot (encode t)
  unfolding key_slot
  key_slot_tagged h =
      rw (find_open, find_close, not_adjacent h, key_slot) (ap (λ s. slot (encode s)) tagged_slice)

-- A key with no opening brace is hashed whole.
pub key_slot_plain : (key : Text) → Lacks b'{' key → key_slot key ≡ slot (encode key)
unfolding key_slot
key_slot_plain key h = rw (find_none key h, key_slot)
  where
    find_none : (s : Text) → Lacks b'{' s → find_at b'{' s ≡ none
    find_none [] l = refl
    find_none (c ∷ s) (hc, hs) = rw (ne→== c b'{' hc, find_none s hs)
