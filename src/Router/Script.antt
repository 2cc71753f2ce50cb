-- ===== src/Router/Script.antt =====
-- The Lua script of fqdnrules/fqdn_router.py, which the server runs for one group of keys.
use fun_with_dragonfly_db.Prelude.{
  ℕ, suc, ◌-◌, Bool, false, not, ◌&&◌, ◌||◌, Option, none, some, List, [], ◌∷◌, map, ◌==◌,
  if◌then◌else◌, get_elem?, drop, take, or_else, Text, codes, text_eq, split, Result, ok, err,
  lua_error,
}

-- What the script returns: 1-based indices of the key and of the field, and the rule's id.
pub record Hit : Type 0 where
  pub key_index : ℕ
  pub field_index : ℕ
  pub rule_id : Text

abbrev pub Reply : Type 0
Reply = Option Hit

-- The pieces of `string.gmatch(s, "[^,]+")`.
unfoldable pub filled_pieces : List Text → List Text
filled_pieces [] = []
filled_pieces ([] ∷ ps) = filled_pieces ps
filled_pieces ((c ∷ p) ∷ ps) = (c ∷ p) ∷ filled_pieces ps

unfoldable pub bits : Text → List Bool
unfolding filled_pieces
bits s = map (λ b. text_eq b (codes "1")) (filled_pieces (split b',' s))

abbrev pub or_false : Option Bool → Bool
or_false none = false
or_false (some b) = b

-- `t[i]` of a table of Booleans, 1-based; `nil` counts as false.
abbrev pub bit_at : List Bool → ℕ → Bool
bit_at bs i = or_false (get_elem? bs (i - 1))

-- `blocked`, from the two indices' bits and the value.
unfoldable pub is_blocked : Bool → Bool → Text → Bool
is_blocked exact deep v =
    let scope = take 1 v in
    not exact && ((deep && text_eq scope (codes "S")) || (not deep && text_eq scope (codes "M")))

-- The loop over `vals` from `j` on, for the key at `i`.
unfoldable pub scan_vals : Bool → Bool → List Bool → ℕ → ℕ → List (Option Text) → Reply
unfolding is_blocked
scan_vals kexact kmulti fmulti i j [] = none
scan_vals kexact kmulti fmulti i j (none ∷ vals) = scan_vals kexact kmulti fmulti i (suc j) vals
scan_vals kexact kmulti fmulti i j (some v ∷ vals) =
    let rest = scan_vals kexact kmulti fmulti i (suc j) vals in
    if is_blocked (kexact && j == 1) (kmulti || bit_at fmulti j) v
    then rest
    else some (record { key_index = i; field_index = j; rule_id = drop 1 v })

-- The loop over `KEYS` from `i` on.
unfoldable pub scan_keys :
    (Text → List Text → List (Option Text))
    → List Bool
    → List Bool
    → List Bool
    → List Text
    → ℕ
    → List Text
    → Reply
unfolding scan_vals
scan_keys hmget kexact kmulti fmulti fields i [] = none
scan_keys hmget kexact kmulti fmulti fields i (k ∷ ks) =
    or_else (scan_vals (bit_at kexact i) (bit_at kmulti i) fmulti i 1 (hmget k fields))
      (scan_keys hmget kexact kmulti fmulti fields (suc i) ks)

-- The script, over its KEYS and ARGV; `bits(nil)` is an error.
unfoldable pub lua_lookup :
    (Text → List Text → List (Option Text)) → List Text → List Text → Result Reply
unfolding bits scan_keys
lua_lookup hmget ks (kmulti ∷ kexact ∷ fmulti ∷ fields) =
    ok (scan_keys hmget (bits kexact) (bits kmulti) (bits fmulti) fields 1 ks)
lua_lookup hmget ks _ = err lua_error
