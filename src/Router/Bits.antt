-- ===== src/Router/Bits.antt =====
-- The bit lists of fqdnrules/fqdn_router.py: what Python joins, the Lua script reads back.
use fun_with_dragonfly_db.Prelude.{
  ◌≡◌, refl, ap, ◌∙◌, Bool, true, false, List, [], ◌∷◌, map, arith, codes, text_eq, split,
  split-join, All, Lacks,
}
use fun_with_dragonfly_db.Router.{flag_text, flags}
use fun_with_dragonfly_db.Router.Script.{filled_pieces, bits}

flag_text-Lacks : (b : Bool) → Lacks b',' (flag_text b)
flag_text-Lacks true = (omega arith, tt)
flag_text-Lacks false = (omega arith, tt)

texts-Lacks : (bs : List Bool) → All (Lacks b',') (map flag_text bs)
texts-Lacks [] = tt
texts-Lacks (b ∷ bs) = (flag_text-Lacks b, texts-Lacks bs)

read_texts :
    (bs : List Bool) → map (λ b. text_eq b (codes "1")) (filled_pieces (map flag_text bs)) ≡ bs
unfolding filled_pieces
read_texts [] = refl
read_texts (true ∷ bs) = ap (◌∷◌ true) (read_texts bs)
read_texts (false ∷ bs) = ap (◌∷◌ false) (read_texts bs)

-- Reading back the comma-joined bits gives the bits, for the empty list too.
pub bits-flags : (bs : List Bool) → bits (flags bs) ≡ bs
unfolding bits flags
bits-flags [] = unfold split in refl
bits-flags (b ∷ bs) =
    ap (λ ps. map (λ t. text_eq t (codes "1")) (filled_pieces ps))
      (split-join b',' (map flag_text (b ∷ bs)) (cc) (texts-Lacks (b ∷ bs)))
    ∙ read_texts (b ∷ bs)
