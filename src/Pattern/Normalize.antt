-- ===== src/Pattern/Normalize.antt =====
-- What `normalize_fqdn` of fqdnrules/fqdn_pattern.py accepts, and what it makes of it.
use fun_with_dragonfly_db.Prelude.{
  ℕ, ◌≤◌, ◌≡◌, ◌≢◌, refl, ap, ◌∙◌, Bool, true, false, List, [], ◌∷◌, ◌++◌, map, arith, length,
  split, split-Lacks, join, join-split, All, Text, Lacks, contains, contains→Lacks, Lacks→contains,
  ltb, ltb-false→le, le→ltb-false, ok, text_eq,
}
use fun_with_dragonfly_db.Pattern.{
  max_labels, dot, star, is_space, is_dot, lower, strip_front, strip_end, keep_front, is_empty,
  any_empty, clean_up, normalize_fqdn,
}

-- An ASCII capital letter.
abbrev pub IsCapital : ℕ → Type 0
IsCapital c = (b'A' ≤ c) × (c ≤ b'Z')

-- What the rest of the program relies on of a normalized fqdn.
pub record IsNormal (r : Text) : Type 0 where
  pub no_star : Lacks b'*' r
  pub no_empty : All (λ l. l ≢ []) (split dot r)
  pub few : length (split dot r) ≤ max_labels
  pub lowered : All (λ c. IsCapital c → ⊥) r

any_empty-false : (ls : List Text) → any_empty ls ≡ false → All (λ l. l ≢ []) ls
any_empty-false [] h = tt
any_empty-false ([] ∷ ls) h = absurd (cc)
any_empty-false ((c ∷ l) ∷ ls) h = (cc, any_empty-false ls h)

any_empty_of_All : (ls : List Text) → All (λ l. l ≢ []) ls → any_empty ls ≡ false
any_empty_of_All [] h = refl
any_empty_of_All ([] ∷ ls) (h, hs) = absurd (h refl)
any_empty_of_All ((c ∷ l) ∷ ls) (h, hs) = any_empty_of_All ls hs

lower_small : (c : ℕ) → IsCapital (lower c) → ⊥
lower_small c h = ground arith

map-lower : (s : Text) → All (λ c. IsCapital c → ⊥) (map lower s)
map-lower [] = tt
map-lower (c ∷ s) = (lower_small c, map-lower s)

pub lower_fixed : (c : ℕ) → (IsCapital c → ⊥) → lower c ≡ c
lower_fixed c h = ground arith

-- The checks on the cleaned-up text, read back from a result.
normalize_fqdn_inversion :
    (fqdn r : Text)
    → normalize_fqdn fqdn ≡ ok r
    → (r ≡ clean_up fqdn)
      × (contains r b'*' ≡ false)
      × (any_empty (split dot r) ≡ false)
      × (ltb max_labels (length (split dot r)) ≡ false)
unfolding normalize_fqdn
normalize_fqdn_inversion fqdn r h = ground arith

-- A result has no "*", no empty label, at most `max_labels` labels, and none of the letters from A
-- to Z.
pub normalize_fqdn-IsNormal : (fqdn r : Text) → normalize_fqdn fqdn ≡ ok r → IsNormal r
normalize_fqdn-IsNormal fqdn r h =
    let (e, no_star, no_empty, few) = normalize_fqdn_inversion fqdn r h in
    record {
      no_star = contains→Lacks r b'*' no_star;
      no_empty = any_empty-false (split dot r) no_empty;
      few = ltb-false→le max_labels (length (split dot r)) few;
      lowered = rw e (unfold clean_up in map-lower _);
    }

-- The first and the last character are none that `p` strips.
abbrev pub StartsClear : (ℕ → Bool) → Text → Type 0
StartsClear p [] = Unit
StartsClear p (c ∷ s) = p c ≡ false

abbrev pub EndsClear : (ℕ → Bool) → Text → Type 0
EndsClear p [] = Unit
EndsClear p (c ∷ []) = p c ≡ false
EndsClear p (c ∷ d ∷ s) = EndsClear p (d ∷ s)

strip_front_clear : (p : ℕ → Bool) (s : Text) → StartsClear p s → strip_front p s ≡ s
unfolding strip_front
strip_front_clear p [] h = refl
strip_front_clear p (c ∷ s) h = rw h

keep_front_full : (b : Bool) (c d : ℕ) (s : Text) → keep_front b c (d ∷ s) ≡ c ∷ d ∷ s
keep_front_full true c d s = refl
keep_front_full false c d s = refl

strip_end_clear : (p : ℕ → Bool) (s : Text) → EndsClear p s → strip_end p s ≡ s
unfolding strip_end
strip_end_clear p [] h = refl
strip_end_clear p (c ∷ []) h = rw h
strip_end_clear p (c ∷ d ∷ s) h =
    ap (keep_front (p c) c) (strip_end_clear p (d ∷ s) h) ∙ keep_front_full (p c) c d s

EndsClear-append : (p : ℕ → Bool) (s t : Text) → t ≢ [] → EndsClear p t → EndsClear p (s ++ t)
EndsClear-append p [] t n h = h
EndsClear-append p (c ∷ []) [] n h = absurd (n refl)
EndsClear-append p (c ∷ []) (d ∷ t) n h = h
EndsClear-append p (c ∷ e ∷ s) t n h = EndsClear-append p (e ∷ s) t n h

label-EndsClear : (l : Text) → Lacks dot l → EndsClear is_dot l
label-EndsClear [] h = tt
label-EndsClear (c ∷ []) (hc, _) = ground arith
label-EndsClear (c ∷ d ∷ l) (hc, hl) = label-EndsClear (d ∷ l) hl

join-ne-nil : (ls : List Text) → ls ≢ [] → All (λ l. l ≢ []) ls → join dot ls ≢ []
join-ne-nil [] n h = absurd (n refl)
join-ne-nil (l ∷ []) n (h, _) = h
join-ne-nil ([] ∷ m ∷ ls) n (h, hs) = absurd (h refl)
join-ne-nil ((c ∷ l) ∷ m ∷ ls) n h = cc

dot-EndsClear : (s : Text) → s ≢ [] → EndsClear is_dot s → EndsClear is_dot (dot ∷ s)
dot-EndsClear [] n h = absurd (n refl)
dot-EndsClear (c ∷ s) n h = h

join-EndsClear :
    (ls : List Text) → All (λ l. l ≢ []) ls → All (Lacks dot) ls → EndsClear is_dot (join dot ls)
join-EndsClear [] h l = tt
join-EndsClear (p ∷ []) h (lp, _) = label-EndsClear p lp
join-EndsClear (p ∷ q ∷ ls) (hp, hs) (lp, ls') =
    EndsClear-append is_dot p (dot ∷ join dot (q ∷ ls)) (cc) (
      dot-EndsClear (join dot (q ∷ ls)) (join-ne-nil (q ∷ ls) (cc) hs)
        (join-EndsClear (q ∷ ls) hs ls'))

IsNormal-EndsClear : {r : Text} → IsNormal r → EndsClear is_dot r
IsNormal-EndsClear {r} n =
    rw (join-split dot r) at (join-EndsClear (split dot r) n.no_empty (split-Lacks dot r))

map_fixed : (s : Text) → All (λ c. IsCapital c → ⊥) s → map lower s ≡ s
map_fixed [] h = refl
map_fixed (c ∷ s) (hc, hs) = rw (lower_fixed c hc, map_fixed s hs)

clean_up_fixed :
    {r : Text} → IsNormal r → StartsClear is_space r → EndsClear is_space r → clean_up r ≡ r
unfolding clean_up
clean_up_fixed {r} n a z =
    rw
      (
        strip_front_clear is_space r a,
        strip_end_clear is_space r z,
        strip_end_clear is_dot r (IsNormal-EndsClear n),
      )
      (map_fixed r n.lowered)

IsNormal-not_empty : (r : Text) → IsNormal r → is_empty r ≡ false
unfolding split
IsNormal-not_empty [] n = absurd (n.no_empty.0 refl)
IsNormal-not_empty (c ∷ r) n = refl

IsNormal-not_star : (r : Text) → IsNormal r → text_eq r star ≡ false
IsNormal-not_star [] n = refl
IsNormal-not_star (c ∷ r) n = let h = n.no_star.0 in ground arith

-- A normal text with no white space at its ends is accepted and left as it is; so a result that is
-- looked up again means the same name.
pub normalize_fqdn_fixed :
    (r : Text)
    → IsNormal r
    → StartsClear is_space r
    → EndsClear is_space r
    → normalize_fqdn r ≡ ok r
unfolding normalize_fqdn
normalize_fqdn_fixed r n a z = rw (
  clean_up_fixed n a z,
  IsNormal-not_empty r n,
  IsNormal-not_star r n,
  Lacks→contains r b'*' n.no_star,
  any_empty_of_All (split dot r) n.no_empty,
  le→ltb-false max_labels (length (split dot r)) n.few,
)
