-- ===== src/Pattern/Plain.antt =====
-- Names of small letters, digits and dots, as the tools of fqdnrules make them: `normalize_fqdn` of
-- fqdnrules/fqdn_pattern.py leaves them as they are.
use fun_with_dragonfly_db.Prelude.{
  ℕ, ◌≤◌, ◌≡◌, ◌≢◌, refl, Bool, true, false, ◌&&◌, ◌||◌, List, [], ◌∷◌, ◌++◌, leb, arith, All,
  All-map, Text, Lacks, length, split, decimal, IsDigit, decimal-IsDigit, ok,
}
use fun_with_dragonfly_db.Pattern.{dot, max_labels, is_space, normalize_fqdn}
use fun_with_dragonfly_db.Pattern.Normalize.{
  IsCapital, IsNormal, StartsClear, EndsClear, normalize_fqdn_fixed,
}

abbrev pub name_char : ℕ → Bool
name_char c = (leb 46 c && leb c 57) || (leb 97 c && leb c 122)

abbrev pub name_chars : Text → Bool
name_chars [] = true
name_chars (c ∷ s) = name_char c && name_chars s

pub name_chars-append : (s t : Text) → name_chars s ≡ true → name_chars (s ++ t) ≡ name_chars t
name_chars-append [] t h = refl
name_chars-append (c ∷ s) t h = ground (arith, name_chars-append s t)

name_chars-digits : (s : Text) → All IsDigit s → name_chars s ≡ true
name_chars-digits [] h = refl
name_chars-digits (c ∷ s) (h, hs) = ground (arith, name_chars-digits s hs)

pub name_chars-decimal : (n : ℕ) → name_chars (decimal n) ≡ true
name_chars-decimal n = name_chars-digits (decimal n) (decimal-IsDigit n)

name_chars-All : (s : Text) → name_chars s ≡ true → All (λ c. name_char c ≡ true) s
name_chars-All [] h = tt
name_chars-All (c ∷ s) h = (ground arith, name_chars-All s (ground arith))

-- Such a name has none of the characters that a name is asked about.
name_char-plain :
    (c : ℕ)
    → name_char c ≡ true
    → (is_space c ≡ false) × (IsCapital c → ⊥) × (c ≢ b'*') × (c ≢ b':')
name_char-plain c h = (ground arith, λ k. ground arith, ground arith, ground arith)

pub name_chars-Lacks : (s : Text) → name_chars s ≡ true → Lacks b':' s
name_chars-Lacks s h =
    All-map (λ c. name_char c ≡ true) (λ c. c ≢ b':') (λ c e. (name_char-plain c e).3) s
      (name_chars-All s h)

All-StartsClear : (s : Text) → All (λ c. name_char c ≡ true) s → StartsClear is_space s
All-StartsClear [] h = tt
All-StartsClear (c ∷ s) (h, hs) = (name_char-plain c h).0

All-EndsClear : (s : Text) → All (λ c. name_char c ≡ true) s → EndsClear is_space s
All-EndsClear [] h = tt
All-EndsClear (c ∷ []) (h, hs) = (name_char-plain c h).0
All-EndsClear (c ∷ d ∷ s) (h, hs) = All-EndsClear (d ∷ s) hs

pub plain_name-normalize :
    (s : Text) (labels : List Text)
    → name_chars s ≡ true
    → split dot s ≡ labels
    → All (λ l. l ≢ []) labels
    → length labels ≤ max_labels
    → normalize_fqdn s ≡ ok s
plain_name-normalize s labels h e full few =
    let all = name_chars-All s h in
    let normal : IsNormal s = record {
      no_star =
          All-map (λ c. name_char c ≡ true) (λ c. c ≢ b'*') (λ c q. (name_char-plain c q).2) s all;
      no_empty = rw e full;
      few = rw e few;
      lowered =
          All-map (λ c. name_char c ≡ true) (λ c. IsCapital c → ⊥) (λ c q. (name_char-plain c q).1)
            s all;
    } in
    normalize_fqdn_fixed s normal (All-StartsClear s all) (All-EndsClear s all)
