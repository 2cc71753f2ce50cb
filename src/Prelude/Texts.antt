-- ===== src/Prelude/Texts.antt =====
-- Python's `str` as a list of code points: equality, `split`, `join`, `startswith`, UTF-8.
use Prim.Native.Nat.{ℕ, ◌+◌, ◌/◌, ◌%◌}
use Prim.Native.Char.{code}
use Prim.Native.String.{String}
use mathlib.Core.Path.{◌≡◌, refl, ap, sym, ◌∙◌}
use mathlib.Core.Bool.{Bool, true, false, ◌&&◌}
use mathlib.Core.Logic.{◌≢◌, inl, inr}
use mathlib.Core.List.{List, [], ◌∷◌, ◌++◌}
use native.Mathlib.Omega.{arith}
use fun_with_dragonfly_db.Prelude.Tests.{◌==◌, ltb, if◌then◌else◌, Bool-cases, ==→eq, ne→==, eq→==}
use fun_with_dragonfly_db.Prelude.Lists.{All}

abbrev pub Text : Type 0
Text = List ℕ

abbrev pub Bytes : Type 0
Bytes = List ℕ

-- The code points of a literal.
abbrev pub codes : String → Text
codes String.[] = []
codes (String.◌∷◌ c s) = code c ∷ codes s

abbrev pub Lacks : ℕ → Text → Type 0
Lacks b = All (λ c. c ≢ b)

abbrev pub text_eq : Text → Text → Bool
text_eq [] [] = true
text_eq [] (d ∷ t) = false
text_eq (c ∷ s) [] = false
text_eq (c ∷ s) (d ∷ t) = (c == d) && text_eq s t

pub text_eq_refl : (s : Text) → text_eq s s ≡ true
text_eq_refl [] = refl
text_eq_refl (c ∷ s) = ground (arith, text_eq_refl s)

pub text_eq→eq : (s t : Text) → text_eq s t ≡ true → s ≡ t
text_eq→eq [] [] h = refl
text_eq→eq [] (d ∷ t) h = absurd (cc)
text_eq→eq (c ∷ s) [] h = absurd (cc)
text_eq→eq (c ∷ s) (d ∷ t) h = ground (arith, text_eq→eq s t)

pub eq→text_eq : (s t : Text) → s ≡ t → text_eq s t ≡ true
eq→text_eq s t h = ap (text_eq s) (sym h) ∙ text_eq_refl s

pub ne→text_eq : (s t : Text) → s ≢ t → text_eq s t ≡ false
ne→text_eq s t h = ground (arith, text_eq→eq s t, Bool-cases (text_eq s t))

-- `s.startswith(p)`
abbrev pub starts_with : Text → Text → Bool
starts_with s [] = true
starts_with [] (d ∷ p) = false
starts_with (c ∷ s) (d ∷ p) = (c == d) && starts_with s p

-- `c in s` for one character
abbrev pub contains : Text → ℕ → Bool
contains [] b = false
contains (c ∷ s) b = if c == b then true else contains s b

pub contains→Lacks : (s : Text) (b : ℕ) → contains s b ≡ false → Lacks b s
contains→Lacks [] b h = tt
contains→Lacks (c ∷ s) b h = (ground arith, contains→Lacks s b (ground arith))

pub Lacks→contains : (s : Text) (b : ℕ) → Lacks b s → contains s b ≡ false
Lacks→contains [] b h = refl
Lacks→contains (c ∷ s) b (hc, hs) = ground (arith, Lacks→contains s b hs)

-- A character in front of the first piece.
abbrev pub push_char : ℕ → List Text → List Text
push_char c [] = (c ∷ []) ∷ []
push_char c (p ∷ ps) = (c ∷ p) ∷ ps

-- `s.split(sep)`
unfoldable pub split : ℕ → Text → List Text
split sep [] = [] ∷ []
split sep (c ∷ s) = let rest = split sep s in if c == sep then [] ∷ rest else push_char c rest

-- `sep.join(parts)`
abbrev pub join : ℕ → List Text → Text
join sep [] = []
join sep (p ∷ []) = p
join sep (p ∷ q ∷ ps) = p ++ (sep ∷ join sep (q ∷ ps))

module _ (sep : ℕ) where
  pub split-ne-nil : (s : Text) → split sep s ≢ []
  unfolding split
  split-ne-nil [] = cc
  split-ne-nil (c ∷ s) = ground (arith, split-ne-nil s)

  -- What holds of every character but the separator holds of every character of every piece.
  pub All-split :
      (P : ℕ → Type 0) (s : Text) → All (λ c. c ≢ sep → P c) s → All (All P) (split sep s)
  unfolding split
  All-split P [] h = (tt, tt)
  All-split P (c ∷ s) (hc, hs) = elim (Bool-cases (c == sep)) [
    | inl e ↦ rw e (tt, All-split P s hs)
    | inr e ↦ rw e (push (split sep s) (hc (ground arith)) (All-split P s hs))
  ]
    where
      push : (ps : List Text) → P c → All (All P) ps → All (All P) (push_char c ps)
      push [] pc h = ((pc, tt), tt)
      push (p ∷ ps) pc (hp, hps) = ((pc, hp), hps)

  pub split-Lacks : (s : Text) → All (Lacks sep) (split sep s)
  split-Lacks s = All-split (λ c. c ≢ sep) s (each s)
    where
      each : (t : Text) → All (λ c. c ≢ sep → c ≢ sep) t
      each [] = tt
      each (c ∷ t) = (λ h. h, each t)

  join-push : (c : ℕ) (ps : List Text) → ps ≢ [] → join sep (push_char c ps) ≡ c ∷ join sep ps
  join-push c [] h = absurd (h refl)
  join-push c (p ∷ []) h = refl
  join-push c (p ∷ q ∷ ps) h = refl

  join-nil : (ps : List Text) → ps ≢ [] → join sep ([] ∷ ps) ≡ sep ∷ join sep ps
  join-nil [] h = absurd (h refl)
  join-nil (p ∷ ps) h = refl

  -- Joining the pieces gives the text back.
  pub join-split : (s : Text) → join sep (split sep s) ≡ s
  unfolding split
  join-split [] = refl
  join-split (c ∷ s) = elim (Bool-cases (c == sep)) [
    | inl e ↦ rw e (
        join-nil (split sep s) (split-ne-nil s)
        ∙ ap (◌∷◌ sep) (join-split s)
        ∙ ap (λ (d : ℕ). d ∷ s) (sym (==→eq c sep e)))
    | inr e ↦ rw e (join-push c (split sep s) (split-ne-nil s) ∙ ap (◌∷◌ c) (join-split s))
  ]

  split-one : (p : Text) → Lacks sep p → split sep p ≡ p ∷ []
  unfolding split
  split-one [] h = refl
  split-one (c ∷ p) (hc, hp) = rw (split-one p hp, ne→== c sep hc)

  pub split-cons : (p t : Text) → Lacks sep p → split sep (p ++ (sep ∷ t)) ≡ p ∷ split sep t
  unfolding split
  split-cons [] t h = rw (eq→== sep sep refl)
  split-cons (c ∷ p) t (hc, hp) = rw (split-cons p t hp, ne→== c sep hc)

  -- Splitting a join gives the pieces back, if there is a piece and none holds the separator.
  pub split-join : (ps : List Text) → ps ≢ [] → All (Lacks sep) ps → split sep (join sep ps) ≡ ps
  split-join [] h l = absurd (h refl)
  split-join (p ∷ []) h (hp, _) = split-one p hp
  split-join (p ∷ q ∷ ps) h (hp, hps) =
      split-cons p (join sep (q ∷ ps)) hp ∙ ap (◌∷◌ p) (split-join (q ∷ ps) (cc) hps)

-- `s.encode()`: UTF-8.
abbrev pub utf8 : ℕ → Bytes
utf8 c =
    if ltb c 0x80
    then c ∷ []
    else if ltb c 0x800
    then (0xC0 + c / 64) ∷ (0x80 + c % 64) ∷ []
    else if ltb c 0x10000
    then (0xE0 + c / 4096) ∷ (0x80 + c / 64 % 64) ∷ (0x80 + c % 64) ∷ []
    else (0xF0 + c / 262144) ∷ (0x80 + c / 4096 % 64) ∷ (0x80 + c / 64 % 64) ∷ (0x80 + c % 64) ∷ []

unfoldable pub encode : Text → Bytes
encode [] = []
encode (c ∷ s) = utf8 c ++ encode s

-- The first decomposition at a character that the front lacks is unique.
pub append-sep_injective :
    (sep : ℕ) (p q s t : Text)
    → Lacks sep p
    → Lacks sep q
    → p ++ (sep ∷ s) ≡ q ++ (sep ∷ t)
    → (p ≡ q) × (s ≡ t)
append-sep_injective sep [] [] s t hp hq e = ground arith
append-sep_injective sep [] (d ∷ q) s t hp (hd, hq) e = absurd (ground arith)
append-sep_injective sep (c ∷ p) [] s t (hc, hp) hq e = absurd (ground arith)
append-sep_injective sep (c ∷ p) (d ∷ q) s t (hc, hp) (hd, hq) e =
    ground (arith, append-sep_injective sep p q s t hp hq)
