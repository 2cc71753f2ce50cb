-- ===== src/Prelude/Lists.antt =====
-- List operations over the native numbers, as Python's lists have them, and their laws.
use Prim.Native.Nat.{ℕ, zero, suc, ◌+◌, ◌<◌}
use mathlib.Core.Path.{◌≡◌, refl, ap}
use mathlib.Core.Option.{Option, none, some}
use mathlib.Core.List.{List, [], ◌∷◌, ◌++◌, map}
use native.Mathlib.Omega.{arith}

module _ {ℓ} {A : Type ℓ} where
  abbrev pub length : List A → ℕ
  length [] = 0
  length (x ∷ xs) = suc (length xs)

  abbrev pub get_elem? : List A → ℕ → Option A
  get_elem? [] i = none
  get_elem? (x ∷ xs) zero = some x
  get_elem? (x ∷ xs) (suc i) = get_elem? xs i

  abbrev pub drop : ℕ → List A → List A
  drop zero xs = xs
  drop (suc n) [] = []
  drop (suc n) (x ∷ xs) = drop n xs

  abbrev pub take : ℕ → List A → List A
  take zero xs = []
  take (suc n) [] = []
  take (suc n) (x ∷ xs) = x ∷ take n xs

  -- A write out of bounds changes nothing.
  abbrev pub set : List A → ℕ → A → List A
  set [] i v = []
  set (x ∷ xs) zero v = v ∷ xs
  set (x ∷ xs) (suc i) v = x ∷ set xs i v

  abbrev pub replicate : ℕ → A → List A
  replicate zero v = []
  replicate (suc n) v = v ∷ replicate n v

  pub length-append : (xs ys : List A) → length (xs ++ ys) ≡ length xs + length ys
  length-append [] ys = omega arith
  length-append (x ∷ xs) ys = omega (arith, length-append xs ys)

  pub length-set : (xs : List A) (i : ℕ) (v : A) → length (set xs i v) ≡ length xs
  length-set [] i v = refl
  length-set (x ∷ xs) zero v = refl
  length-set (x ∷ xs) (suc i) v = ap suc (length-set xs i v)

  pub length-replicate : (n : ℕ) (v : A) → length (replicate n v) ≡ n
  length-replicate zero v = refl
  length-replicate (suc n) v = ap suc (length-replicate n v)

  pub get_elem?-drop :
      (n : ℕ) (xs : List A) (y : A) (ys : List A) → drop n xs ≡ y ∷ ys → get_elem? xs n ≡ some y
  get_elem?-drop zero [] y ys h = ground arith
  get_elem?-drop zero (x ∷ xs) y ys h = ground arith
  get_elem?-drop (suc n) [] y ys h = ground arith
  get_elem?-drop (suc n) (x ∷ xs) y ys h = get_elem?-drop n xs y ys h

  pub drop-suc :
      (n : ℕ) (xs : List A) (y : A) (ys : List A) → drop n xs ≡ y ∷ ys → drop (suc n) xs ≡ ys
  drop-suc zero [] y ys h = ground arith
  drop-suc zero (x ∷ xs) y ys h = ground arith
  drop-suc (suc n) [] y ys h = ground arith
  drop-suc (suc n) (x ∷ xs) y ys h = drop-suc n xs y ys h

  -- Python's `a or b` on an optional value: the first that is there.
  abbrev pub or_else : Option A → Option A → Option A
  or_else none y = y
  or_else (some x) y = some x

module _ {ℓ κ} {A : Type ℓ} (P : A → Type κ) where
  abbrev pub All : List A → Type κ
  All [] = Unit
  All (x ∷ xs) = P x × All xs

  pub All-append : (xs ys : List A) → All xs → All ys → All (xs ++ ys)
  All-append [] ys _ hy = hy
  All-append (x ∷ xs) ys (px, hx) hy = (px, All-append xs ys hx hy)

  pub All-drop : (n : ℕ) (xs : List A) → All xs → All (drop n xs)
  All-drop zero xs h = h
  All-drop (suc n) [] h = h
  All-drop (suc n) (x ∷ xs) (px, hx) = All-drop n xs hx

  pub All-get : (i : ℕ) (xs : List A) {x : A} → All xs → get_elem? xs i ≡ some x → P x
  All-get i [] h e = absurd (cc)
  All-get zero (x ∷ xs) {x = y} (px, hx) e = let q : x ≡ y = ground arith in rw (← q) px
  All-get (suc i) (x ∷ xs) (px, hx) e = All-get i xs hx e

pub All-map {ℓ κ ι} :
    {A : Type ℓ} (P : A → Type κ) (Q : A → Type ι) (f : (x : A) → P x → Q x) (xs : List A)
    → All P xs
    → All Q xs
All-map P Q f [] h = tt
All-map P Q f (x ∷ xs) (px, hx) = (f x px, All-map P Q f xs hx)

pub length-map {ℓ κ} :
    {A : Type ℓ} {B : Type κ} (f : A → B) (xs : List A) → length (map f xs) ≡ length xs
length-map f [] = refl
length-map f (x ∷ xs) = ap suc (length-map f xs)

pub get_elem?-set {ℓ} :
    {A : Type ℓ} (xs : List A) (i j : ℕ) (v : A)
    → i < length xs
    → (i ≡ j → get_elem? (set xs i v) j ≡ some v)
      × ((i ≡ j → ⊥) → get_elem? (set xs i v) j ≡ get_elem? xs j)
get_elem?-set [] i j v h = absurd (omega arith)
get_elem?-set (x ∷ xs) zero zero v h = (λ e. refl, λ n. absurd (n refl))
get_elem?-set (x ∷ xs) zero (suc j) v h = (λ e. absurd (omega arith), λ n. refl)
get_elem?-set (x ∷ xs) (suc i) zero v h = (λ e. absurd (omega arith), λ n. refl)
get_elem?-set (x ∷ xs) (suc i) (suc j) v h =
    let r = get_elem?-set xs i j v (omega arith) in
    (λ e. r.0 (omega arith), λ n. r.1 (λ e. n (omega arith)))
