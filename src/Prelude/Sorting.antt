-- ===== src/Prelude/Sorting.antt =====
-- `sorted` with a key and the highest first: `sort(key=..., reverse=True)` and `key=-...` alike keep
-- the order of elements that have one key.
use Prim.Native.Nat.{ℕ, ◌≤◌, ◌+◌, ◌*◌, suc}
use mathlib.Core.Path.{◌≡◌, refl, ap, ◌∙◌}
use mathlib.Core.Logic.{inl, inr}
use mathlib.Core.List.{List, [], ◌∷◌}
use native.Mathlib.Omega.{arith}
use fun_with_dragonfly_db.Prelude.Tests.{ltb, ◌==◌, if◌then◌else◌, Bool-cases, ltb→lt, ltb-false→le}
use fun_with_dragonfly_db.Prelude.Lists.{All, length}

module _ {ℓ} {A : Type ℓ} (key : A → ℕ) where
  unfoldable pub insert_desc : A → List A → List A
  insert_desc x [] = x ∷ []
  insert_desc x (y ∷ ys) =
      let rest = insert_desc x ys in if ltb (key x) (key y) then y ∷ rest else x ∷ (y ∷ ys)

  unfoldable pub sort_desc : List A → List A
  unfolding insert_desc
  sort_desc [] = []
  sort_desc (x ∷ xs) = insert_desc x (sort_desc xs)

  -- No element has a higher key than one before it.
  abbrev pub IsDescending : List A → Type 0
  IsDescending [] = Unit
  IsDescending (x ∷ xs) = All (λ y. key y ≤ key x) xs × IsDescending xs

  -- The elements of one key, in order.
  unfoldable pub with_key : ℕ → List A → List A
  with_key n [] = []
  with_key n (x ∷ xs) = let rest = with_key n xs in if key x == n then x ∷ rest else rest

  -- The sum of the keys.
  abbrev pub sum_of : List A → ℕ
  sum_of [] = 0
  sum_of (x ∷ xs) = key x + sum_of xs

  insert_desc-All :
      (bound : ℕ) (x : A) (ys : List A)
      → key x ≤ bound
      → All (λ y. key y ≤ bound) ys
      → All (λ y. key y ≤ bound) (insert_desc x ys)
  unfolding insert_desc
  insert_desc-All bound x [] h hs = (h, tt)
  insert_desc-All bound x (y ∷ ys) h (h1, hs) = elim (Bool-cases (ltb (key x) (key y))) [
    | inl e ↦ rw e (h1, insert_desc-All bound x ys h hs)
    | inr e ↦ rw e (h, (h1, hs))
  ]

  All-weaken : (m n : ℕ) (ys : List A) → m ≤ n → All (λ y. key y ≤ m) ys → All (λ y. key y ≤ n) ys
  All-weaken m n [] h hs = tt
  All-weaken m n (y ∷ ys) h (h1, hs) = (omega arith, All-weaken m n ys h hs)

  insert_desc-IsDescending :
      (x : A) (ys : List A) → IsDescending ys → IsDescending (insert_desc x ys)
  unfolding insert_desc
  insert_desc-IsDescending x [] h = (tt, tt)
  insert_desc-IsDescending x (y ∷ ys) (h1, h) = elim (Bool-cases (ltb (key x) (key y))) [
    | inl e ↦
        let l = ltb→lt (key x) (key y) e in
        rw e (insert_desc-All (key y) x ys (omega arith) h1, insert_desc-IsDescending x ys h)
    | inr e ↦
        let l = ltb-false→le (key x) (key y) e in
        rw e ((l, All-weaken (key y) (key x) ys l h1), (h1, h))
  ]

  pub sort_desc-IsDescending : (xs : List A) → IsDescending (sort_desc xs)
  unfolding sort_desc
  sort_desc-IsDescending [] = tt
  sort_desc-IsDescending (x ∷ xs) =
      insert_desc-IsDescending x (sort_desc xs) (sort_desc-IsDescending xs)

  with_key-insert_desc :
      (n : ℕ) (x : A) (ys : List A) → with_key n (insert_desc x ys) ≡ with_key n (x ∷ ys)
  unfolding with_key insert_desc
  with_key-insert_desc n x [] = refl
  with_key-insert_desc n x (y ∷ ys) = ground (arith, with_key-insert_desc n x ys)

  pub with_key-sort_desc : (n : ℕ) (xs : List A) → with_key n (sort_desc xs) ≡ with_key n xs
  unfolding with_key sort_desc
  with_key-sort_desc n [] = refl
  with_key-sort_desc n (x ∷ xs) =
      with_key-insert_desc n x (sort_desc xs) ∙ rw (with_key-sort_desc n xs) refl

  sum_of-insert_desc : (x : A) (ys : List A) → sum_of (insert_desc x ys) ≡ key x + sum_of ys
  unfolding insert_desc
  sum_of-insert_desc x [] = refl
  sum_of-insert_desc x (y ∷ ys) = ground (arith, sum_of-insert_desc x ys)

  pub sum_of-sort_desc : (xs : List A) → sum_of (sort_desc xs) ≡ sum_of xs
  unfolding sort_desc
  sum_of-sort_desc [] = refl
  sum_of-sort_desc (x ∷ xs) =
      sum_of-insert_desc x (sort_desc xs) ∙ ap (λ n. key x + n) (sum_of-sort_desc xs)

  length-insert_desc : (x : A) (ys : List A) → length (insert_desc x ys) ≡ suc (length ys)
  unfolding insert_desc
  length-insert_desc x [] = refl
  length-insert_desc x (y ∷ ys) = ground (arith, length-insert_desc x ys)

  pub length-sort_desc : (xs : List A) → length (sort_desc xs) ≡ length xs
  unfolding sort_desc
  length-sort_desc [] = refl
  length-sort_desc (x ∷ xs) =
      length-insert_desc x (sort_desc xs) ∙ ap (λ n. suc n) (length-sort_desc xs)

  -- A sum is at most the bound of its terms for each of them.
  pub sum_of_bounded :
      (bound : ℕ) (xs : List A) → All (λ y. key y ≤ bound) xs → sum_of xs ≤ length xs * bound
  sum_of_bounded bound [] h = omega arith
  sum_of_bounded bound (x ∷ xs) (h, hs) = let rest = sum_of_bounded bound xs hs in grind arith
