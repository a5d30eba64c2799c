-- ===== src/Prelude/Lists.antt =====
-- Rows of a table: the queries of the database client over lists, with a test for the `where` part.
use Prim.Native.Nat.{ℕ, zero, suc, ◌+◌, ◌≤◌}
use mathlib.Core.Path.{◌≡◌, refl, ap}
use mathlib.Core.Bool.{Bool, ◌&&◌, not}
use mathlib.Core.Option.{Option, none, some}
use mathlib.Core.List.{List, [], ◌∷◌, ◌++◌}
use native.Mathlib.Omega.{arith}
use auctionhaus.Prelude.Tests.{if◌then◌else◌}
use auctionhaus.Prelude.Int.{ℤ, pos, ◌+ℤ◌}

module _ {ℓ} {A : Type ℓ} where
  abbrev pub length : List A → ℕ
  length [] = 0
  length (x ∷ xs) = suc (length xs)

  -- A predicate of every row.
  abbrev pub All {κ} : (A → Type κ) → List A → Type κ
  All P [] = Unit
  All P (x ∷ xs) = P x × All P xs

  -- The first row that passes the test.
  unfoldable pub find_first : (A → Bool) → List A → Option A
  find_first p [] = none
  find_first p (x ∷ xs) = if p x then some x else find_first p xs

  -- The first row that passes the test is changed.
  unfoldable pub update_first : (A → Bool) → (A → A) → List A → List A
  update_first p f [] = []
  update_first p f (x ∷ xs) = if p x then f x ∷ xs else x ∷ update_first p f xs

  -- Every row that passes the test is changed.
  unfoldable pub update_many : (A → Bool) → (A → A) → List A → List A
  update_many p f [] = []
  update_many p f (x ∷ xs) = (if p x then f x else x) ∷ update_many p f xs

  -- The rows that pass the test, in order.
  unfoldable pub keep : (A → Bool) → List A → List A
  keep p [] = []
  keep p (x ∷ xs) = let rest = keep p xs in if p x then x ∷ rest else rest

  -- The first row that passes the test is taken out.
  unfoldable pub remove_first : (A → Bool) → List A → List A
  remove_first p [] = []
  remove_first p (x ∷ xs) = let rest = remove_first p xs in if p x then xs else x ∷ rest

  unfoldable pub first_n : ℕ → List A → List A
  first_n zero xs = []
  first_n (suc n) [] = []
  first_n (suc n) (x ∷ xs) = x ∷ first_n n xs

  unfoldable pub skip_n : ℕ → List A → List A
  skip_n zero xs = xs
  skip_n (suc n) [] = []
  skip_n (suc n) (x ∷ xs) = skip_n n xs

  unfoldable pub sum_of : (A → ℤ) → List A → ℤ
  sum_of w [] = pos 0
  sum_of w (x ∷ xs) = w x +ℤ sum_of w xs

  pub length-append : (xs ys : List A) → length (xs ++ ys) ≡ length xs + length ys
  length-append [] ys = omega arith
  length-append (x ∷ xs) ys = omega (arith, length-append xs ys)

  pub length-keep-le : (p : A → Bool) (xs : List A) → length (keep p xs) ≤ length xs
  unfolding keep
  length-keep-le p [] = omega arith
  length-keep-le p (x ∷ xs) = ground (arith, length-keep-le p xs)

  pub keep-append : (p : A → Bool) (xs ys : List A) → keep p (xs ++ ys) ≡ keep p xs ++ keep p ys
  unfolding keep
  keep-append p [] ys = refl
  keep-append p (x ∷ xs) ys = ground (arith, keep-append p xs ys)

  pub keep-keep : (p q : A → Bool) (xs : List A) → keep p (keep q xs) ≡ keep (λ x. q x && p x) xs
  unfolding keep
  keep-keep p q [] = refl
  keep-keep p q (x ∷ xs) = ground (arith, keep-keep p q xs)

  pub keep-none :
      (p : A → Bool) (xs : List A) → find_first p xs ≡ none → keep (λ x. not (p x)) xs ≡ xs
  unfolding find_first keep
  keep-none p [] absent = refl
  keep-none p (x ∷ xs) absent = ground (arith, keep-none p xs)

  first_n_nil : (n : ℕ) → first_n n [] ≡ []
  unfolding first_n
  first_n_nil zero = refl
  first_n_nil (suc n) = refl

  pub first_n-add :
      (m n : ℕ) (xs : List A) → first_n (m + n) xs ≡ first_n m xs ++ first_n n (skip_n m xs)
  unfolding first_n skip_n
  first_n-add zero n xs = let e : 0 + n ≡ n = omega arith in rw e refl
  first_n-add (suc m) n [] =
      let e : suc m + n ≡ suc (m + n) = omega arith in rw (e, first_n_nil n) refl
  first_n-add (suc m) n (x ∷ xs) =
      let e : suc m + n ≡ suc (m + n) = omega arith in rw e (ap (λ l. x ∷ l) (first_n-add m n xs))

  pub first_n-all : (n : ℕ) (xs : List A) → length xs ≤ n → first_n n xs ≡ xs
  unfolding first_n
  first_n-all zero [] few = refl
  first_n-all zero (x ∷ xs) few = ground arith
  first_n-all (suc n) [] few = refl
  first_n-all (suc n) (x ∷ xs) few = ap (λ l. x ∷ l) (first_n-all n xs (omega (arith, few)))
