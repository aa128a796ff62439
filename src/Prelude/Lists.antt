-- ===== src/Prelude/Lists.antt =====
-- Lists measured by native numbers and tested by Boolean functions, and sets of texts. A
-- `sets.String` of the source is a Go map from texts to nothing: here the list of its members.
use Prim.Native.Nat.{ℕ, suc}
use Prim.Native.String.{String}
use mathlib.Core.Path.{◌≡◌, refl}
use mathlib.Core.Bool.{Bool, true, false, not, ◌&&◌, ◌||◌}
use mathlib.Core.List.{List, [], ◌∷◌, ◌++◌}
use native.Mathlib.Omega.{arith}
use text.Mathlib.Text.{◌==◌}
use text.Mathlib.TextEquality.{eq_iff}
use controllermesh.Prelude.Tests.{if◌then◌else◌}

module _ {ℓ} {A : Type ℓ} where
  abbrev pub length : List A → ℕ
  length [] = 0
  length (x ∷ xs) = suc (length xs)

  -- The Go test `len(xs) > 0`.
  abbrev pub nonempty : List A → Bool
  nonempty [] = false
  nonempty (x ∷ xs) = true

  abbrev pub all : (A → Bool) → List A → Bool
  all p [] = true
  all p (x ∷ xs) = p x && all p xs

  abbrev pub any : (A → Bool) → List A → Bool
  any p [] = false
  any p (x ∷ xs) = p x || any p xs

  abbrev pub select : (A → Bool) → List A → List A
  select p [] = []
  select p (x ∷ xs) = if p x then x ∷ select p xs else select p xs

abbrev pub has : String → List String → Bool
has x [] = false
has x (y ∷ ys) = x == y || has x ys

abbrev pub insert : String → List String → List String
insert x xs = if has x xs then xs else x ∷ xs

abbrev pub insert_all : List String → List String → List String
insert_all [] s = s
insert_all (x ∷ xs) s = insert_all xs (insert x s)

abbrev pub difference : List String → List String → List String
difference xs ys = select (λ x. not (has x ys)) xs

pub has-append : (x : String) (xs ys : List String) → has x (xs ++ ys) ≡ (has x xs || has x ys)
has-append x [] ys = refl
has-append x (y ∷ xs) ys = ground (arith, has-append x xs ys)

pub has-insert : (x y : String) (xs : List String) → has x (insert y xs) ≡ (x == y || has x xs)
has-insert x y xs = ground (arith, eq_iff x y)

pub has-insert_all :
    (x : String) (xs s : List String) → has x (insert_all xs s) ≡ (has x xs || has x s)
has-insert_all x [] s = refl
has-insert_all x (y ∷ xs) s = ground (arith, has-insert_all x xs (insert y s), has-insert x y s)

pub has-difference :
    (x : String) (xs ys : List String) → has x (difference xs ys) ≡ (has x xs && not (has x ys))
has-difference x [] ys = refl
has-difference x (y ∷ xs) ys = ground (arith, has-difference x xs ys, eq_iff x y)
