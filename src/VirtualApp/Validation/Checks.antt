-- ===== src/VirtualApp/Validation/Checks.antt =====
-- Results that succeed, and names that are distinct.
use controllermesh.Prelude.{
  String, List, [], ◌∷◌, ◌++◌, Bool, true, false, not, ◌&&◌, ◌≡◌, refl, arith, has, insert,
  insert_all, has-insert, all, eq_iff, ap,
}
use controllermesh.Prelude.Results.{Result, ok, err, panic, ◌>>◌, ◌>>=◌, fail_if}

abbrev pub succeeds {ℓ} : {E A : Type ℓ} → Result E A → Bool
succeeds (ok a) = true
succeeds (err e) = false
succeeds panic = false

abbrev pub distinct : List String → Bool
distinct [] = true
distinct (x ∷ xs) = not (has x xs) && distinct xs

-- Distinct, and none in the set.
abbrev pub all_new : List String → List String → Bool
all_new [] used = true
all_new (x ∷ xs) used = not (has x used) && all_new xs (insert x used)

abbrev none_in : List String → List String → Bool
none_in xs used = all (λ x. not (has x used)) xs

none_in-insert :
    (x : String) (xs used : List String)
    → none_in xs (insert x used) ≡ (none_in xs used && not (has x xs))
none_in-insert x [] used = refl
none_in-insert x (y ∷ xs) used =
    ground (arith, none_in-insert x xs used, has-insert y x used, eq_iff x y, eq_iff y x)

all_new-distinct : (xs used : List String) → all_new xs used ≡ (distinct xs && none_in xs used)
all_new-distinct [] used = refl
all_new-distinct (x ∷ xs) used =
    ground (arith, all_new-distinct xs (insert x used), none_in-insert x xs used)

none_in-nil : (xs : List String) → none_in xs [] ≡ true
none_in-nil [] = refl
none_in-nil (x ∷ xs) = none_in-nil xs

pub all_new-nil : (xs : List String) → all_new xs [] ≡ distinct xs
all_new-nil xs = ground (arith, all_new-distinct xs [], none_in-nil xs)

pub all_new-append :
    (xs ys used : List String)
    → all_new (xs ++ ys) used ≡ (all_new xs used && all_new ys (insert_all xs used))
all_new-append [] ys used = refl
all_new-append (x ∷ xs) ys used = ground (arith, all_new-append xs ys (insert x used))

pub succeeds-then {ℓ} :
    {E A B : Type ℓ} (r : Result E A) (n : Result E B)
    → succeeds (r >> n) ≡ (succeeds r && succeeds n)
succeeds-then (ok a) n = refl
succeeds-then (err e) n = refl
succeeds-then panic n = refl

pub succeeds-chain :
    {E A B C : Type 0} (r : Result E A) (n : Result E B) (o : Result E C)
    → succeeds (r >> (n >> o)) ≡ (succeeds r && succeeds n && succeeds o)
succeeds-chain (ok a) (ok b) o = refl
succeeds-chain (ok a) (err e) o = refl
succeeds-chain (ok a) panic o = refl
succeeds-chain (err e) n o = refl
succeeds-chain panic n o = refl

-- Where a success can only be `v`, what follows is run on `v`.
pub succeeds-bind {ℓ} :
    {E A B : Type ℓ} (r : Result E A) (f : A → Result E B) (v : A)
    → ((a : A) → r ≡ ok a → a ≡ v)
    → succeeds (r >>= f) ≡ (succeeds r && succeeds (f v))
succeeds-bind (ok a) f v h = ap (λ x. succeeds (f x)) (h a refl)
succeeds-bind (err e) f v h = refl
succeeds-bind panic f v h = refl

succeeds-fail_if :
    {E B : Type 0} (b : Bool) (e : E) (n : Result E B)
    → succeeds (fail_if b e >> n) ≡ (not b && succeeds n)
succeeds-fail_if true e n = refl
succeeds-fail_if false e n = refl
