-- ===== src/Events/Alike.antt =====
-- Lists of namespaces that differ in one namespace, and what getActiveNamespaces makes of them.
use controllermesh.Prelude.{
  List, [], ◌∷◌, ◌++◌, none, some, Bool, true, false, not, ◌≡◌, ◌⊎◌, inl, inr, refl, arith, select,
  ap₂, if◌then◌else◌,
}
use controllermesh.Prelude.Sorting.{text_lt, insert_sorted, sort_stable}
use controllermesh.Kube.{Namespace}
use controllermesh.Reconciler.{get_active_namespaces}

-- The namespaces that the routes are generated from, where the cache lists these.
unfoldable pub active : List Namespace → List Namespace
unfolding get_active_namespaces
active nss = elim (get_active_namespaces (some nss)) [ none ↦ [] | some listed ↦ listed ]

module _ (old new : Namespace) where
  -- At each place the same namespace, or the old one and the new one.
  abbrev pub Alike : List Namespace → List Namespace → Type 0
  Alike [] [] = Unit
  Alike [] (y ∷ ys) = ⊥
  Alike (x ∷ xs) [] = ⊥
  Alike (x ∷ xs) (y ∷ ys) = ((x ≡ y) ⊎ ((x ≡ old) × (y ≡ new))) × Alike xs ys

  Alike-refl : (xs : List Namespace) → Alike xs xs
  Alike-refl [] = tt
  Alike-refl (x ∷ xs) = (inl refl, Alike-refl xs)

  Alike-append :
      (before after : List Namespace) → Alike (before ++ old ∷ after) (before ++ new ∷ after)
  Alike-append [] after = (inr (refl, refl), Alike-refl after)
  Alike-append (x ∷ before) after = (inl refl, Alike-append before after)

  abbrev is_active : Namespace → Bool
  is_active ns = not ns.deleting

  abbrev less : Namespace → Namespace → Bool
  less n o = text_lt n.name o.name

  module _ (same_name : old.name ≡ new.name) (same_deleting : old.deleting ≡ new.deleting) where
    Alike-select :
        (xs ys : List Namespace) → Alike xs ys → Alike (select is_active xs) (select is_active ys)
    Alike-select [] [] a = tt
    Alike-select [] (y ∷ ys) a = absurd a
    Alike-select (x ∷ xs) [] a = absurd a
    Alike-select (x ∷ xs) (y ∷ ys) a =
        let rest = Alike-select xs ys a.1 in ground (arith, a.0, rest)

    names-of : (x y : Namespace) → (x ≡ y) ⊎ ((x ≡ old) × (y ≡ new)) → x.name ≡ y.name
    names-of x y h = ground (arith, h)

    less-of :
        (x y p q : Namespace)
        → (x ≡ y) ⊎ ((x ≡ old) × (y ≡ new))
        → (p ≡ q) ⊎ ((p ≡ old) × (q ≡ new))
        → less x p ≡ less y q
    less-of x y p q h k = ap₂ text_lt (names-of x y h) (names-of p q k)

    Alike-if :
        (b c : Bool) (us vs xs ys : List Namespace)
        → b ≡ c
        → Alike us vs
        → Alike xs ys
        → Alike (if b then us else xs) (if c then vs else ys)
    Alike-if true true us vs xs ys e u x = u
    Alike-if false false us vs xs ys e u x = x
    Alike-if true false us vs xs ys e u x = cc
    Alike-if false true us vs xs ys e u x = cc

    Alike-insert :
        (x y : Namespace) (xs ys : List Namespace)
        → (x ≡ y) ⊎ ((x ≡ old) × (y ≡ new))
        → Alike xs ys
        → Alike (insert_sorted less x xs) (insert_sorted less y ys)
    Alike-insert x y [] [] h a = (h, tt)
    Alike-insert x y [] (q ∷ ys) h a = absurd a
    Alike-insert x y (p ∷ xs) [] h a = absurd a
    Alike-insert x y (p ∷ xs) (q ∷ ys) h a =
        let rest = Alike-insert x y xs ys h a.1 in
        Alike-if (less p x) (less q y) (p ∷ insert_sorted less x xs) (q ∷ insert_sorted less y ys)
          (x ∷ p ∷ xs) (y ∷ q ∷ ys) (less-of p q x y a.0 h) (a.0, rest) (h, a)

    Alike-sort :
        (xs ys : List Namespace) → Alike xs ys → Alike (sort_stable less xs) (sort_stable less ys)
    Alike-sort [] [] a = tt
    Alike-sort [] (y ∷ ys) a = absurd a
    Alike-sort (x ∷ xs) [] a = absurd a
    Alike-sort (x ∷ xs) (y ∷ ys) a =
        Alike-insert x y (sort_stable less xs) (sort_stable less ys) a.0 (Alike-sort xs ys a.1)

    pub active-Alike :
        (before after : List Namespace)
        → Alike (active (before ++ old ∷ after)) (active (before ++ new ∷ after))
    unfolding active
    active-Alike before after =
        Alike-sort (select is_active (before ++ old ∷ after))
          (select is_active (before ++ new ∷ after))
          (Alike-select (before ++ old ∷ after) (before ++ new ∷ after) (Alike-append before after))
