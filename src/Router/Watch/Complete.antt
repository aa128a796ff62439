-- ===== src/Router/Watch/Complete.antt =====
-- What a client reads of a watch, whatever buffers it reads with.
use controllermesh.Prelude.{
  ℕ, suc, ◌+◌, ◌≤◌, ◌<◌, List, [], ◌∷◌, ◌++◌, Option, none, some, Bool, true, false, not, ◌&&◌, ◌≡◌,
  refl, sym, ap, ◌∙◌, fun_ext, zero, Bool-cases, ◌⊎◌, inl, inr, arith, length, nonempty, leb, ltb,
  all, if◌then◌else◌,
}
use controllermesh.Route.{GroupResource, InternalSpec, is_namespace_match}
use controllermesh.Router.{filter_event}
use controllermesh.Router.Watch.{
  take, drop, Decoding, undecoded, decoded, Events, read_body, Watch, cut_body, read_coming, read,
}

module _ {A : Type 0} where
  take-drop : (n : ℕ) (xs : List A) → take n xs ++ drop n xs ≡ xs
  take-drop zero xs = refl
  take-drop (suc n) [] = refl
  take-drop (suc n) (x ∷ xs) = ground (arith, take-drop n xs)

  length-append : (xs ys : List A) → length (xs ++ ys) ≡ length xs + length ys
  length-append [] ys = omega arith
  length-append (x ∷ xs) ys = omega (arith, length-append xs ys)

  append_assoc : (xs ys zs : List A) → (xs ++ ys) ++ zs ≡ xs ++ (ys ++ zs)
  append_assoc [] ys zs = refl
  append_assoc (x ∷ xs) ys zs = ap (λ l. x ∷ l) (append_assoc xs ys zs)

  nonempty-length : (xs : List A) → nonempty xs ≡ true → 0 < length xs
  nonempty-length [] p = cc
  nonempty-length (x ∷ xs) p = omega arith

  nonempty-false : (xs : List A) → nonempty xs ≡ false → xs ≡ []
  nonempty-false [] p = refl
  nonempty-false (x ∷ xs) p = cc

  length-zero : (xs : List A) → length xs ≤ 0 → xs ≡ []
  length-zero [] p = refl
  length-zero (x ∷ xs) p = ground (arith, p)

  length-take : (n : ℕ) (xs : List A) → ltb 0 n ≡ true → nonempty xs ≡ true → 0 < length (take n xs)
  length-take zero xs p q = cc
  length-take (suc n) [] p q = cc
  length-take (suc n) (x ∷ xs) p q = omega arith

module _ {E : Type 0} (ev : Events E) (spec : InternalSpec) (gr : GroupResource)
    (denied : Bool) where
  -- The bytes of an event as the proxy is to show it: an object that the proxy may not see is a
  -- bookmark.
  abbrev pub shown : Decoding E → Option (List ℕ)
  shown undecoded = none
  shown (decoded e none) = ev.encode e
  shown (decoded e (some none)) = if denied then ev.encode (ev.to_bookmark e) else none
  shown (decoded e (some (some ns))) =
      ev.encode (if not denied && is_namespace_match spec ns gr then e else ev.to_bookmark e)

  abbrev pub onto : Option (List ℕ) → List ℕ → List ℕ
  onto none rest = []
  onto (some body) rest = body ++ rest

  -- The bytes of a stream up to its first error.
  abbrev pub bodies : (Decoding E → Option (List ℕ)) → List (Decoding E) → List ℕ
  bodies f [] = []
  bodies f (d ∷ ds) = onto (f d) (bodies f ds)

  -- What a client gets that reads with the buffers of a list, up to the first error.
  abbrev read_next :
      (Watch ev spec gr denied → List ℕ) → Option (List ℕ) × Watch ev spec gr denied → List ℕ
  read_next next (none, w) = []
  read_next next (some bytes, w) = bytes ++ next w

  abbrev pub read_all : List ℕ → Watch ev spec gr denied → List ℕ
  read_all [] w = []
  read_all (n ∷ ns) w = read_next (read_all ns) (read ev spec gr denied n w)

  read_body-shown : (d : Decoding E) → read_body ev spec gr denied d ≡ shown d
  unfolding read_body filter_event
  read_body-shown undecoded = refl
  read_body-shown (decoded e none) = refl
  read_body-shown (decoded e (some none)) = ground arith
  read_body-shown (decoded e (some (some ns))) = ground arith

  bodies-shown :
      (ds : List (Decoding E)) → bodies (read_body ev spec gr denied) ds ≡ bodies shown ds
  bodies-shown ds = rw (fun_ext read_body-shown) refl

  abbrev pending : Watch ev spec gr denied → List ℕ
  pending w = w.remaining ++ bodies (read_body ev spec gr denied) w.coming

  -- What one call leaves of the bytes and of the events.
  abbrev Leaves : List ℕ → ℕ → Option (List ℕ) × Watch ev spec gr denied → Type 0
  Leaves before events (none, w) = before ≡ []
  Leaves before events (some bytes, w) =
      (before ≡ bytes ++ pending w)
      × (length (pending w) + length w.coming < length before + events)

  split-Leaves :
      (n : ℕ) (body : List ℕ) (ds : List (Decoding E)) (events : ℕ)
      → ltb 0 n ≡ true
      → nonempty body ≡ true ⊎ (length ds < events)
      → length ds ≤ events
      → Leaves
          (body ++ bodies (read_body ev spec gr denied) ds)
          events
          (some (take n body), record { remaining = drop n body; coming = ds })
  split-Leaves n body ds events p less le =
      let rest = bodies (read_body ev spec gr denied) ds in
      let whole = take-drop n body in
      let parted = sym (append_assoc (take n body) (drop n body) rest) in
      (
        sym (parted ∙ ap (λ l. l ++ rest) whole),
        elim less [
          | inl q ↦ omega (
            arith,
            le,
            length-append body rest,
            length-append (drop n body) rest,
            length-append (take n body) (drop n body),
            ap length whole,
            length-take n body p q,
          )
          | inr q ↦ omega (
            arith,
            q,
            length-append body rest,
            length-append (drop n body) rest,
            length-append (take n body) (drop n body),
            ap length whole,
          )
        ],
      )

  whole-Leaves :
      (body : List ℕ) (ds : List (Decoding E)) (events : ℕ)
      → nonempty body ≡ true ⊎ (length ds < events)
      → length ds ≤ events
      → Leaves
          (body ++ bodies (read_body ev spec gr denied) ds)
          events
          (some body, record { remaining = []; coming = ds })
  whole-Leaves body ds events less le =
      let rest = bodies (read_body ev spec gr denied) ds in
      (
        refl,
        elim less [
          | inl q ↦ omega (arith, length-append body rest, nonempty-length body q, le)
          | inr q ↦ omega (arith, length-append body rest, q)
        ],
      )

  cut_body-Leaves :
      (n : ℕ) (ds : List (Decoding E)) (o : Option (List ℕ))
      → ltb 0 n ≡ true
      → Leaves
          (onto o (bodies (read_body ev spec gr denied) ds))
          (suc (length ds))
          (cut_body ev spec gr denied n ds o)
  cut_body-Leaves n ds none p = refl
  cut_body-Leaves n ds (some body) p = elim (Bool-cases (leb (length body) n)) [
    | inl e ↦ rw e (whole-Leaves body ds (suc (length ds)) (inr (omega arith)) (omega arith))
    | inr e ↦ rw e (split-Leaves n body ds (suc (length ds)) p (inr (omega arith)) (omega arith))
  ]

  read_coming-Leaves :
      (n : ℕ) (ds : List (Decoding E))
      → ltb 0 n ≡ true
      → Leaves
          (bodies (read_body ev spec gr denied) ds)
          (length ds)
          (read_coming ev spec gr denied n ds)
  read_coming-Leaves n [] p = refl
  read_coming-Leaves n (d ∷ ds) p = cut_body-Leaves n ds (read_body ev spec gr denied d) p

  read-Leaves :
      (n : ℕ) (w : Watch ev spec gr denied)
      → ltb 0 n ≡ true
      → Leaves (pending w) (length w.coming) (read ev spec gr denied n w)
  unfolding read
  read-Leaves n w p = elim (Bool-cases (nonempty w.remaining)) [
    | inl e ↦ elim (Bool-cases (leb (length w.remaining) n)) [
      | inl k ↦
          rw (e, k) (whole-Leaves w.remaining w.coming (length w.coming) (inl e) (omega arith))
      | inr k ↦
          rw (e, k) (split-Leaves n w.remaining w.coming (length w.coming) p (inl e) (omega arith))
    ]
    | inr e ↦ rw (e, nonempty-false w.remaining e) (read_coming-Leaves n w.coming p)
  ]

  next_complete :
      (ns : List ℕ) (before : List ℕ) (events : ℕ)
      (result : Option (List ℕ) × Watch ev spec gr denied)
      → Leaves before events result
      → ((w : Watch ev spec gr denied)
          → length (pending w) + length w.coming ≤ length ns
          → read_all ns w ≡ pending w)
      → length before + events ≤ suc (length ns)
      → read_next (read_all ns) result ≡ before
  next_complete ns before events (none, w) l ih le = sym l
  next_complete ns before events (some bytes, w) l ih le =
      rw (ih w (omega (arith, l.1, le))) (sym l.0)

  read_all-pending :
      (ns : List ℕ) (w : Watch ev spec gr denied)
      → all (ltb 0) ns ≡ true
      → length (pending w) + length w.coming ≤ length ns
      → read_all ns w ≡ pending w
  read_all-pending [] w p le = sym (length-zero (pending w) (omega (arith, le)))
  read_all-pending (n ∷ ns) w p le =
      next_complete ns (pending w) (length w.coming) (read ev spec gr denied n w)
        (read-Leaves n w (ground (arith, p)))
        (λ w' le'. read_all-pending ns w' (ground (arith, p)) le') le

  -- Whatever buffers of one byte or more a client reads with, if it reads as often as there are bytes
  -- and events to come or more often, it gets the bytes that are left, then those of each event in
  -- its order up to the first error, in which the events whose objects its proxy may not see are
  -- bookmarks.
  pub read_all-shown :
      (ns : List ℕ) (w : Watch ev spec gr denied)
      → all (ltb 0) ns ≡ true
      → length w.remaining + length (bodies shown w.coming) + length w.coming ≤ length ns
      → read_all ns w ≡ w.remaining ++ bodies shown w.coming
  read_all-shown ns w p le =
      let same = bodies-shown w.coming in
      read_all-pending ns w p (
        omega (
          arith,
          le,
          ap length same,
          length-append w.remaining (bodies (read_body ev spec gr denied) w.coming),
        ))
      ∙ ap (λ l. w.remaining ++ l) same
