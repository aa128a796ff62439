-- ===== src/Query/Split.antt =====
-- Texts that are split at a character.
use Prim.Native.Char.{Char}
use controllermesh.Prelude.{
  String, List, [], ◌∷◌, Bool, true, not, ◌&&◌, ◌==◌, ◌≡◌, refl, ap, ◌∙◌, arith, all, eq_refl,
}
use controllermesh.Prelude.Texts.{concat_text, split_at, cons_first}
use text.Mathlib.TextLemmas.{cons-append, nil-append}

abbrev pub one : Char → String
one c = String.◌∷◌ c String.[]

-- The character does not stand in the text.
abbrev pub is_free : Char → String → Bool
is_free c String.[] = true
is_free c (String.◌∷◌ d s) = not (one d == one c) && is_free c s

cons_first-one :
    (c : Char) (s : String) (ss : List String) → cons_first (one c) (s ∷ ss) ≡ String.◌∷◌ c s ∷ ss
cons_first-one c s ss = rw (cons-append c String.[] s, nil-append s) refl

pub split_at-free : (c : Char) (s : String) → is_free c s ≡ true → split_at (one c) s ≡ s ∷ []
unfolding split_at
split_at-free c String.[] f = refl
split_at-free c (String.◌∷◌ d s) f = ground (arith, f, split_at-free c s, cons_first-one d s [])

pub split_at-append :
    (c : Char) (s t : String)
    → is_free c s ≡ true
    → split_at (one c) (concat_text s (concat_text (one c) t)) ≡ s ∷ split_at (one c) t
unfolding split_at
split_at-append c String.[] t f =
    rw (nil-append (concat_text (one c) t), cons-append c String.[] t, nil-append t)
      (ground (arith, eq_refl (one c)))
split_at-append c (String.◌∷◌ d s) t f =
    rw (cons-append d s (concat_text (one c) t))
      (ground (arith, f, split_at-append c s t, cons_first-one d s (split_at (one c) t)))

pub is_free-append :
    (c : Char) (s t : String) → is_free c (concat_text s t) ≡ (is_free c s && is_free c t)
is_free-append c String.[] t = rw (nil-append t) refl
is_free-append c (String.◌∷◌ d s) t = rw (cons-append d s t) (ground (arith, is_free-append c s t))

cons_first-is_free :
    (c d : Char) (ss : List String)
    → all (is_free c) (cons_first (one d) ss) ≡ (not (one d == one c) && all (is_free c) ss)
cons_first-is_free c d [] = ground arith
cons_first-is_free c d (s ∷ ss) = ap (all (is_free c)) (cons_first-one d s ss) ∙ ground arith

-- No piece has the character that the text is split at.
pub split_at-is_free : (c : Char) (s : String) → all (is_free c) (split_at (one c) s) ≡ true
unfolding split_at
split_at-is_free c String.[] = refl
split_at-is_free c (String.◌∷◌ d s) =
    ground (arith, split_at-is_free c s, cons_first-is_free c d (split_at (one c) s))

-- A piece has no character that the text has not.
pub split_at-keeps_free :
    (c d : Char) (s : String) → is_free d s ≡ true → all (is_free d) (split_at (one c) s) ≡ true
unfolding split_at
split_at-keeps_free c d String.[] f = refl
split_at-keeps_free c d (String.◌∷◌ e s) f =
    ground (arith, f, split_at-keeps_free c d s, cons_first-is_free d e (split_at (one c) s))
