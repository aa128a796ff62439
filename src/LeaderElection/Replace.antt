-- ===== src/LeaderElection/Replace.antt =====
-- LastReplace at the end of a text.
use controllermesh.Prelude.{ℕ, suc, ◌<◌, String, none, some, ◌≡◌, refl, ap, arith, eq_refl}
use controllermesh.Prelude.Texts.{concat_text, strip_prefix}
use controllermesh.LeaderElection.{replace_in, last_replace}
use text.Mathlib.TextLemmas.{cons-append, nil-append, append-nil}

abbrev letters : String → ℕ
letters String.[] = 0
letters (String.◌∷◌ c s) = suc (letters s)

strip_prefix-shorter : (p s : String) → letters s < letters p → strip_prefix p s ≡ none
unfolding strip_prefix
strip_prefix-shorter String.[] s lt = ground (arith, lt)
strip_prefix-shorter (String.◌∷◌ c p) String.[] lt = refl
strip_prefix-shorter (String.◌∷◌ c p) (String.◌∷◌ d s) lt =
    ground (arith, strip_prefix-shorter p s, lt)

strip_prefix-same : (p : String) → strip_prefix p p ≡ some ""
unfolding strip_prefix
strip_prefix-same String.[] = refl
strip_prefix-same (String.◌∷◌ c p) =
    ground (arith, strip_prefix-same p, eq_refl (String.◌∷◌ c String.[]))

replace_in-shorter : (s old new : String) → letters s < letters old → replace_in s old new ≡ none
unfolding replace_in
replace_in-shorter String.[] old new lt = ground (arith, strip_prefix-shorter old "" lt)
replace_in-shorter (String.◌∷◌ c s) old new lt =
    ground (arith, strip_prefix-shorter old (String.◌∷◌ c s) lt, replace_in-shorter s old new)

replace_in-same : (old new : String) → replace_in old old new ≡ some new
unfolding replace_in strip_prefix
replace_in-same String.[] new = ap some (append-nil new)
replace_in-same (String.◌∷◌ c o) new = ground (
  arith,
  replace_in-shorter o (String.◌∷◌ c o) new,
  strip_prefix-same (String.◌∷◌ c o),
  append-nil new,
)

replace_in-append :
    (s old new : String) → replace_in (concat_text s old) old new ≡ some (concat_text s new)
unfolding replace_in
replace_in-append String.[] old new = rw (nil-append old, nil-append new) (replace_in-same old new)
replace_in-append (String.◌∷◌ c s) old new =
    rw (cons-append c s old, cons-append c s new) (ground (arith, replace_in-append s old new))

-- The occurrence at the end of a text is its last one.
pub last_replace-append :
    (s old new : String) → last_replace (concat_text s old) old new ≡ concat_text s new
unfolding last_replace
last_replace-append s old new = ground (arith, replace_in-append s old new)
