-- ===== src/Prelude/Texts.antt =====
-- Joining native texts.
use Prim.Native.String
use Prim.Native.String.{String}
use mathlib.Core.Bool.{Bool, ◌||◌}
use mathlib.Core.Option.{Option, none, some}
use mathlib.Core.List.{List, [], ◌∷◌}
use text.Mathlib.Text.{◌==◌}
use controllermesh.Prelude.Tests.{if◌then◌else◌}

-- s + t
abbrev pub concat_text : String → String → String
concat_text s t = String.◌++◌ s t

-- strings.HasSuffix
unfoldable pub has_suffix : String → String → Bool
has_suffix String.[] t = t == ""
has_suffix (String.◌∷◌ c s) t = String.◌∷◌ c s == t || has_suffix s t

-- strings.TrimSuffix
unfoldable pub trim_suffix : String → String → String
trim_suffix String.[] t = ""
trim_suffix (String.◌∷◌ c s) t =
    let rest = trim_suffix s t in if String.◌∷◌ c s == t then "" else String.◌∷◌ c rest

-- The text behind a prefix, `none` where it is none: strings.HasPrefix and what follows.
unfoldable pub strip_prefix : String → String → Option String
strip_prefix String.[] s = some s
strip_prefix (String.◌∷◌ c p) String.[] = none
strip_prefix (String.◌∷◌ c p) (String.◌∷◌ d s) =
    let rest = strip_prefix p s in
    if String.◌∷◌ c String.[] == String.◌∷◌ d String.[] then rest else none

abbrev pub cons_first : String → List String → List String
cons_first c [] = c ∷ []
cons_first c (s ∷ ss) = concat_text c s ∷ ss

-- strings.Split at a separator of one character
unfoldable pub split_at : String → String → List String
split_at sep String.[] = "" ∷ []
split_at sep (String.◌∷◌ c s) =
    let rest = split_at sep s in
    let first = String.◌∷◌ c String.[] in if first == sep then "" ∷ rest else cons_first first rest
