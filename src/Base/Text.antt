-- ===== src/Base/Text.antt =====
-- The functions of Go's package `strings` that the program calls.
use Prim.Native.Nat.{ℕ}
use Prim.Native.Char.{Char, code}
use Prim.Native.String.{String, [], ◌∷◌, ◌++◌ as ◌<>◌, len, slice}
use mathlib.Core.Path.{◌≡◌, refl}
use mathlib.Core.Bool.{Bool, true, false}
use mathlib.Core.List.{List, [], ◌∷◌}
use native.Mathlib.Omega.{arith}
use text.Mathlib.Text.{starts_with}
use text.Mathlib.TextLemmas.{nil-append, cons-append}
use text.Mathlib.TextPositions.{slice-append_right, len-append, starts_with-append}
use kubeip.Base.Tests.{ltb, nat_eq, if◌then◌else◌}

-- `strings.HasPrefix`.
unfoldable pub has_prefix : String → String → Bool
has_prefix s p = starts_with s p

-- `strings.TrimPrefix`.
unfoldable pub trim_prefix : String → String → String
unfolding has_prefix
trim_prefix s p = if has_prefix s p then slice s (len p) (len s) else s

pub has_prefix-append : (p s : String) → has_prefix (p <> s) p ≡ true
unfolding has_prefix
has_prefix-append p s = starts_with-append p s

pub trim_prefix-append : (p s : String) → trim_prefix (p <> s) p ≡ s
unfolding trim_prefix
trim_prefix-append p s = rw (starts_with-append p s, len-append) (slice-append_right p s)

-- A character put in front of the first piece.
abbrev pub push_first : Char → List String → List String
push_first c [] = (c ∷ []) ∷ []
push_first c (p ∷ ps) = (c ∷ p) ∷ ps

-- `strings.Split` by a separator of one character.
unfoldable pub split : ℕ → String → List String
split sep [] = [] ∷ []
split sep (c ∷ s) =
    let rest = split sep s in if nat_eq (code c) sep then [] ∷ rest else push_first c rest

-- `strings.SplitN` with a limit of two.
unfoldable pub split_two : ℕ → String → List String
split_two sep [] = [] ∷ []
split_two sep (c ∷ s) =
    let rest = split_two sep s in if nat_eq (code c) sep then [] ∷ (s ∷ []) else push_first c rest

-- `strings.Join`.
abbrev pub join : String → List String → String
join sep [] = ""
join sep (s ∷ []) = s
join sep (s ∷ t ∷ ts) = s <> sep <> join sep (t ∷ ts)

-- No character of the text is the separator.
abbrev pub Avoids : ℕ → String → Type 0
Avoids sep [] = Unit
Avoids sep (c ∷ s) = (nat_eq (code c) sep ≡ false) × Avoids sep s

-- The order `<` on Go's strings.
unfoldable pub text_less : String → String → Bool
text_less [] [] = false
text_less [] (d ∷ t) = true
text_less (c ∷ s) [] = false
text_less (c ∷ s) (d ∷ t) =
    let rest = text_less s t in
    if ltb (code c) (code d) then true else if ltb (code d) (code c) then false else rest

pub text_less_asym : (s t : String) → text_less s t ≡ true → text_less t s ≡ false
unfolding text_less
text_less_asym [] [] h = refl
text_less_asym [] (d ∷ t) h = refl
text_less_asym (c ∷ s) [] h = ground arith
text_less_asym (c ∷ s) (d ∷ t) h = ground (arith, text_less_asym s t)

-- A text without the separator is one piece.
pub split_whole : (sep : ℕ) (s : String) → Avoids sep s → split sep s ≡ s ∷ []
unfolding split
split_whole sep [] h = refl
split_whole sep (c ∷ s) h = rw (split_whole sep s h.1, h.0)

-- The first separator ends the first piece.
pub split-append :
    (sep : ℕ) (s : String) (c : Char) (t : String)
    → Avoids sep s
    → nat_eq (code c) sep ≡ true
    → split sep (s <> ((c ∷ []) <> t)) ≡ s ∷ split sep t
unfolding split
split-append sep [] c t h e = rw (nil-append, cons-append, nil-append, e)
split-append sep (d ∷ s) c t h e = rw (cons-append d s, h.0, split-append sep s c t h.1 e)

pub split_two-append :
    (sep : ℕ) (s : String) (c : Char) (t : String)
    → Avoids sep s
    → nat_eq (code c) sep ≡ true
    → split_two sep (s <> ((c ∷ []) <> t)) ≡ s ∷ t ∷ []
unfolding split_two
split_two-append sep [] c t h e = rw (nil-append, cons-append, nil-append, e)
split_two-append sep (d ∷ s) c t h e = rw (cons-append d s, h.0, split_two-append sep s c t h.1 e)
