-- ===== src/Text/Defs.antt =====
-- Operations on byte strings, after Go's package strings.
use classicswarm.Prelude.{
  ℕ, Bool, true, false, ◌&&◌, ◌||◌, ◌==◌, if◌then◌else◌, List, [], ◌∷◌, ◌++◌, Option, none, some,
}
use Prim.Native.Char.{code}
use Prim.Native.String.{String}

abbrev pub Str : Type 0
Str = List ℕ

-- The bytes of an ASCII literal.
abbrev pub codes : String → Str
codes String.[] = []
codes (String.◌∷◌ c s) = code c ∷ codes s

unfoldable pub str_eq : Str → Str → Bool
str_eq [] [] = true
str_eq [] (d ∷ t) = false
str_eq (c ∷ s) [] = false
str_eq (c ∷ s) (d ∷ t) = c == d && str_eq s t

unfoldable pub has_prefix : Str → Str → Bool
has_prefix s [] = true
has_prefix [] (d ∷ p) = false
has_prefix (c ∷ s) (d ∷ p) = c == d && has_prefix s p

-- What follows a prefix; `none` where the text does not begin with it.
unfoldable pub cut_prefix : Str → Str → Option Str
cut_prefix s [] = some s
cut_prefix [] (d ∷ p) = none
cut_prefix (c ∷ s) (d ∷ p) = if c == d then cut_prefix s p else none

unfoldable pub has_suffix : Str → Str → Bool
unfolding str_eq
has_suffix [] p = str_eq [] p
has_suffix (c ∷ s) p = str_eq (c ∷ s) p || has_suffix s p

unfoldable pub contains : Str → Str → Bool
unfolding has_prefix
contains [] sep = has_prefix [] sep
contains (c ∷ s) sep = has_prefix (c ∷ s) sep || contains s sep

-- One byte more in front of what stands before the separator.
abbrev pub push_front : ℕ → Option (Str × Str) → Option (Str × Str)
push_front c none = none
push_front c (some (before, after)) = some (c ∷ before, after)

-- `SplitN(s, sep, 2)`: the parts round the first separator, and `none` where it returns one part.
unfoldable pub cut : Str → Str → Option (Str × Str)
unfolding cut_prefix
cut [] sep = elim (cut_prefix [] sep) [ some after ↦ some ([], after) | none ↦ none ]
cut (c ∷ s) sep = elim (cut_prefix (c ∷ s) sep) [
  | some after ↦ some ([], after)
  | none ↦ push_front c (cut s sep)
]

-- The parts round the last byte that is `sep`.
unfoldable pub last_cut : ℕ → Str → Option (Str × Str)
last_cut sep [] = none
last_cut sep (c ∷ s) = elim (last_cut sep s) [
  | some (before, after) ↦ some (c ∷ before, after)
  | none ↦ if c == sep then some ([], s) else none
]

-- `Split` at one byte.
abbrev pub push_part : ℕ → List Str → List Str
push_part c [] = (c ∷ []) ∷ []
push_part c (part ∷ parts) = (c ∷ part) ∷ parts

unfoldable pub split : ℕ → Str → List Str
split sep [] = [] ∷ []
split sep (c ∷ s) = let rest = split sep s in if c == sep then [] ∷ rest else push_part c rest

unfoldable pub join : Str → List Str → Str
join sep [] = []
join sep (s ∷ []) = s
join sep (s ∷ t ∷ ts) = s ++ (sep ++ join sep (t ∷ ts))

unfoldable pub trim_prefix : Str → Str → Str
unfolding cut_prefix
trim_prefix s p = elim (cut_prefix s p) [ some rest ↦ rest | none ↦ s ]

-- `TrimLeft(s, string(b))`: every leading `b` goes.
unfoldable pub trim_left : ℕ → Str → Str
trim_left b [] = []
trim_left b (c ∷ s) = if c == b then trim_left b s else c ∷ s
