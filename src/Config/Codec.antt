-- ===== src/Config/Codec.antt =====
-- What the configuration relies on of encoding/json: lists of texts are encoded, and an encoding is
-- decoded to the list that it came from. `framed` is a codec that meets the contract.
use classicswarm.Prelude.{
  ℕ, suc, zero, ◌≡◌, refl, List, [], ◌∷◌, ◌++◌, map, Option, some, ap, subst,
}
use classicswarm.Text.{Str}

pub record Json : Type 0 where
  -- json.Marshal of a []string; `none` is an error.
  pub marshal : List Str → Option Str
  -- The slice that json.Unmarshal leaves in a nil []string, whose error the sources ignore.
  pub unmarshal : Str → List Str
  pub marshals : (xs : List Str) → (text : Str) × (marshal xs ≡ some text)
  pub unmarshal-marshal :
      (xs : List Str) {text : Str} → marshal xs ≡ some text → unmarshal text ≡ xs

-- Each byte is raised by one, and a zero ends a text.
abbrev frame : List Str → Str
frame [] = []
frame (s ∷ ss) = map suc s ++ zero ∷ frame ss

abbrev push_byte : ℕ → List Str → List Str
push_byte c [] = []
push_byte c (s ∷ ss) = (c ∷ s) ∷ ss

abbrev unframe : Str → List Str
unframe [] = []
unframe (zero ∷ r) = [] ∷ unframe r
unframe (suc c ∷ r) = push_byte c (unframe r)

unframe-text : (s : Str) (r : Str) → unframe (map suc s ++ zero ∷ r) ≡ s ∷ unframe r
unframe-text [] r = refl
unframe-text (c ∷ s) r = ap (push_byte c) (unframe-text s r)

unframe-frame : (ss : List Str) → unframe (frame ss) ≡ ss
unframe-frame [] = refl
unframe-frame (s ∷ ss) = rw (unframe-text s (frame ss), unframe-frame ss)

pub framed_round : (ss : List Str) {text : Str} → some (frame ss) ≡ some text → unframe text ≡ ss
framed_round ss {text} e =
    let same : frame ss ≡ text = cc in subst (λ t. unframe t ≡ ss) same (unframe-frame ss)

abbrev pub framed : Json
framed = record {
  marshal = λ ss. some (frame ss);
  unmarshal = unframe;
  marshals = λ ss. (frame ss, refl);
  unmarshal-marshal = framed_round;
}
