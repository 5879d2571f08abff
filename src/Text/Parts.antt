-- ===== src/Text/Parts.antt =====
-- strings.Split at one byte: the parts hold no separator and make up the text again.
use classicswarm.Prelude.{
  ℕ, ◌≡◌, ◌≢◌, refl, sym, ◌∙◌, ap, inl, inr, ◌==◌, List, [], ◌∷◌, ◌++◌, arith, Every, Bool-cases,
}
use classicswarm.Text.Defs.{Str, split, push_part, join}

-- The byte is not in the text.
abbrev pub IsWithout : ℕ → Str → Type 0
IsWithout sep s = Every (λ c. c ≢ sep) s

-- The parts of a text between the separators.
pub record Parts (sep : ℕ) (s : Str) (parts : List Str) : Type 0 where
  pub some_part : parts ≢ []
  pub without : Every (IsWithout sep) parts
  pub joined : join (sep ∷ []) parts ≡ s

push-Parts :
    (sep c : ℕ) (s : Str) (parts : List Str)
    → c ≢ sep
    → Parts sep s parts
    → Parts sep (c ∷ s) (push_part c parts)
unfolding join
push-Parts sep c s [] ne h = absurd (h.some_part refl)
push-Parts sep c s (p ∷ []) ne h = record {
  some_part = λ e. cc;
  without = ((ne, h.without.0), tt);
  joined = ap (◌∷◌ c) h.joined;
}
push-Parts sep c s (p ∷ q ∷ ps) ne h = record {
  some_part = λ e. cc;
  without = ((ne, h.without.0), h.without.1);
  joined = ap (◌∷◌ c) h.joined;
}

break-Parts :
    (sep : ℕ) (s : Str) (parts : List Str) → Parts sep s parts → Parts sep (sep ∷ s) ([] ∷ parts)
unfolding join
break-Parts sep s [] h = absurd (h.some_part refl)
break-Parts sep s (p ∷ ps) h = record {
  some_part = λ e. cc;
  without = (tt, h.without);
  joined = ap (◌∷◌ sep) h.joined;
}

pub split-Parts : (sep : ℕ) (s : Str) → Parts sep s (split sep s)
unfolding split join
split-Parts sep [] = record { some_part = λ e. cc; without = (tt, tt); joined = refl }
split-Parts sep (c ∷ s) = elim (Bool-cases (c == sep)) [
  | inl e ↦
      let same : c ≡ sep = ground arith in
      rw (e, same) (break-Parts sep s (split sep s) (split-Parts sep s))
  | inr e ↦ rw e (push-Parts sep c s (split sep s) (λ g. ground arith) (split-Parts sep s))
]

split_part : (sep : ℕ) (p : Str) → IsWithout sep p → split sep p ≡ p ∷ []
unfolding split
split_part sep [] h = refl
split_part sep (c ∷ p) (n, h) = ground (arith, split_part sep p h)

split_first : (sep : ℕ) (p s : Str) → IsWithout sep p → split sep (p ++ (sep ∷ s)) ≡ p ∷ split sep s
unfolding split
split_first sep [] s h = ground arith
split_first sep (c ∷ p) s (n, h) = ground (arith, split_first sep p s h)

split-join :
    (sep : ℕ) (ps : List Str)
    → ps ≢ []
    → Every (IsWithout sep) ps
    → split sep (join (sep ∷ []) ps) ≡ ps
unfolding join
split-join sep [] n w = absurd (n refl)
split-join sep (p ∷ []) n w = split_part sep p w.0
split-join sep (p ∷ q ∷ ps) n w =
    split_first sep p (join (sep ∷ []) (q ∷ ps)) w.0
    ∙ ap (◌∷◌ p) (split-join sep (q ∷ ps) (λ e. cc) w.1)

-- There is one way to take a text apart.
pub Parts-unique : (sep : ℕ) (s : Str) (parts : List Str) → Parts sep s parts → parts ≡ split sep s
Parts-unique sep s parts h =
    sym (split-join sep parts h.some_part h.without) ∙ ap (split sep) h.joined
