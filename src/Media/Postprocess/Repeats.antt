-- ===== src/Media/Postprocess/Repeats.antt =====
-- The parts of a transcript that are kept.
use Prim.Native.String.{String}
use text.Mathlib.Text.{◌==◌ as str_eq}
use text.Mathlib.TextEquality.{eq_iff}
use luve.Prelude.{
  subst, ◌≡◌, arith, true, false, if_cases, ◌≡◌, refl, arith, true, false, not, Option, none, some,
  List, [], ◌∷◌, if_cases, map,
}
use luve.Python.Text.{strip}
use luve.Media.Postprocess.{is_new, unique_parts}

-- Each part differs from the one before.
abbrev pub NoRepeats : Option String → List String → Type 0
NoRepeats last [] = Unit
NoRepeats last (part ∷ parts) = (is_new last part ≡ true) × NoRepeats (some part) parts

-- The second list is the first one with parts left out that equal the part before.
pub data Collapses : Option String → List String → List String → Type 0 where
  done : {last : Option String} → Collapses last [] []
  keeps :
      {last : Option String} {part : String} {parts kept : List String}
      → Collapses (some part) parts kept
      → Collapses last (part ∷ parts) (part ∷ kept)
  repeats :
      {part : String} {parts kept : List String}
      → Collapses (some part) parts kept
      → Collapses (some part) (part ∷ parts) kept

same_part : (part last : String) → not (str_eq part last) ≡ false → part ≡ last
same_part part last h =
    let same : str_eq part last ≡ true = ground (arith, h) in (eq_iff part last).0 same

collapses :
    (last : Option String) (parts : List String)
    → Collapses last (map strip parts) (unique_parts last parts)
unfolding unique_parts
collapses last [] = done
collapses none (part ∷ parts) = keeps (collapses (some (strip part)) parts)
collapses (some last) (part ∷ parts) =
    let rest = unique_parts (some (strip part)) parts in
    let collapsed = collapses (some (strip part)) parts in
    if_cases (Collapses (some last) (strip part ∷ map strip parts)) (not (str_eq (strip part) last))
      (λ _. keeps collapsed)
      λ same.
        subst (λ l. Collapses (some l) (strip part ∷ map strip parts) rest)
          (same_part (strip part) last same) (repeats collapsed)

no_repeats : (last : Option String) (parts : List String) → NoRepeats last (unique_parts last parts)
unfolding unique_parts
no_repeats last [] = tt
no_repeats none (part ∷ parts) = (refl, no_repeats (some (strip part)) parts)
no_repeats (some last) (part ∷ parts) =
    let rest = unique_parts (some (strip part)) parts in
    let others = no_repeats (some (strip part)) parts in
    if_cases (NoRepeats (some last)) (not (str_eq (strip part) last)) (λ new. (new, others))
      λ same. subst (λ l. NoRepeats (some l) rest) (same_part (strip part) last same) others

-- The parts of a transcript that are kept are its parts without the spaces around them, each run of
-- equal ones once: every part is the kept one or repeats it, and no kept part repeats the one before.
pub unique_parts-Collapses :
    (parts : List String)
    → Collapses none (map strip parts) (unique_parts none parts)
      × NoRepeats none (unique_parts none parts)
unique_parts-Collapses parts = (collapses none parts, no_repeats none parts)
