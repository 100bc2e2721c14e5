-- ===== src/Grading/Llm/Feedback.antt =====
-- llm_grader.py: the skill feedback of a reply.
use luve.Prelude.{◌≡◌, refl, arith, Option, none, some, List, [], ◌∷◌, Option-cases, inl, inr, true}
use luve.Python.Text.{lower}
use luve.Python.Json.{Value, obj, arr, Fields, to_list, Runtime, Floats}
use luve.Grading.Skills.{
  Skill, fluency, grammar, vocabulary, pronunciation_clarity, SkillFeedback, Scores, score_of,
  status_of, same, text_of, Dict, put_item, put_items, entry, filter_skill_feedback, skill_named,
}

same-eq : (s t : Skill) → same s t ≡ true → s ≡ t
same-eq s t h = ground arith

module _ {N : Type 0} (rt : Runtime N) (fl : Floats N) (scores : Scores N) where
  -- An entry is about its skill, under its score, and its status says whether there is one.
  abbrev pub IsAbout : Skill → SkillFeedback N → Type 0
  IsAbout skill f =
      (f.skill ≡ skill)
      × (f.score ≡ score_of scores skill)
      × (f.status ≡ status_of rt fl (score_of scores skill))

  abbrev IsDict : Dict rt fl → Type 0
  IsDict d = (s : Skill) (f : SkillFeedback N) → d s ≡ some f → IsAbout s f

  -- The skill that an item names.
  abbrev named : Fields N → Option Skill
  named item = skill_named (lower (text_of rt fl "skill" item))

  -- The dictionary of a reply.
  abbrev read : Value N → Dict rt fl
  read raw = put_items rt fl scores (elim raw [ arr vs ↦ to_list vs | _ ↦ [] ]) (λ _. none)

  put_item-IsDict :
      (item : Fields N) (d : Dict rt fl) → IsDict d → IsDict (put_item rt fl scores item d)
  unfolding put_item
  put_item-IsDict item d h s f e = elim (Option-cases (named item)) [
    | inl unknown ↦ ground (arith, h s f, unknown)
    | inr (skill, known) ↦ ground (arith, h s f, known, same-eq s skill)
  ]

  put_items-IsDict :
      (items : List (Value N)) (d : Dict rt fl) → IsDict d → IsDict (put_items rt fl scores items d)
  unfolding put_items
  put_items-IsDict [] d h = h
  put_items-IsDict (obj m ∷ items) d h = put_items-IsDict items _ (put_item-IsDict m d h)
  put_items-IsDict (item ∷ items) d h = put_items-IsDict items _ h

  entry-IsAbout : (d : Dict rt fl) (s : Skill) → IsDict d → IsAbout s (entry rt fl scores d s)
  unfolding entry
  entry-IsAbout d s h = elim (Option-cases (d s)) [
    | inl missing ↦ ground (arith, missing)
    | inr (f, found) ↦ ground (arith, found, h s f found)
  ]

  read-IsDict : (raw : Value N) → IsDict (read raw)
  read-IsDict raw = put_items-IsDict _ (λ _. none) (λ s f e. cc)

  -- The feedback has four entries, about fluency, grammar, vocabulary and pronunciation in this order,
  -- whatever the reply holds; each carries the validated score of its skill, and the status
  -- `insufficient_evidence` exactly where there is no score.
  pub filter_skill_feedback-IsAbout :
      (raw : Value N)
      → (a b c d : SkillFeedback N) × (filter_skill_feedback rt fl raw scores ≡ a ∷ b ∷ c ∷ d ∷ [])
        × IsAbout fluency a
        × IsAbout grammar b
        × IsAbout vocabulary c
        × IsAbout pronunciation_clarity d
  unfolding filter_skill_feedback
  filter_skill_feedback-IsAbout raw =
      let about = λ (s : Skill). entry-IsAbout (read raw) s (read-IsDict raw) in
      (
        _,
        _,
        _,
        _,
        refl,
        about fluency,
        about grammar,
        about vocabulary,
        about pronunciation_clarity,
      )
