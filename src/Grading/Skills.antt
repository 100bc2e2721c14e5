-- ===== src/Grading/Skills.antt =====
-- llm_grader.py: the feedback for each skill.
use Prim.Native.String.{String, ◌++◌ as str_append}
use text.Mathlib.Text.{◌==◌ as str_eq}
use luve.Prelude.{Bool, true, false, Option, none, some, List, [], ◌∷◌, if◌then◌else◌}
use luve.Python.Text.{is_empty, strip, lower}
use luve.Python.Json.{Value, arr, obj, string, Fields, Runtime, Floats, to_list, get, or_else, str}

pub data Skill : Type 0 where
  fluency grammar vocabulary pronunciation_clarity : Skill

pub data FeedbackStatus : Type 0 where
  scored insufficient_evidence : FeedbackStatus

pub record SkillFeedback (N : Type 0) : Type 0 where
  pub skill : Skill
  pub score : Option N
  pub status : FeedbackStatus
  pub summary : String
  pub suggestion : String

-- The four validated scores.
pub record Scores (N : Type 0) : Type 0 where
  pub fluency : N
  pub grammar : N
  pub vocab : N
  pub pronunciation : Option N

abbrev pub score_of : {N : Type 0} → Scores N → Skill → Option N
score_of s fluency = some s.fluency
score_of s grammar = some s.grammar
score_of s vocabulary = some s.vocab
score_of s pronunciation_clarity = s.pronunciation

abbrev pub same : Skill → Skill → Bool
same fluency fluency = true
same grammar grammar = true
same vocabulary vocabulary = true
same pronunciation_clarity pronunciation_clarity = true
same _ _ = false

-- `_SKILL_LABELS`
unfoldable pub skill_label : Skill → String
skill_label fluency = "Keep answers flowing in complete thoughts."
skill_label grammar = "Focus on one recurring grammar pattern in the next session."
skill_label vocabulary = "Add more precise words instead of repeating safe words."
skill_label pronunciation_clarity =
    "Practice short phrases clearly and compare the transcript confidence."

-- `skill.replace('_', ' ').title()`
skill_title : Skill → String
skill_title fluency = "Fluency"
skill_title grammar = "Grammar"
skill_title vocabulary = "Vocabulary"
skill_title pronunciation_clarity = "Pronunciation Clarity"

-- The skill that a name stands for.
unfoldable pub skill_named : String → Option Skill
skill_named name =
    if str_eq name "fluency"
    then some fluency
    else if str_eq name "grammar"
    then some grammar
    else if str_eq name "vocab"
    then some vocabulary
    else if str_eq name "vocabulary"
    then some vocabulary
    else if str_eq name "pronunciation_clarity"
    then some pronunciation_clarity
    else none

module _ {N : Type 0} (rt : Runtime N) (fl : Floats N) where
  unfoldable pub default_summary : Skill → Option N → String
  unfolding skill_title
  default_summary skill none =
      str_append (skill_title skill) " could not be scored reliably from this session."
  default_summary skill (some score) =
      str_append (skill_title skill) (str_append " scored " (str_append (fl.show1 score) "/10."))

  abbrev pub status_of : Option N → FeedbackStatus
  status_of none = insufficient_evidence
  status_of (some _) = scored

  -- `str(item.get(key) or "").strip()`
  abbrev pub text_of : String → Fields N → String
  text_of key item = strip (str rt (or_else rt (get key item) (string "")))

  abbrev or_text : String → String → String
  or_text a b = if is_empty a then b else a

  abbrev pub Dict : Type 0
  Dict = Skill → Option (SkillFeedback N)

  -- One item of the model's list, written over an earlier one for the same skill.
  unfoldable pub put_item : Scores N → Fields N → Dict → Dict
  put_item scores item d = elim (skill_named (lower (text_of "skill" item))) [
    | none ↦ d
    | some skill ↦ λ s.
        if same s skill
        then some (record {
          skill = skill;
          score = score_of scores skill;
          status = status_of (score_of scores skill);
          summary =
              or_text (text_of "summary" item) (default_summary skill (score_of scores skill));
          suggestion = or_text (text_of "suggestion" item) (skill_label skill);
        })
        else d s
  ]

  unfoldable pub put_items : Scores N → List (Value N) → Dict → Dict
  put_items scores [] d = d
  put_items scores (item ∷ items) d =
      put_items scores items (elim item [ obj m ↦ put_item scores m d | _ ↦ d ])

  -- The entry of a skill, a default where the model gave none.
  unfoldable pub entry : Scores N → Dict → Skill → SkillFeedback N
  entry scores d skill = elim (d skill) [
    | some feedback ↦ feedback
    | none ↦ record {
      skill = skill;
      score = score_of scores skill;
      status = status_of (score_of scores skill);
      summary = default_summary skill (score_of scores skill);
      suggestion = skill_label skill;
    }
  ]

  unfoldable pub filter_skill_feedback : Value N → Scores N → List (SkillFeedback N)
  unfolding put_items put_item entry
  filter_skill_feedback raw scores =
      let d : Dict = put_items scores (elim raw [ arr vs ↦ to_list vs | _ ↦ [] ]) (λ _. none) in
      entry scores d fluency
      ∷ entry scores d grammar
      ∷ entry scores d vocabulary
      ∷ entry scores d pronunciation_clarity
      ∷ []
