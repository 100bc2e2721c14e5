-- ===== src/Grading/Builder/Encoded.antt =====
-- evaluation_input_builder.py and session_eligibility.py on a log of JSON texts.
use Prim.Native.String.{String}
use luve.Prelude.{
  length-map, ℕ, suc, ◌+◌, ◌≡◌, refl, ◌∙◌, ap, arith, some, List, [], ◌∷◌, map, ok, length,
}
use luve.Python.Json.{Value, obj, string, loaded, Runtime, Floats, Fields}
use luve.Grading.Events.{parse_raw_backup_events, decode_event}
use luve.Grading.Input.{SessionRow, EvaluationInput, Builder}
use luve.Grading.Eligibility.{evaluate_grading_eligibility, Tally, tally, tally_event, no_events}
use luve.Grading.Eligibility.Decides.{evaluate-tally}
use luve.Grading.Builder.{
  empty_builder, add_event, add_events, build_evaluation_input, quality_signals,
}
use luve.Grading.Builder.Agrees.{coerce-parse}

module _ {N : Type 0} (rt : Runtime N) where
  -- The texts are those of the objects, one by one.
  abbrev pub Encodes : List String → List (Fields N) → Type 0
  Encodes [] [] = Unit
  Encodes (t ∷ ts) (m ∷ ms) = (rt.loads t ≡ loaded (obj m)) × Encodes ts ms
  Encodes _ _ = ⊥

  decode_event-encoded :
      (t : String) (m : Fields N)
      → rt.loads t ≡ loaded (obj m)
      → decode_event rt (string t) ≡ decode_event rt (obj m)
  unfolding decode_event
  decode_event-encoded t m h = rw (h, decode_event)

  tally_event-encoded :
      (c : Tally) (t : String) (m : Fields N)
      → rt.loads t ≡ loaded (obj m)
      → tally_event rt c (string t) ≡ tally_event rt c (obj m)
  unfolding tally_event
  tally_event-encoded c t m h = rw (decode_event-encoded t m h)

  tally-encoded :
      (c : Tally) (ts : List String) (ms : List (Fields N))
      → Encodes ts ms
      → tally rt c (map string ts) ≡ tally rt c (map obj ms)
  unfolding tally
  tally-encoded c [] [] h = refl
  tally-encoded c (t ∷ ts) (m ∷ ms) h =
      ap (λ u. tally rt u (map string ts)) (tally_event-encoded c t m h.0)
      ∙ tally-encoded (tally_event rt c (obj m)) ts ms h.1
  tally-encoded c [] (m ∷ ms) h = absurd h
  tally-encoded c (t ∷ ts) [] h = absurd h

module _ {N : Type 0} (rt : Runtime N) (fl : Floats N) where
  add_events-texts :
      (ts : List String) (b : Builder)
      → add_events rt fl (map string ts) b ≡ ok (record b { ignored = b.ignored + length ts })
  unfolding add_events add_event
  add_events-texts [] b = ground arith
  add_events-texts (t ∷ ts) b =
      add_events-texts ts (record b { ignored = b.ignored + 1 }) ∙ ground arith

  textless_input : SessionRow N → List String → EvaluationInput
  textless_input row ts = record {
    session_id = row.id;
    user_id = row.user_id;
    lesson_id = row.lesson_id;
    raw_event_count = length ts;
    turns = [];
    quality_signals = quality_signals (record empty_builder { ignored = 0 + length ts });
  }

  -- If the events of a log are the texts of objects, the eligibility check judges the log like the
  -- log of the objects themselves, and the builder returns an input with no turn at all.
  pub encoded_log :
      (depth m : ℕ) (row : SessionRow N) (raw : Value N) (ts : List String) (ms : List (Fields N))
      → Encodes rt ts ms
      → parse_raw_backup_events rt row.raw_backup_json ≡ some (map string ts)
      → parse_raw_backup_events rt raw ≡ some (map obj ms)
      → (evaluate_grading_eligibility rt row.raw_backup_json m
          ≡ evaluate_grading_eligibility rt raw m)
        × ((input : EvaluationInput) × (build_evaluation_input rt fl (suc (suc depth)) row
              ≡ ok input)
            × (input.turns ≡ []))
  unfolding build_evaluation_input textless_input
  encoded_log depth m row raw ts ms e p q = (
    ground (
      arith,
      evaluate-tally rt row.raw_backup_json m (map string ts) p,
      evaluate-tally rt raw m (map obj ms) q,
      tally-encoded rt no_events ts ms e,
    ),
    (
      textless_input row ts,
      rw
          (
            coerce-parse rt depth row.raw_backup_json (map string ts) p,
            add_events-texts ts empty_builder,
          )
          (ground (arith, length-map {B = Value N} ts string)),
      refl,
    ),
  )
