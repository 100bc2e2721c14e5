-- ===== src/Service/Forms.antt =====
-- The form in which core-api writes events, and the text of such an event.
use Prim.Native.String.{String}
use luve.Prelude.{
  ◌⊎◌, ◌≡◌, refl, ap, sym, ◌∙◌, arith, false, some, List, All, if◌then◌else◌, inl, inr,
}
use luve.Python.Text.{is_empty, strip, upper}
use luve.Python.Json.{Value, null, string, obj, Fields, Runtime, get, or_else, str}
use luve.Grading.Events.{is_user_turn, get_event_kind, get_event_text, get_event_grading_text}
use luve.Service.Words.{event_fields, is_exact_user_turn, payload_of, text_value}

module _ {N : Type 0} (rt : Runtime N) where
  -- A segment is absent, empty as for a turn whose English is weak, or a text that is not blank.
  abbrev pub IsSegment : Value N → Type 0
  IsSegment v =
      ((v ≡ null) ⊎ (v ≡ string ""))
      ⊎ ((s : String) × (v ≡ string s) × (is_empty (strip s) ≡ false))

  -- An event in the form that core-api writes: a kind in capitals, and a payload with a text.
  pub record IsWritten (m : Fields N) : Type 0 where
    pub kind : String
    pub payload : Fields N
    pub words : String
    pub has_kind : get "type" m ≡ string kind
    pub kind_there : is_empty kind ≡ false
    pub kind_upper : upper (strip kind) ≡ kind
    pub has_payload : get "payload" m ≡ obj payload
    pub has_words : get "text" payload ≡ string words
    pub segment : IsSegment (get "english_segment" payload)

  -- The events that are mappings, or texts of mappings, are in that form.
  abbrev pub IsCanonical : List (Value N) → Type 0
  IsCanonical = All (λ e. (m : Fields N) → event_fields rt e ≡ some m → IsWritten m)

  pub same_kind : (m : Fields N) → IsWritten m → is_exact_user_turn rt m ≡ is_user_turn rt (obj m)
  unfolding is_exact_user_turn get_event_kind
  same_kind m w = ground (arith, w.has_kind, w.kind_there, w.kind_upper)

  or_blank_text : (s : String) → strip (str rt (or_else rt (string s) (string ""))) ≡ strip s
  or_blank_text String.[] = refl
  or_blank_text (String.◌∷◌ c s) = refl

  blank_segment : (s : String) → is_empty (strip s) ≡ false → is_empty s ≡ false
  unfolding strip
  blank_segment String.[] h = cc
  blank_segment (String.◌∷◌ c s) h = refl

  payload-known : (m p : Fields N) → get "payload" m ≡ obj p → payload_of rt m ≡ p
  payload-known m p h = ground (arith, h)

  text_value-absent :
      (p : Fields N) (t : String)
      → get "text" p ≡ string t
      → get "english_segment" p ≡ null
      → text_value rt p ≡ strip t
  unfolding text_value
  text_value-absent p t h absent = rw absent (rw h (or_blank_text t))

  text_value-empty :
      (p : Fields N) (t : String)
      → get "text" p ≡ string t
      → get "english_segment" p ≡ string ""
      → text_value rt p ≡ strip t
  unfolding text_value
  text_value-empty p t h empty = rw empty (rw h (or_blank_text t))

  text_value-segment :
      (p : Fields N) (s : String)
      → get "english_segment" p ≡ string s
      → is_empty s ≡ false
      → text_value rt p ≡ strip s
  unfolding text_value
  text_value-segment p s there full = rw there (rw full refl)

  abbrev stripped_text : Value N → String
  stripped_text v = elim v [ string s ↦ strip s | _ ↦ "" ]

  event_text :
      (m p : Fields N) (t : String)
      → get "payload" m ≡ obj p
      → get "text" p ≡ string t
      → get_event_text rt (obj m) ≡ strip t
  unfolding get_event_text
  event_text m p t h h' =
      ap
        (λ v. elim v as (λ _. String) [ obj payload ↦ stripped_text (get "text" payload) | _ ↦ "" ])
        h
      ∙ ap stripped_text h'

  abbrev segment_or : String → Value N → String
  segment_or text v = if is_empty (stripped_text v) then text else stripped_text v

  grading-without :
      (m p : Fields N) (t : String) (v : Value N)
      → get "payload" m ≡ obj p
      → get "text" p ≡ string t
      → get "english_segment" p ≡ v
      → segment_or (get_event_text rt (obj m)) v ≡ get_event_text rt (obj m)
      → get_event_grading_text rt (obj m) ≡ strip t
  unfolding get_event_grading_text
  grading-without m p t v h h' same falls_back =
      let text = get_event_text rt (obj m) in
      ap
        (λ v. elim v as (λ _. String) [
          | obj payload ↦ segment_or text (get "english_segment" payload)
          | _ ↦ ""
        ])
        h
      ∙ ap (segment_or text) same
      ∙ falls_back
      ∙ event_text m p t h h'

  falls_back_empty : (text : String) → segment_or text (string "") ≡ text
  unfolding strip
  falls_back_empty text = refl

  grading-segment :
      (m p : Fields N) (s : String)
      → get "payload" m ≡ obj p
      → get "english_segment" p ≡ string s
      → is_empty (strip s) ≡ false
      → get_event_grading_text rt (obj m) ≡ strip s
  unfolding get_event_grading_text get_event_text
  grading-segment m p s h there full = ground (arith, h, there, full)

  pub same_words :
      (m : Fields N)
      → IsWritten m
      → text_value rt (payload_of rt m) ≡ get_event_grading_text rt (obj m)
  same_words m w = ap (text_value rt) (payload-known m w.payload w.has_payload) ∙ elim w.segment [
    | inl (inl absent) ↦
        text_value-absent w.payload w.words w.has_words absent
        ∙ sym (grading-without m w.payload w.words null w.has_payload w.has_words absent refl)
    | inl (inr empty) ↦
        text_value-empty w.payload w.words w.has_words empty
        ∙ sym (
            grading-without m w.payload w.words (string "") w.has_payload w.has_words empty
              (falls_back_empty (get_event_text rt (obj m))))
    | inr (s, there, full) ↦
        text_value-segment w.payload s there (blank_segment s full)
        ∙ sym (grading-segment m w.payload s w.has_payload there full)
  ]
