-- ===== src/Speech/Conserves.antt =====
-- media/tts.py: no text that is fed is lost, doubled or reordered on its way to the queue.
use Prim.Native.String.{String, ◌++◌ as str_append}
use text.Mathlib.TextLemmas.{nil-append, append-nil, append_assoc}
use luve.Prelude.{
  ℕ, zero, suc, ◌≡◌, refl, ◌∙◌, sym, ap, Bool, Option, none, some, List, [], ◌∷◌, ◌++◌,
  if◌then◌else◌, if_cases, if_both,
}
use luve.Python.Text.{is_empty, strip}
use luve.Python.Lines.{join, prefix, suffix, split_words, length_text}
use luve.Speech.{
  Tts, PhraseJob, SpeechSettings, add_job, enqueue_phrase, enqueue_phrases, drain_ready_phrases,
  cut_phrases, cut_step, find_phrase_break,
}
use luve.Speech.Texts.{
  squeeze_blank, squeeze, squeeze_all, squeeze-prefix, squeeze-strip, squeeze_empty, squeeze-join,
  squeeze_all-split_words,
}

pub squeeze_all-append :
    (xs ys : List String) → squeeze_all (xs ++ ys) ≡ str_append (squeeze_all xs) (squeeze_all ys)
unfolding squeeze_all
squeeze_all-append [] ys = sym (nil-append (squeeze_all ys))
squeeze_all-append (x ∷ xs) ys =
    ap (str_append (squeeze x)) (squeeze_all-append xs ys)
    ∙ sym (append_assoc (squeeze x) (squeeze_all xs) (squeeze_all ys))

squeeze_all_with :
    (phrase : String) (phrases : List String)
    → squeeze_all (if is_empty (strip phrase) then phrases else strip phrase ∷ phrases)
      ≡ str_append (squeeze phrase) (squeeze_all phrases)
unfolding squeeze_all
squeeze_all_with phrase phrases =
    if_cases
      (λ (x : List String). squeeze_all x ≡ str_append (squeeze phrase) (squeeze_all phrases))
      (is_empty (strip phrase)) {x = phrases} {y = strip phrase ∷ phrases}
      (λ e. rw (squeeze_empty phrase e) (sym (nil-append (squeeze_all phrases))))
      (λ e. ap (λ s. str_append s (squeeze_all phrases)) (squeeze-strip phrase))

-- The phrases and the rest are the text.
abbrev pub Cuts : String → List String × String → Type 0
Cuts text (phrases, left) = str_append (squeeze_all phrases) (squeeze left) ≡ squeeze text

cut_step-Cuts :
    (again : String → List String × String) (text : String) (o : Option ℕ)
    → ((s : String) → Cuts s (again s))
    → Cuts text (cut_step again text o)
unfolding squeeze_all
cut_step-Cuts again text none ih = nil-append (squeeze text)
cut_step-Cuts again text (some k) ih =
    let (phrases, left) = again (suffix k text) in
    ap (λ s. str_append s (squeeze left)) (squeeze_all_with (prefix k text) phrases)
    ∙ append_assoc (squeeze (prefix k text)) (squeeze_all phrases) (squeeze left)
    ∙ ap (str_append (squeeze (prefix k text))) (ih (suffix k text))
    ∙ squeeze-prefix k text

-- The texts of the queue.
abbrev pub queued : List (Option PhraseJob) → String
queued [] = ""
queued (none ∷ items) = queued items
queued (some job ∷ items) = str_append (squeeze job.text) (queued items)

-- The text on its way, from the queue to the end of the buffer.
abbrev pub said : Tts → String
said t = str_append (queued t.phrase_queue) (squeeze t.phrase_buffer)

queued-append :
    (items : List (Option PhraseJob)) (job : PhraseJob)
    → queued (items ++ some job ∷ []) ≡ str_append (queued items) (squeeze job.text)
queued-append [] job = append-nil (squeeze job.text) ∙ sym (nil-append (squeeze job.text))
queued-append (none ∷ items) job = queued-append items job
queued-append (some first ∷ items) job =
    ap (str_append (squeeze first.text)) (queued-append items job)
    ∙ sym (append_assoc (squeeze first.text) (queued items) (squeeze job.text))

-- The queue gets a text, and the rest stays.
abbrev pub Queues : String → Tts → Tts → Type 0
Queues text t t' =
    (queued t'.phrase_queue ≡ str_append (queued t.phrase_queue) text)
    × (t'.phrase_buffer ≡ t.phrase_buffer)
    × (t'.closed ≡ t.closed)

pub Queues-none : (text : String) (t : Tts) → text ≡ "" → Queues text t t
Queues-none text t e = (
  sym (ap (str_append (queued t.phrase_queue)) e ∙ append-nil (queued t.phrase_queue)),
  refl,
  refl,
)

pub enqueue_phrase-Queues :
    (phrase : String) (t : Tts) → Queues (squeeze phrase) t (enqueue_phrase phrase t)
unfolding enqueue_phrase
enqueue_phrase-Queues phrase t =
    let normalized = join " " (split_words phrase) in
    let same : squeeze normalized ≡ squeeze phrase =
      squeeze-join (split_words phrase) ∙ squeeze_all-split_words phrase in
    if_cases (Queues (squeeze phrase) t) (is_empty normalized) {x = t} {y = add_job normalized t}
      (λ e. Queues-none (squeeze phrase) t (sym same ∙ squeeze_blank normalized e))
      (λ e. (
        queued-append t.phrase_queue (record { phrase_id = t.next_phrase_id; text = normalized })
            ∙ ap (str_append (queued t.phrase_queue)) same,
        refl,
        refl,
      ))

pub enqueue_phrases-Queues :
    (phrases : List String) (t : Tts) → Queues (squeeze_all phrases) t (enqueue_phrases phrases t)
unfolding enqueue_phrases squeeze_all
enqueue_phrases-Queues [] t = Queues-none "" t refl
enqueue_phrases-Queues (phrase ∷ phrases) t =
    let (first, kept, open_still) = enqueue_phrase-Queues phrase t in
    let (rest, kept', open') = enqueue_phrases-Queues phrases (enqueue_phrase phrase t) in
    (
      rest
          ∙ ap (λ s. str_append s (squeeze_all phrases)) first
          ∙ append_assoc (queued t.phrase_queue) (squeeze phrase) (squeeze_all phrases),
      kept' ∙ kept,
      open' ∙ open_still,
    )

module _ (cfg : SpeechSettings) where
  cut_phrases-Cuts : (fuel : ℕ) (text : String) → Cuts text (cut_phrases cfg fuel text)
  unfolding cut_phrases squeeze_all
  cut_phrases-Cuts zero text = nil-append (squeeze text)
  cut_phrases-Cuts (suc fuel) text =
      cut_step-Cuts (cut_phrases cfg fuel) text (find_phrase_break cfg text) (cut_phrases-Cuts fuel)

  pub drain_final :
      (text pending : String) (phrases : List String)
      → Cuts text (phrases, pending)
      → Cuts text (
          if is_empty (strip pending)
          then (phrases, pending)
          else (phrases ++ strip pending ∷ [], ""))
  unfolding squeeze_all squeeze
  drain_final text pending phrases h =
      if_both (Cuts text) (is_empty (strip pending)) {x = (phrases, pending)}
        {y = (phrases ++ strip pending ∷ [], "")} h
        (append-nil (squeeze_all (phrases ++ strip pending ∷ []))
          ∙ squeeze_all-append phrases (strip pending ∷ [])
          ∙ ap (str_append (squeeze_all phrases))
              (append-nil (squeeze (strip pending)) ∙ squeeze-strip pending)
          ∙ h)

  pub drain_ready_phrases-Cuts :
      (is_final : Bool) (text : String) → Cuts text (drain_ready_phrases cfg is_final text)
  unfolding drain_ready_phrases
  drain_ready_phrases-Cuts is_final text =
      let (phrases, pending) = cut_phrases cfg (length_text text) text in
      let h = cut_phrases-Cuts (length_text text) text in
      if_both (Cuts text) is_final
        {x = if is_empty (strip pending)
          then (phrases, pending)
          else (phrases ++ strip pending ∷ [], "")}
        {y = (phrases, pending)} (drain_final text pending phrases h) h
