-- ===== src/Extension/Voice/Recent.antt =====
-- The pre-roll as the last bytes of all the audio, and the state of the voice after any input.
use luve.Extension.Voice.Ingest.{handle_flush, ingest_audio_frame}
use mathlib.Core.List.{append-nil, append_assoc}
use luve.Prelude.{
  length-append, ℕ, ◌-◌, ◌≤◌, ◌<◌, ◌≡◌, refl, arith, Bool, true, List, [], ◌∷◌, ◌++◌, length, drop,
  drop-append, drop-drop, length-drop, if◌then◌else◌, if_cases, ap, sym, ◌∙◌, subst, ltb,
}
use luve.Extension.Voice.{is_empty_list, Voice, VoiceSettings, append_to_pre_roll, is_speech_frame}
use luve.Extension.Voice.Frames.{Signal, measure_dbfs}
use luve.Extension.Voice.Heard.{IsSound}
use luve.Extension.Voice.Keeps.{take_frame-IsSound, flush-IsSound}

-- The last `n` bytes.
abbrev pub recent : ℕ → List ℕ → List ℕ
recent n pcm = drop (length pcm - n) pcm

recent-append : (n : ℕ) (xs ys : List ℕ) → recent n (recent n xs ++ ys) ≡ recent n (xs ++ ys)
recent-append n xs ys =
    let k = length xs - n in
    let joined = drop-append k xs ys (omega arith) in
    ap (recent n) (sym joined)
    ∙ drop-drop (length (drop k (xs ++ ys)) - n) k (xs ++ ys)
    ∙ ap (λ m. drop m (xs ++ ys)) (omega (arith, length-drop k (xs ++ ys), length-append xs ys))

pub length-recent : (n : ℕ) (xs : List ℕ) → length (recent n xs) ≤ n
length-recent n xs = omega (arith, length-drop (length xs - n) xs)

-- What reaches the extension.
pub data Input (N : Type 0) : Type 0 where
  -- a frame's bytes and the time
  frame : List ℕ → N → Input N
  -- whether a reply is suppressed, and the time
  flush : Bool → N → Input N

-- The bytes of the frames.
unfoldable pub audio : {N : Type 0} → List (Input N) → List ℕ
audio [] = []
audio (frame payload _ ∷ inputs) = payload ++ audio inputs
audio (flush _ _ ∷ inputs) = audio inputs

module _ {N : Type 0} (sig : Signal N) (cfg : VoiceSettings N) where
  unfoldable pub input : Input N → Voice N → Voice N
  input (frame payload now) v = ingest_audio_frame sig cfg payload now v
  input (flush suppress now) v = handle_flush sig cfg suppress now v

  unfoldable pub run : List (Input N) → Voice N → Voice N
  run [] v = v
  run (x ∷ inputs) v = run inputs (input x v)

  pub kept-recent :
      (pcm : List ℕ)
      → (if ltb cfg.vad_pre_roll_bytes (length pcm)
          then drop (length pcm - cfg.vad_pre_roll_bytes) pcm
          else pcm)
        ≡ recent cfg.vad_pre_roll_bytes pcm
  kept-recent pcm =
      if_cases (λ x. x ≡ recent cfg.vad_pre_roll_bytes pcm)
        (ltb cfg.vad_pre_roll_bytes (length pcm)) (λ _. refl)
        (λ short.
          let zero_more : 0 ≡ length pcm - cfg.vad_pre_roll_bytes = ground (arith, short) in
          ap (λ k. drop k pcm) zero_more)

  module _ (starts : 0 < cfg.vad_speech_start_frames) where
    append-IsSound :
        (history payload : List ℕ) (v : Voice N)
        → IsSound cfg (recent cfg.vad_pre_roll_bytes history) v
        → IsSound cfg
            (recent cfg.vad_pre_roll_bytes (history ++ payload))
            (append_to_pre_roll sig cfg payload v)
    unfolding append_to_pre_roll
    append-IsSound history payload v s = record {
      pre_roll =
          kept-recent (v.pre_roll_pcm ++ payload)
          ∙ ap (λ x. recent cfg.vad_pre_roll_bytes (x ++ payload)) s.pre_roll
          ∙ recent-append cfg.vad_pre_roll_bytes history payload;
      heard = s.heard;
      room = s.room;
      pending = s.pending;
    }

    blank : (xs : List ℕ) → is_empty_list xs ≡ true → xs ≡ []
    blank [] h = refl
    blank (x ∷ xs) h = cc

    ingest-IsSound :
        (history payload : List ℕ) (now : N) (v : Voice N)
        → IsSound cfg (recent cfg.vad_pre_roll_bytes history) v
        → IsSound cfg
            (recent cfg.vad_pre_roll_bytes (history ++ payload))
            (ingest_audio_frame sig cfg payload now v)
    unfolding ingest_audio_frame
    ingest-IsSound history payload now v s =
        let heard = append_to_pre_roll sig cfg payload v in
        let now_recent = recent cfg.vad_pre_roll_bytes (history ++ payload) in
        if_cases (IsSound cfg now_recent) (is_empty_list payload)
          (λ nothing.
            subst (λ x. IsSound cfg (recent cfg.vad_pre_roll_bytes x) v)
              (sym (append-nil history) ∙ ap (λ x. history ++ x) (sym (blank payload nothing))) s)
          λ there.
            take_frame-IsSound sig cfg now_recent starts
              (is_speech_frame sig cfg (measure_dbfs sig payload) heard) payload
              (measure_dbfs sig payload) now heard there (append-IsSound history payload v s)

    -- Whatever frames and flushes come, and whatever is measured of them, the pre-roll holds the last
    -- bytes of all the audio, as many as it may; nothing is kept of an utterance that is over; an
    -- utterance has bytes, and its frames are the speech and the silence counted in it; and the queue
    -- holds at most one job. At least one frame of speech must be asked for to start an utterance.
    pub run-recent :
        (inputs : List (Input N)) (history : List ℕ) (v : Voice N)
        → IsSound cfg (recent cfg.vad_pre_roll_bytes history) v
        → IsSound cfg (recent cfg.vad_pre_roll_bytes (history ++ audio inputs)) (run inputs v)
    unfolding run input audio
    run-recent [] history v s =
        subst (λ x. IsSound cfg (recent cfg.vad_pre_roll_bytes x) v) (sym (append-nil history)) s
    run-recent (frame payload now ∷ inputs) history v s =
        subst
          (λ x.
            IsSound cfg (recent cfg.vad_pre_roll_bytes x)
              (run inputs (ingest_audio_frame sig cfg payload now v)))
          (append_assoc history payload (audio inputs))
          (run-recent inputs (history ++ payload) (ingest_audio_frame sig cfg payload now v)
            (ingest-IsSound history payload now v s))
    run-recent (flush suppress now ∷ inputs) history v s =
        run-recent inputs history (handle_flush sig cfg suppress now v)
          (flush-IsSound sig cfg (recent cfg.vad_pre_roll_bytes history) starts suppress now v s)
