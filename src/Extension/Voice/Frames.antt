-- ===== src/Extension/Voice/Frames.antt =====
-- luve_extension.py: the loudness of a frame, and what is counted of an utterance.
use Prim.Native.String.{String}
use luve.Prelude.{ℕ, ◌+◌, Bool, Option, none, some, List, if◌then◌else◌, ◌==◌}
use luve.Extension.Queue.{AudioStats}

-- Python's floats, and what the source uses of numpy.
pub record Signal (N : Type 0) : Type 0 where
  pub of_nat : ℕ → N
  -- the number written n / 100
  pub hundredths : ℕ → N
  pub plus : N → N → N
  pub minus : N → N → N
  pub times : N → N → N
  pub over : N → N → N
  pub less : N → N → Bool
  pub at_least : N → N → Bool
  pub round2 : N → N
  -- `int(n)` of a number that is not negative
  pub to_int : N → ℕ
  -- the root of the mean of the squared samples; `none` where there are none. For an odd number of bytes
  -- numpy raises, which is left out.
  pub rms : List ℕ → Option N
  -- `20.0 * np.log10(n / 32768.0 + 1e-12)`
  pub decibels : N → N

-- PCM16_MONO_16KHZ_BYTES_PER_SECOND
abbrev pub bytes_per_second : ℕ
bytes_per_second = 32000

pub record UtteranceStats (N : Type 0) : Type 0 where
  pub started_at : N
  pub frames : ℕ
  pub speech_frames : ℕ
  pub silence_frames : ℕ
  pub dbfs_sum : N
  pub dbfs_min : Option N
  pub dbfs_max : Option N
  pub assistant_speech_frames : ℕ

module _ {N : Type 0} (sig : Signal N) where
  -- `max(a, b)`
  abbrev pub greater : N → N → N
  greater a b = if sig.less a b then b else a

  -- `min(a, b)`
  abbrev pub smaller : N → N → N
  smaller a b = if sig.less b a then b else a

  unfoldable pub measure_dbfs : List ℕ → Option N
  measure_dbfs payload = elim (sig.rms payload) [
    | none ↦ none
    | some rms ↦ if sig.at_least (sig.of_nat 0) rms then none else some (sig.decibels rms)
  ]

  unfoldable pub new_stats : N → UtteranceStats N
  new_stats now = record {
    started_at = now;
    frames = 0;
    speech_frames = 0;
    silence_frames = 0;
    dbfs_sum = sig.of_nat 0;
    dbfs_min = none;
    dbfs_max = none;
    assistant_speech_frames = 0;
  }

  abbrev pub count_frame : Bool → Bool → UtteranceStats N → UtteranceStats N
  count_frame is_speech assistant_speaking s = record s {
    frames = s.frames + 1;
    speech_frames = if is_speech then s.speech_frames + 1 else s.speech_frames;
    silence_frames = if is_speech then s.silence_frames else s.silence_frames + 1;
    assistant_speech_frames =
        if assistant_speaking then s.assistant_speech_frames + 1 else s.assistant_speech_frames;
  }

  abbrev pub stats_or_new : N → Option (UtteranceStats N) → UtteranceStats N
  stats_or_new now none = new_stats now
  stats_or_new now (some s) = s

  unfoldable pub add_frame : Option N → Bool → Bool → UtteranceStats N → UtteranceStats N
  add_frame none is_speech assistant_speaking s = count_frame is_speech assistant_speaking s
  add_frame (some dbfs) is_speech assistant_speaking s =
      record (count_frame is_speech assistant_speaking s) {
        dbfs_sum = sig.plus s.dbfs_sum dbfs;
        dbfs_min = some (elim s.dbfs_min [ none ↦ dbfs | some low ↦ smaller low dbfs ]);
        dbfs_max = some (elim s.dbfs_max [ none ↦ dbfs | some high ↦ greater high dbfs ]);
      }

  abbrev pub rounded : Option N → Option N
  rounded none = none
  rounded (some n) = some (sig.round2 n)

  unfoldable pub snapshot : ℕ → String → N → N → UtteranceStats N → AudioStats N
  snapshot pcm_bytes trigger noise_floor_db effective_threshold_db s =
      let audio_ms =
        sig.times (sig.over (sig.of_nat pcm_bytes) (sig.of_nat bytes_per_second))
          (sig.of_nat 1000) in
      let avg_frame_ms =
        if s.frames == 0 then sig.of_nat 0 else sig.over audio_ms (sig.of_nat s.frames) in
      record {
        audio_ms = sig.round2 audio_ms;
        speech_ms = sig.round2 (sig.times (sig.of_nat s.speech_frames) avg_frame_ms);
        trigger = trigger;
        frames = s.frames;
        speech_frames = s.speech_frames;
        silence_frames = s.silence_frames;
        assistant_speech_frames = s.assistant_speech_frames;
        dbfs_min = rounded s.dbfs_min;
        dbfs_avg =
            if s.frames == 0
            then none
            else some (sig.round2 (sig.over s.dbfs_sum (sig.of_nat s.frames)));
        dbfs_max = rounded s.dbfs_max;
        noise_floor_db = sig.round2 noise_floor_db;
        effective_threshold_db = sig.round2 effective_threshold_db;
      }
