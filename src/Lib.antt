-- ===== src/Lib.antt =====
-- Luve is a tutor for spoken English. core-api streams a lesson's audio through speech recognition, a
-- language model and speech synthesis, and leaves the log of each session in the database. The
-- grading worker takes a message for each completed session from a queue, decides whether the log can
-- be graded, builds a grading input from it, has it graded by a language model or by a stand-in, and
-- writes the grade. This library models the grading worker (services/grading-worker/src), and of
-- core-api (services/core-api/src) the audio buffer, the session store, the session service, the
-- stores of the OAuth login, the coordinator of a websocket's lesson with its tutor, speech and speech
-- recognition and, in part, the extension that runs a live session.
--
-- The files:
--   Prelude, Python: shared names; a result type; the parts of Python that the source uses, namely
--     texts, lines, JSON values and how they are read.
--   Grading/Events, Grading/Eligibility: session_eligibility.py, under its function names.
--   Grading/Input, Grading/Timing, Grading/Builder: contracts.py and evaluation_input_builder.py. The
--     loop of build_evaluation_input is add_events over a record of its counters.
--   Grading/Llm, Grading/Skills: llm_grader.py, from the model's reply to the grade.
--   Grading/Fake: fake_grader.py.
--   Grading/Store: the tables and statements of grading_repository.py; a table is a function from ids.
--   Grading/World, Grading/Worker, Grading/Message: worker.py, from process_session_completed_job to
--     _handle_queue_message and the consumer's loop, as functions from worlds to worlds. A world holds
--     the database, how its next calls end (they succeed, or fail before or after their statement takes
--     effect), and what the language model answers next.
--   Grading/Settings: worker.py's settings, as functions of the environment's variables.
--   Outbox: outbox_repository.py and worker.py's _relay_drain_once; a transaction commits or is rolled
--     back, and what was sent to the broker stays sent.
--   Media/Buffer: media/buffer.py of core-api; its lock makes a method one step.
--   Media/Postprocess: media/stt_postprocess.py of core-api.
--   Sessions: realtime/session_store.py of core-api; each method is one transaction.
--   Grading/Scanner: services/grading-worker/scripts/reconciliation_scanner.py, whose loop runs the
--     worker's job on the candidates.
--   Service: services/session_service.py of core-api, which reads the worker's tables.
--   Oauth: services/oauth_state_store.py of core-api.
--   Extension: ten_ext/luve_extension.py of core-api. Voice is _ingest_audio_frame and what it calls,
--     Queue the inference queue and the loop's use of it as turns of tasks, Lifecycle START,
--     _handle_session_end and _persist_event_log with services/outbox_repository.py, Reply the
--     streaming of _run_llm_pipeline, Options the settings of the recognition, Transcript the rules
--     that tell English from Vietnamese, and Confidence what _inference_loop makes of a transcription:
--     Repeats is the guard against hallucinations, Short and Rejects are the reasons to reject a final,
--     Second is the second transcription, Quality makes the metadata of a turn out of Payload, and Final
--     puts them together up to the event of the log.
--   Brain: media/brain.py of core-api: the parsing of an output and stream_response; Prompt is
--     _build_user_prompt.
--   Speech: media/tts.py of core-api: the phrases and their queue; Worker is _worker_loop with
--     _emit_audio_chunks.
--   Recognition: media/stt_worker.py of core-api; Segments is _map_segments_to_schema with the words of
--     schemas/ai_logic.py.
--   Coordinator: media/coordinator.py of core-api: the audio and the queue; Loop is _inference_loop with
--     start, stop and the tasks of the replies, Turns their interleaving, and Socket the message loop of
--     api/v1/stream.py.
--   Tests: runs of the definitions and the theorems at concrete data.
--
-- Parameters stand for what is not the program's own code: json.loads, str and bool of numbers
-- (Runtime), floats (Floats), floats and numpy for the voice (Signal), for a transcription
-- (Measures) and for the rules (Scale), the characters' tables (Alphabet), the models and synthesizers
-- (Machine, Synthesizers), the providers' answers (Providers), pydantic's stripping of texts (trim), the
-- Redis client (Redis) and json.dumps, Unicode's tables (Unicode), the validation of a payload and the
-- names and messages of exceptions (Calls), and Python's int. The type of Python's numbers is a
-- parameter.
--
-- Bounds: _coerce_event_list calls itself on nested values, and the model counts the calls that
-- Python's stack has room for; two are enough for a log that the eligibility check can read. The
-- buffer's loop takes as many turns as chunks wait, which is enough since each turn pops one. The
-- attempts of a job are a number that the settings bound from below. The loop that cuts phrases takes
-- as many rounds as the text has characters, the loop that cuts chunks as many as there are bytes, and
-- both are enough since each round takes at least one.
--
-- Not modelled: the grader's prompt, the HTTP client, logging, sleeps, time stamps, other workers and
-- relays that run at the same time, the other scripts, the candidate query of the scanner, the
-- extension's greeting and fallback reply, its threads and ports, the timer that flushes the speech,
-- the probe of the GPU, the decoding of audio, and the rest of core-api (its HTTP API, passwords and
-- tokens).
pub mod Prelude
pub mod Python
pub mod Grading
pub mod Media
pub mod Outbox
pub mod Sessions
pub mod Service
pub mod Oauth
pub mod Brain
pub mod Coordinator
pub mod Extension
pub mod Recognition
pub mod Speech
pub mod Tests
