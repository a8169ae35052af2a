-- ===== src/Server/Api/Stream.antt =====
-- crates/server/src/api/stream.rs: the events of a run as they are streamed to a client. What the
-- receiver of the channel answers in turn is a list, each answer with the time at which it comes;
-- the encoder of an event is a parameter, and gives nothing for an event that it cannot encode.
pub mod Ends
use soro_fuzz.Base.{
  ℕ, Bool, true, false, Option, none, some, List, [], ◌∷◌, ◌++◌, String, Eq, if◌then◌else◌,
}
use soro_fuzz.Base.Results.{Result, ok, err}
use soro_fuzz.Server.Store.{RunStatus}
use soro_fuzz.Server.Store.Interface.{Store}
use soro_fuzz.Server.Runner.{LogLevel, ProgressEvent}
use soro_fuzz.Server.Worker.Hub.{subscribe}
use soro_fuzz.Server.Api.{
  Formats, AppState, Handler, ◌>>=◌, respond, try_, try_store, ok_or, parse_uuid,
}
use soro_fuzz.Server.Api.Resources.{run_not_found}

unfoldable pub is_terminal : RunStatus → Bool
is_terminal RunStatus.completed = true
is_terminal RunStatus.cancelled = true
is_terminal RunStatus.failed = true
is_terminal _ = false

unfoldable pub log_level_str : LogLevel → String
log_level_str LogLevel.info = "info"
log_level_str LogLevel.warn = "warn"
log_level_str LogLevel.error = "error"

-- The payloads, each with the name of its event.
pub data SsePayload : Type 0 where
  progress : ℕ → ℕ → RunStatus → SsePayload  -- iterations, elapsed_secs, status
  log : String → String → ℕ → SsePayload  -- line, level, ts
  finding : String → String → ℕ → SsePayload  -- finding_id, invariant, step_index
  status : RunStatus → SsePayload

-- What `receiver.recv()` answers: an event with the time at which it is read, that some events were
-- missed, or that the channel is closed.
pub data Received : Type 0 where
  event : ℕ → ProgressEvent → Received
  lagged : ℕ → Received
  closed : Received

module _ {Event : Type 0} (json_data : SsePayload → Option Event) where
  -- `if let Ok(event) = .. { yield Ok(event) }`
  abbrev pub yield_ : SsePayload → List Event
  yield_ payload = elim (json_data payload) [ none ↦ [] | some e ↦ e ∷ [] ]

  -- The loop, with `last_status`. What is yielded, and whether the loop has ended.
  unfoldable pub stream_loop : RunStatus → List Received → List Event × Bool
  unfolding is_terminal log_level_str
  stream_loop last_status [] = ([], false)
  stream_loop last_status (event now (ProgressEvent.iterations count elapsed_secs) ∷ rest) =
      let (events, ended) = stream_loop last_status rest in
      (yield_ (progress count elapsed_secs last_status) ++ events, ended)
  stream_loop last_status (event now (ProgressEvent.log line level) ∷ rest) =
      let (events, ended) = stream_loop last_status rest in
      (yield_ (log line (log_level_str level) now) ++ events, ended)
  stream_loop last_status (event now (ProgressEvent.finding invariant step_index) ∷ rest) =
      let (events, ended) = stream_loop last_status rest in
      (yield_ (finding "" invariant step_index) ++ events, ended)
  stream_loop last_status (event now (ProgressEvent.status s) ∷ rest) =
      let more = stream_loop s rest in
      if is_terminal s then (yield_ (status s), true) else (yield_ (status s) ++ more.0, more.1)
  stream_loop last_status (lagged missed ∷ rest) = stream_loop last_status rest
  stream_loop last_status (closed ∷ rest) = ([], true)

  -- `receive sender` is what a receiver of the sender's channel answers.
  module _ {S Uuid Sender : Type 0} ⦃e : Eq Uuid⦄ (formats : Formats Uuid)
      (state : AppState S Uuid Sender) (receive : Sender → List Received) where
    unfoldable pub stream_run : String → Handler S (List Event × Bool)
    unfolding parse_uuid subscribe stream_loop
    stream_run raw = do
      run_id ← try_ (parse_uuid formats raw)
      found ← try_store (state.store.get_run run_id)
      row ← try_ (ok_or found (run_not_found formats run_id))
      respond (elim (subscribe run_id state.progress) [
        | none ↦ (yield_ (status row.status), true)
        | some sender ↦ stream_loop row.status (receive sender)
      ])
