-- ===== src/Server/Api/Stream/Ends.antt =====
-- When the stream of crates/server/src/api/stream.rs ends, and what it has sent by then.
use soro_fuzz.Base.{ℕ, ◌≡◌, refl, true, false, Option, List, [], ◌∷◌, ◌++◌, All, arith}
use mathlib.Core.List.{append_assoc}
use soro_fuzz.Server.Store.{RunStatus}
use soro_fuzz.Server.Runner.{ProgressEvent}
use soro_fuzz.Server.Api.Stream.{
  is_terminal, SsePayload, status, Received, event, lagged, closed, yield_, stream_loop,
}

-- Neither a terminal status nor the channel's end.
abbrev pub GoesOn : Received → Type 0
GoesOn (event now (ProgressEvent.status s)) = is_terminal s ≡ false
GoesOn closed = ⊥
GoesOn _ = Unit

-- What a receiver may answer to the events that are sent on its channel until the channel is
-- dropped: some events may be missed, of which it may tell.
pub data Hears : List ProgressEvent → List Received → Type 0 where
  ends : Hears [] (closed ∷ [])
  hears :
      {es : List ProgressEvent} {rs : List Received} (now : ℕ) (e : ProgressEvent)
      → Hears es rs
      → Hears (e ∷ es) (event now e ∷ rs)
  misses :
      {es : List ProgressEvent} {rs : List Received} (e : ProgressEvent)
      → Hears es rs
      → Hears (e ∷ es) rs
  tells :
      {es : List ProgressEvent} {rs : List Received} (n : ℕ)
      → Hears es rs
      → Hears es (lagged n ∷ rs)

module _ {Event : Type 0} (json_data : SsePayload → Option Event) where
  -- The stream ends with the first terminal status that is received: what came before it has been
  -- sent, with the stream still open, then the status is sent, and nothing that comes later.
  pub stream_loop_first_terminal :
      (last : RunStatus) (xs ys : List Received) (now : ℕ) (s : RunStatus)
      → All GoesOn xs
      → is_terminal s ≡ true
      → ((stream_loop json_data last xs).1 ≡ false)
        × (stream_loop json_data last (xs ++ event now (ProgressEvent.status s) ∷ ys)
            ≡ ((stream_loop json_data last xs).0 ++ yield_ json_data (status s), true))
  unfolding stream_loop
  stream_loop_first_terminal last [] ys now s h over = (refl, rw over)
  stream_loop_first_terminal last (event at_ (ProgressEvent.iterations count elapsed) ∷ xs) ys now s
        (g, h) over =
      let (open_, rest) = stream_loop_first_terminal last xs ys now s h over in
      (open_, rw (rest, append_assoc))
  stream_loop_first_terminal last (event at_ (ProgressEvent.log line level) ∷ xs) ys now s (g, h)
        over =
      let (open_, rest) = stream_loop_first_terminal last xs ys now s h over in
      (open_, rw (rest, append_assoc))
  stream_loop_first_terminal last (event at_ (ProgressEvent.finding invariant step) ∷ xs) ys now s
        (g, h) over =
      let (open_, rest) = stream_loop_first_terminal last xs ys now s h over in
      (open_, rw (rest, append_assoc))
  stream_loop_first_terminal last (event at_ (ProgressEvent.status t) ∷ xs) ys now s (g, h) over =
      let (open_, rest) = stream_loop_first_terminal t xs ys now s h over in
      (rw g open_, rw (g, rest, append_assoc))
  stream_loop_first_terminal last (lagged n ∷ xs) ys now s (g, h) over =
      stream_loop_first_terminal last xs ys now s h over
  stream_loop_first_terminal last (closed ∷ xs) ys now s (g, h) over = absurd g

  -- The stream of a run whose channel is dropped in the end always ends, whatever events were sent
  -- on the channel and however many of them the receiver missed.
  pub stream_loop_ends :
      (last : RunStatus) {es : List ProgressEvent} {rs : List Received}
      → Hears es rs
      → (stream_loop json_data last rs).1 ≡ true
  unfolding stream_loop
  stream_loop_ends last ends = refl
  stream_loop_ends last (hears now (ProgressEvent.iterations count elapsed) h) =
      stream_loop_ends last h
  stream_loop_ends last (hears now (ProgressEvent.log line level) h) = stream_loop_ends last h
  stream_loop_ends last (hears now (ProgressEvent.finding invariant step) h) =
      stream_loop_ends last h
  stream_loop_ends last (hears now (ProgressEvent.status s) h) =
      ground (arith, stream_loop_ends s h)
  stream_loop_ends last (misses e h) = stream_loop_ends last h
  stream_loop_ends last (tells n h) = stream_loop_ends last h
