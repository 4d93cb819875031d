-- ===== src/Testing/Handlers/Stream/Tests.antt =====
-- A stream in which a text cannot be read, and one comes after the end.
use sentinel_api_platform.Prelude.{
  ◌≤◌, ◌<◌, ◌≡◌, refl, ◌⊎◌, String, ◌==◌, List, [], ◌∷◌, map, length, if◌then◌else◌,
}
use mathlib.Core.List.{Sublistᴰ}
use sentinel_api_platform.Errs.{other}
use sentinel_api_platform.Effects.{Result, ok, err}
use sentinel_api_platform.Runner.Orchestrator.{RunEvent}
use sentinel_api_platform.Runner.Events.{heartbeat, context_done, tick, message, react, react_open}
use sentinel_api_platform.Testing.Handlers.Stream.{
  Stream, Action, signal, receive, frame, receive_from, act, run, subscribed,
}
use sentinel_api_platform.Testing.Handlers.Stream.Turns.{arrived, kept}
use sentinel_api_platform.Testing.Handlers.Stream.Laws.{stream_in_order}

abbrev unmarshal : String → Result RunEvent
unmarshal text =
    if text == "torn" then err (other "bad") else ok (record (heartbeat "t1") { kind = text })

abbrev encode : RunEvent → String
encode evt = evt.kind

abbrev actions : List Action
actions =
    signal (message "progress")
    ∷ signal tick
    ∷ receive
    ∷ signal (message "torn")
    ∷ signal (message "complete")
    ∷ receive
    ∷ receive
    ∷ signal context_done
    ∷ signal (message "late")
    ∷ []

abbrev end_state : Stream
end_state = run unmarshal encode "t1" actions (subscribed unmarshal encode "t1")

stream_run :
    end_state.frames ≡ "data: progress\n\n" ∷ "data: heartbeat\n\n" ∷ "data: complete\n\n" ∷ []
unfolding run act receive_from frame react react_open
stream_run = refl

stream_in_order_example :
    (length end_state.feed.buffer ≤ 16)
    × Sublistᴰ
        (kept unmarshal encode "t1" end_state)
        (map (frame unmarshal encode "t1") (arrived unmarshal encode "t1" actions))
    × ((16 < length (arrived unmarshal encode "t1" actions))
        ⊎ (kept unmarshal encode "t1" end_state
            ≡ map (frame unmarshal encode "t1") (arrived unmarshal encode "t1" actions)))
stream_in_order_example = stream_in_order unmarshal encode "t1" actions
