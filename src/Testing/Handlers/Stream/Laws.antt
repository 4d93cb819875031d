-- ===== src/Testing/Handlers/Stream/Laws.antt =====
-- Which events of a run reach the client, however the goroutine and the loop take turns.
use sentinel_api_platform.Prelude.{
  ◌+◌, ◌≤◌, ◌<◌, ◌≡◌, refl, sym, ap, ◌∙◌, ◌⊎◌, inl, inr, String, true, false, ltb, List, [], ◌∷◌,
  ◌++◌, map, length, Bool-cases, arith,
}
use mathlib.Core.List.{Sublistᴰ, append_assoc}
use mathlib.Core.Path.{subst}
use sentinel_api_platform.Effects.{Result, Result-cases}
use sentinel_api_platform.Runner.Orchestrator.{RunEvent}
use sentinel_api_platform.Runner.Events.{
  Signal, context_done, tick, message, hang_up, heartbeat, offer, react_open,
}
use sentinel_api_platform.Testing.Handlers.Stream.{
  Stream, Action, signal, receive, frame, act, run, subscribed,
}
use sentinel_api_platform.Testing.Handlers.Stream.Lists.{
  Sublist-insert, Sublist-refl, append_nil, map-append, length-snoc, length-append,
}
use sentinel_api_platform.Testing.Handlers.Stream.Turns.{
  brought, is_end, arrived, kept, act-Turn, act-end, act-closed, act-receive-kept, act-signal-open,
  act-signal-closed,
}

module _ (unmarshal : String → Result RunEvent) (encode : RunEvent → String) (run_id : String) where
  run-closed :
      (actions : List Action) (s : Stream)
      → s.feed.is_open ≡ false
      → let t = run unmarshal encode run_id actions s in
        (length t.feed.buffer ≤ length s.feed.buffer)
        × (kept unmarshal encode run_id t ≡ kept unmarshal encode run_id s)
  unfolding run
  run-closed [] s h = (ground arith, refl)
  run-closed (a ∷ actions) s h =
      let (closed, fewer₁, same₁) = act-closed unmarshal encode run_id a s h in
      let (fewer, same) = run-closed actions (act unmarshal encode run_id a s) closed in
      (ground arith, same ∙ same₁)

  -- From an open feed: no event is kept twice, out of turn, or that has not arrived.
  run-Sublist :
      (actions : List Action) (s : Stream)
      → s.feed.is_open ≡ true
      → Sublistᴰ (kept unmarshal encode run_id (run unmarshal encode run_id actions s)) (
          kept unmarshal encode run_id s
          ++ map (frame unmarshal encode run_id) (arrived unmarshal encode run_id actions))
  unfolding run
  run-Sublist [] s h =
      subst (Sublistᴰ (kept unmarshal encode run_id s))
        (sym (append_nil (kept unmarshal encode run_id s)))
        (Sublist-refl (kept unmarshal encode run_id s))
  run-Sublist (a ∷ actions) s h =
      let F = frame unmarshal encode run_id in
      let s₁ = act unmarshal encode run_id a s in
      let out = kept unmarshal encode run_id (run unmarshal encode run_id actions s₁) in
      elim (Bool-cases (is_end unmarshal encode run_id a)) [
        | inl e ↦
            (let (closed, _, same₁) = act-end unmarshal encode run_id a s h e in
              let (_, same) = run-closed actions s₁ closed in
              rw e (
                subst (Sublistᴰ out)
                  (same ∙ same₁ ∙ sym (append_nil (kept unmarshal encode run_id s)))
                  (Sublist-refl out)))
        | inr e ↦
            (let turn = act-Turn unmarshal encode run_id a s h e in
              let rest = run-Sublist actions s₁ turn.still_open in
              let whole =
                map-append F (brought unmarshal encode run_id a)
                  (arrived unmarshal encode run_id actions) in
              rw e (
                rw whole (elim turn.outcome [
                  | inl grew ↦
                      subst (Sublistᴰ out)
                        (ap (λ k. k ++ map F (arrived unmarshal encode run_id actions)) grew
                          ∙ append_assoc (kept unmarshal encode run_id s)
                              (map F (brought unmarshal encode run_id a))
                              (map F (arrived unmarshal encode run_id actions)))
                        rest
                  | inr (same, _, _) ↦
                      Sublist-insert out (kept unmarshal encode run_id s)
                        (map F (brought unmarshal encode run_id a))
                        (map F (arrived unmarshal encode run_id actions))
                        (subst
                          (λ k. Sublistᴰ out (k ++ map F (arrived unmarshal encode run_id actions)))
                          same rest)
                ])))
      ]

  -- Where what has arrived fits into the buffer, nothing is dropped.
  run-lossless :
      (actions : List Action) (s : Stream)
      → s.feed.is_open ≡ true
      → length s.feed.buffer + length (arrived unmarshal encode run_id actions) ≤ 16
      → kept unmarshal encode run_id (run unmarshal encode run_id actions s)
        ≡ kept unmarshal encode run_id s
          ++ map (frame unmarshal encode run_id) (arrived unmarshal encode run_id actions)
  unfolding run
  run-lossless [] s h fits = sym (append_nil (kept unmarshal encode run_id s))
  run-lossless (a ∷ actions) s h fits =
      let F = frame unmarshal encode run_id in
      let s₁ = act unmarshal encode run_id a s in
      elim (Bool-cases (is_end unmarshal encode run_id a)) [
        | inl e ↦
            (let (closed, _, same₁) = act-end unmarshal encode run_id a s h e in
              let (_, same) = run-closed actions s₁ closed in
              rw e (same ∙ same₁ ∙ sym (append_nil (kept unmarshal encode run_id s))))
        | inr e ↦
            (let turn = act-Turn unmarshal encode run_id a s h e in
              let grown = turn.grown in
              let sum =
                length-append (brought unmarshal encode run_id a)
                  (arrived unmarshal encode run_id actions) in
              let whole =
                map-append F (brought unmarshal encode run_id a)
                  (arrived unmarshal encode run_id actions) in
              let fits₁ = rw e at fits in
              let rest = run-lossless actions s₁ turn.still_open (ground arith) in
              rw e (
                rw whole (elim turn.outcome [
                  | inl grew ↦
                      rest
                      ∙ ap (λ k. k ++ map F (arrived unmarshal encode run_id actions)) grew
                      ∙ append_assoc (kept unmarshal encode run_id s)
                          (map F (brought unmarshal encode run_id a))
                          (map F (arrived unmarshal encode run_id actions))
                  | inr (_, full, some_event) ↦ absurd (ground arith)
                ])))
      ]

  -- The buffer never holds more than its 16 events.
  offer-bounded :
      (evt : RunEvent) (buffer : List RunEvent)
      → length buffer ≤ 16
      → length (offer evt buffer) ≤ 16
  offer-bounded evt buffer h = elim (Bool-cases (ltb (length buffer) 16)) [
    | inl room ↦ rw room (let n = length-snoc buffer evt in ground arith)
    | inr full ↦ rw full h
  ]

  react_open-bounded :
      (sig : Signal) (buffer : List RunEvent)
      → length buffer ≤ 16
      → length (react_open unmarshal run_id sig buffer).buffer ≤ 16
  unfolding react_open
  react_open-bounded context_done buffer h = h
  react_open-bounded hang_up buffer h = h
  react_open-bounded tick buffer h = offer-bounded (heartbeat run_id) buffer h
  react_open-bounded (message text) buffer h = elim (Result-cases (unmarshal text)) [
    | inl (evt, e) ↦ rw e (offer-bounded evt buffer h)
    | inr (why, e) ↦ rw e h
  ]

  act-bounded :
      (a : Action) (s : Stream)
      → length s.feed.buffer ≤ 16
      → length (act unmarshal encode run_id a s).feed.buffer ≤ 16
  act-bounded receive s h =
      let (_, fewer, _) = act-receive-kept unmarshal encode run_id s in ground arith
  act-bounded (signal sig) s h = elim (Bool-cases s.feed.is_open) [
    | inl e ↦
        subst (λ t. length (Stream.feed t).buffer ≤ 16)
          (sym (act-signal-open unmarshal encode run_id sig s e))
          (react_open-bounded sig s.feed.buffer h)
    | inr e ↦
        subst (λ t. length (Stream.feed t).buffer ≤ 16)
          (sym (act-signal-closed unmarshal encode run_id sig s e)) h
  ]

  run-bounded :
      (actions : List Action) (s : Stream)
      → length s.feed.buffer ≤ 16
      → length (run unmarshal encode run_id actions s).feed.buffer ≤ 16
  unfolding run
  run-bounded [] s h = h
  run-bounded (a ∷ actions) s h =
      run-bounded actions (act unmarshal encode run_id a s) (act-bounded a s h)

  -- However the goroutine and the loop take turns after a subscription: the buffer holds at most 16
  -- events; what is written or waits to be is a part of what has arrived before the goroutine's
  -- end, in its order, so that no event is written twice, late or unasked; and unless
  -- more than 16 events have arrived, nothing of them is dropped.
  pub stream_in_order :
      (actions : List Action)
      → let s = run unmarshal encode run_id actions (subscribed unmarshal encode run_id) in
        let all = map (frame unmarshal encode run_id) (arrived unmarshal encode run_id actions) in
        (length s.feed.buffer ≤ 16)
        × Sublistᴰ (kept unmarshal encode run_id s) all
        × ((16 < length (arrived unmarshal encode run_id actions))
            ⊎ (kept unmarshal encode run_id s ≡ all))
  stream_in_order actions =
      let start = subscribed unmarshal encode run_id in
      (
        run-bounded actions start (ground arith),
        run-Sublist actions start refl,
        elim (Bool-cases (ltb 16 (length (arrived unmarshal encode run_id actions)))) [
          | inl more ↦ inl (ground arith)
          | inr fits ↦ inr (run-lossless actions start refl (ground arith))
        ],
      )
