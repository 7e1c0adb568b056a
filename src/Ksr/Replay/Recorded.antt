-- ===== src/Ksr/Replay/Recorded.antt =====
-- Replaying what was recorded, whole or cut short.
use kernel_scope.Prelude.{
  ℕ, zero, suc, ◌+◌, ◌-◌, ◌/◌, ◌<◌, ◌≡◌, arith, List, [], ◌∷◌, ◌++◌, length, take, length-append,
  length-take, lt→ltb, le→ltb, u64, append_assoc, min, drop_all, take-append_ge, take_all, All,
  fold, ltb, ap, false,
}
use kernel_scope.Prelude.Bytes.{
  le_value, le_bytes, take-le_bytes, drop-le_bytes, le_value-le_bytes, length-le_bytes,
}
use native.Mathlib.Nat.{add-zero}
use native.Mathlib.Decide.{dec_lt}
use kernel_scope.Event.{Event}
use kernel_scope.Event.Valid.{IsEvent}
use kernel_scope.Errors.{ok}
use kernel_scope.Ksr.{Padding, serialize_event, event_size}
use kernel_scope.Ksr.RoundTrip.{IsPadding}
use kernel_scope.Ksr.Recorder.{frame}
use kernel_scope.Ksr.Recorder.Appends.{frames}
use kernel_scope.Ksr.Replay.{Callback, stopped, call, replay_loop, replay, reading}
use kernel_scope.Ksr.Replay.Steps.{frame_size, frame-sized, length-frame, frame_round}

abbrev pub IsRecord : Padding × Event → Type 0
IsRecord (p, ev) = IsPadding p × IsEvent ev

abbrev pub events : List (Padding × Event) → List Event
events [] = []
events ((p, ev) ∷ rs) = ev ∷ events rs

module _ {ℓ} {S : Type ℓ} (callback : Callback S) (blank : Event) where
  module _ (fuel : ℕ) (replayed : ℕ) (s : S) where
    -- The file ends inside the size field.
    short_round :
        (rest : List ℕ)
        → length rest < 4
        → replay_loop callback blank (suc fuel) rest replayed s
          ≡ stopped ok (reading callback blank [] replayed) s
    unfolding replay_loop
    short_round rest h = rw (lt→ltb (length rest) 4 h, drop_all 4 rest (omega arith))

    -- The file ends inside the event.
    cut_payload :
        (payload : List ℕ)
        → length payload < event_size
        → replay_loop callback blank (suc fuel) (le_bytes 4 event_size ++ payload) replayed s
          ≡ stopped ok (reading callback blank [] replayed) s
    unfolding replay_loop
    cut_payload payload h =
        let size : le_value (le_bytes 4 event_size) ≡ event_size =
          le_value-le_bytes 4 event_size (omega arith) in
        let long : ltb (length (le_bytes 4 event_size ++ payload)) 4 ≡ false = le→ltb _ 4 (
          omega
            (arith, length-append (le_bytes 4 event_size) payload, length-le_bytes 4 event_size)) in
        rw (
          long,
          take-le_bytes,
          drop-le_bytes,
          size,
          lt→ltb (length payload) event_size h,
          drop_all event_size payload (omega arith),
        )

    cut_round :
        (k : ℕ) (p : Padding) (ev : Event) (more : List ℕ)
        → IsPadding p
        → IsEvent ev
        → k < frame_size
        → replay_loop callback blank (suc fuel) (take k (frame p ev ++ more)) replayed s
          ≡ stopped ok (reading callback blank [] replayed) s
    cut_round k p ev more hp he h = elim (dec_lt k 4) [
      | yes few ↦ short_round _ (omega (arith, length-take k (frame p ev ++ more)))
      | no enough ↦
          let bytes = serialize_event p ev in
          let front : take k (frame p ev ++ more)
              ≡ le_bytes 4 event_size ++ take (k - 4) (bytes ++ more) =
            rw (frame-sized p ev hp he, append_assoc)
              (take-append_ge k (k - 4) (le_bytes 4 event_size) (bytes ++ more)
                (omega (arith, length-le_bytes 4 event_size))) in
          rw front (cut_payload _ (omega (arith, length-take (k - 4) (bytes ++ more))))
    ]

  -- The loop on the first k bytes of a recording: every event that is whole there is handed to the
  -- callback, in order, and the rest is dropped with no error.
  replay_loop-take-frames :
      (rs : List (Padding × Event)) (fuel k replayed : ℕ) (s : S)
      → All IsRecord rs
      → length (take k (frames rs)) < fuel
      → replay_loop callback blank fuel (take k (frames rs)) (u64 replayed) s
        ≡ stopped ok
            (reading callback blank [] (u64 (replayed + min (k / frame_size) (length rs))))
            (fold (call callback) s (take (k / frame_size) (events rs)))
  replay_loop-take-frames rs zero k replayed s h f = absurd (omega arith)
  replay_loop-take-frames [] (suc fuel) k replayed s h f =
      let none_left : min (k / frame_size) 0 ≡ 0 = omega arith in
      rw
        (
          take_all {A = ℕ} k [] (omega arith),
          take_all {A = Event} (k / frame_size) [] (omega arith),
          none_left,
          add-zero,
        )
        (short_round fuel (u64 replayed) s [] (omega arith))
  replay_loop-take-frames ((p, ev) ∷ rs) (suc fuel) k replayed s h f = elim (dec_lt k frame_size) [
    | yes few ↦
        let none : k / frame_size ≡ 0 = omega arith in
        let uncounted : replayed + min 0 (suc (length rs)) ≡ replayed = omega arith in
        rw (none, uncounted) (cut_round fuel (u64 replayed) s k p ev (frames rs) h.0.0 h.0.1 few)
    | no enough ↦
        let l : length (frame p ev) ≡ frame_size = length-frame p ev h.0.0 h.0.1 in
        let front : take k (frames ((p, ev) ∷ rs))
            ≡ frame p ev ++ take (k - frame_size) (frames rs) =
          take-append_ge k (k - frame_size) (frame p ev) (frames rs) (omega arith) in
        let whole : k / frame_size ≡ suc ((k - frame_size) / frame_size) = omega arith in
        let counted : u64 (u64 replayed + 1) ≡ u64 (replayed + 1) = omega arith in
        let total : replayed + 1 + min ((k - frame_size) / frame_size) (length rs)
            ≡ replayed + min (suc ((k - frame_size) / frame_size)) (suc (length rs)) =
          omega arith in
        rw
          (
            front,
            whole,
            frame_round callback blank fuel p ev _ (u64 replayed) s h.0.0 h.0.1,
            counted,
            ← total,
          )
          (replay_loop-take-frames rs fuel (k - frame_size) (replayed + 1) (call callback s ev) h.1
            (omega (
              arith,
              f,
              ap length front,
              length-append (frame p ev) (take (k - frame_size) (frames rs)),
            )))
  ]

  -- Replay of a recording that was cut behind k bytes of its frames succeeds, and hands exactly the
  -- events whose frames are whole to the callback, in the order of recording.
  pub replay-take-frames :
      (rs : List (Padding × Event)) (k : ℕ) (s : S)
      → All IsRecord rs
      → replay callback blank (reading callback blank (take k (frames rs)) 0) s
        ≡ stopped ok
            (reading callback blank [] (u64 (min (k / frame_size) (length rs))))
            (fold (call callback) s (take (k / frame_size) (events rs)))
  unfolding replay
  replay-take-frames rs k s h =
      let start : 0 + min (k / frame_size) (length rs) ≡ min (k / frame_size) (length rs) =
        omega arith in
      rw (← start) (replay_loop-take-frames rs _ k 0 s h (omega arith))
