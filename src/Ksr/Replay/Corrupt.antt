-- ===== src/Ksr/Replay/Corrupt.antt =====
-- Replaying a file that the recorder did not write.
use kernel_scope.Prelude.{
  ℕ, zero, suc, ◌+◌, ◌≤◌, ◌<◌, ◌≡◌, refl, arith, List, [], ◌∷◌, ◌++◌, length, length-append, lt→ltb,
  le→ltb, ltb, u64, append_assoc, All, fold, ◌^◌, false,
}
use kernel_scope.Prelude.Bytes.{
  le_value, le_bytes, take-le_bytes, drop-le_bytes, le_value-le_bytes, length-le_bytes,
}
use kernel_scope.Event.{Event}
use kernel_scope.Errors.{ErrorCode, make_error, err}
use kernel_scope.Ksr.{Padding, deserialize_event, event_size}
use kernel_scope.Ksr.Recorder.{frame}
use kernel_scope.Ksr.Recorder.Appends.{frames}
use kernel_scope.Ksr.Replay.{Callback, stopped, call, replay_loop, replay, reading, max_event_size}
use kernel_scope.Ksr.Replay.Steps.{length-frame, frame_round, sized_round}
use kernel_scope.Ksr.Replay.Recorded.{IsRecord, events}

module _ {ℓ} {S : Type ℓ} (callback : Callback S) (blank : Event) where
  too_large :
      (fuel n : ℕ) (junk : List ℕ) (replayed : ℕ) (s : S)
      → max_event_size < n
      → n < 2 ^ 32
      → replay_loop callback blank (suc fuel) (le_bytes 4 n ++ junk) replayed s
        ≡ stopped
            (err (make_error ErrorCode.record_format_error "event size exceeds 64KB limit"))
            (reading callback blank junk replayed)
            s
  unfolding replay_loop
  too_large fuel n junk replayed s large fits =
      let size : le_value (le_bytes 4 n) ≡ n = le_value-le_bytes 4 n (omega arith) in
      let long : ltb (length (le_bytes 4 n ++ junk)) 4 ≡ false =
        le→ltb _ 4 (omega (arith, length-append (le_bytes 4 n) junk, length-le_bytes 4 n)) in
      rw (long, take-le_bytes, drop-le_bytes, size, lt→ltb max_event_size n large)

  replay_loop-too_large :
      (rs : List (Padding × Event)) (fuel n : ℕ) (junk : List ℕ) (replayed : ℕ) (s : S)
      → All IsRecord rs
      → max_event_size < n
      → n < 2 ^ 32
      → length rs < fuel
      → replay_loop callback blank fuel (frames rs ++ (le_bytes 4 n ++ junk)) (u64 replayed) s
        ≡ stopped
            (err (make_error ErrorCode.record_format_error "event size exceeds 64KB limit"))
            (reading callback blank junk (u64 (replayed + length rs)))
            (fold (call callback) s (events rs))
  replay_loop-too_large rs zero n junk replayed s h large fits f = absurd (omega arith)
  replay_loop-too_large [] (suc fuel) n junk replayed s h large fits f =
      let same : replayed + 0 ≡ replayed = omega arith in
      rw same (too_large fuel n junk (u64 replayed) s large fits)
  replay_loop-too_large ((p, ev) ∷ rs) (suc fuel) n junk replayed s h large fits f =
      let counted : u64 (u64 replayed + 1) ≡ u64 (replayed + 1) = omega arith in
      let total : replayed + 1 + length rs ≡ replayed + suc (length rs) = omega arith in
      rw
        (
          append_assoc,
          frame_round callback blank fuel p ev _ (u64 replayed) s h.0.0 h.0.1,
          counted,
          ← total,
        )
        (replay_loop-too_large rs fuel n junk (replayed + 1) (call callback s ev) h.1 large fits
          (omega arith))

  length-frames : (rs : List (Padding × Event)) → All IsRecord rs → length rs ≤ length (frames rs)
  length-frames [] h = omega arith
  length-frames ((p, ev) ∷ rs) h = omega (
    arith,
    length-frames rs h.1,
    length-append (frame p ev) (frames rs),
    length-frame p ev h.0.0 h.0.1,
  )

  -- A size above 65536 stops replay with a format error, after every event before it was handed to
  -- the callback and counted.
  pub replay-too_large :
      (rs : List (Padding × Event)) (n : ℕ) (junk : List ℕ) (s : S)
      → All IsRecord rs
      → max_event_size < n
      → n < 2 ^ 32
      → replay callback blank (reading callback blank (frames rs ++ (le_bytes 4 n ++ junk)) 0) s
        ≡ stopped
            (err (make_error ErrorCode.record_format_error "event size exceeds 64KB limit"))
            (reading callback blank junk (u64 (length rs)))
            (fold (call callback) s (events rs))
  unfolding replay
  replay-too_large rs n junk s h large fits =
      let start : 0 + length rs ≡ length rs = omega arith in
      rw (← start) (
        replay_loop-too_large rs _ n junk 0 s h large fits
          (omega (arith, length-frames rs h, length-append (frames rs) (le_bytes 4 n ++ junk))))

  -- A payload shorter than an event is skipped: it is not handed to the callback and not counted.
  pub replay_loop-skips :
      (fuel : ℕ) (payload rest : List ℕ) (replayed : ℕ) (s : S)
      → length payload < event_size
      → replay_loop callback blank
          (suc fuel)
          (le_bytes 4 (length payload) ++ (payload ++ rest))
          replayed
          s
        ≡ replay_loop callback blank fuel rest replayed s
  unfolding deserialize_event
  replay_loop-skips fuel payload rest replayed s h = rw (
    sized_round callback blank fuel (length payload) payload rest replayed s refl (omega arith),
    lt→ltb (length payload) event_size h,
  )
