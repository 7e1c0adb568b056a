-- ===== src/Ksr/Replay/Total.antt =====
-- The loop of replay ends on every file.
use kernel_scope.Prelude.{
  ℕ, zero, suc, ◌+◌, ◌<◌, ◌≢◌, arith, List, length, take, drop, length-drop, if◌then◌else◌, inl,
  inr, u64, Option-cases,
}
use kernel_scope.Prelude.Bytes.{le_value}
use kernel_scope.Event.{Event}
use kernel_scope.Ksr.{deserialize_event}
use kernel_scope.Ksr.Replay.{Callback, stuck, call, replay_loop, replay, ReplaySource}

module _ {ℓ} {S : Type ℓ} (callback : Callback S) (blank : Event) where
  replay_loop-ne-stuck :
      (fuel : ℕ) (rest : List ℕ) (replayed : ℕ) (s : S)
      → length rest < fuel
      → replay_loop callback blank fuel rest replayed s ≢ stuck
  unfolding replay_loop
  replay_loop-ne-stuck zero rest replayed s h = absurd (omega arith)
  replay_loop-ne-stuck (suc fuel) rest replayed s h =
      let size = le_value (take 4 rest) in
      let d = deserialize_event (take size (drop 4 rest)) blank in
      ground (
        arith,
        length-drop 4 rest,
        length-drop size (drop 4 rest),
        replay_loop-ne-stuck fuel (drop size (drop 4 rest))
            (if d.0 then u64 (replayed + 1) else replayed) (if d.0 then call callback s d.1 else s),
      )

  -- Whatever the file holds, replay comes to an end.
  pub replay-ne-stuck : (src : ReplaySource) (s : S) → replay callback blank src s ≢ stuck
  unfolding replay
  replay-ne-stuck src s e = elim (Option-cases src.file) [
    | inl h ↦ cc (rw (h, replay) at e)
    | inr (rest, h) ↦
        replay_loop-ne-stuck (suc (length rest)) rest src.events_replayed s (omega arith)
          (rw (h, replay) at e)
  ]
