-- ===== src/Ksr/Tests.antt =====
-- Runs of the recorder and of replay.
use kernel_scope.Prelude.{
  ℕ, ◌+◌, ◌/◌, ◌≡◌, ◌≢◌, refl, arith, true, List, [], ◌∷◌, ◌++◌, length, take, All, some, none, u64,
  min, fold, ◌⊎◌, if◌then◌else◌,
}
use kernel_scope.Prelude.Bytes.{le_bytes}
use kernel_scope.Event.{Event}
use kernel_scope.Event.Examples.{futex, slice, futex-IsEvent, padding, padding-IsPadding}
use kernel_scope.Errors.{ErrorCode, ok, err, make_error}
use kernel_scope.Decoder.{decode_event}
use kernel_scope.Ksr.{Padding, serialize_event, deserialize_event, header_size}
use kernel_scope.Ksr.RoundTrip.{deserialize_event-serialize_event}
use kernel_scope.Ksr.Wire.{decode_event-deserialize_event}
use kernel_scope.Ksr.Recorder
use kernel_scope.Ksr.Recorder.{frame, write_event}
use kernel_scope.Ksr.Recorder.Appends.{Wrote, Cut, write_event-appends, frames, storing}
use kernel_scope.Ksr.Replay
use kernel_scope.Ksr.Replay.{Callback, stopped, stuck, call, replay, replay_loop, reading}
use kernel_scope.Ksr.Replay.Total.{replay-ne-stuck}
use kernel_scope.Ksr.Replay.Steps.{frame_size}
use kernel_scope.Ksr.Replay.Recorded.{IsRecord, events, replay-take-frames}
use kernel_scope.Ksr.Replay.Corrupt.{replay-too_large, replay_loop-skips}
use kernel_scope.Ksr.Session.{recorded, ready, replay-recorded}

-- A callback that keeps the events, the last one first.
abbrev collect : Callback (List Event)
collect = some (λ seen ev. ev ∷ seen)

abbrev records : List (Padding × Event)
records = (padding, futex) ∷ (padding, futex) ∷ []

records-IsRecord : All IsRecord records
records-IsRecord = ((padding-IsPadding, futex-IsEvent), ((padding-IsPadding, futex-IsEvent), tt))

deserialize_event-serialize_event_example :
    deserialize_event (serialize_event padding futex) slice ≡ (true, futex)
deserialize_event-serialize_event_example =
    deserialize_event-serialize_event padding futex padding-IsPadding futex-IsEvent slice

decode_event-deserialize_event_example : decode_event (serialize_event padding futex) ≡ (
    if (deserialize_event (serialize_event padding futex) slice).0
    then some (deserialize_event (serialize_event padding futex) slice).1
    else none)
decode_event-deserialize_event_example =
    decode_event-deserialize_event (serialize_event padding futex) slice

write_event-appends_example :
    Wrote (frame padding futex) (storing [] 0) (write_event padding futex (storing [] 0))
    ⊎ Cut (frame padding futex) (storing [] 0) (write_event padding futex (storing [] 0))
write_event-appends_example = write_event-appends padding futex (storing [] 0) refl

replay-ne-stuck_example : replay collect slice (reading collect slice (5 ∷ 0 ∷ []) 0) [] ≢ stuck
replay-ne-stuck_example = replay-ne-stuck collect slice (reading collect slice (5 ∷ 0 ∷ []) 0) []

replay-take-frames_example :
    replay collect slice (reading collect slice (take 100 (frames records)) 0) []
    ≡ stopped ok
        (reading collect slice [] (u64 (min (100 / frame_size) (length records))))
        (fold (call collect) [] (take (100 / frame_size) (events records)))
replay-take-frames_example = replay-take-frames collect slice records 100 [] records-IsRecord

replay-too_large_example :
    replay collect slice (reading collect slice (frames records ++ (le_bytes 4 65537 ++ [])) 0) []
    ≡ stopped
        (err (make_error ErrorCode.record_format_error "event size exceeds 64KB limit"))
        (reading collect slice [] (u64 (length records)))
        (fold (call collect) [] (events records))
replay-too_large_example =
    replay-too_large collect slice records 65537 [] [] records-IsRecord (omega arith) (omega arith)

abbrev short : List ℕ
short = 1 ∷ 2 ∷ []

replay_loop-skips_example :
    replay_loop collect slice 9 (le_bytes 4 (length short) ++ (short ++ frames records)) 0 []
    ≡ replay_loop collect slice 8 (frames records) 0 []
replay_loop-skips_example =
    replay_loop-skips collect slice 8 short (frames records) 0 [] (omega arith)

replay-recorded_example :
    ((Replay.open_path
        (some (
          take
            (header_size + 184)
            (recorded (ready 11 12) "a.ksr" records Recorder.fresh).disk.content))
        ""
        "a.ksr"
        Replay.new_source).1
      ≡ ok)
    × (replay collect slice
          (Replay.open_path
            (some (
              take
                (header_size + 184)
                (recorded (ready 11 12) "a.ksr" records Recorder.fresh).disk.content))
            ""
            "a.ksr"
            Replay.new_source).0
          []
        ≡ stopped ok
            (reading collect slice [] (u64 (min (184 / frame_size) (length records))))
            (fold (call collect) [] (take (184 / frame_size) (events records))))
replay-recorded_example =
    replay-recorded collect slice 11 12 "a.ksr" "" records 184 [] records-IsRecord
