-- ===== src/Ksr/Recorder/Appends.antt =====
-- What one call of write_event leaves in the file.
use kernel_scope.Prelude.{
  ℕ, ◌+◌, ◌≤◌, ◌<◌, ◌≡◌, refl, arith, true, false, List, [], ◌∷◌, ◌++◌, length, take, if_true,
  length-append, ◌⊎◌, inl, inr, u32, u64, append_assoc, take-append_le, take-append_ge, take_all,
  append-nil, suc, ==_iff, Bool-cases, ◌==◌, ap, sym,
}
use kernel_scope.Prelude.Bytes.{le_bytes, length-le_bytes}
use kernel_scope.Event.{Event}
use mathlib.Core.Path.{subst}
use native.Mathlib.Nat.{add-zero}
use kernel_scope.Errors.{ErrorCode, Error, Status, ok, err, make_error}
use kernel_scope.Ksr.{Padding, serialize_event}
use kernel_scope.Ksr.Recorder.{Recorder, frame, write_event, write_data, accepted, later}

-- The whole of `bytes` was stored and counted.
abbrev pub Wrote : List ℕ → Recorder → Recorder × Status → Type 0
Wrote bytes r (r', s) =
    (s ≡ ok)
    × (r'.disk.content ≡ r.disk.content ++ bytes)
    × (r'.events_written ≡ u64 (r.events_written + 1))
    × (r'.file ≡ r.file)

-- A proper prefix of `bytes` was stored, and nothing was counted.
abbrev pub Cut : List ℕ → Recorder → Recorder × Status → Type 0
Cut bytes r (r', s) =
    (k : ℕ) × (e : Error) × (k < length bytes)
    × (s ≡ err e)
    × (e.code ≡ ErrorCode.io_error)
    × (r'.disk.content ≡ r.disk.content ++ take k bytes)
    × (r'.events_written ≡ r.events_written)
    × (r'.file ≡ r.file)

accepted-le : (answers bytes : List ℕ) → accepted answers bytes ≤ length bytes
unfolding accepted
accepted-le [] bytes = omega arith
accepted-le (a ∷ answers) bytes = omega arith

abbrev sized : List ℕ → List ℕ
sized bytes = le_bytes 4 (u32 (length bytes)) ++ bytes

module _ (bytes : List ℕ) (r : Recorder) where
  abbrev size_bytes : List ℕ
  size_bytes = le_bytes 4 (u32 (length bytes))

  -- How many bytes of the size, and of the event, were stored.
  abbrev first : ℕ
  first = accepted r.disk.answers size_bytes

  abbrev second : ℕ
  second = accepted (later r.disk.answers) bytes

  cut_error : Error
  unfolding make_error
  cut_error = make_error ErrorCode.io_error "fwrite failed during recording"

  size-Cut : (first == 4) ≡ false → Cut (sized bytes) r (write_data bytes r)
  unfolding write_data cut_error
  size-Cut h = rw h (
    first,
    cut_error,
    omega (arith, length-append size_bytes bytes, length-le_bytes 4 (u32 (length bytes)), short),
    refl,
    refl,
    ap (◌++◌ r.disk.content) (sym (take-append_le first size_bytes bytes (accepted-le _ _))),
    refl,
    refl,
  )
    where
      short : first < 4
      short =
          ground
            (arith, accepted-le r.disk.answers size_bytes, length-le_bytes 4 (u32 (length bytes)))

  -- The file after both calls of fwrite.
  both :
      (first == 4) ≡ true
      → (r.disk.content ++ take first size_bytes) ++ take second bytes
        ≡ r.disk.content ++ take (4 + second) (sized bytes)
  both h =
      let e : first ≡ 4 = (==_iff first 4).0 h in
      let l : length size_bytes ≡ 4 = length-le_bytes 4 (u32 (length bytes)) in
      rw (
        take_all first size_bytes (omega arith),
        append_assoc,
        take-append_ge (4 + second) second size_bytes bytes (omega arith),
      )

  data-Cut :
      (first == 4) ≡ true
      → (second == length bytes) ≡ false
      → Cut (sized bytes) r (write_data bytes r)
  unfolding write_data cut_error
  data-Cut h k =
      rw (h, k)
        (
          4 + second,
          cut_error,
          ground (
            arith,
            length-append size_bytes bytes,
            length-le_bytes 4 (u32 (length bytes)),
            accepted-le (later r.disk.answers) bytes,
          ),
          refl,
          refl,
          both h,
          refl,
          refl,
        )

  data-Wrote :
      (first == 4) ≡ true
      → (second == length bytes) ≡ true
      → Wrote (sized bytes) r (write_data bytes r)
  unfolding write_data
  data-Wrote h k =
      let all : take (4 + second) (sized bytes) ≡ sized bytes =
        take_all (4 + second) (sized bytes) (
          ground (arith, length-append size_bytes bytes, length-le_bytes 4 (u32 (length bytes)))) in
      rw (h, k) (refl, rw all at (both h), refl, refl)

  write_data_lem :
      Wrote (sized bytes) r (write_data bytes r) ⊎ Cut (sized bytes) r (write_data bytes r)
  write_data_lem = elim (Bool-cases (first == 4)) [
    | inr h ↦ inr (size-Cut h)
    | inl h ↦ elim (Bool-cases (second == length bytes)) [
      | inl k ↦ inl (data-Wrote h k)
      | inr k ↦ inr (data-Cut h k)
    ]
  ]

-- On an open recorder, whatever the device accepts, write_event either reports success and has
-- appended the whole frame and counted it, or reports an I/O error and has appended a proper prefix
-- of the frame and counted nothing.
pub write_event-appends :
    (p : Padding) (ev : Event) (r : Recorder)
    → r.file ≡ true
    → Wrote (frame p ev) r (write_event p ev r) ⊎ Cut (frame p ev) r (write_event p ev r)
unfolding write_event frame
write_event-appends p ev r h =
    let bytes = serialize_event p ev in
    subst (λ x. Wrote (sized bytes) r x ⊎ Cut (sized bytes) r x) (sym (if_true _ _ h))
      (write_data_lem bytes r)

-- On a device that stores everything, recording a list of events appends their frames in order.
abbrev pub frames : List (Padding × Event) → List ℕ
frames [] = []
frames ((p, ev) ∷ evs) = frame p ev ++ frames evs

-- Calls of write_event one after the other; the statuses are dropped, as in run_record.
unfoldable pub write_all : List (Padding × Event) → Recorder → Recorder
write_all [] r = r
write_all ((p, ev) ∷ evs) r = write_all evs (write_event p ev r).0

-- An open recorder on a device that stores everything.
abbrev pub storing : List ℕ → ℕ → Recorder
storing content written = record {
  file = true;
  disk = record { content = content; answers = [] };
  events_written = written;
}

write_data_stored :
    (bytes content : List ℕ) (written : ℕ)
    → write_data bytes (storing content written)
      ≡ (storing (content ++ sized bytes) (u64 (written + 1)), ok)
unfolding write_data
write_data_stored bytes content written =
    let same : (length bytes == length bytes) ≡ true = (==_iff _ _).1 refl in
    let whole_size : take 4 (le_bytes 4 (u32 (length bytes))) ≡ le_bytes 4 (u32 (length bytes)) =
      take_all 4 _ (omega (arith, length-le_bytes 4 (u32 (length bytes)))) in
    let whole : take (length bytes) bytes ≡ bytes = take_all (length bytes) bytes (omega arith) in
    rw (length-le_bytes, same) (rw (whole_size, whole, append_assoc))

pub write_event_stored :
    (p : Padding) (ev : Event) (content : List ℕ) (written : ℕ)
    → write_event p ev (storing content written)
      ≡ (storing (content ++ frame p ev) (u64 (written + 1)), ok)
unfolding write_event frame
write_event_stored p ev content written = write_data_stored (serialize_event p ev) content written

-- Recording a list of events on such a device appends their frames in order, and counts them.
pub write_all_stored :
    (evs : List (Padding × Event)) (content : List ℕ) (written : ℕ)
    → write_all evs (storing content (u64 written))
      ≡ storing (content ++ frames evs) (u64 (written + length evs))
unfolding write_all
write_all_stored [] content written = rw (append-nil, add-zero)
write_all_stored ((p, ev) ∷ evs) content written =
    let counted : u64 (u64 written + 1) ≡ u64 (written + 1) = omega arith in
    let total : written + 1 + length evs ≡ written + suc (length evs) = omega arith in
    rw (
      write_event_stored p ev content (u64 written),
      counted,
      write_all_stored evs (content ++ frame p ev) (written + 1),
      append_assoc,
      total,
    )
