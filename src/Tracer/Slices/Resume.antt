-- ===== src/Tracer/Slices/Resume.antt =====
-- A switch to a thread, as one thread sees it.
use kernel_scope.Prelude.{
  ℕ, ◌<◌, ◌≡◌, refl, arith, ltb, leb, if◌then◌else◌, Bool, Bool-cases, true, false, List, [], ◌∷◌,
  ◌++◌, Option, some, none, inl, inr, keep, keep-append, length, sub64, append-nil, sym,
}
use kernel_scope.Prelude.Assoc.{lookup}
use kernel_scope.Prelude.Bounded.{put, lookup-put, length-put}
use kernel_scope.Decoder.{RawEvent}
use kernel_scope.Bpf.Loader.{Rodata}
use kernel_scope.Bpf.Bridge.{TaskKey}
use kernel_scope.Tracer.{Tracer, SchedState, task_key_eq, max_sched_entries}
use kernel_scope.Tracer.Handlers.{Switch, tid_key, slice_event, resumed, submit, resume}
use kernel_scope.Tracer.Runs.{submitted}
use kernel_scope.Tracer.Slices.{came_in, sliced, of_thread}
use kernel_scope.Tracer.Slices.Steps.{Step, at, own_state}

module _ (r : Rodata) (κ : TaskKey) where
  submit-slice :
      (w : Switch) (offcpu_ns : ℕ) (s : Tracer)
      → (keep (of_thread r κ) (submit w.memory (slice_event w offcpu_ns) s).ring
          ≡ keep (of_thread r κ) s.ring
            ++ (if task_key_eq.beq (tid_key w.next_pid) κ
                then submitted r κ w.memory (slice_event w offcpu_ns)
                else []))
        × ((submit w.memory (slice_event w offcpu_ns) s).sched_states ≡ s.sched_states)
  unfolding submit
  submit-slice w offcpu_ns s = of_memory w.memory
    where
      fill : RawEvent → RawEvent
      fill e = slice_event w offcpu_ns e

      belongs : (e : RawEvent) → of_thread r κ (fill e) ≡ task_key_eq.beq (tid_key w.next_pid) κ
      belongs e = unfold slice_event in refl

      of_memory :
          (memory : Option RawEvent)
          → (keep (of_thread r κ) (submit memory fill s).ring
              ≡ keep (of_thread r κ) s.ring
                ++ (if task_key_eq.beq (tid_key w.next_pid) κ
                    then submitted r κ memory fill
                    else []))
            × ((submit memory fill s).sched_states ≡ s.sched_states)
      of_memory none = elim (Bool-cases (task_key_eq.beq (tid_key w.next_pid) κ)) [
        | inl own ↦ rw own (sym (append-nil _), refl)
        | inr other ↦ rw other (sym (append-nil _), refl)
      ]
      of_memory (some e) = elim (Bool-cases (task_key_eq.beq (tid_key w.next_pid) κ)) [
        | inl own ↦
            rw (keep-append (of_thread r κ) s.ring (fill e ∷ []), belongs e, own) (refl, refl)
        | inr other ↦
            rw (keep-append (of_thread r κ) s.ring (fill e ∷ []), belongs e, other) (refl, refl)
      ]

  -- What a switch to the thread makes of its state, where it comes in with the given state.
  abbrev pub came : Switch → Tracer → Option SchedState
  came w s = if task_key_eq.beq (tid_key w.next_pid) κ then came_in r κ w (at r κ s) else at r κ s

  abbrev pub gained : Switch → Tracer → List RawEvent
  gained w s = if task_key_eq.beq (tid_key w.next_pid) κ then sliced r κ w (at r κ s) else []

  idle-Step :
      (w : Switch) (o : Option SchedState) (s : Tracer)
      → lookup (tid_key w.next_pid) s.sched_states ≡ o
      → came_in r κ w o ≡ o
      → sliced r κ w o ≡ []
      → Step r κ s s (came w s) (gained w s)
  idle-Step w o s found same nothing = elim (Bool-cases (task_key_eq.beq (tid_key w.next_pid) κ)) [
    | inl own ↦
        let mine_now = own_state r κ (tid_key w.next_pid) s own found in
        rw own (record {
          state = rw (mine_now, same) refl;
          events = rw (mine_now, nothing) (sym (append-nil _));
          grows = omega arith;
        })
    | inr other ↦
        rw other (record { state = refl; events = sym (append-nil _); grows = omega arith })
  ]

  pub resume-Step :
      (w : Switch) (o : Option SchedState) (s : Tracer)
      → lookup (tid_key w.next_pid) s.sched_states ≡ o
      → length s.sched_states < max_sched_entries
      → Step r κ s (resume r w o s) (came w s) (gained w s)
  unfolding resume resumed
  resume-Step w none s found room = idle-Step w none s found refl refl
  resume-Step w (some state) s found room =
      tested (ltb 0 state.switch_out_ns) (leb r.min_offcpu_ns offcpu_ns) refl refl
    where
      key : TaskKey
      key = tid_key w.next_pid

      offcpu_ns : ℕ
      offcpu_ns = sub64 w.in_ns state.switch_out_ns

      store : Tracer → Tracer
      store s' = record s' {
        sched_states = put max_sched_entries key (resumed w state) s'.sched_states;
      }

      stored :
          ltb 0 state.switch_out_ns ≡ true
          → lookup κ (put max_sched_entries key (resumed w state) s.sched_states) ≡ came w s
      stored out = elim (Bool-cases (task_key_eq.beq key κ)) [
        | inl own ↦
            rw (own, own_state r κ key s own found, out)
              (rw own at (lookup-put max_sched_entries key κ (resumed w state) s.sched_states room))
        | inr other ↦
            rw other (
              rw other at
                (lookup-put max_sched_entries key κ (resumed w state) s.sched_states room))
      ]

      tested :
          (out long : Bool)
          → ltb 0 state.switch_out_ns ≡ out
          → leb r.min_offcpu_ns offcpu_ns ≡ long
          → Step r κ s
              (if out
                then store (if long then submit w.memory (slice_event w offcpu_ns) s else s)
                else s)
              (came w s)
              (gained w s)
      tested false long on any = idle-Step w (some state) s found (rw on refl) (rw on refl)
      tested true false out short = record {
        state = stored out;
        events = elim (Bool-cases (task_key_eq.beq key κ)) [
          | inl own ↦ rw (own, own_state r κ key s own found, out, short) (sym (append-nil _))
          | inr other ↦ rw other (sym (append-nil _))
        ];
        grows = (length-put max_sched_entries key (resumed w state) s.sched_states).0;
      }
      tested true true out long =
          let (ring, same) = submit-slice w offcpu_ns s in
          record {
            state = rw same (stored out);
            events = elim (Bool-cases (task_key_eq.beq key κ)) [
              | inl own ↦ rw (own, own_state r κ key s own found, out, long) (rw own at ring)
              | inr other ↦ rw other (rw other at ring)
            ];
            grows = rw same (length-put max_sched_entries key (resumed w state) s.sched_states).0;
          }
