-- ===== src/Pipeline/Filtered.antt =====
-- The filter of the process id in the kernel programs, as the tables show it.
use kernel_scope.Prelude.{
  ℕ, ◌≡◌, refl, arith, ◌==◌, Bool-cases, true, false, List, [], ◌∷◌, All, none, inl, inr, sym, ◌∙◌,
  ap, nat_eq, String,
}
use kernel_scope.Prelude.Int.{ℤ}
use kernel_scope.Prelude.Assoc.{lookup}
use kernel_scope.Decoder.{RawEvent, copy_fields}
use kernel_scope.Aggregator.{Aggregator}
use kernel_scope.Aggregator.Processes.{events_of, process-summary}
use kernel_scope.Bpf.Loader.{Rodata}
use kernel_scope.Bpf.Collector.{Collector}
use kernel_scope.Tracer.{empty}
use kernel_scope.Tracer.Filters.{filter_pid}
use kernel_scope.Tracer.Handlers.{Hit, run}
use kernel_scope.Tracer.Traced.{IsTraced, slow_call, slice, process, run-IsTraced}
use kernel_scope.Pipeline.{IsMemory, IsStarted, copied, polled, polled-after}

IsTraced-filter_pid : (r : Rodata) (e : RawEvent) → IsTraced r e → filter_pid r e.pid ≡ true
IsTraced-filter_pid r e (slow_call type inside long) = inside
IsTraced-filter_pid r e (slice type inside long same) = inside
IsTraced-filter_pid r e (process type inside nothing) = inside

events_of-outside :
    (r : Rodata) (pid : ℕ) (es : List RawEvent)
    → filter_pid r pid ≡ false
    → All (IsTraced r) es
    → events_of pid (copied es) ≡ []
unfolding copy_fields
events_of-outside r pid [] out h = refl
events_of-outside r pid (e ∷ es) out h =
    let inside = IsTraced-filter_pid r e h.0 in
    let other : (e.pid == pid) ≡ false = elim (Bool-cases (e.pid == pid)) [
      | inl same ↦
          let moved : e.pid ≡ pid = ground arith in
          absurd (ground (arith, sym inside ∙ ap (filter_pid r) moved ∙ out))
      | inr different ↦ different
    ] in
    ground (arith, other, events_of-outside r pid es out h.1)

-- Whatever the handlers do from the start, the table of processes that a poll of their events leaves
-- has no entry for a process whose id filter_pid refuses. The filter of names has no part in this.
pub polled-filtered :
    (r : Rodata) (hits : List Hit) (raws : List (List ℕ)) (answer : ℤ) (message : String)
    (c : Collector Aggregator) (pid : ℕ)
    → IsStarted c
    → IsMemory raws (run r empty hits).ring
    → filter_pid r pid ≡ false
    → lookup pid (polled raws answer message c).procs ≡ none
polled-filtered r hits raws answer message c pid started memory out =
    let ring = (run r empty hits).ring in
    rw (polled-after raws ring answer message c started memory)
      (elim (process-summary pid (copied ring)) [
        | inl (nothing, missing) ↦ missing
        | inr (ev, rest, p, counted, found, summary) ↦
            absurd
              (ground (arith, sym counted ∙ events_of-outside r pid ring out (run-IsTraced r hits)))
      ])
