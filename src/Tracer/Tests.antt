-- ===== src/Tracer/Tests.antt =====
-- Runs of the handlers.
use kernel_scope.Prelude.{
  ◌≡◌, ◌↔◌, ◌⊎◌, refl, arith, leb, if◌then◌else◌, true, [], ◌∷◌, ◌++◌, keep, All, sub64,
}
use kernel_scope.Prelude.Assoc.{lookup}
use kernel_scope.Event.{until_nul}
use kernel_scope.Tracer.{task_key_eq, empty}
use kernel_scope.Tracer.Filters.{filter_comm, same_name, fill_task_key, filter_pid}
use kernel_scope.Tracer.Filters.Names.{filter_comm-until_nul}
use kernel_scope.Tracer.Handlers.{run, syscall_entry, syscall_event}
use kernel_scope.Tracer.Examples.{rodata, task, key, memory, aside, hits, switches}
use kernel_scope.Tracer.Slices.{state_after, slices, of_thread}
use kernel_scope.Tracer.Slices.Whole.{run-slices}
use kernel_scope.Tracer.Handlers.{tid_key}
use kernel_scope.Tracer.Runs.{call_after, calls, of_task}
use kernel_scope.Tracer.Runs.Calls.{run-calls, call-traced}
use kernel_scope.Tracer.Traced.{IsTraced}
use kernel_scope.Tracer.Named.{IsCall, run-admitted}

run-calls_example :
    (lookup key (run rodata empty hits).active_syscalls
      ≡ call_after rodata key (lookup key empty.active_syscalls) hits)
    × (keep (of_task rodata key) (run rodata empty hits).ring
        ≡ keep (of_task rodata key) empty.ring
          ++ calls rodata key (lookup key empty.active_syscalls) hits)
run-calls_example = run-calls rodata key hits empty (unfold empty in omega arith)

call-traced_example :
    keep (of_task rodata key) (run rodata empty hits).ring
    ≡ keep (of_task rodata key) empty.ring
      ++ (if leb 100 (sub64 500 10)
          then syscall_event rodata (task 500) (syscall_entry rodata (task 10) 202) memory ∷ []
          else [])
unfolding fill_task_key filter_comm filter_pid same_name empty
call-traced_example =
    call-traced rodata key empty (task 10) (task 500) 202 memory aside refl refl refl
      (refl, (refl, tt)) (omega arith)

run-admitted_example :
    All (IsTraced rodata) (run rodata empty hits).ring
    × All (IsCall rodata hits) (run rodata empty hits).ring
run-admitted_example = run-admitted rodata hits

filter_comm-until_nul_example : (filter_comm rodata (task 10).comm ≡ true) ↔ (
    (until_nul rodata.target_comm ≡ []) ⊎ (until_nul rodata.target_comm ≡ until_nul (task 10).comm))
filter_comm-until_nul_example = filter_comm-until_nul rodata (task 10).comm refl

run-slices_example :
    (lookup (tid_key 7) (run rodata empty switches).sched_states
      ≡ state_after rodata (tid_key 7) (lookup (tid_key 7) empty.sched_states) switches)
    × (keep (of_thread rodata (tid_key 7)) (run rodata empty switches).ring
        ≡ keep (of_thread rodata (tid_key 7)) empty.ring
          ++ slices rodata (tid_key 7) (lookup (tid_key 7) empty.sched_states) switches)
run-slices_example = run-slices rodata (tid_key 7) switches empty (unfold empty in omega arith)
