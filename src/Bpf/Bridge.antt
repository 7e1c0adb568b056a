-- ===== src/Bpf/Bridge.antt =====
-- Reading the BPF maps: src/bpf/skeleton_bridge.hpp and skeleton_bridge.cpp.
pub mod Stacks
pub mod Counts
use kernel_scope.Prelude.{
  ℕ, zero, suc, ◌+◌, ◌==◌, if◌then◌else◌, Bool, ◌||◌, List, [], ◌∷◌, Option, some, none, u32,
}
use kernel_scope.Prelude.Int.{ℤ, is_negative, negsuc}
use kernel_scope.Bpf.Loader
use kernel_scope.Bpf.Loader.{BpfLoader, stack_trace_fd}

-- The bridge holds the loader that it was made with.
pub record SkeletonBridge : Type 0 where
  pub loader : BpfLoader

unfoldable pub ringbuf_fd : SkeletonBridge → ℤ
ringbuf_fd b = Loader.ringbuf_fd b.loader

unfoldable pub active_syscalls_fd : SkeletonBridge → ℤ
active_syscalls_fd b = elim b.loader.skel [ none ↦ negsuc 0 | some s ↦ s.maps.active_syscalls ]

unfoldable pub sched_states_fd : SkeletonBridge → ℤ
sched_states_fd b = elim b.loader.skel [ none ↦ negsuc 0 | some s ↦ s.maps.sched_states ]

-- An address in front of what the loop leaves of the addresses behind it.
unfoldable pub before : ℕ → List ℕ → List ℕ
before addr [] = if addr == 0 then [] else addr ∷ []
before addr (next ∷ rest) = addr ∷ next ∷ rest

-- The loop that takes zeros off the end.
unfoldable pub pop_zeros : List ℕ → List ℕ
unfolding before
pop_zeros [] = []
pop_zeros (addr ∷ addrs) = before addr (pop_zeros addrs)

-- The first argument is the answer of bpf_map_lookup_elem on the map of stacks: the 127 entries of the
-- value, or `none` for an error.
unfoldable pub read_stack : (ℤ → Option (List ℕ)) → ℤ → SkeletonBridge → List ℕ
unfolding pop_zeros
read_stack lookup_elem stack_id b =
    if is_negative (stack_trace_fd b.loader) || is_negative stack_id
    then []
    else elim (lookup_elem stack_id) [ none ↦ [] | some addrs ↦ pop_zeros addrs ]

pub record TaskKey : Type 0 where
  pub pid : ℕ
  pub tid : ℕ

abbrev pub zero_key : TaskKey
zero_key = record { pid = 0; tid = 0 }

-- The loop over bpf_map_get_next_key; `none` where the fuel runs out.
unfoldable pub count_keys : ℕ → (TaskKey → Option TaskKey) → TaskKey → ℕ → Option ℕ
count_keys zero next key count = none
count_keys (suc fuel) next key count = elim (next key) [
  | none ↦ some count
  | some key' ↦ count_keys fuel next key' (u32 (count + 1))
]

-- The count of a map, with fuel for the keys of the map and the end.
unfoldable pub key_count : ℕ → (TaskKey → Option TaskKey) → ℤ → Option ℕ
unfolding count_keys
key_count fuel next fd = if is_negative fd then some 0 else count_keys fuel next zero_key 0

unfoldable pub active_syscall_count : ℕ → (TaskKey → Option TaskKey) → SkeletonBridge → Option ℕ
unfolding key_count active_syscalls_fd
active_syscall_count fuel next b = key_count fuel next (active_syscalls_fd b)

unfoldable pub sched_state_count : ℕ → (TaskKey → Option TaskKey) → SkeletonBridge → Option ℕ
unfolding key_count sched_states_fd
sched_state_count fuel next b = key_count fuel next (sched_states_fd b)
