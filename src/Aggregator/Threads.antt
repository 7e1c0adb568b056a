-- ===== src/Aggregator/Threads.antt =====
-- The key of the table of threads: a process and a thread in one 64-bit number.
use kernel_scope.Prelude.{ℕ, ◌+◌, ◌*◌, ◌^◌, ◌<◌, ◌≡◌, arith, u64, u32_mod}
use kernel_scope.Prelude.Bits.{bit_or-add}
use kernel_scope.Aggregator.{thread_key}

-- For two 32-bit numbers.
thread_key-add :
    (pid tid : ℕ) → pid < u32_mod → tid < u32_mod → thread_key pid tid ≡ pid * 2 ^ 32 + tid
unfolding thread_key
thread_key-add pid tid p t =
    let fits : u64 (pid * 2 ^ 32) ≡ pid * 2 ^ 32 = omega arith in rw fits (bit_or-add 32 pid tid t)

-- Two pairs of 32-bit numbers with the same key are the same: no two threads share an entry.
pub thread_key-injective :
    (pid tid pid' tid' : ℕ)
    → pid < u32_mod
    → tid < u32_mod
    → pid' < u32_mod
    → tid' < u32_mod
    → thread_key pid tid ≡ thread_key pid' tid'
    → (pid ≡ pid') × (tid ≡ tid')
thread_key-injective pid tid pid' tid' p t p' t' same =
    let one = thread_key-add pid tid p t in
    let two = thread_key-add pid' tid' p' t' in
    (omega (arith, one, two, same, p, t, p', t'), omega (arith, one, two, same, p, t, p', t'))
