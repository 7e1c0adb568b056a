-- ===== src/Decoder/Tests.antt =====
-- Runs of the decoder.
use kernel_scope.Prelude.{◌≡◌, refl}
use kernel_scope.Decoder.Syscalls.{syscall_name, codes}

syscall_name_futex : syscall_name 202 ≡ codes "futex"
unfolding syscall_name
syscall_name_futex = refl

syscall_name_unknown : syscall_name 99999 ≡ codes "sys_99999"
unfolding syscall_name
syscall_name_unknown = refl

-- Number 424 is pidfd_send_signal on x86_64.
syscall_name_424 : syscall_name 424 ≡ codes "fspick"
unfolding syscall_name
syscall_name_424 = refl
