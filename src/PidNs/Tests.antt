-- ===== src/PidNs/Tests.antt =====
-- Runs of the translation.
use kernel_scope.Prelude.{
  ◌==◌, ◌≡◌, refl, arith, if◌then◌else◌, true, false, [], ◌∷◌, ◌++◌, none, some,
}
use kernel_scope.Decoder.Syscalls.{codes}
use kernel_scope.PidNs.{Proc, to_kernel_pid, to_ns_pid}
use kernel_scope.PidNs.Translation.{tabbed, to_kernel_pid-to_ns_pid}

-- The processes 7 and 9; the status of 9 names the pid 4100.
abbrev proc : Proc
proc = record {
  status = λ pid.
      if pid == 9 then some ((codes "Name:" ∷ (codes "NStgid:" ++ 9 ∷ 0x39 ∷ []) ∷ [])) else none;
  self_status =
      some
        (codes "Name:" ∷ (codes "NStgid:" ++ tabbed ((0x31 ∷ 0x32 ∷ []) ∷ (0x31 ∷ []) ∷ [])) ∷ []);
  has_maps = λ pid. false;
  entries =
      record { is_directory = true; number = none }
      ∷ record { is_directory = true; number = some 7 }
      ∷ record { is_directory = true; number = some 9 }
      ∷ [];
  scan = λ text. some 4100;
}

to_ns_pid_found : to_ns_pid proc 4100 ≡ 9
unfolding to_ns_pid
to_ns_pid_found = refl

to_kernel_pid-to_ns_pid_example : to_kernel_pid proc (to_ns_pid proc 4100) ≡ 4100
to_kernel_pid-to_ns_pid_example =
    to_kernel_pid-to_ns_pid proc 4100 refl (λ z. ground (arith, z, to_ns_pid_found))
