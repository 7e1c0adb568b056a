-- ===== src/Commands/Doctor.antt =====
-- The check of the system: run_doctor in src/cli/commands.cpp.
use kernel_scope.Prelude.{
  ℕ, ◌+◌, ◌*◌, ◌≤◌, ◌<◌, ◌≡◌, ◌↔◌, arith, ltb, leb, ◌==◌, if◌then◌else◌, Bool, true, false, ◌&&◌,
  ◌||◌, Option, none, some, u32_mod,
}

abbrev pub min_kernel_major : ℕ
min_kernel_major = 6

abbrev pub min_kernel_minor : ℕ
min_kernel_minor = 1

-- What the system answers: the two numbers that sscanf reads of the release (0 where it reads none), or
-- `none` where uname fails; whether the files exist; and the effective user.
pub record System : Type 0 where
  pub release : Option (ℕ × ℕ)
  pub has_btf : Bool
  pub euid : ℕ
  pub has_debug_tracing : Bool
  pub has_tracing : Bool

unfoldable pub new_enough : Option (ℕ × ℕ) → Bool
new_enough none = false
new_enough (some (major, minor)) =
    ltb min_kernel_major major || (major == min_kernel_major && leb min_kernel_minor minor)

unfoldable pub check_kernel_version : System → Bool
unfolding new_enough
check_kernel_version y = new_enough y.release

abbrev pub check_btf : System → Bool
check_btf y = y.has_btf

abbrev pub check_bpf_access : System → Bool
check_bpf_access y = y.euid == 0

abbrev pub check_tracefs : System → Bool
check_tracefs y = y.has_debug_tracing || y.has_tracing

-- `if (!check) issues++;`
abbrev pub count_issue : Bool → ℕ → ℕ
count_issue passed issues = if passed then issues else issues + 1

unfoldable pub issues : System → ℕ
unfolding check_kernel_version
issues y = count_issue (check_tracefs y) (
    count_issue (check_bpf_access y)
      (count_issue (check_btf y) (count_issue (check_kernel_version y) 0)))

-- The exit code.
unfoldable pub run_doctor : System → ℕ
unfolding issues
run_doctor y = if issues y == 0 then 0 else 1

abbrev pub IsReady : System → Option (ℕ × ℕ) → Type 0
IsReady y none = ⊥
IsReady y (some (major, minor)) =
    (min_kernel_major * u32_mod + min_kernel_minor ≤ major * u32_mod + minor)
    × (y.has_btf ≡ true)
    × (y.euid ≡ 0)
    × ((y.has_debug_tracing || y.has_tracing) ≡ true)

abbrev pub IsRelease : Option (ℕ × ℕ) → Type 0
IsRelease none = Unit {0}
IsRelease (some (major, minor)) = minor < u32_mod

-- The exit code is 0 exactly if uname answers a release that is 6.1 or later, in the order of versions,
-- the kernel has BTF, the user is root, and one of the two places of tracefs is there.
pub run_doctor-IsReady :
    (y : System) → IsRelease y.release → (run_doctor y ≡ 0) ↔ IsReady y y.release
unfolding run_doctor issues check_kernel_version new_enough
run_doctor-IsReady y h = of_release y.release h
  where
    of_release :
        (o : Option (ℕ × ℕ))
        → IsRelease o
        → (run_doctor (record y { release = o }) ≡ 0) ↔ IsReady y o
    of_release none h = ground arith
    of_release (some (major, minor)) h = ground arith
