-- ===== src/Commands/Setup.antt =====
-- What the options do in the kernel programs: setup_bpf and configure, up to the filters.
use kernel_scope.Prelude.{
  ℕ, zero, suc, ◌*◌, ◌≤◌, ◌≡◌, ◌≢◌, ◌↔◌, ◌⊎◌, refl, arith, leb, min, Bool-cases, true, false, List,
  [], ◌∷◌, ◌++◌, length, take, take_all, drop, replicate, All, All-take, All-drop, Option, some,
  none, inl, inr, u64, sym, ◌∙◌, ap, length-append, length-take, length-drop,
}
use kernel_scope.Errors.{ErrorCode}
use kernel_scope.Event.{until_nul}
use kernel_scope.Symbols.ProcMaps.{is_empty}
use kernel_scope.Bpf.Loader.{
  BpfLoader, Skeleton, Rodata, write_comm, write_rodata, write_pidns, open_skeleton, configure,
  load, attach, checked, flag,
}
use kernel_scope.Commands.{
  Config, SetupAnswers, setup_bpf, and_then, is_ok, make_bpf_config, us_to_ns,
}
use kernel_scope.Tracer.Filters.{filter_pid, filter_comm}
use kernel_scope.Tracer.Filters.Names.{filter_comm-until_nul}

abbrev pub IsText : List ℕ → Type 0
IsText comm = All (λ c. c ≢ 0) comm

until_nul-text :
    (text zeros : List ℕ) → IsText text → All (λ c. c ≡ 0) zeros → until_nul (text ++ zeros) ≡ text
unfolding until_nul
until_nul-text [] [] h z = refl
until_nul-text [] (c ∷ cs) h z = ground (arith, z.0)
until_nul-text (c ∷ cs) zeros h z = ground (arith, h.0, until_nul-text cs zeros h.1 z)

take-min : (n : ℕ) (xs : List ℕ) → take (min (length xs) n) xs ≡ take n xs
take-min n xs = elim (Bool-cases (leb (length xs) n)) [
  | inl short ↦
      let whole : length xs ≤ n = ground (arith, short) in
      let same : min (length xs) n ≡ length xs = omega (arith, whole) in
      rw same (take_all (length xs) xs (omega arith) ∙ sym (take_all n xs whole))
  | inr long ↦ let same : min (length xs) n ≡ n = ground (arith, long) in rw same refl
]

-- An array of 16 NULs, as the kernel programs declare it.
abbrev pub no_comm : List ℕ
no_comm = replicate 16 0

no_comm-zeros : All (λ c. c ≡ 0) no_comm
no_comm-zeros = zeros 16
  where
    zeros : (n : ℕ) → All (λ (c : ℕ). c ≡ 0) (replicate n 0)
    zeros zero = tt
    zeros (suc n) = (refl, zeros n)

until_nul-write_comm :
    (comm : List ℕ) → IsText comm → until_nul (write_comm comm no_comm) ≡ take 15 comm
unfolding write_comm is_empty
until_nul-write_comm [] h = until_nul-text [] no_comm tt no_comm-zeros
until_nul-write_comm (c ∷ cs) h =
    until_nul-text (take (min (length (c ∷ cs)) 15) (c ∷ cs))
      (drop (min (length (c ∷ cs)) 15) no_comm)
      (All-take (λ c. c ≢ 0) (min (length (c ∷ cs)) 15) (c ∷ cs) h)
      (All-drop (λ c. c ≡ 0) (min (length (c ∷ cs)) 15) no_comm no_comm-zeros)
    ∙ take-min 15 (c ∷ cs)

length-write_comm : (comm : List ℕ) → length (write_comm comm no_comm) ≡ 16
unfolding write_comm is_empty
length-write_comm [] = refl
length-write_comm (c ∷ cs) =
    let k : ℕ = min (length (c ∷ cs)) 15 in
    omega (
      arith,
      length-append (take k (c ∷ cs)) (drop k no_comm),
      length-take k (c ∷ cs),
      length-drop k no_comm,
    )

-- The kernel programs do what the options say, for a process id and a name.
pub record Obeys (cfg : Config) (pid : ℕ) (comm : List ℕ) (r : Rodata) : Type 0 where
  pub pids : (filter_pid r pid ≡ true) ↔ ((cfg.pid ≡ 0) ⊎ (pid ≡ cfg.pid))
  pub names : (filter_comm r comm ≡ true) ↔ ((cfg.comm ≡ []) ⊎ (take 15 cfg.comm ≡ until_nul comm))
  pub latency : r.min_latency_ns ≡ u64 (cfg.min_latency_us * 1000)
  pub offcpu : r.min_offcpu_ns ≡ u64 (cfg.min_offcpu_us * 1000)
  pub user_stacks : (r.capture_user_stacks ≡ 0) ↔ (cfg.user_stacks ≡ false)
  pub kernel_stacks : (r.capture_kern_stacks ≡ 0) ↔ (cfg.kernel_stacks ≡ false)
  pub sampling : r.stack_sampling_pct ≡ cfg.stack_sampling_pct

named :
    (target comm : List ℕ)
    → ((take 15 target ≡ []) ⊎ (take 15 target ≡ until_nul comm))
      ↔ ((target ≡ []) ⊎ (take 15 target ≡ until_nul comm))
named [] comm = (λ h. inl refl, λ h. inl refl)
named (c ∷ cs) comm = (
  λ h. elim h [ inl e ↦ absurd (omega (arith, ap length e)) | inr e ↦ inr e ],
  λ h. elim h [ inl e ↦ absurd (omega (arith, ap length e)) | inr e ↦ inr e ],
)

write_pidns-Obeys :
    (stat : Option (ℕ × ℕ)) (cfg : Config) (r : Rodata) (pid : ℕ) (comm : List ℕ)
    → Obeys cfg pid comm r
    → Obeys cfg pid comm (write_pidns stat r)
unfolding write_pidns filter_pid filter_comm
write_pidns-Obeys none cfg r pid comm o = o
write_pidns-Obeys (some (dev, ino)) cfg r pid comm o = record {
  pids = o.pids;
  names = o.names;
  latency = o.latency;
  offcpu = o.offcpu;
  user_stacks = o.user_stacks;
  kernel_stacks = o.kernel_stacks;
  sampling = o.sampling;
}

write_rodata-Obeys :
    (stat : Option (ℕ × ℕ)) (cfg : Config) (old : Rodata) (pid : ℕ) (comm : List ℕ)
    → old.target_comm ≡ no_comm
    → IsText cfg.comm
    → length comm ≡ 16
    → Obeys cfg pid comm (write_rodata stat (make_bpf_config cfg) old)
unfolding write_rodata make_bpf_config
write_rodata-Obeys stat cfg old pid comm unset text whole =
    let r : Rodata = record old {
      target_pid = cfg.pid;
      min_latency_ns = us_to_ns cfg.min_latency_us;
      min_offcpu_ns = us_to_ns cfg.min_offcpu_us;
      capture_user_stacks = flag cfg.user_stacks;
      capture_kern_stacks = flag cfg.kernel_stacks;
      stack_sampling_pct = cfg.stack_sampling_pct;
      target_comm = write_comm cfg.comm old.target_comm;
    } in
    let same : write_comm cfg.comm old.target_comm ≡ write_comm cfg.comm no_comm =
      ap (write_comm cfg.comm) unset in
    let name : until_nul r.target_comm ≡ take 15 cfg.comm =
      ap until_nul same ∙ until_nul-write_comm cfg.comm text in
    let sized : length r.target_comm ≡ length comm =
      ap length same ∙ length-write_comm cfg.comm ∙ sym whole in
    let filtered = rw name at (filter_comm-until_nul r comm sized) in
    let meant = named cfg.comm comm in
    write_pidns-Obeys stat cfg r pid comm (record {
      pids = unfold filter_pid in (λ h. ground (arith, h), λ h. ground (arith, h));
      names = (λ h. meant.0 (filtered.0 h), λ h. filtered.1 (meant.1 h));
      latency = refl;
      offcpu = refl;
      user_stacks = (λ h. ground (arith, h), λ h. ground (arith, h));
      kernel_stacks = (λ h. ground (arith, h), λ h. ground (arith, h));
      sampling = refl;
    })

-- Where the skeleton opens with an empty name, a setup leaves kernel programs that do what the options say:
-- the filter of ids admits all ids without --pid and just the given one with it; the filter of names admits
-- all names without --comm, and with it just the first 15 characters of the given one; the least latencies
-- are those of the options in nanoseconds, modulo 2^64; and the stacks and the sampling are as given. The
-- name of the options has no NUL, and that of a task is an array of 16 characters.
pub setup_bpf-Obeys :
    (a : SetupAnswers) (cfg : Config) (s : Skeleton) (l : BpfLoader) (pid : ℕ) (comm : List ℕ)
    → a.opened ≡ some s
    → s.rodata.target_comm ≡ no_comm
    → IsText cfg.comm
    → length comm ≡ 16
    → (sk : Skeleton) × ((setup_bpf a cfg l).0.skel ≡ some sk) × Obeys cfg pid comm sk.rodata
unfolding setup_bpf and_then is_ok open_skeleton configure load attach
setup_bpf-Obeys a cfg s l pid comm opened unset text whole = (
  record { rodata = write_rodata a.stat (make_bpf_config cfg) s.rodata; maps = a.maps },
  elim (Bool-cases (is_ok (checked ErrorCode.bpf_load_failed a.load_message a.loaded))) [
    | inl done ↦ rw opened (simp done refl)
    | inr not_done ↦ rw opened (simp not_done refl)
  ],
  write_rodata-Obeys a.stat cfg s.rodata pid comm unset text whole,
)
