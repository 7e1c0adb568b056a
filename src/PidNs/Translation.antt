-- ===== src/PidNs/Translation.antt =====
-- Translating a pid there and back, and counting the namespaces.
use kernel_scope.Prelude.{
  ℕ, ◌+◌, ◌≡◌, ◌≢◌, refl, arith, ◌∙◌, ltb, if◌then◌else◌, Bool, Bool-cases, true, false, List, [],
  ◌∷◌, ◌++◌, length, All, Option, none, some, inl, inr,
}
use kernel_scope.Decoder.Syscalls.{codes}
use kernel_scope.PidNs.{
  Proc, Entry, parse_nstgid, to_kernel_pid, is_pid, entry_pid, search_entries, to_ns_pid, is_digit,
  count_numbers, namespaced, has_pid_namespace, is_nstgid,
}

is_pid-some : (kernel_pid : ℕ) (o : Option ℕ) → is_pid kernel_pid o ≡ true → o ≡ some kernel_pid
is_pid-some k none h = absurd (ground (arith, h))
is_pid-some k (some kpid) h = ground (arith, h)

number-parses :
    (o : Proc) (kernel_pid pid : ℕ) (number : Option ℕ)
    → elim number [
      | none ↦ none
      | some n ↦ if is_pid kernel_pid (parse_nstgid o n) then some n else none
    ]
      ≡ some pid
    → parse_nstgid o pid ≡ some kernel_pid
number-parses o k pid none h = absurd (ground (arith, h))
number-parses o k pid (some n) h = elim (Bool-cases (is_pid k (parse_nstgid o n))) [
  | inl found ↦
      let same : n ≡ pid = ground (arith, rw found at h) in
      rw (← same) (is_pid-some k (parse_nstgid o n) found)
  | inr other ↦ absurd (ground (arith, rw other at h))
]

entry_pid-parses :
    (o : Proc) (kernel_pid pid : ℕ) (e : Entry)
    → entry_pid o kernel_pid e ≡ some pid
    → parse_nstgid o pid ≡ some kernel_pid
entry_pid-parses o k pid e h = elim (Bool-cases e.is_directory) [
  | inl yes_dir ↦ number-parses o k pid e.number (simp yes_dir at h)
  | inr other ↦ absurd (ground (arith, simp other at h))
]

search_entries-parses :
    (o : Proc) (kernel_pid : ℕ) (es : List Entry)
    → search_entries o kernel_pid es ≢ 0
    → parse_nstgid o (search_entries o kernel_pid es) ≡ some kernel_pid
unfolding search_entries
search_entries-parses o k [] h = absurd (h refl)
search_entries-parses o k (e ∷ es) h =
    step (entry_pid o k e) (λ pid found. entry_pid-parses o k pid e found)
      (search_entries-parses o k es) h
  where
    chosen : Option ℕ → ℕ
    chosen q = elim q [ none ↦ search_entries o k es | some pid ↦ pid ]

    step :
        (q : Option ℕ)
        → ((pid : ℕ) → q ≡ some pid → parse_nstgid o pid ≡ some k)
        → (search_entries o k es ≢ 0 → parse_nstgid o (search_entries o k es) ≡ some k)
        → chosen q ≢ 0
        → parse_nstgid o (chosen q) ≡ some k
    step none here later nonzero = later nonzero
    step (some pid) here later nonzero = here pid refl

-- A pid that is found in the namespace for a pid of the kernel translates back to it, where the kernel's
-- pid has no maps of its own in /proc.
pub to_kernel_pid-to_ns_pid :
    (o : Proc) (kernel_pid : ℕ)
    → o.has_maps kernel_pid ≡ false
    → to_ns_pid o kernel_pid ≢ 0
    → to_kernel_pid o (to_ns_pid o kernel_pid) ≡ kernel_pid
unfolding to_kernel_pid to_ns_pid
to_kernel_pid-to_ns_pid o k away h =
    let searched : to_ns_pid o k ≡ search_entries o k o.entries = rw away refl in
    rw (searched, search_entries-parses o k o.entries (λ z. h (searched ∙ z))) (ground arith)

abbrev pub AllDigits : List ℕ → Type 0
AllDigits [] = Unit {0}
AllDigits (c ∷ cs) = (is_digit c ≡ true) × AllDigits cs

-- The characters of a number.
abbrev pub IsNumber : List ℕ → Type 0
IsNumber [] = ⊥
IsNumber (c ∷ cs) = (is_digit c ≡ true) × AllDigits cs

-- A line of numbers, each behind a tab.
abbrev pub tabbed : List (List ℕ) → List ℕ
tabbed [] = []
tabbed (n ∷ ns) = 9 ∷ n ++ tabbed ns

count_numbers-digits :
    (count : ℕ) (cs rest : List ℕ)
    → AllDigits cs
    → count_numbers true count (cs ++ rest) ≡ count_numbers true count rest
unfolding count_numbers
count_numbers-digits count [] rest h = refl
count_numbers-digits count (c ∷ cs) rest h = rw h.0 (count_numbers-digits count cs rest h.1)

count_numbers-tabbed :
    (count : ℕ) (inside : Bool) (ns : List (List ℕ))
    → All IsNumber ns
    → count_numbers inside count (tabbed ns) ≡ count + length ns
unfolding count_numbers
count_numbers-tabbed count inside [] h = omega arith
count_numbers-tabbed count inside ([] ∷ ns) h = absurd h.0
count_numbers-tabbed count inside ((c ∷ cs) ∷ ns) h =
    rw (h.0.0, count_numbers-digits (count + 1) cs (tabbed ns) h.0.1)
      (omega (arith, count_numbers-tabbed (count + 1) true ns h.1))

abbrev pub HasNoTag : List ℕ → Type 0
HasNoTag line = is_nstgid line ≡ false

-- For a status file with a line of the tag and any numbers behind tabs, has_pid_namespace tells whether
-- these are more than one, whatever other lines there are.
pub has_pid_namespace-tabbed :
    (o : Proc) (before after : List (List ℕ)) (ns : List (List ℕ))
    → o.self_status ≡ some (before ++ (codes "NStgid:" ++ tabbed ns) ∷ after)
    → All HasNoTag before
    → All IsNumber ns
    → has_pid_namespace o ≡ ltb 1 (length ns)
unfolding has_pid_namespace
has_pid_namespace-tabbed o before after ns found none_before h = rw found (skip before none_before)
  where
    skip :
        (front : List (List ℕ))
        → All HasNoTag front
        → namespaced (front ++ (codes "NStgid:" ++ tabbed ns) ∷ after) ≡ ltb 1 (length ns)
    skip [] k =
        let counted : count_numbers false 0 (tabbed ns) ≡ length ns =
          omega (arith, count_numbers-tabbed 0 false ns h) in
        rw counted refl
    skip (line ∷ lines) k = rw k.0 (skip lines k.1)
