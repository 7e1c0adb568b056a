-- ===== src/Exporters/Prometheus/Samples.antt =====
-- A sample line read back.
use kernel_scope.Prelude.{
  ℕ, zero, suc, ◌+◌, ◌/◌, ◌%◌, ◌≡◌, ◌≢◌, refl, arith, ◌==◌, ltb, if◌then◌else◌, Bool-cases, false,
  List, [], ◌∷◌, ◌++◌, append_assoc, Option, none, some, inl, inr, All, All-append, ap, ◌∙◌, sym,
}
use kernel_scope.Decoder.Syscalls.{codes, to_string, decimal}
use kernel_scope.Aggregator.Stats.{ProcessStats}
use kernel_scope.Exporters.Prometheus.{
  backslash, quote, new_line, letter_n, escape_char, escape_label, process_labels,
}

-- What the text format says of a label's value: it ends at a quotation mark, and a backslash stands in
-- front of a backslash, a quotation mark, or an n for the new line.
abbrev pub unescaped : ℕ → ℕ
unescaped c = if c == letter_n then new_line else c

abbrev pub in_front : ℕ → Option (List ℕ × List ℕ) → Option (List ℕ × List ℕ)
in_front c none = none
in_front c (some (value, rest)) = some (c ∷ value, rest)

unfoldable pub read_value : List ℕ → Option (List ℕ × List ℕ)
read_value [] = none
read_value (c ∷ []) = if c == quote then some ([], []) else none
read_value (c ∷ d ∷ rest) =
    let escaped = read_value rest in
    let plain = read_value (d ∷ rest) in
    if c == quote
    then some ([], d ∷ rest)
    else if c == backslash
    then in_front (unescaped d) escaped
    else in_front c plain

-- A given text in front.
abbrev pub read_text : List ℕ → List ℕ → Option (List ℕ)
read_text [] cs = some cs
read_text (t ∷ ts) [] = none
read_text (t ∷ ts) (c ∷ cs) = if t == c then read_text ts cs else none

read_text-append : (ts cs : List ℕ) → read_text ts (ts ++ cs) ≡ some cs
read_text-append [] cs = refl
read_text-append (t ∷ ts) cs = ground (arith, read_text-append ts cs)

read_value-quote : (rest : List ℕ) → read_value (quote ∷ rest) ≡ some ([], rest)
unfolding read_value
read_value-quote [] = refl
read_value-quote (d ∷ rest) = refl

read_value-plain :
    (c : ℕ) (rest : List ℕ)
    → (c == quote) ≡ false
    → (c == backslash) ≡ false
    → rest ≢ []
    → read_value (c ∷ rest) ≡ in_front c (read_value rest)
unfolding read_value
read_value-plain c [] q b h = absurd (h refl)
read_value-plain c (d ∷ rest) q b h = rw (q, b) refl

ends_behind : (cs rest : List ℕ) → (cs ++ quote ∷ rest) ≢ []
ends_behind [] rest e = absurd (ground (arith, e))
ends_behind (c ∷ cs) rest e = absurd (ground (arith, e))

-- A label's value that is escaped and closed reads back, whatever bytes it holds.
read_value-escape_label :
    (cs rest : List ℕ) → read_value (escape_label cs ++ quote ∷ rest) ≡ some (cs, rest)
unfolding escape_label escape_char read_value
read_value-escape_label [] rest = read_value-quote rest
read_value-escape_label (c ∷ cs) rest =
    let back = read_value-escape_label cs rest in
    elim (Bool-cases (c == backslash)) [
      | inl is_backslash ↦ let same : c ≡ backslash = ground arith in rw same (rw back refl)
      | inr no_backslash ↦ elim (Bool-cases (c == quote)) [
        | inl is_quote ↦ let same : c ≡ quote = ground arith in rw same (rw back refl)
        | inr no_quote ↦ elim (Bool-cases (c == new_line)) [
          | inl is_new_line ↦ let same : c ≡ new_line = ground arith in rw same (rw back refl)
          | inr no_new_line ↦
              rw (no_backslash, no_quote, no_new_line)
                (read_value-plain c (escape_label cs ++ quote ∷ rest) no_quote no_backslash
                    (ends_behind (escape_label cs) rest)
                  ∙ ap (in_front c) back)
        ]
      ]
    ]

IsPlain : ℕ → Type 0
IsPlain c = ((c == backslash) ≡ false) × ((c == quote) ≡ false) × ((c == new_line) ≡ false)

escape_label-plain : (cs : List ℕ) → All IsPlain cs → escape_label cs ≡ cs
unfolding escape_label escape_char IsPlain
escape_label-plain [] h = refl
escape_label-plain (c ∷ cs) h = rw (h.0.0, h.0.1, h.0.2) (ap (◌∷◌ c) (escape_label-plain cs h.1))

decimal-IsPlain : (fuel n : ℕ) → All IsPlain (decimal fuel n)
unfolding decimal IsPlain
decimal-IsPlain zero n = tt
decimal-IsPlain (suc fuel) n = elim (Bool-cases (ltb n 10)) [
  | inl small ↦ rw small ((ground arith, ground arith, ground arith), tt)
  | inr more ↦ rw more (
      All-append IsPlain (decimal fuel (n / 10)) ((0x30 + n % 10) ∷ [])
        (decimal-IsPlain fuel (n / 10)) ((ground arith, ground arith, ground arith), tt))
]

read_value-to_string :
    (n : ℕ) (rest : List ℕ) → read_value (to_string n ++ quote ∷ rest) ≡ some (to_string n, rest)
unfolding to_string
read_value-to_string n rest =
    ap (λ cs. read_value (cs ++ quote ∷ rest)) (sym (escape_label-plain _ (decimal-IsPlain 20 n)))
    ∙ read_value-escape_label (decimal 20 n) rest

-- What is read goes on with the next reading.
abbrev and_read : {A B : Type 0} → Option A → (A → Option B) → Option B
and_read none next = none
and_read (some a) next = next a

-- The labels of a sample, and what stands behind them.
abbrev pub read_labels : List ℕ → Option (List ℕ × List ℕ × List ℕ)
read_labels cs = and_read (read_text (codes "{pid=" ++ quote ∷ []) cs) (λ first.
    and_read (read_value first) (λ (pr : List ℕ × List ℕ).
      and_read (read_text (codes ",comm=" ++ quote ∷ []) pr.1) (λ second.
        and_read (read_value second) (λ (cr : List ℕ × List ℕ).
          and_read (read_text (codes "} ") cr.1) (λ rest. some (pr.0, cr.0, rest))))))

-- The labels that are written for a process read back as its pid and its name, whatever bytes the name
-- holds, and what stands behind them is left to read.
pub read_labels-process_labels :
    (p : ProcessStats) (rest : List ℕ)
    → read_labels (process_labels p ++ rest) ≡ some (to_string p.pid, p.comm, rest)
unfolding process_labels
read_labels-process_labels p rest =
    simp (append_assoc, read_value-to_string, read_value-escape_label)
