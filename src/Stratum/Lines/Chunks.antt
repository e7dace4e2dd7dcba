-- ===== src/Stratum/Lines/Chunks.antt =====
-- About LineBuffer of src/stratum/message.cpp, over reads that cut the stream.
use bitcoin_miner.Base.{
  ℕ, zero, suc, ◌-◌, ◌≤◌, ◌<◌, true, false, List, [], ◌∷◌, ◌++◌, none, some, ◌≡◌, refl, sym, ap,
  ◌∙◌, subst, arith, Bool-cases, inl, inr, Option-cases, some_inj, ltb-false, ◌==◌, length,
  length-append,
}
use mathlib.Core.List.{append_assoc}
use bitcoin_miner.Stratum.Lines.{
  LineBuffer, max_line_length, has_newline, split_line, append, strip_cr, next_line, drain_loop,
  drain,
}

abbrev Split : Type 0
Split = List ℕ × List ℕ

split_line-newline : (c : ℕ) (cs : List ℕ) → (c == 10) ≡ true → split_line (c ∷ cs) ≡ some ([], cs)
unfolding split_line
split_line-newline c cs nl = rw nl refl

split_line-other :
    (c : ℕ) (cs : List ℕ) {s : Split}
    → (c == 10) ≡ false
    → split_line cs ≡ some s
    → split_line (c ∷ cs) ≡ some (c ∷ s.0, s.1)
unfolding split_line
split_line-other c cs other found = rw (other, found) refl

split_line-none :
    (c : ℕ) (cs : List ℕ) → (c == 10) ≡ false → split_line cs ≡ none → split_line (c ∷ cs) ≡ none
unfolding split_line
split_line-none c cs other gone = rw (other, gone) refl

none-some : {A : Type 0} {a : A} → none ≡ some a → ⊥
none-some e = cc

empty-split : {s : Split} → split_line [] ≡ some s → ⊥
unfolding split_line
empty-split e = cc

next_line-none : (lines : LineBuffer) → split_line lines.buffer ≡ none → next_line lines ≡ none
unfolding next_line
next_line-none lines gone = rw (next_line, gone) refl

next_line-some :
    (lines : LineBuffer) {s : Split}
    → split_line lines.buffer ≡ some s
    → next_line lines ≡ some (strip_cr s.0, record lines { buffer = s.1 })
unfolding next_line
next_line-some lines found = rw (next_line, found) refl

-- Without a newline the loop ends, and with one it takes the line.
pub drain_loop-none :
    (n : ℕ) (lines : LineBuffer) → split_line lines.buffer ≡ none → drain_loop n lines ≡ ([], lines)
unfolding drain_loop
drain_loop-none zero lines gone = refl
drain_loop-none (suc n) lines gone = rw (drain_loop, next_line-none lines gone) refl

pub drain_loop-line :
    (n : ℕ) (lines : LineBuffer) {s : Split}
    → split_line lines.buffer ≡ some s
    → drain_loop (suc n) lines
      ≡ (let rest = drain_loop n (record lines { buffer = s.1 }) in (strip_cr s.0 ∷ rest.0, rest.1))
unfolding drain_loop
drain_loop-line n lines found = rw (drain_loop, next_line-some lines found) refl

-- What follows a line is shorter, and more bytes after it change nothing before it.
abbrev Stays : List ℕ → List ℕ → Split → Type 0
Stays xs ys s = (split_line (xs ++ ys) ≡ some (s.0, s.1 ++ ys)) × (length s.1 < length xs)

split_line-append : (xs ys : List ℕ) (s : Split) → split_line xs ≡ some s → Stays xs ys s
split_line-append [] ys s e = absurd (empty-split e)
split_line-append (c ∷ cs) ys s e = elim (Bool-cases (c == 10)) [
  | inl nl ↦
      subst (Stays (c ∷ cs) ys) (some_inj (sym (split_line-newline c cs nl) ∙ e))
        (split_line-newline c (cs ++ ys) nl, omega arith)
  | inr other ↦ elim (Option-cases (split_line cs)) [
    | inl gone ↦ absurd (none-some (sym (split_line-none c cs other gone) ∙ e))
    | inr (t, found) ↦
        let (longer, shorter) = split_line-append cs ys t found in
        subst (Stays (c ∷ cs) ys) (some_inj (sym (split_line-other c cs other found) ∙ e))
          (split_line-other c (cs ++ ys) other longer, omega (arith, shorter))
  ]
]

nothing : (xs : List ℕ) → length xs ≤ 0 → split_line xs ≡ none
unfolding split_line
nothing [] h = refl
nothing (x ∷ xs) h = absurd (omega arith)

-- With enough fuel, more makes no difference.
drain_loop-fuel :
    (n m : ℕ) (lines : LineBuffer)
    → length lines.buffer ≤ n
    → length lines.buffer ≤ m
    → drain_loop n lines ≡ drain_loop m lines
drain_loop-fuel zero m lines hn hm =
    let gone : split_line lines.buffer ≡ none = nothing lines.buffer hn in
    drain_loop-none zero lines gone ∙ sym (drain_loop-none m lines gone)
drain_loop-fuel (suc n) zero lines hn hm =
    let gone : split_line lines.buffer ≡ none = nothing lines.buffer hm in
    drain_loop-none (suc n) lines gone ∙ sym (drain_loop-none zero lines gone)
drain_loop-fuel (suc n) (suc m) lines hn hm = elim (Option-cases (split_line lines.buffer)) [
  | inl gone ↦ drain_loop-none (suc n) lines gone ∙ sym (drain_loop-none (suc m) lines gone)
  | inr (s, found) ↦
      let shorter : length s.1 < length lines.buffer =
        (split_line-append lines.buffer [] s found).1 in
      let rest =
        drain_loop-fuel n m (record lines { buffer = s.1 }) (omega (arith, shorter, hn))
          (omega (arith, shorter, hm)) in
      drain_loop-line n lines found
      ∙ ap (λ r. (strip_cr s.0 ∷ r.0, r.1)) rest
      ∙ sym (drain_loop-line m lines found)
]

-- Draining, receiving more and draining again, with enough fuel each time.
drain_loop-append :
    (n k m : ℕ) (lines : LineBuffer) (ys : List ℕ)
    → length lines.buffer ≤ n
    → length (lines.buffer ++ ys) ≤ k
    → length (lines.buffer ++ ys) ≤ m
    → (let first = drain_loop n lines in
        let second = drain_loop k (record first.1 { buffer = first.1.buffer ++ ys }) in
        (first.0 ++ second.0, second.1))
      ≡ drain_loop m (record lines { buffer = lines.buffer ++ ys })
drain_loop-append zero k m lines ys hn hk hm =
    rw (drain_loop-none zero lines (nothing lines.buffer hn))
      (drain_loop-fuel k m (record lines { buffer = lines.buffer ++ ys }) hk hm)
drain_loop-append (suc n) k m lines ys hn hk hm = elim (Option-cases (split_line lines.buffer)) [
  | inl gone ↦
      rw (drain_loop-none (suc n) lines gone)
        (drain_loop-fuel k m (record lines { buffer = lines.buffer ++ ys }) hk hm)
  | inr (s, found) ↦
      let (longer, _) = split_line-append lines.buffer ys s found in
      let (_, shorter) = split_line-append lines.buffer [] s found in
      let some_fuel : suc (m - 1) ≡ m = omega (arith, hm, shorter, length-append lines.buffer ys) in
      let rest =
        drain_loop-append n k (m - 1) (record lines { buffer = s.1 }) ys
          (omega (arith, shorter, hn))
          (omega (arith, shorter, hk, length-append lines.buffer ys, length-append s.1 ys))
          (omega (arith, shorter, hm, length-append lines.buffer ys, length-append s.1 ys)) in
      rw (drain_loop-line n lines found) (
        ap (λ r. (strip_cr s.0 ∷ r.0, r.1)) rest
        ∙ sym (drain_loop-line (m - 1) (record lines { buffer = lines.buffer ++ ys }) longer)
        ∙ ap (λ (t : ℕ). drain_loop t (record lines { buffer = lines.buffer ++ ys })) some_fuel)
]

drain_loop-keeps :
    (n : ℕ) (lines : LineBuffer)
    → length lines.buffer ≤ n
    → ((drain_loop n lines).1.overflowed ≡ lines.overflowed)
      × (length (drain_loop n lines).1.buffer ≤ length lines.buffer)
      × (split_line (drain_loop n lines).1.buffer ≡ none)
drain_loop-keeps zero lines h =
    let gone : split_line lines.buffer ≡ none = nothing lines.buffer h in
    rw (drain_loop-none zero lines gone) (refl, omega arith, gone)
drain_loop-keeps (suc n) lines h = elim (Option-cases (split_line lines.buffer)) [
  | inl gone ↦ rw (drain_loop-none (suc n) lines gone) (refl, omega arith, gone)
  | inr (s, found) ↦
      let (_, shorter) = split_line-append lines.buffer [] s found in
      let (flag, less, done) =
        drain_loop-keeps n (record lines { buffer = s.1 }) (omega (arith, shorter, h)) in
      rw (drain_loop-line n lines found) (flag, omega (arith, less, shorter), done)
]

append-small :
    (lines : LineBuffer) (bytes : List ℕ)
    → lines.overflowed ≡ false
    → length (lines.buffer ++ bytes) ≤ max_line_length
    → append lines bytes ≡ record lines { buffer = lines.buffer ++ bytes }
unfolding append
append-small lines bytes open_still fits =
    rw (open_still, ltb-false max_line_length (length (lines.buffer ++ bytes)) fits) refl

-- After the lines of a buffer are taken, what is left in it holds no newline.
pub drain-rest : (lines : LineBuffer) → has_newline (drain lines).1.buffer ≡ false
unfolding drain
drain-rest lines =
    let (_, _, done) = drain_loop-keeps (length lines.buffer) lines (omega arith) in
    ap (λ o. elim o [ none ↦ false | some s ↦ true ]) done

-- For a line buffer that has not overflowed and two reads that fit into it together, receiving the
-- first, taking its lines, receiving the second and taking its lines gives the same lines in the
-- same order, and leaves the same buffer, as receiving both at once.
pub drain-append :
    (lines : LineBuffer) (xs ys : List ℕ)
    → lines.overflowed ≡ false
    → length (lines.buffer ++ (xs ++ ys)) ≤ max_line_length
    → (let first = drain (append lines xs) in
        let second = drain (append first.1 ys) in (first.0 ++ second.0, second.1))
      ≡ drain (append lines (xs ++ ys))
unfolding drain
drain-append lines xs ys open_still fits =
    let joined : LineBuffer = record lines { buffer = lines.buffer ++ xs } in
    let whole : ℕ = length (joined.buffer ++ ys) in
    let assoc : joined.buffer ++ ys ≡ lines.buffer ++ (xs ++ ys) =
      append_assoc lines.buffer xs ys in
    let size : whole ≤ max_line_length = omega (arith, ap length assoc, fits) in
    let small : length joined.buffer ≤ max_line_length =
      omega (arith, size, length-append joined.buffer ys) in
    let first = drain_loop (length joined.buffer) joined in
    let (flag, less, _) = drain_loop-keeps (length joined.buffer) joined (omega arith) in
    let grown : LineBuffer = record first.1 { buffer = first.1.buffer ++ ys } in
    let grown_size : length grown.buffer ≤ whole =
      omega (arith, less, length-append joined.buffer ys, length-append first.1.buffer ys) in
    let second : append first.1 ys ≡ grown =
      append-small first.1 ys (flag ∙ open_still) (omega (arith, grown_size, size)) in
    let fuel : drain_loop (length grown.buffer) grown ≡ drain_loop whole grown =
      drain_loop-fuel (length grown.buffer) whole grown (omega arith) grown_size in
    rw
      (
        append-small lines xs open_still small,
        second,
        fuel,
        append-small lines (xs ++ ys) open_still fits,
        ← assoc,
      )
      (drain_loop-append (length joined.buffer) whole whole joined ys (omega arith) (omega arith)
        (omega arith))
