-- ===== src/Mining/Statistics/Window.antt =====
-- About the samples of src/mining/stats.cpp: what pruning leaves of the rates.
use bitcoin_miner.Base.{
  ℕ, ◌≤◌, true, false, List, [], ◌∷◌, ◌++◌, ◌≡◌, refl, sym, ap, ◌∙◌, arith, inl, inr, Bool-cases,
  lt→ltb, ltb→lt, ◌==◌, if◌then◌else◌,
}
use mathlib.Core.List.{append_assoc, append-nil}
use bitcoin_miner.Mining.Statistics.{
  Sample, Statistics, is_old, prune_samples, count_sample, window_loop, hashrate_over_window,
  add_hashes,
}

old-still :
    (now later window : ℕ) (s : Sample)
    → now ≤ later
    → window ≤ 70000
    → is_old now 70000 s ≡ true
    → is_old later window s ≡ true
old-still now later window s h w e = lt→ltb _ _ (omega (arith, ltb→lt _ _ e))

-- Samples that are pruned are outside every window of a later time.
window_loop-prune_samples :
    (now later window : ℕ) (xs : List Sample) (acc : ℕ × ℕ)
    → now ≤ later
    → window ≤ 70000
    → window_loop later window (prune_samples now xs) acc ≡ window_loop later window xs acc
window_loop-prune_samples now later window [] acc h w = unfold prune_samples in refl
window_loop-prune_samples now later window (s ∷ rest) acc h w =
    elim (Bool-cases (is_old now 70000 s)) [
      | inl old ↦
          ap (λ t. window_loop later window t acc) (pruned old)
          ∙ window_loop-prune_samples now later window rest acc h w
          ∙ sym (skipped (old-still now later window s h w old))
      | inr young ↦ ap (λ t. window_loop later window t acc) (kept young)
    ]
  where
    pruned : is_old now 70000 s ≡ true → prune_samples now (s ∷ rest) ≡ prune_samples now rest
    pruned e = unfold prune_samples in rw e refl

    kept : is_old now 70000 s ≡ false → prune_samples now (s ∷ rest) ≡ s ∷ rest
    kept e = unfold prune_samples in rw e refl

    skipped :
        is_old later window s ≡ true
        → window_loop later window (s ∷ rest) acc ≡ window_loop later window rest acc
    skipped e =
        unfold window_loop in ap (window_loop later window rest) (unfold count_sample in rw e refl)

window_loop-append :
    (now window : ℕ) (xs ys : List Sample) (acc : ℕ × ℕ)
    → window_loop now window (xs ++ ys) acc
      ≡ window_loop now window ys (window_loop now window xs acc)
unfolding window_loop
window_loop-append now window [] ys acc = refl
window_loop-append now window (s ∷ rest) ys acc =
    window_loop-append now window rest ys (count_sample now window s acc)

-- The calls of `addHashes`, in order, and the samples that they are.
abbrev pub add_all : {D : Type 0} → List Sample → Statistics D → Statistics D
add_all [] s = s
add_all (a ∷ rest) s = add_all rest (add_hashes a.time a.hashes s)

abbrev pub history : List Sample → List Sample
history [] = []
history (a ∷ rest) = if a.hashes == 0 then history rest else a ∷ history rest

-- The clock does not go back between the calls, from the first time to the last.
abbrev pub IsOrdered : ℕ → List Sample → ℕ → Type 0
IsOrdered from [] until = from ≤ until
IsOrdered from (a ∷ rest) until = (from ≤ a.time) × IsOrdered a.time rest until

IsOrdered-le :
    (from : ℕ) (adds : List Sample) (until : ℕ) → IsOrdered from adds until → from ≤ until
IsOrdered-le from [] until h = h
IsOrdered-le from (a ∷ rest) until h = omega (arith, h.0, IsOrdered-le a.time rest until h.1)

add_hashes-none :
    {D : Type 0} (a : Sample) (s : Statistics D)
    → (a.hashes == 0) ≡ true
    → add_hashes a.time a.hashes s ≡ s
unfolding add_hashes
add_hashes-none a s e = rw e refl

add_hashes-samples :
    {D : Type 0} (a : Sample) (s : Statistics D)
    → (a.hashes == 0) ≡ false
    → (add_hashes a.time a.hashes s).samples ≡ prune_samples a.time (s.samples ++ a ∷ [])
unfolding add_hashes
add_hashes-samples a s e = rw e refl

add_all-window_loop :
    {D : Type 0} (adds : List Sample) (from until window : ℕ) (s : Statistics D) (acc : ℕ × ℕ)
    → IsOrdered from adds until
    → window ≤ 70000
    → window_loop until window (add_all adds s).samples acc
      ≡ window_loop until window (s.samples ++ history adds) acc
add_all-window_loop [] from until window s acc h w =
    ap (λ (t : List Sample). window_loop until window t acc) (sym (append-nil s.samples))
add_all-window_loop (a ∷ rest) from until window s acc h w = elim (Bool-cases (a.hashes == 0)) [
  | inl nothing ↦
      ap (λ t. window_loop until window (add_all rest t).samples acc) (add_hashes-none a s nothing)
      ∙ add_all-window_loop rest a.time until window s acc h.1 w
      ∙ ap (λ (t : List Sample). window_loop until window (s.samples ++ t) acc)
          (sym (skipped nothing))
  | inr something ↦
      let next = add_hashes a.time a.hashes s in
      let later = IsOrdered-le a.time rest until h.1 in
      add_all-window_loop rest a.time until window next acc h.1 w
      ∙ window_loop-append until window next.samples (history rest) acc
      ∙ ap (window_loop until window (history rest)) (
          ap (λ (t : List Sample). window_loop until window t acc)
            (add_hashes-samples a s something)
          ∙ window_loop-prune_samples a.time until window (s.samples ++ a ∷ []) acc later w)
      ∙ sym (window_loop-append until window (s.samples ++ a ∷ []) (history rest) acc)
      ∙ ap (λ (t : List Sample). window_loop until window t acc)
          (append_assoc s.samples (a ∷ []) (history rest)
            ∙ ap (λ (t : List Sample). s.samples ++ t) (sym (counted something)))
]
  where
    skipped : (a.hashes == 0) ≡ true → history (a ∷ rest) ≡ history rest
    skipped e = rw e refl

    counted : (a.hashes == 0) ≡ false → history (a ∷ rest) ≡ a ∷ history rest
    counted e = rw e refl

-- For calls of addHashes at times that do not go back, the rate over a window of 70 s or less at a
-- time after them is the rate over the samples of before and those of all the calls, none of them
-- pruned.
pub hashrate_over_window-add_all :
    {D : Type 0} (adds : List Sample) (from until window : ℕ) (s : Statistics D)
    → IsOrdered from adds until
    → window ≤ 70000
    → hashrate_over_window until window (add_all adds s).samples
      ≡ hashrate_over_window until window (s.samples ++ history adds)
unfolding hashrate_over_window
hashrate_over_window-add_all adds from until window s h w =
    rw (add_all-window_loop adds from until window s (0, until) h w) refl
