-- ===== src/Bitcoin/Sha256/Chunks.antt =====
-- About calls of `SHA256::update` of src/bitcoin/sha256.cpp on the pieces of a message.
use bitcoin_miner.Base.{
  ℕ, ◌+◌, ◌*◌, ◌%◌, ◌^◌, List, [], ◌∷◌, ◌++◌, ◌≡◌, refl, ap, ap₂, sym, subst, ◌∙◌, arith, length,
  take, drop, replicate, length-append, length-replicate, take-length_append, drop-length_append,
}
use mathlib.Core.List.{append_assoc, append-nil}
use bitcoin_miner.Bitcoin.Sha256.{
  Sha256, initial_state, reset, write_be64, digest, finalize, update, sha256,
}
use bitcoin_miner.Bitcoin.Sha256.Buffer.{concat, IsWhole, absorb}
use bitcoin_miner.Bitcoin.Sha256.Stream.{Absorbed, reset-Absorbed, update-Absorbed}
use bitcoin_miner.Bitcoin.Sha256.Padding.{
  IsDigest, padded, length-write_be64, finalize-IsDigest, sha256-IsDigest,
}

length-concat : (bs : List (List ℕ)) → IsWhole bs → length (concat bs) ≡ 64 * length bs
length-concat [] h = refl
length-concat (b ∷ bs) h = omega (arith, length-append b (concat bs), h.0, length-concat bs h.1)

-- Whole blocks can be read back from their message.
concat_inj : (xs ys : List (List ℕ)) → IsWhole xs → IsWhole ys → concat xs ≡ concat ys → xs ≡ ys
concat_inj [] [] hx hy e = refl
concat_inj [] (y ∷ ys) hx hy e =
    absurd (omega (arith, ap length e, length-append y (concat ys), hy.0))
concat_inj (x ∷ xs) [] hx hy e =
    absurd (omega (arith, ap length e, length-append x (concat xs), hx.0))
concat_inj (x ∷ xs) (y ∷ ys) hx hy e =
    let same : length x ≡ length y = hx.0 ∙ sym hy.0 in
    let heads : x ≡ y =
      sym (take-length_append x (concat xs)) ∙ ap₂ take same e ∙ take-length_append y (concat ys) in
    let tails : concat xs ≡ concat ys =
      sym (drop-length_append x (concat xs)) ∙ ap₂ drop same e ∙ drop-length_append y (concat ys) in
    ap₂ ◌∷◌ heads (concat_inj xs ys hx.1 hy.1 tails)

length-padded : (m : List ℕ) (z : ℕ) → length (padded m z) ≡ length m + z + 9
length-padded m z = omega (
  arith,
  length-append m (0x80 ∷ (replicate z 0 ++ write_be64 (length m * 8 % 2 ^ 64))),
  length-append (replicate z 0) (write_be64 (length m * 8 % 2 ^ 64)),
  length-replicate {A = ℕ} z 0,
  length-write_be64 (length m * 8 % 2 ^ 64),
)

-- The standard leaves no choice: one message has one digest.
pub IsDigest-unique : {m out out' : List ℕ} → IsDigest m out → IsDigest m out' → out ≡ out'
IsDigest-unique {m} p q =
    let zeros_p = ap length p.message ∙ length-padded m p.zeros in
    let zeros_q = ap length q.message ∙ length-padded m q.zeros in
    let same : p.zeros ≡ q.zeros = omega (
      arith,
      zeros_p,
      zeros_q,
      length-concat p.blocks p.whole,
      length-concat q.blocks q.whole,
      p.fewest,
      q.fewest,
    ) in
    let blocks : p.blocks ≡ q.blocks =
      concat_inj p.blocks q.blocks p.whole q.whole
        (p.message ∙ ap (padded m) same ∙ sym q.message) in
    p.out_is ∙ ap (λ bs. digest (absorb initial_state bs)) blocks ∙ sym q.out_is

-- The calls of `update` on the pieces of a message.
abbrev pub updates : Sha256 → List (List ℕ) → Sha256
updates ctx [] = ctx
updates ctx (p ∷ ps) = updates (update ctx p) ps

updates-Absorbed :
    (ps : List (List ℕ)) (m : List ℕ) (ctx : Sha256)
    → Absorbed m ctx
    → Absorbed (m ++ concat ps) (updates ctx ps)
updates-Absorbed [] m ctx inv = rw append-nil inv
updates-Absorbed (p ∷ ps) m ctx inv =
    subst (λ t. Absorbed t (updates (update ctx p) ps)) (append_assoc m p (concat ps))
      (updates-Absorbed ps (m ++ p) (update ctx p) (update-Absorbed ctx m p inv))

-- For every list of pieces, feeding them to the hash one after the other gives the same digest as
-- hashing their concatenation at once.
pub finalize-updates : (ps : List (List ℕ)) → finalize (updates reset ps) ≡ sha256 (concat ps)
finalize-updates ps =
    IsDigest-unique
      (finalize-IsDigest (concat ps) (updates reset ps)
        (updates-Absorbed ps [] reset reset-Absorbed))
      (sha256-IsDigest (concat ps))
