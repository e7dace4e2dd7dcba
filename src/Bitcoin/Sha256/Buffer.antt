-- ===== src/Bitcoin/Sha256/Buffer.antt =====
-- About the writes into `buffer_` of src/bitcoin/sha256.cpp, and blocks of 64 bytes.
use bitcoin_miner.Base.{
  ℕ, ◌+◌, ◌≤◌, List, [], ◌∷◌, ◌++◌, ◌≡◌, refl, arith, length, take, drop, All, length-append,
  length-take, length-drop, take-length_append,
}
use mathlib.Core.List.{append_assoc}
use bitcoin_miner.Bitcoin.Sha256.{State, transform, write_at}

module _ (off : ℕ) (src dst : List ℕ) (fits : off + length src ≤ length dst) where
  pub length-write_at : length (write_at off src dst) ≡ length dst
  length-write_at = omega (
    arith,
    length-append (take off dst) (src ++ drop (off + length src) dst),
    length-append src (drop (off + length src) dst),
    length-take off dst,
    length-drop (off + length src) dst,
  )

  -- The part of the buffer up to the end of what was written.
  pub take-write_at :
      (k : ℕ) → k ≡ off + length src → take k (write_at off src dst) ≡ take off dst ++ src
  take-write_at k e =
      let size : k ≡ length (take off dst ++ src) =
        omega (arith, length-append (take off dst) src, length-take off dst) in
      rw (size, ← append_assoc (take off dst) src (drop (off + length src) dst))
        (take-length_append (take off dst ++ src) (drop (off + length src) dst))

abbrev pub concat : List (List ℕ) → List ℕ
concat [] = []
concat (b ∷ bs) = b ++ concat bs

abbrev pub IsWhole : List (List ℕ) → Type 0
IsWhole = All λ b. length b ≡ 64

pub concat-append : (xs ys : List (List ℕ)) → concat (xs ++ ys) ≡ concat xs ++ concat ys
concat-append [] ys = refl
concat-append (x ∷ xs) ys = simp (concat-append xs ys, append_assoc)

-- The chaining of the hash over the blocks of a message.
abbrev pub absorb : State → List (List ℕ) → State
absorb s [] = s
absorb s (b ∷ bs) = absorb (transform s b) bs

pub absorb-append :
    (s : State) (xs ys : List (List ℕ)) → absorb s (xs ++ ys) ≡ absorb (absorb s xs) ys
absorb-append s [] ys = refl
absorb-append s (x ∷ xs) ys = absorb-append (transform s x) xs ys
