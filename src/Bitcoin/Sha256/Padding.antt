-- ===== src/Bitcoin/Sha256/Padding.antt =====
-- About `SHA256::finalize` of src/bitcoin/sha256.cpp, with the padding of FIPS 180-4.
use bitcoin_miner.Base.{
  ℕ, zero, suc, ◌+◌, ◌-◌, ◌*◌, ◌%◌, ◌^◌, ◌≤◌, ◌<◌, List, [], ◌∷◌, ◌++◌, ◌≡◌, refl, ap, ap₂, sym,
  ◌∙◌, arith, inl, inr, Bool-cases, ltb, ltb→lt, length, take, All-append, replicate, take-all,
  length-replicate,
}
use native.Mathlib.Nat.{zero-add, suc-add}
use mathlib.Core.List.{append_assoc, append-nil}
use bitcoin_miner.Bitcoin.Sha256.{
  State, Sha256, initial_state, reset, transform, write_at, write_be64, finish, digest, finalize,
  update, sha256,
}
use bitcoin_miner.Bitcoin.Sha256.Buffer.{
  length-write_at, take-write_at, concat, IsWhole, concat-append, absorb, absorb-append,
}
use bitcoin_miner.Bitcoin.Sha256.Stream.{Absorbed, reset-Absorbed, update-Absorbed}

-- The message with its padding: z zeros, fewer than a block of them.
abbrev pub padded : List ℕ → ℕ → List ℕ
padded m z = m ++ (0x80 ∷ (replicate z 0 ++ write_be64 (length m * 8 % 2 ^ 64)))

pub record IsDigest (m out : List ℕ) : Type 0 where
  pub blocks : List (List ℕ)
  pub zeros : ℕ
  pub fewest : zeros < 64
  pub whole : IsWhole blocks
  pub message : concat blocks ≡ padded m zeros
  pub out_is : out ≡ digest (absorb initial_state blocks)

pub length-write_be64 : (v : ℕ) → length (write_be64 v) ≡ 8
unfolding write_be64
length-write_be64 v = refl

-- A buffer that a run of writes has filled to its end.
write_on :
    (off : ℕ) (src dst sofar : List ℕ)
    → length dst ≡ 64
    → off + length src ≤ 64
    → take off dst ≡ sofar
    → (k : ℕ) → k ≡ off + length src
    → (take k (write_at off src dst) ≡ sofar ++ src) × (length (write_at off src dst) ≡ 64)
write_on off src dst sofar size fits e k k_is = (
  take-write_at off src dst (omega (arith, size)) k k_is ∙ ap (λ t. t ++ src) e,
  length-write_at off src dst (omega (arith, size)) ∙ size,
)

-- The last block: what the buffer holds, zeros up to 56 and the length.
finish_block :
    (buffer sofar : List ℕ) (len bits : ℕ) (s : State)
    → length buffer ≡ 64
    → len ≤ 56
    → take len buffer ≡ sofar
    → (block : List ℕ) × (finish s buffer len bits ≡ transform s block)
      × (block ≡ (sofar ++ replicate (56 - len) 0) ++ write_be64 bits)
      × (length block ≡ 64)
unfolding finish
finish_block buffer sofar len bits s size h e =
    let zeroed =
      write_on len (replicate (56 - len) 0) buffer sofar size
        (omega (arith, length-replicate {A = ℕ} (56 - len) 0)) e 56
        (omega (arith, length-replicate {A = ℕ} (56 - len) 0)) in
    let ended =
      write_on 56 (write_be64 bits) (write_at len (replicate (56 - len) 0) buffer)
        (sofar ++ replicate (56 - len) 0) zeroed.1 (omega (arith, length-write_be64 bits)) zeroed.0
        64 (omega (arith, length-write_be64 bits)) in
    (
      write_at 56 (write_be64 bits) (write_at len (replicate (56 - len) 0) buffer),
      refl,
      sym (take-all 64 _ (omega (arith, ended.1))) ∙ ended.0,
      ended.1,
    )

-- Both ways the padding is laid out join to the same message.
join_one :
    (c r z t : List ℕ) → c ++ (((r ++ 0x80 ∷ []) ++ z) ++ t ++ []) ≡ (c ++ r) ++ (0x80 ∷ (z ++ t))
join_one c r z t = simp (append_assoc, append-nil)

join_two :
    (c r y z t : List ℕ)
    → c ++ (((r ++ 0x80 ∷ []) ++ y) ++ ((z ++ t) ++ [])) ≡ (c ++ r) ++ (0x80 ∷ ((y ++ z) ++ t))
join_two c r y z t = simp (append_assoc, append-nil)

replicate-add : (m n : ℕ) (b : ℕ) → replicate m b ++ replicate n b ≡ replicate (m + n) b
replicate-add zero n b = rw zero-add
replicate-add (suc m) n b = rw suc-add (ap (◌∷◌ b) (replicate-add m n b))

module _ (m : List ℕ) (ctx : Sha256) (inv : Absorbed m ctx) where
  abbrev marked : List ℕ
  marked = write_at ctx.buffer_len (0x80 ∷ []) ctx.buffer

  abbrev len : ℕ
  len = ctx.buffer_len + 1

  abbrev sofar : List ℕ
  sofar = inv.rest ++ 0x80 ∷ []

  mark : (take len marked ≡ sofar) × (length marked ≡ 64)
  mark =
      write_on ctx.buffer_len (0x80 ∷ []) ctx.buffer inv.rest inv.buffer_size
        (omega (arith, inv.buffer_len_is, inv.short)) inv.buffered len (omega arith)

  finalize_one : len ≤ 56 → IsDigest m (digest (finish ctx.state marked len ctx.bit_length))
  finalize_one h =
      let (block, finished, block_is, size) =
        finish_block marked sofar len ctx.bit_length ctx.state mark.1 h mark.0 in
      record {
        blocks = inv.blocks ++ block ∷ [];
        zeros = 56 - len;
        fewest = omega arith;
        whole = All-append _ inv.blocks (block ∷ []) inv.whole (size, tt);
        message =
            concat-append inv.blocks (block ∷ [])
            ∙ ap (λ b. concat inv.blocks ++ (b ++ [])) block_is
            ∙ join_one (concat inv.blocks) inv.rest (replicate (56 - len) 0)
                (write_be64 ctx.bit_length)
            ∙ ap₂ (λ a n. a ++ (0x80 ∷ (replicate (56 - len) 0 ++ write_be64 n))) (sym inv.message)
                inv.counted;
        out_is = ap digest (
            finished
            ∙ ap (λ s. transform s block) inv.state_is
            ∙ sym (absorb-append initial_state inv.blocks (block ∷ [])));
      }

  abbrev filled : List ℕ
  filled = write_at len (replicate (64 - len) 0) marked

  finalize_two :
      56 < len → IsDigest m (digest (finish (transform ctx.state filled) filled 0 ctx.bit_length))
  finalize_two h =
      let small : len ≤ 64 = omega (arith, inv.buffer_len_is, inv.short) in
      let zeros_fit : len + length (replicate {A = ℕ} (64 - len) 0) ≡ 64 =
        omega (arith, length-replicate {A = ℕ} (64 - len) 0) in
      let fill =
        write_on len (replicate (64 - len) 0) marked sofar mark.1 (omega (arith, zeros_fit)) mark.0
          64 (sym zeros_fit) in
      let first_is : filled ≡ sofar ++ replicate (64 - len) 0 =
        sym (take-all 64 filled (omega (arith, fill.1))) ∙ fill.0 in
      let (block, finished, block_is, size) =
        finish_block filled [] 0 ctx.bit_length (transform ctx.state filled) fill.1 (omega arith)
          refl in
      record {
        blocks = inv.blocks ++ filled ∷ block ∷ [];
        zeros = 64 - len + 56;
        fewest = omega arith;
        whole = All-append _ inv.blocks (filled ∷ block ∷ []) inv.whole (fill.1, (size, tt));
        message =
            concat-append inv.blocks (filled ∷ block ∷ [])
            ∙ ap₂ (λ a b. concat inv.blocks ++ (a ++ (b ++ []))) first_is block_is
            ∙ join_two (concat inv.blocks) inv.rest (replicate (64 - len) 0) (replicate 56 0)
                (write_be64 ctx.bit_length)
            ∙ ap (λ z. (concat inv.blocks ++ inv.rest) ++ (0x80 ∷ (z ++ write_be64 ctx.bit_length)))
                (replicate-add (64 - len) 56 0)
            ∙ ap₂ (λ a n. a ++ (0x80 ∷ (replicate (64 - len + 56) 0 ++ write_be64 n)))
                (sym inv.message) inv.counted;
        out_is = ap digest (
            finished
            ∙ ap (λ s. transform (transform s filled) block) inv.state_is
            ∙ sym (absorb-append initial_state inv.blocks (filled ∷ block ∷ [])));
      }

  -- `finalize` pads the message as the standard says, in one block or in two.
  pub finalize-IsDigest : IsDigest m (finalize ctx)
  unfolding finalize
  finalize-IsDigest = elim (Bool-cases (ltb 56 len)) [
    | inl e ↦ rw e (finalize_two (ltb→lt 56 len e))
    | inr e ↦ rw e (finalize_one (ground arith))
  ]

-- For every message, the one-shot hash is the digest of the initial state taken through the blocks
-- of 64 bytes that are the message, the byte 0x80, fewer than 64 zeros and the message's length in
-- bits modulo 2 ^ 64 on eight bytes.
pub sha256-IsDigest : (m : List ℕ) → IsDigest m (sha256 m)
unfolding sha256
sha256-IsDigest m = finalize-IsDigest m (update reset m) (update-Absorbed reset [] m reset-Absorbed)
