-- ===== src/Bitcoin/Sha256.antt =====
-- src/bitcoin/sha256.hpp and sha256.cpp: the streaming SHA-256. A word is a number below 2 ^ 32, a
-- block or a message a list of bytes. Pointers into the caller's data are the rest of that list.
pub mod Size
pub mod Buffer
pub mod Stream
pub mod Padding
pub mod Chunks
pub mod Tests
use bitcoin_miner.Base.{
  ℕ, zero, suc, ◌+◌, ◌-◌, ◌*◌, ◌/◌, ◌%◌, ◌^◌, Bool, true, false, List, [], ◌∷◌, ◌++◌, bit_or,
  bit_and, bit_xor, min, ltb, leb, ◌==◌, if◌then◌else◌, u8, u32, u64, ◌<<<◌, ◌>>>◌, length, get_or,
  take, drop, replicate,
}

abbrev pub round_constants : List ℕ
round_constants =
    0x428a2f98 ∷ 0x71374491 ∷ 0xb5c0fbcf ∷ 0xe9b5dba5 ∷ 0x3956c25b ∷ 0x59f111f1 ∷ 0x923f82a4
    ∷ 0xab1c5ed5 ∷ 0xd807aa98 ∷ 0x12835b01 ∷ 0x243185be ∷ 0x550c7dc3 ∷ 0x72be5d74 ∷ 0x80deb1fe
    ∷ 0x9bdc06a7 ∷ 0xc19bf174 ∷ 0xe49b69c1 ∷ 0xefbe4786 ∷ 0x0fc19dc6 ∷ 0x240ca1cc ∷ 0x2de92c6f
    ∷ 0x4a7484aa ∷ 0x5cb0a9dc ∷ 0x76f988da ∷ 0x983e5152 ∷ 0xa831c66d ∷ 0xb00327c8 ∷ 0xbf597fc7
    ∷ 0xc6e00bf3 ∷ 0xd5a79147 ∷ 0x06ca6351 ∷ 0x14292967 ∷ 0x27b70a85 ∷ 0x2e1b2138 ∷ 0x4d2c6dfc
    ∷ 0x53380d13 ∷ 0x650a7354 ∷ 0x766a0abb ∷ 0x81c2c92e ∷ 0x92722c85 ∷ 0xa2bfe8a1 ∷ 0xa81a664b
    ∷ 0xc24b8b70 ∷ 0xc76c51a3 ∷ 0xd192e819 ∷ 0xd6990624 ∷ 0xf40e3585 ∷ 0x106aa070 ∷ 0x19a4c116
    ∷ 0x1e376c08 ∷ 0x2748774c ∷ 0x34b0bcb5 ∷ 0x391c0cb3 ∷ 0x4ed8aa4a ∷ 0x5b9cca4f ∷ 0x682e6ff3
    ∷ 0x748f82ee ∷ 0x78a5636f ∷ 0x84c87814 ∷ 0x8cc70208 ∷ 0x90befffa ∷ 0xa4506ceb ∷ 0xbef9a3f7
    ∷ 0xc67178f2 ∷ []

pub rotr : ℕ → ℕ → ℕ
rotr x n = bit_or (x >>> n) (u32 (x <<< (32 - n)))

-- `~x` is 2 ^ 32 - 1 - x.
pub ch : ℕ → ℕ → ℕ → ℕ
ch x y z = bit_xor (bit_and x y) (bit_and (2 ^ 32 - 1 - x) z)

pub maj : ℕ → ℕ → ℕ → ℕ
maj x y z = bit_xor (bit_xor (bit_and x y) (bit_and x z)) (bit_and y z)

pub big_sigma0 : ℕ → ℕ
unfolding rotr
big_sigma0 x = bit_xor (bit_xor (rotr x 2) (rotr x 13)) (rotr x 22)

pub big_sigma1 : ℕ → ℕ
unfolding rotr
big_sigma1 x = bit_xor (bit_xor (rotr x 6) (rotr x 11)) (rotr x 25)

pub small_sigma0 : ℕ → ℕ
unfolding rotr
small_sigma0 x = bit_xor (bit_xor (rotr x 7) (rotr x 18)) (x >>> 3)

pub small_sigma1 : ℕ → ℕ
unfolding rotr
small_sigma1 x = bit_xor (bit_xor (rotr x 17) (rotr x 19)) (x >>> 10)

-- `readBE32` at an offset of a buffer.
pub read_be32 : List ℕ → ℕ → ℕ
read_be32 p i =
    bit_or
      (bit_or (bit_or (u32 (get_or p i 0 <<< 24)) (get_or p (i + 1) 0 <<< 16))
        (get_or p (i + 2) 0 <<< 8))
      (get_or p (i + 3) 0)

-- The four bytes that `writeBE32` writes.
pub write_be32 : ℕ → List ℕ
write_be32 v = u8 (v >>> 24) ∷ u8 (v >>> 16) ∷ u8 (v >>> 8) ∷ u8 v ∷ []

pub write_be64 : ℕ → List ℕ
unfolding write_be32
write_be64 v = write_be32 (u32 (v >>> 32)) ++ write_be32 (u32 v)

-- `state_`, and the variables a to h of `transform`.
pub record State : Type 0 where
  pub a : ℕ
  pub b : ℕ
  pub c : ℕ
  pub d : ℕ
  pub e : ℕ
  pub f : ℕ
  pub g : ℕ
  pub h : ℕ

pub record Sha256 : Type 0 where
  pub state : State
  pub bit_length : ℕ
  pub buffer : List ℕ
  pub buffer_len : ℕ

abbrev pub initial_state : State
initial_state = record {
  a = 0x6a09e667;
  b = 0xbb67ae85;
  c = 0x3c6ef372;
  d = 0xa54ff53a;
  e = 0x510e527f;
  f = 0x9b05688c;
  g = 0x1f83d9ab;
  h = 0x5be0cd19;
}

-- `reset`, which the constructor calls.
abbrev pub reset : Sha256
reset = record { state = initial_state; bit_length = 0; buffer = replicate 64 0; buffer_len = 0 }

-- `w[0..16)`: the words of the block from index i on.
block_words : ℕ → ℕ → List ℕ → List ℕ
unfolding read_be32
block_words zero i block = []
block_words (suc n) i block = read_be32 block (i * 4) ∷ block_words n (i + 1) block

-- The loop that fills `w[16..64)`, with the rounds that are left; the words so far are w[0..i).
schedule : ℕ → ℕ → List ℕ → List ℕ
unfolding small_sigma0 small_sigma1
schedule zero i w = w
schedule (suc n) i w =
    let next = u32 (
      small_sigma1 (get_or w (i - 2) 0)
      + get_or w (i - 7) 0
      + small_sigma0 (get_or w (i - 15) 0)
      + get_or w (i - 16) 0) in
    schedule n (i + 1) (w ++ next ∷ [])

-- One round with its constant and its word.
round : ℕ → ℕ → State → State
unfolding big_sigma0 big_sigma1 ch maj
round k w s =
    let t1 = u32 (s.h + big_sigma1 s.e + ch s.e s.f s.g + k + w) in
    let t2 = u32 (big_sigma0 s.a + maj s.a s.b s.c) in
    record {
      a = u32 (t1 + t2);
      b = s.a;
      c = s.b;
      d = s.c;
      e = u32 (s.d + t1);
      f = s.e;
      g = s.f;
      h = s.g;
    }

rounds : List ℕ → List ℕ → State → State
unfolding round
rounds [] ws s = s
rounds (k ∷ ks) [] s = s
rounds (k ∷ ks) (w ∷ ws) s = rounds ks ws (round k w s)

pub transform : State → List ℕ → State
unfolding block_words schedule rounds
transform s block =
    let t = rounds round_constants (schedule 48 16 (block_words 16 0 block)) s in
    record {
      a = u32 (s.a + t.a);
      b = u32 (s.b + t.b);
      c = u32 (s.c + t.c);
      d = u32 (s.d + t.d);
      e = u32 (s.e + t.e);
      f = u32 (s.f + t.f);
      g = u32 (s.g + t.g);
      h = u32 (s.h + t.h);
    }

-- `memcpy` or `memset` of `src` at an offset of a buffer.
abbrev pub write_at : ℕ → List ℕ → List ℕ → List ℕ
write_at off src dst = take off dst ++ (src ++ drop (off + length src) dst)

-- `while (len >= kBlockSize)`: the state after the whole blocks, and the rest of the data.
pub absorb_blocks : ℕ → State → List ℕ → State × List ℕ
absorb_blocks zero s rest = (s, rest)
absorb_blocks (suc fuel) s rest =
    let next = absorb_blocks fuel (transform s (take 64 rest)) (drop 64 rest) in
    if leb 64 (length rest) then next else (s, rest)

-- `update` after the partial block: whole blocks straight from the data, then the rest is buffered.
-- Each round takes 64 bytes, so a round for each byte is enough fuel.
pub update_aligned : Sha256 → List ℕ → Sha256
update_aligned ctx bytes =
    let (s, rest) = absorb_blocks (length bytes) ctx.state bytes in
    if ltb 0 (length rest)
    then record ctx { state = s; buffer = write_at 0 rest ctx.buffer; buffer_len = length rest }
    else record ctx { state = s }

pub update : Sha256 → List ℕ → Sha256
update ctx bytes =
    let counted = record ctx { bit_length = u64 (ctx.bit_length + u64 (length bytes * 8)) } in
    if ltb 0 ctx.buffer_len
    then (let took = min (length bytes) (64 - ctx.buffer_len) in
        let filled = write_at ctx.buffer_len (take took bytes) ctx.buffer in
        if ltb (ctx.buffer_len + took) 64
        then record counted { buffer = filled; buffer_len = ctx.buffer_len + took }
        else update_aligned
            (record counted { state = transform ctx.state filled; buffer = filled; buffer_len = 0 })
            (drop took bytes))
    else update_aligned counted bytes

-- The last part of `finalize`: zeros, the length in bits and the last block.
pub finish : State → List ℕ → ℕ → ℕ → State
unfolding write_be64
finish s buffer len bits =
    transform s (write_at 56 (write_be64 bits) (write_at len (replicate (56 - len) 0) buffer))

pub digest : State → List ℕ
unfolding write_be32
digest s =
    write_be32 s.a
    ++ write_be32 s.b
    ++ write_be32 s.c
    ++ write_be32 s.d
    ++ write_be32 s.e
    ++ write_be32 s.f
    ++ write_be32 s.g
    ++ write_be32 s.h

pub finalize : Sha256 → List ℕ
finalize ctx =
    let marked = write_at ctx.buffer_len (0x80 ∷ []) ctx.buffer in
    let len = ctx.buffer_len + 1 in
    digest (
      if ltb 56 len
      then (let padded = write_at len (replicate (64 - len) 0) marked in
          finish (transform ctx.state padded) padded 0 ctx.bit_length)
      else finish ctx.state marked len ctx.bit_length)

-- `sha256(data)` and `sha256d(data)`.
unfoldable pub sha256 : List ℕ → List ℕ
unfolding update finalize update_aligned absorb_blocks transform finish digest
sha256 bytes = finalize (update reset bytes)

unfoldable pub sha256d : List ℕ → List ℕ
unfolding sha256
sha256d bytes = sha256 (sha256 bytes)
