-- ===== src/Bitcoin/Sha256/Stream.antt =====
-- About the state that `SHA256::update` of src/bitcoin/sha256.cpp keeps of a message.
use bitcoin_miner.Base.{
  ℕ, zero, suc, ◌+◌, ◌-◌, ◌*◌, ◌%◌, ◌^◌, ◌≤◌, ◌<◌, List, [], ◌∷◌, ◌++◌, ◌≡◌, refl, ap, sym, subst,
  ◌∙◌, arith, inl, inr, Bool-cases, ltb, leb, length-zero, leb→le, length, take, drop, All-append,
  min, u64, length-append, length-take, length-drop, take-all, take-append-drop,
}
use mathlib.Core.List.{append_assoc, append-nil}
use bitcoin_miner.Bitcoin.Sha256.{
  State, Sha256, initial_state, reset, transform, write_at, absorb_blocks, update_aligned, update,
}
use bitcoin_miner.Bitcoin.Sha256.Buffer.{
  length-write_at, take-write_at, concat, IsWhole, concat-append, absorb, absorb-append,
}

-- `m` is everything that `ctx` was given.
pub record Absorbed (m : List ℕ) (ctx : Sha256) : Type 0 where
  pub blocks : List (List ℕ)
  pub rest : List ℕ
  pub whole : IsWhole blocks
  pub message : m ≡ concat blocks ++ rest
  pub short : length rest < 64
  pub state_is : ctx.state ≡ absorb initial_state blocks
  pub buffered : take ctx.buffer_len ctx.buffer ≡ rest
  pub buffer_len_is : ctx.buffer_len ≡ length rest
  pub buffer_size : length ctx.buffer ≡ 64
  pub counted : ctx.bit_length ≡ length m * 8 % 2 ^ 64

pub reset-Absorbed : Absorbed [] reset
reset-Absorbed = record {
  blocks = [];
  rest = [];
  whole = tt;
  message = refl;
  short = omega arith;
  state_is = refl;
  buffered = refl;
  buffer_len_is = refl;
  buffer_size = refl;
  counted = refl;
}

-- What the loop over the whole blocks leaves.
record Blocks (s : State) (bytes : List ℕ) (out : State × List ℕ) : Type 0 where
  blocks : List (List ℕ)
  whole : IsWhole blocks
  message : bytes ≡ concat blocks ++ out.1
  short : length out.1 < 64
  state_is : out.0 ≡ absorb s blocks

absorb_blocks-Blocks :
    (fuel : ℕ) (s : State) (bytes : List ℕ)
    → length bytes ≤ fuel
    → Blocks s bytes (absorb_blocks fuel s bytes)
unfolding absorb_blocks
absorb_blocks-Blocks zero s bytes h = record {
  blocks = [];
  whole = tt;
  message = refl;
  short = omega arith;
  state_is = refl;
}
absorb_blocks-Blocks (suc fuel) s bytes h = elim (Bool-cases (leb 64 (length bytes))) [
  | inl more ↦
      let enough : 64 ≤ length bytes = leb→le 64 (length bytes) more in
      let next =
        absorb_blocks-Blocks fuel (transform s (take 64 bytes)) (drop 64 bytes)
          (omega (arith, length-drop 64 bytes)) in
      rw more (record {
        blocks = take 64 bytes ∷ next.blocks;
        whole = (omega (arith, length-take 64 bytes), next.whole);
        message =
            sym (take-append-drop 64 bytes)
            ∙ ap (◌++◌ (take 64 bytes)) next.message
            ∙ sym (append_assoc (take 64 bytes) (concat next.blocks) _);
        short = next.short;
        state_is = next.state_is;
      })
  | inr last ↦
      rw last
        (record { blocks = []; whole = tt; message = refl; short = ground arith; state_is = refl })
]

-- With nothing buffered, `update_aligned` takes the message on.
module _ (ctx : Sha256) (done : List (List ℕ)) (bytes m : List ℕ) (whole : IsWhole done)
    (message : m ≡ concat done ++ bytes) (state_is : ctx.state ≡ absorb initial_state done)
    (emptied : ctx.buffer_len ≡ 0) (buffer_size : length ctx.buffer ≡ 64)
    (counted : ctx.bit_length ≡ length m * 8 % 2 ^ 64) where
  ran : Blocks ctx.state bytes (absorb_blocks (length bytes) ctx.state bytes)
  ran = absorb_blocks-Blocks (length bytes) ctx.state bytes (omega arith)

  abbrev left : List ℕ
  left = (absorb_blocks (length bytes) ctx.state bytes).1

  message' : m ≡ concat (done ++ ran.blocks) ++ left
  message' =
      message
      ∙ ap (◌++◌ (concat done)) ran.message
      ∙ sym (append_assoc (concat done) (concat ran.blocks) left)
      ∙ ap (λ t. t ++ left) (sym (concat-append done ran.blocks))

  state_is' :
      (absorb_blocks (length bytes) ctx.state bytes).0 ≡ absorb initial_state (done ++ ran.blocks)
  state_is' =
      ran.state_is
      ∙ ap (λ s. absorb s ran.blocks) state_is
      ∙ sym (absorb-append initial_state done ran.blocks)

  whole' : IsWhole (done ++ ran.blocks)
  whole' = All-append _ done ran.blocks whole ran.whole

  update_aligned-Absorbed : Absorbed m (update_aligned ctx bytes)
  unfolding update_aligned
  update_aligned-Absorbed = elim (Bool-cases (ltb 0 (length left))) [
    | inl some_left ↦ rw some_left (record {
      blocks = done ++ ran.blocks;
      rest = left;
      whole = whole';
      message = message';
      short = ran.short;
      state_is = state_is';
      buffered =
          take-write_at 0 left ctx.buffer (omega (arith, buffer_size, ran.short)) (length left)
            (omega arith);
      buffer_len_is = refl;
      buffer_size =
          length-write_at 0 left ctx.buffer (omega (arith, buffer_size, ran.short)) ∙ buffer_size;
      counted = counted;
    })
    | inr none_left ↦
        let nothing : left ≡ [] = length-zero left (ground arith) in
        rw none_left (record {
          blocks = done ++ ran.blocks;
          rest = [];
          whole = whole';
          message = message' ∙ ap (◌++◌ (concat (done ++ ran.blocks))) nothing;
          short = omega arith;
          state_is = state_is';
          buffered = rw emptied;
          buffer_len_is = emptied;
          buffer_size = buffer_size;
          counted = counted;
        })
  ]

regroup : (c r t d f : List ℕ) → f ≡ r ++ t → c ++ (r ++ (t ++ d)) ≡ (c ++ (f ++ [])) ++ d
regroup c r t d f e = rw e (simp (append_assoc, append-nil))

module _ (ctx : Sha256) (m bytes : List ℕ) (inv : Absorbed m ctx) where
  counts : u64 (ctx.bit_length + u64 (length bytes * 8)) ≡ length (m ++ bytes) * 8 % 2 ^ 64
  counts = omega (arith, inv.counted, length-append m bytes)

  -- How much of the data goes into the buffer.
  abbrev took : ℕ
  took = min (length bytes) (64 - ctx.buffer_len)

  abbrev filled : List ℕ
  filled = write_at ctx.buffer_len (take took bytes) ctx.buffer

  took_fits : ctx.buffer_len + length (take took bytes) ≤ length ctx.buffer
  took_fits = omega (arith, inv.buffer_size, inv.buffer_len_is, inv.short, length-take took bytes)

  filled_with : take (ctx.buffer_len + took) filled ≡ inv.rest ++ take took bytes
  filled_with =
      take-write_at ctx.buffer_len (take took bytes) ctx.buffer took_fits (ctx.buffer_len + took)
        (omega (arith, length-take took bytes))
      ∙ ap (λ t. t ++ take took bytes) inv.buffered

  filled_size : length filled ≡ 64
  filled_size =
      length-write_at ctx.buffer_len (take took bytes) ctx.buffer took_fits ∙ inv.buffer_size

  joined : m ++ bytes ≡ concat inv.blocks ++ (inv.rest ++ bytes)
  joined = ap (λ t. t ++ bytes) inv.message ∙ append_assoc (concat inv.blocks) inv.rest bytes

  cut :
      filled ≡ inv.rest ++ take took bytes
      → m ++ bytes ≡ concat (inv.blocks ++ filled ∷ []) ++ drop took bytes
  cut e =
      joined
      ∙ ap (λ t. concat inv.blocks ++ (inv.rest ++ t)) (sym (take-append-drop took bytes))
      ∙ regroup (concat inv.blocks) inv.rest (take took bytes) (drop took bytes) filled e
      ∙ ap (λ t. t ++ drop took bytes) (sym (concat-append inv.blocks (filled ∷ [])))

  -- Every call of `update` appends its data to what was hashed, wherever the message is cut.
  pub update-Absorbed : Absorbed (m ++ bytes) (update ctx bytes)
  unfolding update
  update-Absorbed = elim (Bool-cases (ltb 0 ctx.buffer_len)) [
    | inl partial ↦ elim (Bool-cases (ltb (ctx.buffer_len + took) 64)) [
      | inl still ↦
          let all_taken : length bytes ≤ took = ground arith in
          rw (partial, still)
            (record {
              blocks = inv.blocks;
              rest = inv.rest ++ bytes;
              whole = inv.whole;
              message = joined;
              short = ground (arith, length-append inv.rest bytes, inv.buffer_len_is);
              state_is = inv.state_is;
              buffered = filled_with ∙ ap (◌++◌ inv.rest) (take-all took bytes all_taken);
              buffer_len_is =
                  omega (arith, length-append inv.rest bytes, inv.buffer_len_is, all_taken);
              buffer_size = filled_size;
              counted = counts;
            })
      | inr full ↦
          let exactly : ctx.buffer_len + took ≡ 64 = ground (arith, inv.buffer_len_is, inv.short) in
          let is_block : filled ≡ inv.rest ++ take took bytes =
            sym (take-all 64 filled (omega (arith, filled_size)))
            ∙ subst (λ (k : ℕ). take k filled ≡ inv.rest ++ take took bytes) exactly filled_with in
          rw (partial, full)
            (update_aligned-Absorbed _ (inv.blocks ++ filled ∷ []) (drop took bytes) (m ++ bytes)
              (All-append _ inv.blocks (filled ∷ []) inv.whole (filled_size, tt)) (cut is_block)
              (ap (λ s. transform s filled) inv.state_is
                ∙ sym (absorb-append initial_state inv.blocks (filled ∷ [])))
              refl filled_size counts)
    ]
    | inr aligned ↦
        let emptied : ctx.buffer_len ≡ 0 = ground arith in
        let nothing : inv.rest ≡ [] = length-zero inv.rest (omega (arith, inv.buffer_len_is)) in
        rw aligned (
          update_aligned-Absorbed _ inv.blocks bytes (m ++ bytes) inv.whole
            (joined ∙ ap (λ t. concat inv.blocks ++ (t ++ bytes)) nothing) inv.state_is emptied
            inv.buffer_size counts)
  ]
