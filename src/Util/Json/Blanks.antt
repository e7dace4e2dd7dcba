-- ===== src/Util/Json/Blanks.antt =====
-- About src/util/json.cpp: blanks, and how texts start and end.
use bitcoin_miner.Base.{
  ℕ, zero, suc, ◌*◌, Bool, true, false, [], ◌∷◌, ◌++◌, ◌≡◌, refl, ◌∙◌, arith, inl, inr, Bool-cases,
  ltb, ◌==◌, Text, if◌then◌else◌, All, replicate,
}
use bitcoin_miner.Util.Json.Writer.{newline, padding, colon}
use bitcoin_miner.Util.Json.Scan.{is_blank, skip_whitespace}
use bitcoin_miner.Util.Json.Scan.Numbers.{NumberEnds}

abbrev pub IsBlank : ℕ → Type 0
IsBlank c = is_blank c ≡ true

abbrev pub AreBlanks : Text → Type 0
AreBlanks = All IsBlank

-- The text starts with a character that is no blank and no closing bracket.
abbrev pub IsSolid : Text → Type 0
IsSolid [] = ⊥
IsSolid (c ∷ cs) = (is_blank c ≡ false) × ((c == b']') ≡ false) × ((c == b'}') ≡ false)

pub skip_whitespace-blanks :
    (b t : Text) → AreBlanks b → skip_whitespace (b ++ t) ≡ skip_whitespace t
unfolding skip_whitespace
skip_whitespace-blanks [] t h = refl
skip_whitespace-blanks (c ∷ cs) t h = rw (h.0) (skip_whitespace-blanks cs t h.1)

-- The text starts with a character that is no blank.
abbrev pub IsInk : Text → Type 0
IsInk [] = ⊥
IsInk (c ∷ cs) = is_blank c ≡ false

pub IsSolid-IsInk : (t : Text) → IsSolid t → IsInk t
IsSolid-IsInk [] h = h
IsSolid-IsInk (c ∷ cs) h = h.0

skip_whitespace-ink : (t : Text) → IsInk t → skip_whitespace t ≡ t
unfolding skip_whitespace
skip_whitespace-ink [] h = refl
skip_whitespace-ink (c ∷ cs) h = rw h refl

pub skip_to : (b t : Text) → AreBlanks b → IsInk t → skip_whitespace (b ++ t) ≡ t
skip_to b t h k = skip_whitespace-blanks b t h ∙ skip_whitespace-ink t k

AreBlanks-replicate : (n : ℕ) → AreBlanks (replicate n b' ')
AreBlanks-replicate zero = tt
AreBlanks-replicate (suc n) = (refl, AreBlanks-replicate n)

pub padding-AreBlanks : (indent depth : ℕ) → AreBlanks (padding indent depth)
unfolding padding
padding-AreBlanks indent depth = go (ltb 0 indent)
  where
    go : (b : Bool) → AreBlanks (if b then replicate (indent * depth) b' ' else [])
    go true = AreBlanks-replicate (indent * depth)
    go false = tt

pub newline-AreBlanks : (indent : ℕ) → AreBlanks (newline indent)
unfolding newline
newline-AreBlanks indent = go (ltb 0 indent)
  where
    go : (b : Bool) → AreBlanks (if b then b'\n' ∷ [] else [])
    go true = (refl, tt)
    go false = tt

-- Behind blanks and a closing bracket, or a comma, a number has ended.
blank-ends : (c : ℕ) (cs : Text) → IsBlank c → NumberEnds (c ∷ cs)
blank-ends c cs h = ground arith

pub NumberEnds-blanks : (b t : Text) → AreBlanks b → NumberEnds t → NumberEnds (b ++ t)
NumberEnds-blanks [] t h k = k
NumberEnds-blanks (c ∷ cs) t h k = blank-ends c (cs ++ t) h.0

pub colon-AreBlanks : (indent : ℕ) → (gap : Text) × (colon indent ≡ b':' ∷ gap) × AreBlanks gap
unfolding colon
colon-AreBlanks indent = elim (Bool-cases (ltb 0 indent)) [
  | inl wide ↦ rw wide (b' ' ∷ [], refl, (refl, tt))
  | inr narrow ↦ rw narrow ([], refl, tt)
]
