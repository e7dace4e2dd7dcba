-- ===== src/Base/Bytes.antt =====
-- Strings of bytes as lists of numbers below 256, and the number that they spell with the least
-- significant byte first.
use Prim.Native.Nat.{ℕ, zero, suc, ◌+◌, ◌*◌, ◌^◌, ◌<◌}
use mathlib.Core.Path.{◌≡◌, refl, ap, ap₂, sym, ◌∙◌}
use mathlib.Core.Bool.{Bool, true, ◌&&◌}
use mathlib.Core.List.{List, [], ◌∷◌, ◌++◌}
use native.Mathlib.Nat.{pow-suc, pow-zero}
use native.Mathlib.Omega.{arith}
use bitcoin_miner.Base.Lists.{length, All, get_or}

abbrev pub IsBytes : List ℕ → Type 0
IsBytes = All λ b. b < 256

abbrev pub le_value : List ℕ → ℕ
le_value [] = 0
le_value (b ∷ bs) = b + 256 * le_value bs

pub le_value-append :
    (xs ys : List ℕ) → le_value (xs ++ ys) ≡ le_value xs + 256 ^ length xs * le_value ys
le_value-append [] ys = omega (arith, ap (λ (t : ℕ). t * le_value ys) (pow-zero 256))
le_value-append (x ∷ xs) ys =
    omega (arith, le_value-append xs ys, ap (λ (t : ℕ). t * le_value ys) (pow-suc 256 (length xs)))

pub le_value_lt : (xs : List ℕ) → IsBytes xs → le_value xs < 256 ^ length xs
le_value_lt [] h = omega (arith, pow-zero 256)
le_value_lt (x ∷ xs) h = omega (arith, le_value_lt xs h.1, pow-suc 256 (length xs))

-- Of one length, two strings of bytes that spell the same number are the same.
pub le_value_inj :
    (xs ys : List ℕ)
    → length xs ≡ length ys
    → IsBytes xs
    → IsBytes ys
    → le_value xs ≡ le_value ys
    → xs ≡ ys
le_value_inj [] [] l hx hy e = refl
le_value_inj [] (y ∷ ys) l hx hy e = absurd (omega arith)
le_value_inj (x ∷ xs) [] l hx hy e = absurd (omega arith)
le_value_inj (x ∷ xs) (y ∷ ys) l hx hy e =
    ap₂ ◌∷◌ (omega arith) (le_value_inj xs ys (omega arith) hx.1 hy.1 (omega arith))

both : (p q : Bool) → (p && q) ≡ true → (p ≡ true) × (q ≡ true)
both p q h = ground (arith, h)

-- A test that evaluation finds true of every number under a bound.
unfoldable pub holds_below : (ℕ → Bool) → ℕ → Bool
holds_below test zero = true
holds_below test (suc bound) = holds_below test bound && test bound

pub holds_below-at :
    (test : ℕ → Bool) (bound : ℕ)
    → holds_below test bound ≡ true
    → {i : ℕ} → i < bound
    → test i ≡ true
unfolding holds_below
holds_below-at test zero found under = absurd (omega arith)
holds_below-at test (suc bound) found {i} under =
    let (before, last) = both (holds_below test bound) (test bound) found in
    let earlier : i < bound → test i ≡ true = λ u. holds_below-at test bound before u in
    ground (arith, last, under, earlier)

pub get_or_lt : (xs : List ℕ) (i : ℕ) → IsBytes xs → get_or xs i 0 < 256
get_or_lt [] i h = omega arith
get_or_lt (x ∷ xs) zero h = h.0
get_or_lt (x ∷ xs) (suc i) h = get_or_lt xs i h.1

-- The n entries of a list from index i on.
abbrev pub entries : ℕ → ℕ → List ℕ → List ℕ
entries zero i xs = []
entries (suc n) i xs = get_or xs i 0 ∷ entries n (suc i) xs

entries-cons : (n i x : ℕ) (xs : List ℕ) → entries n (suc i) (x ∷ xs) ≡ entries n i xs
entries-cons zero i x xs = refl
entries-cons (suc n) i x xs = ap (◌∷◌ (get_or xs i 0)) (entries-cons n (suc i) x xs)

pub entries-length : (xs : List ℕ) → entries (length xs) 0 xs ≡ xs
entries-length [] = refl
entries-length (x ∷ xs) = ap (◌∷◌ x) (entries-cons (length xs) 0 x xs ∙ entries-length xs)

pub entries-all : (xs : List ℕ) (n : ℕ) → length xs ≡ n → entries n 0 xs ≡ xs
entries-all xs n e = ap (λ (k : ℕ). entries k 0 xs) (sym e) ∙ entries-length xs
