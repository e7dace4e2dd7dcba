-- ===== src/Base/Texts.antt =====
-- Texts as lists of character codes, and their equality.
use Prim.Native.Nat.{ℕ}
use Prim.Native.String.{String}
use Prim.Native.Char.{code}
use mathlib.Core.Bool.{Bool, true, false, ◌&&◌}
use mathlib.Core.Logic.{inl, inr}
use mathlib.Core.List.{List, [], ◌∷◌}
use mathlib.Core.Path.{◌≡◌, refl, ap₂}
use bitcoin_miner.Base.Tests.{◌==◌, ==_iff, Bool-cases}

abbrev pub Text : Type 0
Text = List ℕ

abbrev pub codes : String → Text
codes String.[] = []
codes (String.◌∷◌ c s) = code c ∷ codes s

infix 50 ◌=t=◌
unfoldable pub ◌=t=◌ : Text → Text → Bool
[] =t= [] = true
[] =t= (d ∷ ds) = false
(c ∷ cs) =t= [] = false
(c ∷ cs) =t= (d ∷ ds) = c == d && cs =t= ds

and-true : (a b : Bool) → (a && b) ≡ true → (a ≡ true) × (b ≡ true)
and-true true b h = (refl, h)
and-true false b h = cc

==_refl : (c : ℕ) → (c == c) ≡ true
==_refl c = (==_iff c c).1 refl

pub =t=_refl : (t : Text) → (t =t= t) ≡ true
unfolding ◌=t=◌
=t=_refl [] = refl
=t=_refl (c ∷ cs) = rw (==_refl c) (=t=_refl cs)

pub =t=_eq : (s t : Text) → (s =t= t) ≡ true → s ≡ t
unfolding ◌=t=◌
=t=_eq [] [] h = refl
=t=_eq [] (d ∷ ds) h = cc
=t=_eq (c ∷ cs) [] h = cc
=t=_eq (c ∷ cs) (d ∷ ds) h =
    let (head, tail) = and-true (c == d) (cs =t= ds) h in
    ap₂ (◌∷◌) ((==_iff c d).0 head) (=t=_eq cs ds tail)

pub =t=_comm : (s t : Text) → (s =t= t) ≡ false → (t =t= s) ≡ false
=t=_comm s t e = elim (Bool-cases (t =t= s)) [
  | inl same ↦ cc (e, =t=_eq t s same, =t=_refl s)
  | inr other ↦ other
]
