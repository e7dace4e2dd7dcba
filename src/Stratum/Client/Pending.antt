-- ===== src/Stratum/Client/Pending.antt =====
-- About the map of unanswered submissions of src/stratum/client.cpp.
use bitcoin_miner.Base.{
  true, false, List, [], ◌∷◌, ◌++◌, ◌≡◌, refl, sym, ap, ◌∙◌, subst, arith, inl, inr, Bool-cases,
  ==_iff, ℤ, pos, negsuc, ◌=z=◌, none, some,
}
use bitcoin_miner.Mining.Controller.{ShareSubmission}
use bitcoin_miner.Stratum.Client.{find_pending, erase_pending, put_pending}

abbrev pub Pending : Type 0
Pending = List (ℤ × ShareSubmission)

-- No id stands twice.
abbrev pub IsDistinct : Pending → Type 0
IsDistinct [] = Unit
IsDistinct ((k, share) ∷ rest) = (find_pending k rest ≡ none) × IsDistinct rest

=z=_eq : (y z : ℤ) → (y =z= z) ≡ true → y ≡ z
=z=_eq (pos m) (pos n) h = ap pos ((==_iff m n).0 h)
=z=_eq (pos m) (negsuc n) h = cc
=z=_eq (negsuc m) (pos n) h = cc
=z=_eq (negsuc m) (negsuc n) h = ap negsuc ((==_iff m n).0 h)

find-miss :
    (id k : ℤ) (share : ShareSubmission) (rest : Pending)
    → (k =z= id) ≡ false
    → find_pending id ((k, share) ∷ rest) ≡ find_pending id rest
unfolding find_pending
find-miss id k share rest h = rw h refl

erase-hit :
    (id k : ℤ) (share : ShareSubmission) (rest : Pending)
    → (k =z= id) ≡ true
    → erase_pending id ((k, share) ∷ rest) ≡ rest
unfolding erase_pending
erase-hit id k share rest h = rw h refl

erase-miss :
    (id k : ℤ) (share : ShareSubmission) (rest : Pending)
    → (k =z= id) ≡ false
    → erase_pending id ((k, share) ∷ rest) ≡ (k, share) ∷ erase_pending id rest
unfolding erase_pending
erase-miss id k share rest h = rw h refl

find-hit :
    (id k : ℤ) (share : ShareSubmission) (rest : Pending)
    → (k =z= id) ≡ true
    → find_pending id ((k, share) ∷ rest) ≡ some share
unfolding find_pending
find-hit id k share rest h = rw h refl

find-none :
    (id k : ℤ) (share : ShareSubmission) (rest : Pending)
    → find_pending id ((k, share) ∷ rest) ≡ none
    → ((k =z= id) ≡ false) × (find_pending id rest ≡ none)
find-none id k share rest h = elim (Bool-cases (k =z= id)) [
  | inl same ↦ cc (find-hit id k share rest same, h)
  | inr other ↦ (other, sym (find-miss id k share rest other) ∙ h)
]

-- What is not found stays unfound when others are erased.
find-erase_other :
    (id id' : ℤ) (ps : Pending)
    → find_pending id ps ≡ none
    → find_pending id (erase_pending id' ps) ≡ none
find-erase_other id id' [] h = unfold erase_pending in h
find-erase_other id id' ((k, share) ∷ rest) h =
    let (other, gone) = find-none id k share rest h in
    elim (Bool-cases (k =z= id')) [
      | inl same ↦ ap (find_pending id) (erase-hit id' k share rest same) ∙ gone
      | inr new ↦
          ap (find_pending id) (erase-miss id' k share rest new)
          ∙ find-miss id k share (erase_pending id' rest) other
          ∙ find-erase_other id id' rest gone
    ]

pub find-erase :
    (id : ℤ) (ps : Pending) → IsDistinct ps → find_pending id (erase_pending id ps) ≡ none
find-erase id [] h = unfold find_pending erase_pending in refl
find-erase id ((k, share) ∷ rest) (fresh, others) = elim (Bool-cases (k =z= id)) [
  | inl same ↦
      ap (find_pending id) (erase-hit id k share rest same)
      ∙ ap (λ j. find_pending j rest) (sym (=z=_eq k id same))
      ∙ fresh
  | inr other ↦
      ap (find_pending id) (erase-miss id k share rest other)
      ∙ find-miss id k share (erase_pending id rest) other
      ∙ find-erase id rest others
]

pub erase-IsDistinct : (id : ℤ) (ps : Pending) → IsDistinct ps → IsDistinct (erase_pending id ps)
erase-IsDistinct id [] h = unfold erase_pending in tt
erase-IsDistinct id ((k, share) ∷ rest) (fresh, others) = elim (Bool-cases (k =z= id)) [
  | inl same ↦ subst IsDistinct (sym (erase-hit id k share rest same)) others
  | inr other ↦
      subst IsDistinct (sym (erase-miss id k share rest other))
        (find-erase_other k id rest fresh, erase-IsDistinct id rest others)
]

put-hit :
    (id k : ℤ) (share old : ShareSubmission) (rest : Pending)
    → (k =z= id) ≡ true
    → put_pending id share ((k, old) ∷ rest) ≡ (k, share) ∷ rest
unfolding put_pending
put-hit id k share old rest h = rw h refl

put-miss :
    (id k : ℤ) (share old : ShareSubmission) (rest : Pending)
    → (k =z= id) ≡ false
    → put_pending id share ((k, old) ∷ rest) ≡ (k, old) ∷ put_pending id share rest
unfolding put_pending
put-miss id k share old rest h = rw h refl

=z=_comm : (y z : ℤ) → (y =z= z) ≡ false → (z =z= y) ≡ false
=z=_comm (pos m) (pos n) h = ground (arith, h)
=z=_comm (pos m) (negsuc n) h = refl
=z=_comm (negsuc m) (pos n) h = refl
=z=_comm (negsuc m) (negsuc n) h = ground (arith, h)

pub find-append_none :
    (id k : ℤ) (share : ShareSubmission) (ps : Pending)
    → (k =z= id) ≡ false
    → find_pending id ps ≡ none
    → find_pending id (ps ++ (k, share) ∷ []) ≡ none
find-append_none id k share [] h e = unfold find_pending in find-miss id k share [] h
find-append_none id k share ((j, s) ∷ rest) h e =
    let (other, gone) = find-none id j s rest e in
    find-miss id j s (rest ++ (k, share) ∷ []) other ∙ find-append_none id k share rest h gone

pub find-put_other :
    (id other : ℤ) (share : ShareSubmission) (ps : Pending)
    → (other =z= id) ≡ false
    → find_pending id ps ≡ none
    → find_pending id (put_pending other share ps) ≡ none
find-put_other id other share [] new h = unfold put_pending in find-miss id other share [] new ∙ h
find-put_other id other share ((k, old) ∷ rest) new h =
    let (differs, gone) = find-none id k old rest h in
    elim (Bool-cases (k =z= other)) [
      | inl same ↦
          ap (find_pending id) (put-hit other k share old rest same)
          ∙ find-miss id k share rest differs
          ∙ gone
      | inr next ↦
          ap (find_pending id) (put-miss other k share old rest next)
          ∙ find-miss id k old (put_pending other share rest) differs
          ∙ find-put_other id other share rest new gone
    ]

pub put-IsDistinct :
    (id : ℤ) (share : ShareSubmission) (ps : Pending)
    → IsDistinct ps
    → IsDistinct (put_pending id share ps)
put-IsDistinct id share [] h = unfold put_pending find_pending in (refl, tt)
put-IsDistinct id share ((k, old) ∷ rest) (fresh, others) = elim (Bool-cases (k =z= id)) [
  | inl same ↦ subst IsDistinct (sym (put-hit id k share old rest same)) (fresh, others)
  | inr other ↦ subst IsDistinct (sym (put-miss id k share old rest other)) (
    find-put_other k id share rest (=z=_comm k id other) fresh,
    put-IsDistinct id share rest others,
  )
]

-- A new id is entered at the end.
pub put-fresh :
    (id : ℤ) (share : ShareSubmission) (ps : Pending)
    → find_pending id ps ≡ none
    → put_pending id share ps ≡ ps ++ (id, share) ∷ []
put-fresh id share [] h = unfold put_pending in refl
put-fresh id share ((k, old) ∷ rest) h =
    let (differs, gone) = find-none id k old rest h in
    put-miss id k share old rest differs ∙ ap (◌∷◌ (k, old)) (put-fresh id share rest gone)
