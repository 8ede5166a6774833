-- ===== src/Core/Reorder.antt =====
-- src/ooo_cpu.cc, `promote_to_decode` and `decode_instruction`: the two buffers behind the fetch, merged by
-- the ids of their instructions, keep the order in which the instructions were fetched.
pub mod Decoding
use cscore_sstelem.Prelude.{
  ℕ, zero, suc, ◌≤◌, ◌<◌, ◌≡◌, refl, ap, ap₂, subst, sym, ◌∙◌, List, [], ◌∷◌, ◌++◌, append_assoc,
  map, Bool, true, false, not, ◌&&◌, ltb, leb, if◌then◌else◌, if_cases, arith,
}
use cscore_sstelem.Core.{Instruction, program_order}
use cscore_sstelem.Core.Ascending.{
  Above, AllBelow, Ascending, merge_ids, Above-split, Ascending-split, AllBelow-split,
  merge_ids-nil, merge_ids-left, merge_ids-right, merge_ids-front_left, merge_ids-front_right,
  merge_ids-append, merge-Above, merge-AllBelow, merge-Ascending, merge_ids-later,
}
use cscore_sstelem.Core.Ascending
use cscore_sstelem.Core.Decode.{
  decoded_part, undecoded_part, merge, merge_right, Picked, pick_none, take_dib, take_decode,
  pick_both, pick_dib, pick_decode, is_before_all, joined, pick,
}

abbrev pub ids : List Instruction → List ℕ
ids is = map (λ (i : Instruction). i.instr_id) is

pub ids-append : (xs ys : List Instruction) → ids (xs ++ ys) ≡ ids xs ++ ids ys
ids-append [] ys = refl
ids-append (x ∷ xs) ys = ap (λ l. x.instr_id ∷ l) (ids-append xs ys)

pub ids-map :
    (f : Instruction → Instruction) (is : List Instruction)
    → ((i : Instruction) → (f i).instr_id ≡ i.instr_id)
    → ids (map f is) ≡ ids is
ids-map f [] h = refl
ids-map f (i ∷ is) h = ap₂ ◌∷◌ (h i) (ids-map f is h)

if-ids :
    (b : Bool) (xs ys : List Instruction) (us vs : List ℕ)
    → ids xs ≡ us
    → ids ys ≡ vs
    → ids (if b then xs else ys) ≡ (if b then us else vs)
if-ids true xs ys us vs e f = e
if-ids false xs ys us vs e f = f

ids-merge_right :
    (x : Instruction) (rest : List Instruction → List Instruction) (rest' : List ℕ → List ℕ)
    (ys : List Instruction)
    → ((zs : List Instruction) → ids (rest zs) ≡ rest' (ids zs))
    → ids (merge_right x rest ys) ≡ Ascending.merge_right x.instr_id rest' (ids ys)
unfolding merge_right Ascending.merge_right
ids-merge_right x rest rest' [] h = ap (λ l. x.instr_id ∷ l) (h [])
ids-merge_right x rest rest' (y ∷ ys) h =
    if-ids (program_order y x) _ _ _ _
      (ap (λ l. y.instr_id ∷ l) (ids-merge_right x rest rest' ys h))
      (ap (λ l. x.instr_id ∷ l) (h (y ∷ ys)))

pub ids-merge : (xs ys : List Instruction) → ids (merge xs ys) ≡ merge_ids (ids xs) (ids ys)
unfolding merge merge_ids
ids-merge [] ys = refl
ids-merge (x ∷ xs) ys = ids-merge_right x (merge xs) (merge_ids (ids xs)) ys (λ zs. ids-merge xs zs)

Above-parts :
    (z : ℕ) (is : List Instruction)
    → Above z (ids is)
    → Above z (ids (decoded_part is)) × Above z (ids (undecoded_part is))
unfolding decoded_part undecoded_part
Above-parts z [] h = (tt, tt)
Above-parts z (i ∷ is) h =
    let (a, b) = Above-parts z is h.1 in
    (
      if_cases (λ (l : List Instruction). Above z (ids l)) i.decoded (λ _. (h.0, a)) (λ _. a),
      if_cases (λ (l : List Instruction). Above z (ids l)) i.decoded (λ _. b) (λ _. (h.0, b)),
    )

-- The two parts of instructions in order merge to them.
pub parts-merge :
    (is : List Instruction)
    → Ascending (ids is)
    → merge_ids (ids (decoded_part is)) (ids (undecoded_part is)) ≡ ids is
unfolding decoded_part undecoded_part merge_ids
parts-merge [] h = refl
parts-merge (i ∷ is) h =
    let (a, b) = Above-parts i.instr_id is h.0 in
    let rest = parts-merge is h.1 in
    by_part i.decoded
      (merge_ids-left i.instr_id (ids (decoded_part is)) (ids (undecoded_part is)) b
        ∙ ap (λ l. i.instr_id ∷ l) rest)
      (merge_ids-right (ids (decoded_part is)) i.instr_id (ids (undecoded_part is)) a
        ∙ ap (λ l. i.instr_id ∷ l) rest)
  where
    by_part :
        (b : Bool)
        → merge_ids (i.instr_id ∷ ids (decoded_part is)) (ids (undecoded_part is)) ≡ ids (i ∷ is)
        → merge_ids (ids (decoded_part is)) (i.instr_id ∷ ids (undecoded_part is)) ≡ ids (i ∷ is)
        → merge_ids
            (ids (if b then i ∷ decoded_part is else decoded_part is))
            (ids (if b then undecoded_part is else i ∷ undecoded_part is))
          ≡ ids (i ∷ is)
    by_part true e f = e
    by_part false e f = f
