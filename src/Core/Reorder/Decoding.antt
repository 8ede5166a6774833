-- ===== src/Core/Reorder/Decoding.antt =====
-- src/ooo_cpu.cc, the loops of `decode_instruction`: what they pick from the two buffers.
use cscore_sstelem.Prelude.{
  ℕ, zero, suc, ◌≤◌, ◌<◌, ◌≡◌, refl, ap, ap₂, subst, sym, ◌∙◌, List, [], ◌∷◌, ◌++◌, append_assoc,
  Bool, true, false, not, ◌&&◌, ltb, leb, if◌then◌else◌, if_cases, arith,
}
use cscore_sstelem.Core.{Instruction, program_order}
use cscore_sstelem.Core.Ascending.{
  Above, Ascending, merge_ids, Above-split, Ascending-split, AllBelow-split, merge_ids-left,
  merge_ids-right, merge_ids-front_left, merge_ids-front_right, merge-Above, merge-AllBelow,
  merge-Ascending, merge_ids-later,
}
use cscore_sstelem.Core.Decode.{
  Picked, pick_none, take_dib, take_decode, pick_both, pick_dib, pick_decode, is_before_all, joined,
  pick,
}
use cscore_sstelem.Core.Reorder.{ids, ids-append}
use cscore_sstelem.Core.Ascending.{AllBelow-merge}

-- What is picked from two buffers comes before what is left of them.
abbrev pub Picks : List ℕ → List ℕ → Picked → Type 0
Picks xs ys p =
    (xs ≡ ids p.dib_taken ++ ids p.dib_left)
    × (ys ≡ ids p.decode_taken ++ ids p.decode_left)
    × (merge_ids xs ys
        ≡ merge_ids (ids p.dib_taken) (ids p.decode_taken)
          ++ merge_ids (ids p.dib_left) (ids p.decode_left))

Picks-none : (n d : ℕ) (xs ys : List Instruction) → Picks (ids xs) (ids ys) (pick_none n d xs ys)
unfolding merge_ids
Picks-none n d xs ys = (refl, refl, refl)

Picks-dib :
    (x : Instruction) (xs ys : List ℕ) (p : Picked)
    → Above x.instr_id ys
    → Picks xs ys p
    → Picks (x.instr_id ∷ xs) ys (take_dib x p)
Picks-dib x xs ys p above (a, b, c) =
    let taken =
      (Above-split x.instr_id (ids p.decode_taken) (ids p.decode_left)
        (subst (Above x.instr_id) b above)).0 in
    (
      ap (λ l. x.instr_id ∷ l) a,
      b,
      merge_ids-left x.instr_id xs ys above
          ∙ ap (λ l. x.instr_id ∷ l) c
          ∙ ap (λ l. l ++ merge_ids (ids p.dib_left) (ids p.decode_left))
              (sym (merge_ids-left x.instr_id (ids p.dib_taken) (ids p.decode_taken) taken)),
    )

Picks-decode :
    (y : Instruction) (xs ys : List ℕ) (p : Picked)
    → Above y.instr_id xs
    → Picks xs ys p
    → Picks xs (y.instr_id ∷ ys) (take_decode y p)
Picks-decode y xs ys p above (a, b, c) =
    let taken =
      (Above-split y.instr_id (ids p.dib_taken) (ids p.dib_left)
        (subst (Above y.instr_id) a above)).0 in
    (
      a,
      ap (λ l. y.instr_id ∷ l) b,
      merge_ids-right xs y.instr_id ys above
          ∙ ap (λ l. y.instr_id ∷ l) c
          ∙ ap (λ l. l ++ merge_ids (ids p.dib_left) (ids p.decode_left))
              (sym (merge_ids-right (ids p.dib_taken) y.instr_id (ids p.decode_taken) taken)),
    )

-- The fronts of two buffers whose merge is ascending: the smaller is below the rest of both.
front_dib :
    (x y : ℕ) (xs ys : List ℕ)
    → Ascending (merge_ids (x ∷ xs) (y ∷ ys))
    → x ≤ y
    → Above x (y ∷ ys) × Ascending (merge_ids xs (y ∷ ys))
front_dib x y xs ys h le =
    let (above, rest) = subst Ascending (merge_ids-front_left x y xs ys le) h in
    ((merge-Above x xs (y ∷ ys) above).1, rest)

front_decode :
    (x y : ℕ) (xs ys : List ℕ)
    → Ascending (merge_ids (x ∷ xs) (y ∷ ys))
    → y < x
    → Above y (x ∷ xs) × Ascending (merge_ids (x ∷ xs) ys)
front_decode x y xs ys h lt =
    let (above, rest) = subst Ascending (merge_ids-front_right x y xs ys lt) h in
    ((merge-Above y (x ∷ xs) ys above).0, rest)

must_follow :
    (x y : ℕ) (xs ys : List ℕ) → Ascending (merge_ids (x ∷ xs) (y ∷ ys)) → ltb x y ≡ false → y < x
must_follow x y xs ys h f = ground (arith, (merge-Ascending x y xs ys h).1)

pick_both-Picks :
    (now n d : ℕ) (xs ys : List Instruction)
    → Ascending (merge_ids (ids xs) (ids ys))
    → Picks (ids xs) (ids ys) (pick_both now n d xs ys)
unfolding pick_both
pick_both-Picks now zero d xs ys h = Picks-none 0 d xs ys
pick_both-Picks now (suc n) zero xs ys h = Picks-none (suc n) 0 xs ys
pick_both-Picks now (suc n) (suc d) [] ys h = Picks-none (suc n) (suc d) [] ys
pick_both-Picks now (suc n) (suc d) (x ∷ xs) [] h = Picks-none (suc n) (suc d) (x ∷ xs) []
pick_both-Picks now (suc n) (suc d) (x ∷ xs) (y ∷ ys) h =
    let P = Picks (ids (x ∷ xs)) (ids (y ∷ ys)) in
    if_cases P (not (leb (if program_order y x then y else x).ready_time now))
      (λ _. Picks-none (suc n) (suc d) (x ∷ xs) (y ∷ ys))
      (λ _.
        if_cases P (program_order x y)
          (λ less.
            let (above, rest) =
              front_dib x.instr_id y.instr_id (ids xs) (ids ys) h (ground (arith, less)) in
            Picks-dib x (ids xs) (ids (y ∷ ys)) (pick_both now n (suc d) xs (y ∷ ys)) above
              (pick_both-Picks now n (suc d) xs (y ∷ ys) rest))
          (λ more.
            let lt = must_follow x.instr_id y.instr_id (ids xs) (ids ys) h more in
            let (above, rest) = front_decode x.instr_id y.instr_id (ids xs) (ids ys) h lt in
            Picks-decode y (ids (x ∷ xs)) (ids ys) (pick_both now n d (x ∷ xs) ys) above
              (pick_both-Picks now n d (x ∷ xs) ys rest)))

before_all :
    (x : Instruction) (xs : List ℕ) (ys : List Instruction)
    → Ascending (merge_ids (x.instr_id ∷ xs) (ids ys))
    → is_before_all x ys ≡ true
    → Above x.instr_id (ids ys) × Ascending (merge_ids xs (ids ys))
unfolding merge_ids
before_all x xs [] h e = (tt, h.1)
before_all x xs (y ∷ ys) h e = front_dib x.instr_id y.instr_id xs (ids ys) h (ground (arith, e))

after_all :
    (y : Instruction) (xs : List Instruction) (ys : List ℕ)
    → Ascending (merge_ids (ids xs) (y.instr_id ∷ ys))
    → is_before_all y xs ≡ true
    → Above y.instr_id (ids xs) × Ascending (merge_ids (ids xs) ys)
unfolding merge_ids
after_all y [] ys h e = (tt, h.1)
after_all y (x ∷ xs) ys h e = front_decode x.instr_id y.instr_id (ids xs) ys h (ground (arith, e))

both_true : (a b : Bool) → (a && b) ≡ true → b ≡ true
both_true true b e = e
both_true false b e = cc

pick_dib-Picks :
    (now n d : ℕ) (xs ys : List Instruction)
    → Ascending (merge_ids (ids xs) (ids ys))
    → Picks (ids xs) (ids ys) (pick_dib now n d xs ys)
unfolding pick_dib
pick_dib-Picks now zero d xs ys h = Picks-none 0 d xs ys
pick_dib-Picks now (suc n) d [] ys h = Picks-none (suc n) d [] ys
pick_dib-Picks now (suc n) d (x ∷ xs) ys h =
    if_cases (Picks (ids (x ∷ xs)) (ids ys)) (leb x.ready_time now && is_before_all x ys)
      (λ e.
        let (above, rest) = before_all x (ids xs) ys h (both_true (leb x.ready_time now) _ e) in
        Picks-dib x (ids xs) (ids ys) (pick_dib now n d xs ys) above
          (pick_dib-Picks now n d xs ys rest))
      (λ _. Picks-none (suc n) d (x ∷ xs) ys)

pick_decode-Picks :
    (now n d : ℕ) (xs ys : List Instruction)
    → Ascending (merge_ids (ids xs) (ids ys))
    → Picks (ids xs) (ids ys) (pick_decode now n d xs ys)
unfolding pick_decode
pick_decode-Picks now zero d xs ys h = Picks-none 0 d xs ys
pick_decode-Picks now (suc n) zero xs ys h = Picks-none (suc n) 0 xs ys
pick_decode-Picks now (suc n) (suc d) xs [] h = Picks-none (suc n) (suc d) xs []
pick_decode-Picks now (suc n) (suc d) xs (y ∷ ys) h =
    if_cases (Picks (ids xs) (ids (y ∷ ys))) (leb y.ready_time now && is_before_all y xs)
      (λ e.
        let (above, rest) = after_all y xs (ids ys) h (both_true (leb y.ready_time now) _ e) in
        Picks-decode y (ids xs) (ids ys) (pick_decode now n d xs ys) above
          (pick_decode-Picks now n d xs ys rest))
      (λ _. Picks-none (suc n) (suc d) xs (y ∷ ys))

-- What is left of an ascending merge is ascending.
Picks-left :
    (xs ys : List ℕ) (p : Picked)
    → Picks xs ys p
    → Ascending (merge_ids xs ys)
    → Ascending (merge_ids (ids p.dib_left) (ids p.decode_left))
Picks-left xs ys p (a, b, c) h =
    (Ascending-split (merge_ids (ids p.dib_taken) (ids p.decode_taken)) _ (subst Ascending c h)).1

Picks-joined :
    (xs ys : List ℕ) (p q : Picked)
    → Ascending (merge_ids xs ys)
    → Picks xs ys p
    → Picks (ids p.dib_left) (ids p.decode_left) q
    → Picks xs ys (joined p q)
Picks-joined xs ys p q h (a, b, c) (a', b', c') =
    let first = merge_ids (ids p.dib_taken) (ids p.decode_taken) in
    let second = merge_ids (ids q.dib_taken) (ids q.decode_taken) in
    let left = merge_ids (ids q.dib_left) (ids q.decode_left) in
    let whole : merge_ids xs ys ≡ first ++ (second ++ left) = c ∙ ap (λ l. first ++ l) c' in
    let below = (Ascending-split first (second ++ left) (subst Ascending whole h)).2 in
    let (dib, decode) =
      merge-AllBelow (ids p.dib_taken) (ids p.decode_taken) second
        (AllBelow-split first second left below).0 in
    let (dd, de) = AllBelow-merge (ids p.dib_taken) (ids q.dib_taken) (ids q.decode_taken) dib in
    let (ed, ee) =
      AllBelow-merge (ids p.decode_taken) (ids q.dib_taken) (ids q.decode_taken) decode in
    let taken =
      ap₂ merge_ids (ids-append p.dib_taken q.dib_taken) (ids-append p.decode_taken q.decode_taken)
      ∙ merge_ids-later (ids p.dib_taken) (ids p.decode_taken) (ids q.dib_taken)
          (ids q.decode_taken) dd de ed ee in
    (
      a
          ∙ ap (λ l. ids p.dib_taken ++ l) a'
          ∙ sym (append_assoc (ids p.dib_taken) (ids q.dib_taken) (ids q.dib_left))
          ∙ ap (λ l. l ++ ids q.dib_left) (sym (ids-append p.dib_taken q.dib_taken)),
      b
          ∙ ap (λ l. ids p.decode_taken ++ l) b'
          ∙ sym (append_assoc (ids p.decode_taken) (ids q.decode_taken) (ids q.decode_left))
          ∙ ap (λ l. l ++ ids q.decode_left) (sym (ids-append p.decode_taken q.decode_taken)),
      whole ∙ sym (append_assoc first second left) ∙ ap (λ l. l ++ left) (sym taken),
    )

-- Decoding picks, from two buffers whose merge is in program order, the front of the merge: what it picks
-- from the buffers comes before what it leaves, whatever the bandwidths and the times.
pub pick-Picks :
    (now n d : ℕ) (xs ys : List Instruction)
    → Ascending (merge_ids (ids xs) (ids ys))
    → Picks (ids xs) (ids ys) (pick now n d xs ys)
unfolding pick
pick-Picks now n d xs ys h =
    let p = pick_both now n d xs ys in
    let q = pick_dib now p.inorder_bw p.decode_bw p.dib_left p.decode_left in
    let r = pick_decode now q.inorder_bw q.decode_bw q.dib_left q.decode_left in
    let picked = pick_both-Picks now n d xs ys h in
    let h₁ = Picks-left (ids xs) (ids ys) p picked h in
    let picked₁ = pick_dib-Picks now p.inorder_bw p.decode_bw p.dib_left p.decode_left h₁ in
    let h₂ = Picks-left (ids p.dib_left) (ids p.decode_left) q picked₁ h₁ in
    Picks-joined (ids xs) (ids ys) p (joined q r) h picked (
      Picks-joined (ids p.dib_left) (ids p.decode_left) q r h₁ picked₁
        (pick_decode-Picks now q.inorder_bw q.decode_bw q.dib_left q.decode_left h₂))
