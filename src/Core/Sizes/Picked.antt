-- ===== src/Core/Sizes/Picked.antt =====
-- src/ooo_cpu.cc, the loops of `decode_instruction`: how many instructions they pick.
use cscore_sstelem.Prelude.{
  ℕ, zero, suc, ◌+◌, ◌≤◌, ◌≡◌, List, [], ◌∷◌, not, ◌&&◌, length, leb, if◌then◌else◌, if_cases,
  arith, length-append,
}
use cscore_sstelem.Core.{Instruction, program_order}
use cscore_sstelem.Core.Decode.{
  merge, merge_right, Picked, pick_none, take_dib, take_decode, pick_both, pick_dib, pick_decode,
  is_before_all, joined, pick,
}

-- What is picked, with the bandwidth that is left, is no more than the bandwidth, and what is left of
-- the buffers no more than the buffers.
abbrev pub Counts : ℕ → List Instruction → List Instruction → Picked → Type 0
Counts n xs ys p =
    (length p.dib_taken + length p.decode_taken + p.inorder_bw ≤ n)
    × (length p.dib_left ≤ length xs)
    × (length p.decode_left ≤ length ys)

Counts-none : (n d : ℕ) (xs ys : List Instruction) → Counts n xs ys (pick_none n d xs ys)
Counts-none n d xs ys = (omega arith, omega arith, omega arith)

Counts-dib :
    (n : ℕ) (x : Instruction) (xs ys : List Instruction) (p : Picked)
    → Counts n xs ys p
    → Counts (suc n) (x ∷ xs) ys (take_dib x p)
Counts-dib n x xs ys p (a, b, c) = (omega (arith, a), omega (arith, b), c)

Counts-decode :
    (n : ℕ) (y : Instruction) (xs ys : List Instruction) (p : Picked)
    → Counts n xs ys p
    → Counts (suc n) xs (y ∷ ys) (take_decode y p)
Counts-decode n y xs ys p (a, b, c) = (omega (arith, a), b, omega (arith, c))

pick_both-Counts :
    (now n d : ℕ) (xs ys : List Instruction) → Counts n xs ys (pick_both now n d xs ys)
unfolding pick_both
pick_both-Counts now zero d xs ys = Counts-none 0 d xs ys
pick_both-Counts now (suc n) zero xs ys = Counts-none (suc n) 0 xs ys
pick_both-Counts now (suc n) (suc d) [] ys = Counts-none (suc n) (suc d) [] ys
pick_both-Counts now (suc n) (suc d) (x ∷ xs) [] = Counts-none (suc n) (suc d) (x ∷ xs) []
pick_both-Counts now (suc n) (suc d) (x ∷ xs) (y ∷ ys) =
    let P = Counts (suc n) (x ∷ xs) (y ∷ ys) in
    if_cases P (not (leb (if program_order y x then y else x).ready_time now))
      (λ _. Counts-none (suc n) (suc d) (x ∷ xs) (y ∷ ys))
      (λ _.
        if_cases P (program_order x y)
          (λ _.
            Counts-dib n x xs (y ∷ ys) (pick_both now n (suc d) xs (y ∷ ys))
              (pick_both-Counts now n (suc d) xs (y ∷ ys)))
          (λ _.
            Counts-decode n y (x ∷ xs) ys (pick_both now n d (x ∷ xs) ys)
              (pick_both-Counts now n d (x ∷ xs) ys)))

pick_dib-Counts : (now n d : ℕ) (xs ys : List Instruction) → Counts n xs ys (pick_dib now n d xs ys)
unfolding pick_dib
pick_dib-Counts now zero d xs ys = Counts-none 0 d xs ys
pick_dib-Counts now (suc n) d [] ys = Counts-none (suc n) d [] ys
pick_dib-Counts now (suc n) d (x ∷ xs) ys =
    if_cases (Counts (suc n) (x ∷ xs) ys) (leb x.ready_time now && is_before_all x ys)
      (λ _. Counts-dib n x xs ys (pick_dib now n d xs ys) (pick_dib-Counts now n d xs ys))
      (λ _. Counts-none (suc n) d (x ∷ xs) ys)

pick_decode-Counts :
    (now n d : ℕ) (xs ys : List Instruction) → Counts n xs ys (pick_decode now n d xs ys)
unfolding pick_decode
pick_decode-Counts now zero d xs ys = Counts-none 0 d xs ys
pick_decode-Counts now (suc n) zero xs ys = Counts-none (suc n) 0 xs ys
pick_decode-Counts now (suc n) (suc d) xs [] = Counts-none (suc n) (suc d) xs []
pick_decode-Counts now (suc n) (suc d) xs (y ∷ ys) =
    if_cases (Counts (suc n) xs (y ∷ ys)) (leb y.ready_time now && is_before_all y xs)
      (λ _. Counts-decode n y xs ys (pick_decode now n d xs ys) (pick_decode-Counts now n d xs ys))
      (λ _. Counts-none (suc n) (suc d) xs (y ∷ ys))

Counts-joined :
    (n : ℕ) (xs ys : List Instruction) (p q : Picked)
    → Counts n xs ys p
    → Counts p.inorder_bw p.dib_left p.decode_left q
    → Counts n xs ys (joined p q)
Counts-joined n xs ys p q (a, b, c) (a', b', c') = (
  omega (
    arith,
    a,
    a',
    length-append p.dib_taken q.dib_taken,
    length-append p.decode_taken q.decode_taken,
  ),
  omega (arith, b, b'),
  omega (arith, c, c'),
)

pub pick-Counts : (now n d : ℕ) (xs ys : List Instruction) → Counts n xs ys (pick now n d xs ys)
unfolding pick
pick-Counts now n d xs ys =
    let p = pick_both now n d xs ys in
    let q = pick_dib now p.inorder_bw p.decode_bw p.dib_left p.decode_left in
    let r = pick_decode now q.inorder_bw q.decode_bw q.dib_left q.decode_left in
    Counts-joined n xs ys p (joined q r) (pick_both-Counts now n d xs ys) (
      Counts-joined p.inorder_bw p.dib_left p.decode_left q r
        (pick_dib-Counts now p.inorder_bw p.decode_bw p.dib_left p.decode_left)
        (pick_decode-Counts now q.inorder_bw q.decode_bw q.dib_left q.decode_left))

length-merge_right :
    (x : Instruction) (rest : List Instruction → List Instruction) (n : ℕ) (ys : List Instruction)
    → ((zs : List Instruction) → length (rest zs) ≡ n + length zs)
    → length (merge_right x rest ys) ≡ suc n + length ys
unfolding merge_right
length-merge_right x rest n [] h = omega (arith, h [])
length-merge_right x rest n (y ∷ ys) h =
    if_cases (λ (l : List Instruction). length l ≡ suc n + suc (length ys)) (program_order y x)
      (λ _. omega (arith, length-merge_right x rest n ys h)) (λ _. omega (arith, h (y ∷ ys)))

pub length-merge : (xs ys : List Instruction) → length (merge xs ys) ≡ length xs + length ys
unfolding merge
length-merge [] ys = omega arith
length-merge (x ∷ xs) ys = length-merge_right x (merge xs) (length xs) ys (λ zs. length-merge xs zs)
