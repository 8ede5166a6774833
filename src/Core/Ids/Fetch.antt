-- ===== src/Core/Ids/Fetch.antt =====
-- src/ooo_cpu.cc, `check_dib` and `fetch_instruction` keep the instructions of the buffer of fetches.
use cscore_sstelem.Prelude.{
  ℕ, zero, suc, ◌≡◌, refl, ap, ap₂, sym, ◌∙◌, List, [], ◌∷◌, ◌++◌, map, Bool, true, false, not,
  ◌&&◌, ◌==◌, if◌then◌else◌, if_cases, arith,
}
use cscore_sstelem.Channel.{Channel}
use cscore_sstelem.LruTable.{LruTable}
use cscore_sstelem.Core.{Instruction, block_number}
use cscore_sstelem.Core.Reorder.{ids, ids-append, ids-map}
use cscore_sstelem.Core.Fetch.{
  do_check_dib, check_window, split_at_first, same_block_run, do_fetch_instruction, fetch_each,
  is_empty,
}
use cscore_sstelem.Core.Ids.{SameIds}

pub check_window-ids :
    (n now shamt : ℕ) (dib : LruTable ℕ) (is : List Instruction)
    → SameIds is (check_window n now shamt dib is).1
unfolding check_window do_check_dib
check_window-ids zero now shamt dib is = refl
check_window-ids (suc n) now shamt dib [] = refl
check_window-ids (suc n) now shamt dib (i ∷ is) =
    ap₂ ◌∷◌ (ground arith) (check_window-ids n now shamt (do_check_dib now shamt dib i).0 is)

pub split_at_first-append :
    (test : Instruction → Bool) (is : List Instruction)
    → let (before, from) = split_at_first test is in before ++ from ≡ is
unfolding split_at_first
split_at_first-append test [] = refl
split_at_first-append test (i ∷ is) =
    if_cases (λ (r : List Instruction × List Instruction). r.0 ++ r.1 ≡ i ∷ is) (test i) (λ _. refl)
      (λ _. ap (λ l. i ∷ l) (split_at_first-append test is))

same_block_run-append :
    (is : List Instruction) → let (run, rest) = same_block_run is in run ++ rest ≡ is
unfolding same_block_run
same_block_run-append [] = refl
same_block_run-append (i ∷ []) = refl
same_block_run-append (i ∷ j ∷ is) =
    if_cases (λ (r : List Instruction × List Instruction). r.0 ++ r.1 ≡ i ∷ j ∷ is)
      (block_number i.ip == block_number j.ip)
      (λ _. ap (λ l. i ∷ l) (same_block_run-append (j ∷ is))) (λ _. refl)

if-map-ids :
    (b : Bool) (f : Instruction → Instruction) (is : List Instruction)
    → ((i : Instruction) → (f i).instr_id ≡ i.instr_id)
    → ids (if b then map f is else is) ≡ ids is
if-map-ids true f is h = ids-map f is h
if-map-ids false f is h = refl

pub fetch_each-ids :
    (n cpu : ℕ) (bus : Channel) (is : List Instruction) → SameIds is (fetch_each n cpu bus is).1
unfolding fetch_each
fetch_each-ids zero cpu bus is = refl
fetch_each-ids (suc n) cpu bus is =
    let (before, from) =
      split_at_first (λ (x : Instruction). x.dib_checked && not x.fetch_issued) is in
    let (run, rest) = same_block_run from in
    let (bus₁, success) = do_fetch_instruction bus cpu run in
    let (bus₂, rest', lines) = fetch_each n cpu bus₁ rest in
    let issued = map (λ (x : Instruction). record x { fetch_issued = true }) run in
    if_cases (λ (r : Channel × List Instruction × ℕ). SameIds is r.1) (is_empty from) (λ _. refl)
      (λ _.
        ids-append before ((if success then issued else run) ++ rest')
        ∙ ap (λ l. ids before ++ l)
            (ids-append (if success then issued else run) rest'
              ∙ ap₂ ◌++◌ (if-map-ids success _ run (λ i. refl)) (fetch_each-ids n cpu bus₁ rest)
              ∙ sym (ids-append run rest)
              ∙ ap ids (same_block_run-append from))
        ∙ sym (ids-append before from)
        ∙ ap ids
            (split_at_first-append (λ (x : Instruction). x.dib_checked && not x.fetch_issued) is))
