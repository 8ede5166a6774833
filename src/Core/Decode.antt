-- ===== src/Core/Decode.antt =====
-- src/ooo_cpu.cc, `promote_to_decode` and `decode_instruction`: instructions that hit in the DIB wait in a
-- buffer of their own, if it has room for any, and join the others again in program order.
use cscore_sstelem.Prelude.{
  ℕ, zero, suc, ◌+◌, ◌-◌, List, [], ◌∷◌, ◌++◌, Bool, true, false, not, ◌&&◌, ◌||◌, some, map,
  length, min, leb, ◌==◌, if◌then◌else◌,
}
use cscore_sstelem.LruTable.{LruTable}
use cscore_sstelem.LruTable
use cscore_sstelem.Span.{span_while}
use cscore_sstelem.Core.{
  Instruction, Core, direct_jump, direct_call, conditional, other_branch, program_order,
  after_latency,
}
use cscore_sstelem.Core.Fetch.{dib_shift}

-- `std::stable_partition` by `decoded`: the first part, and the second.
unfoldable pub decoded_part : List Instruction → List Instruction
decoded_part [] = []
decoded_part (i ∷ is) = if i.decoded then i ∷ decoded_part is else decoded_part is

unfoldable pub undecoded_part : List Instruction → List Instruction
undecoded_part [] = []
undecoded_part (i ∷ is) = if i.decoded then undecoded_part is else i ∷ undecoded_part is

-- `std::merge` in program order: of two equal ones, the first list's comes first.
unfoldable pub merge_right :
    Instruction → (List Instruction → List Instruction) → List Instruction → List Instruction
merge_right x rest [] = x ∷ rest []
merge_right x rest (y ∷ ys) =
    if program_order y x then y ∷ merge_right x rest ys else x ∷ rest (y ∷ ys)

unfoldable pub merge : List Instruction → List Instruction → List Instruction
unfolding merge_right
merge [] ys = ys
merge (x ∷ xs) ys = merge_right x (merge xs) ys

-- What the loops of `decode_instruction` have taken from the two buffers, and what is left of the
-- buffers and of the two bandwidths.
pub record Picked : Type 0 where
  pub dib_taken : List Instruction
  pub dib_left : List Instruction
  pub decode_taken : List Instruction
  pub decode_left : List Instruction
  pub inorder_bw : ℕ
  pub decode_bw : ℕ

abbrev pub pick_none : ℕ → ℕ → List Instruction → List Instruction → Picked
pick_none n d xs ys = record {
  dib_taken = [];
  dib_left = xs;
  decode_taken = [];
  decode_left = ys;
  inorder_bw = n;
  decode_bw = d;
}

abbrev pub take_dib : Instruction → Picked → Picked
take_dib x p = record p { dib_taken = x ∷ p.dib_taken }

abbrev pub take_decode : Instruction → Picked → Picked
take_decode y p = record p { decode_taken = y ∷ p.decode_taken }

-- The first loop, while both buffers have instructions.
unfoldable pub pick_both : ℕ → ℕ → ℕ → List Instruction → List Instruction → Picked
pick_both now zero d xs ys = pick_none 0 d xs ys
pick_both now (suc n) zero xs ys = pick_none (suc n) 0 xs ys
pick_both now (suc n) (suc d) [] ys = pick_none (suc n) (suc d) [] ys
pick_both now (suc n) (suc d) (x ∷ xs) [] = pick_none (suc n) (suc d) (x ∷ xs) []
pick_both now (suc n) (suc d) (x ∷ xs) (y ∷ ys) =
    let front = if program_order y x then y else x in
    let from_dib = take_dib x (pick_both now n (suc d) xs (y ∷ ys)) in
    let from_decode = take_decode y (pick_both now n d (x ∷ xs) ys) in
    if not (leb front.ready_time now)
    then pick_none (suc n) (suc d) (x ∷ xs) (y ∷ ys)
    else if program_order x y
    then from_dib
    else from_decode

-- Whether an instruction comes before all of a buffer.
abbrev pub is_before_all : Instruction → List Instruction → Bool
is_before_all i [] = true
is_before_all i (j ∷ js) = program_order i j

-- The second loop.
unfoldable pub pick_dib : ℕ → ℕ → ℕ → List Instruction → List Instruction → Picked
pick_dib now zero d xs ys = pick_none 0 d xs ys
pick_dib now (suc n) d [] ys = pick_none (suc n) d [] ys
pick_dib now (suc n) d (x ∷ xs) ys =
    let more = take_dib x (pick_dib now n d xs ys) in
    if leb x.ready_time now && is_before_all x ys then more else pick_none (suc n) d (x ∷ xs) ys

-- The third loop.
unfoldable pub pick_decode : ℕ → ℕ → ℕ → List Instruction → List Instruction → Picked
pick_decode now zero d xs ys = pick_none 0 d xs ys
pick_decode now (suc n) zero xs ys = pick_none (suc n) 0 xs ys
pick_decode now (suc n) (suc d) xs [] = pick_none (suc n) (suc d) xs []
pick_decode now (suc n) (suc d) xs (y ∷ ys) =
    let more = take_decode y (pick_decode now n d xs ys) in
    if leb y.ready_time now && is_before_all y xs
    then more
    else pick_none (suc n) (suc d) xs (y ∷ ys)

abbrev pub joined : Picked → Picked → Picked
joined p q = record q {
  dib_taken = p.dib_taken ++ q.dib_taken;
  decode_taken = p.decode_taken ++ q.decode_taken;
}

unfoldable pub pick : ℕ → ℕ → ℕ → List Instruction → List Instruction → Picked
unfolding pick_both pick_dib pick_decode
pick now n d xs ys =
    let p = pick_both now n d xs ys in
    let q = pick_dib now p.inorder_bw p.decode_bw p.dib_left p.decode_left in
    let r = pick_decode now q.inorder_bw q.decode_bw q.dib_left q.decode_left in
    joined p (joined q r)

-- The branches whose misprediction shows when they are decoded.
abbrev pub resumes_at_decode : Instruction → Bool
resumes_at_decode i =
    i.branch_mispredicted
    && (i.branch == direct_jump
        || i.branch == direct_call
        || ((i.branch == conditional || i.branch == other_branch)
            && (i.branch_taken && i.branch_prediction
                || not i.branch_taken && not i.branch_prediction)))

module _ {B : Type 0} where
  -- `do_decode`, with `do_dib_update`.
  unfoldable pub do_decode : Core B → Instruction → Core B × Instruction
  do_decode c i =
      let shift = dib_shift c.dib_shamt in
      let updated : Core B = record c { dib = LruTable.fill shift shift c.dib i.ip } in
      let i' : Instruction = record i { ready_time = after_latency c c.dispatch_latency } in
      if resumes_at_decode i
      then (
        record updated { fetch_resume_time = some (c.current_time + c.branch_mispredict_penalty) },
        record i' { branch_mispredicted = false },
      )
      else (updated, i')

  unfoldable pub decode_each : Core B → List Instruction → Core B × List Instruction
  unfolding do_decode
  decode_each c [] = (c, [])
  decode_each c (i ∷ is) =
      let (c₁, i') = do_decode c i in let (c₂, is') = decode_each c₁ is in (c₂, i' ∷ is')

  abbrev pub do_dib_hit : Core B → Instruction → Instruction
  do_dib_hit c i = record i { ready_time = after_latency c c.dispatch_latency }

  -- `decode_instruction` where the buffer of DIB hits has no room.
  unfoldable pub decode_in_order : Core B → Core B × ℕ
  unfolding span_while decode_each
  decode_in_order c =
      let room = c.dispatch_buffer_size - length c.dispatch_buffer in
      let (taken, left) =
        span_while (λ (x : Instruction). leb x.ready_time c.current_time)
          (min c.decode_width (min c.decode_width room)) c.decode_buffer in
      let (c', decoded) = decode_each c taken in
      (
        record c' { dispatch_buffer = c.dispatch_buffer ++ decoded; decode_buffer = left },
        length taken,
      )

  unfoldable pub decode_merging : Core B → Core B × ℕ
  unfolding pick decode_each merge
  decode_merging c =
      let room = c.dispatch_buffer_size - length c.dispatch_buffer in
      let p =
        pick c.current_time (min c.dib_inorder_width room) c.decode_width c.dib_hit_buffer
          c.decode_buffer in
      let (c', decoded) = decode_each c p.decode_taken in
      (
        record c' {
          dispatch_buffer = c.dispatch_buffer ++ merge (map (do_dib_hit c) p.dib_taken) decoded;
          decode_buffer = p.decode_left;
          dib_hit_buffer = p.dib_left;
        },
        length p.dib_taken + length p.decode_taken,
      )

  unfoldable pub decode_instruction : Core B → Core B × ℕ
  unfolding decode_in_order decode_merging
  decode_instruction c = if c.dib_hit_buffer_size == 0 then decode_in_order c else decode_merging c

  abbrev pub mark_for_decode : Core B → Instruction → Instruction
  mark_for_decode c i = record i { ready_time = after_latency c c.decode_latency }

  abbrev pub mark_for_dib : Core B → Instruction → Instruction
  mark_for_dib c i = record i { ready_time = c.current_time + c.dib_hit_latency }

  -- How many instructions `promote_to_decode` may take.
  abbrev pub promote_width : Core B → ℕ
  promote_width c =
      let room = c.decode_buffer_size - length c.decode_buffer in
      if c.dib_hit_buffer_size == 0
      then min c.fetch_width room
      else min c.fetch_width (min (c.dib_hit_buffer_size - length c.dib_hit_buffer) room)

  -- The search for the first that is not fetched is one with the test of the window.
  unfoldable pub promote_to_decode : Core B → Core B × ℕ
  unfolding span_while decoded_part undecoded_part
  promote_to_decode c =
      let (window, left) =
        span_while (λ (x : Instruction). x.fetch_completed && leb x.ready_time c.current_time)
          (promote_width c) c.ifetch_buffer in
      (
        (if c.dib_hit_buffer_size == 0
            then record c {
              decode_buffer =
                  c.decode_buffer
                  ++ map
                      (λ (i : Instruction).
                        if i.decoded then mark_for_dib c i else mark_for_decode c i)
                      window;
              ifetch_buffer = left;
            }
            else record c {
              dib_hit_buffer = c.dib_hit_buffer ++ map (mark_for_dib c) (decoded_part window);
              decode_buffer = c.decode_buffer ++ map (mark_for_decode c) (undecoded_part window);
              ifetch_buffer = left;
            }),
        length window,
      )
