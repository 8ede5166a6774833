-- ===== src/Channel/Collision.antt =====
-- src/channel.cc, `check_collision`: requests to one block are merged, and reads of a block that is
-- being written are answered from the write.
use cscore_sstelem.Prelude.{
  ℕ, ◌+◌, ◌/◌, ◌^◌, List, [], ◌∷◌, ◌++◌, Bool, true, not, ◌||◌, Option, none, some, ltb, ◌==◌,
  if◌then◌else◌,
}
use cscore_sstelem.Channel.{Request, Response, Channel}

-- One step of `std::set_union`: `x` against the second range, and `rest` for what follows `x`.
unfoldable pub union_step : ℕ → (List ℕ → List ℕ) → List ℕ → List ℕ
union_step x rest [] = x ∷ rest []
union_step x rest (y ∷ ys) =
    let later = union_step x rest ys in
    if ltb x y then x ∷ rest (y ∷ ys) else if ltb y x then y ∷ later else x ∷ rest ys

unfoldable pub set_union : List ℕ → List ℕ → List ℕ
unfolding union_step
set_union [] ys = ys
set_union (x ∷ xs) ys = union_step x (set_union xs) ys

abbrev pub same_flag : Bool → Bool → Bool
same_flag a b = if a then b else not b

-- The two addresses have the same upper slice.
unfoldable pub same_block : ℕ → Request → Request → Bool
same_block shamt a b = (a.address / 2 ^ shamt) == (b.address / 2 ^ shamt)

-- The function of `do_collision_for_merge`: the destination after it.
unfoldable pub merge : Request → Request → Request
unfolding set_union
merge source destination = record destination {
  response_requested = destination.response_requested || source.response_requested;
  instr_depend_on_me = set_union destination.instr_depend_on_me source.instr_depend_on_me;
}

-- `do_collision_for_merge`: the range with the packet merged into it, if it was.
unfoldable pub do_collision_for_merge : ℕ → Request → List Request → Option (List Request)
unfolding same_block merge
do_collision_for_merge shamt packet [] = none
do_collision_for_merge shamt packet (x ∷ xs) =
    let rest = do_collision_for_merge shamt packet xs in
    if same_block shamt x packet
    then (if same_flag packet.is_translated x.is_translated
        then some (merge packet x ∷ xs)
        else none)
    else elim rest [ none ↦ none | some ys ↦ some (x ∷ ys) ]

-- `do_collision_for_return`: the write that answers the packet, if any.
unfoldable pub find_write : ℕ → Request → List Request → Option Request
unfolding same_block
find_write shamt packet [] = none
find_write shamt packet (x ∷ xs) =
    let rest = find_write shamt packet xs in
    if same_block shamt x packet
    then (if same_flag packet.is_translated x.is_translated then some x else none)
    else rest

-- What `returned` gets for it.
unfoldable pub forwarded : Request → Request → List Response
forwarded source destination =
    if source.response_requested
    then record {
      address = source.address;
      v_address = source.v_address;
      data_word = destination.data_word;
      pf_metadata = destination.pf_metadata;
      instr_depend_on_me = source.instr_depend_on_me;
    }
      ∷ []
    else []

-- The packets before the first one that has not been checked, and the others.
unfoldable pub split_checked : List Request → List Request × List Request
split_checked [] = ([], [])
split_checked (x ∷ xs) =
    let (done, todo) = split_checked xs in
    if x.forward_checked then (x ∷ done, todo) else ([], x ∷ xs)

-- The loop over the writes: the queue after it, and the number merged.
unfoldable pub merge_writes : ℕ → List Request → List Request → List Request × ℕ
unfolding do_collision_for_merge
merge_writes shamt done [] = (done, 0)
merge_writes shamt done (p ∷ todo) = elim (do_collision_for_merge shamt p done) [
  | some done' ↦ let (queue, merged) = merge_writes shamt done' todo in (queue, merged + 1)
  | none ↦ merge_writes shamt (done ++ (record p { forward_checked = true } ∷ [])) todo
]

pub record Checked : Type 0 where
  pub queue : List Request
  pub answers : List Response
  pub forwards : ℕ
  pub merges : ℕ

-- The loop over the reads, and the one over the prefetches.
unfoldable pub check_reads : ℕ → ℕ → List Request → List Request → List Request → Checked
unfolding do_collision_for_merge find_write forwarded
check_reads write_shamt read_shamt wq done [] = record {
  queue = done;
  answers = [];
  forwards = 0;
  merges = 0;
}
check_reads write_shamt read_shamt wq done (p ∷ todo) = elim (find_write write_shamt p wq) [
  | some write ↦
      let r = check_reads write_shamt read_shamt wq done todo in
      record r { answers = forwarded p write ++ r.answers; forwards = r.forwards + 1 }
  | none ↦ elim (do_collision_for_merge read_shamt p done) [
    | some done' ↦
        let r = check_reads write_shamt read_shamt wq done' todo in
        record r { merges = r.merges + 1 }
    | none ↦
        check_reads write_shamt read_shamt wq (done ++ (record p { forward_checked = true } ∷ []))
          todo
  ]
]

unfoldable pub check_collision : Channel → Channel
unfolding merge_writes check_reads split_checked
check_collision ch =
    let write_shamt = if ch.match_offset_bits then 0 else ch.offset_bits in
    let (wq_done, wq_todo) = split_checked ch.wq in
    let (wq', wq_merges) = merge_writes write_shamt wq_done wq_todo in
    let (rq_done, rq_todo) = split_checked ch.rq in
    let reads = check_reads write_shamt ch.offset_bits wq' rq_done rq_todo in
    let (pq_done, pq_todo) = split_checked ch.pq in
    let prefetches = check_reads write_shamt ch.offset_bits wq' pq_done pq_todo in
    record ch {
      rq = reads.queue;
      pq = prefetches.queue;
      wq = wq';
      returned = ch.returned ++ reads.answers ++ prefetches.answers;
      sim_stats = record (ch.sim_stats) {
        wq_merged = ch.sim_stats.wq_merged + wq_merges;
        rq_merged = ch.sim_stats.rq_merged + reads.merges;
        pq_merged = ch.sim_stats.pq_merged + prefetches.merges;
        wq_forward = ch.sim_stats.wq_forward + reads.forwards + prefetches.forwards;
      };
    }
