-- ===== src/Channel/Bounds.antt =====
-- src/channel.cc: no queue outgrows its size, and no request is lost from the counts.
use cscore_sstelem.Prelude.{
  ℕ, ◌+◌, ◌≤◌, ◌≡◌, refl, List, [], ◌∷◌, ◌++◌, Bool, true, false, some, ltb, length, length-append,
  arith, if◌then◌else◌, Option-cases, inl, inr,
}
use cscore_sstelem.Channel.{Request, Channel, do_add_queue, add_rq, add_wq, add_pq}
use cscore_sstelem.Channel.Collision.{
  do_collision_for_merge, find_write, split_checked, merge_writes, check_reads, check_collision,
}

-- No queue holds more than its size.
abbrev pub IsWithinSizes : Channel → Type 0
IsWithinSizes ch =
    (length ch.rq ≤ ch.rq_size) × (length ch.pq ≤ ch.pq_size) × (length ch.wq ≤ ch.wq_size)

do_add_queue-length :
    (queue : List Request) (size : ℕ) (packet : Request)
    → length queue ≤ size
    → let (queue', taken) = do_add_queue queue size packet in
      (length queue' ≤ size) × (length queue' ≡ (if taken then length queue + 1 else length queue))
unfolding do_add_queue
do_add_queue-length queue size packet h =
    ground (arith, length-append queue (record packet { forward_checked = false } ∷ []))

-- An addition to a queue, whose size is `size`: whether it is taken, the queue after it, and what it
-- counts, as an access, and as one to the cache or as one that found the queue full.
abbrev pub IsAdded :
    List Request → ℕ → Request → Bool → List Request → ℕ × ℕ × ℕ → ℕ × ℕ × ℕ → Type 0
IsAdded queue size packet taken queue' (access, to_cache, full) (access', to_cache', full') =
    (taken ≡ ltb (length queue) size)
    × (queue'
        ≡ (if taken then queue ++ (record packet { forward_checked = false } ∷ []) else queue))
    × (access' ≡ access + 1)
    × (to_cache' ≡ (if taken then to_cache + 1 else to_cache))
    × (full' ≡ (if taken then full else full + 1))

-- Each of the three additions, to a channel whose queues hold no more than their sizes, keeps them so. It
-- takes the packet exactly if its queue holds less than its size, and then puts it last, as not checked
-- for collisions; otherwise the queue stays as it is. It counts an access, and a packet to the cache if
-- it was taken, or else a full queue.
pub add-IsWithinSizes :
    (ch : Channel) (packet : Request)
    → IsWithinSizes ch
    → let (rch, r) = add_rq ch packet in
      let (wch, w) = add_wq ch packet in
      let (pch, p) = add_pq ch packet in
      let old = ch.sim_stats in
      let new_r = rch.sim_stats in
      let new_w = wch.sim_stats in
      let new_p = pch.sim_stats in
      IsWithinSizes rch
      × IsWithinSizes wch
      × IsWithinSizes pch
      × IsAdded ch.rq ch.rq_size packet r rch.rq
          (old.rq_access, old.rq_to_cache, old.rq_full)
          (new_r.rq_access, new_r.rq_to_cache, new_r.rq_full)
      × IsAdded ch.wq ch.wq_size packet w wch.wq
          (old.wq_access, old.wq_to_cache, old.wq_full)
          (new_w.wq_access, new_w.wq_to_cache, new_w.wq_full)
      × IsAdded ch.pq ch.pq_size packet p pch.pq
          (old.pq_access, old.pq_to_cache, old.pq_full)
          (new_p.pq_access, new_p.pq_to_cache, new_p.pq_full)
unfolding add_rq add_wq add_pq do_add_queue
add-IsWithinSizes ch packet h = ground (
  arith,
  do_add_queue-length ch.rq ch.rq_size packet,
  do_add_queue-length ch.wq ch.wq_size packet,
  do_add_queue-length ch.pq ch.pq_size packet,
)

do_collision_for_merge-length :
    (shamt : ℕ) (packet : Request) (xs ys : List Request)
    → do_collision_for_merge shamt packet xs ≡ some ys
    → length ys ≡ length xs
unfolding do_collision_for_merge
do_collision_for_merge-length shamt packet [] ys h = cc
do_collision_for_merge-length shamt packet (x ∷ xs) ys h =
    elim (Option-cases (do_collision_for_merge shamt packet xs)) [
      | inl e ↦ ground arith
      | inr (zs, e) ↦ ground (arith, do_collision_for_merge-length shamt packet xs zs e)
    ]

split_checked-length :
    (xs : List Request)
    → let (done, todo) = split_checked xs in length done + length todo ≡ length xs
unfolding split_checked
split_checked-length [] = refl
split_checked-length (x ∷ xs) = ground (arith, split_checked-length xs)

merge_writes-length :
    (shamt : ℕ) (done todo : List Request)
    → let (queue, merged) = merge_writes shamt done todo in
      length queue + merged ≡ length done + length todo
unfolding merge_writes
merge_writes-length shamt done [] = omega arith
merge_writes-length shamt done (p ∷ todo) =
    elim (Option-cases (do_collision_for_merge shamt p done)) [
      | inl e ↦
          rw (e, merge_writes)
            (omega (
              arith,
              merge_writes-length shamt (done ++ (record p { forward_checked = true } ∷ [])) todo,
              length-append done (record p { forward_checked = true } ∷ []),
            ))
      | inr (done', e) ↦
          rw (e, merge_writes)
            (omega (
              arith,
              merge_writes-length shamt done' todo,
              do_collision_for_merge-length shamt p done done' e,
            ))
    ]

check_reads-length :
    (write_shamt read_shamt : ℕ) (wq done todo : List Request)
    → let r = check_reads write_shamt read_shamt wq done todo in
      length r.queue + r.merges + r.forwards ≡ length done + length todo
unfolding check_reads
check_reads-length write_shamt read_shamt wq done [] = omega arith
check_reads-length write_shamt read_shamt wq done (p ∷ todo) =
    elim (Option-cases (find_write write_shamt p wq)) [
      | inr (write, e) ↦
          rw (e, check_reads)
            (omega (arith, check_reads-length write_shamt read_shamt wq done todo))
      | inl none_found ↦ elim (Option-cases (do_collision_for_merge read_shamt p done)) [
        | inl e ↦
            rw (none_found, e, check_reads)
              (omega (
                arith,
                check_reads-length write_shamt read_shamt wq
                    (done ++ (record p { forward_checked = true } ∷ [])) todo,
                length-append done (record p { forward_checked = true } ∷ []),
              ))
        | inr (done', e) ↦
            rw (none_found, e, check_reads)
              (omega (
                arith,
                check_reads-length write_shamt read_shamt wq done' todo,
                do_collision_for_merge-length read_shamt p done done' e,
              ))
      ]
    ]

-- `check_collision` lets no request vanish from the counts: those that leave a queue are counted, as
-- merged ones of that queue or as reads and prefetches that a write has answered.
pub check_collision-counts :
    (ch : Channel)
    → let ch' = check_collision ch in
      (length ch'.wq + ch'.sim_stats.wq_merged ≡ length ch.wq + ch.sim_stats.wq_merged)
      × (length ch'.rq
            + length ch'.pq
            + ch'.sim_stats.rq_merged
            + ch'.sim_stats.pq_merged
            + ch'.sim_stats.wq_forward
          ≡ length ch.rq
            + length ch.pq
            + ch.sim_stats.rq_merged
            + ch.sim_stats.pq_merged
            + ch.sim_stats.wq_forward)
unfolding check_collision
check_collision-counts ch =
    let write_shamt = if ch.match_offset_bits then 0 else ch.offset_bits in
    let (wq_done, wq_todo) = split_checked ch.wq in
    let wq' = (merge_writes write_shamt wq_done wq_todo).0 in
    let (rq_done, rq_todo) = split_checked ch.rq in
    let (pq_done, pq_todo) = split_checked ch.pq in
    let writes = merge_writes-length write_shamt wq_done wq_todo in
    let reads = check_reads-length write_shamt ch.offset_bits wq' rq_done rq_todo in
    let prefetches = check_reads-length write_shamt ch.offset_bits wq' pq_done pq_todo in
    (
      omega (arith, writes, split_checked-length ch.wq),
      omega (arith, reads, prefetches, split_checked-length ch.rq, split_checked-length ch.pq),
    )
