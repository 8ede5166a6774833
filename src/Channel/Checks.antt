-- ===== src/Channel/Checks.antt =====
-- src/channel.cc, `check_collision`: afterwards every request has been checked.
use cscore_sstelem.Prelude.{
  ℕ, ◌≡◌, refl, sym, subst, List, [], ◌∷◌, ◌++◌, map, Bool, true, some, arith, if◌then◌else◌,
  Option-cases, inl, inr, if_cases,
}
use cscore_sstelem.Channel.{Request, Channel}
use cscore_sstelem.Channel.Collision.{
  do_collision_for_merge, find_write, split_checked, merge_writes, check_reads, check_collision,
}

abbrev AllTrue : List Bool → Type 0
AllTrue [] = Unit {0}
AllTrue (b ∷ bs) = (b ≡ true) × AllTrue bs

abbrev flags : List Request → List Bool
flags xs = map (λ x. x.forward_checked) xs

-- All packets of a list have been checked.
abbrev pub AllChecked : List Request → Type 0
AllChecked xs = AllTrue (flags xs)

AllChecked-append :
    (xs : List Request) (p : Request)
    → AllChecked xs
    → AllChecked (xs ++ (record p { forward_checked = true } ∷ []))
AllChecked-append [] p h = (refl, tt)
AllChecked-append (x ∷ xs) p h = (h.0, AllChecked-append xs p h.1)

split_checked-AllChecked : (xs : List Request) → AllChecked (split_checked xs).0
unfolding split_checked
split_checked-AllChecked [] = tt
split_checked-AllChecked (x ∷ xs) =
    if_cases (λ (r : List Request × List Request). AllChecked r.0) x.forward_checked
      (λ e. (e, split_checked-AllChecked xs)) (λ e. tt)

do_collision_for_merge-flags :
    (shamt : ℕ) (packet : Request) (xs ys : List Request)
    → do_collision_for_merge shamt packet xs ≡ some ys
    → flags ys ≡ flags xs
unfolding do_collision_for_merge
do_collision_for_merge-flags shamt packet [] ys h = cc
do_collision_for_merge-flags shamt packet (x ∷ xs) ys h =
    elim (Option-cases (do_collision_for_merge shamt packet xs)) [
      | inl e ↦ ground arith
      | inr (zs, e) ↦ ground (arith, do_collision_for_merge-flags shamt packet xs zs e)
    ]

do_collision_for_merge-AllChecked :
    (shamt : ℕ) (packet : Request) (xs ys : List Request)
    → AllChecked xs
    → do_collision_for_merge shamt packet xs ≡ some ys
    → AllChecked ys
do_collision_for_merge-AllChecked shamt packet xs ys c h =
    subst AllTrue (sym (do_collision_for_merge-flags shamt packet xs ys h)) c

merge_writes-AllChecked :
    (shamt : ℕ) (done todo : List Request)
    → AllChecked done
    → AllChecked (merge_writes shamt done todo).0
unfolding merge_writes
merge_writes-AllChecked shamt done [] c = c
merge_writes-AllChecked shamt done (p ∷ todo) c =
    elim (Option-cases (do_collision_for_merge shamt p done)) [
      | inl e ↦
          rw (e, merge_writes) (merge_writes-AllChecked shamt _ todo (AllChecked-append done p c))
      | inr (done', e) ↦
          rw (e, merge_writes)
            (merge_writes-AllChecked shamt done' todo
              (do_collision_for_merge-AllChecked shamt p done done' c e))
    ]

check_reads-AllChecked :
    (write_shamt read_shamt : ℕ) (wq done todo : List Request)
    → AllChecked done
    → AllChecked (check_reads write_shamt read_shamt wq done todo).queue
unfolding check_reads
check_reads-AllChecked write_shamt read_shamt wq done [] c = c
check_reads-AllChecked write_shamt read_shamt wq done (p ∷ todo) c =
    elim (Option-cases (find_write write_shamt p wq)) [
      | inr (write, e) ↦
          rw (e, check_reads) (check_reads-AllChecked write_shamt read_shamt wq done todo c)
      | inl none_found ↦ elim (Option-cases (do_collision_for_merge read_shamt p done)) [
        | inl e ↦
            rw (none_found, e, check_reads)
              (check_reads-AllChecked write_shamt read_shamt wq _ todo (AllChecked-append done p c))
        | inr (done', e) ↦
            rw (none_found, e, check_reads)
              (check_reads-AllChecked write_shamt read_shamt wq done' todo
                (do_collision_for_merge-AllChecked read_shamt p done done' c e))
      ]
    ]

-- After `check_collision` every request in the three queues is marked as checked, so that a second
-- call has no request to look at.
pub check_collision-AllChecked :
    (ch : Channel)
    → let ch' = check_collision ch in AllChecked ch'.wq × AllChecked ch'.rq × AllChecked ch'.pq
unfolding check_collision
check_collision-AllChecked ch =
    let write_shamt = if ch.match_offset_bits then 0 else ch.offset_bits in
    let (wq_done, wq_todo) = split_checked ch.wq in
    let wq' = (merge_writes write_shamt wq_done wq_todo).0 in
    let (rq_done, rq_todo) = split_checked ch.rq in
    let (pq_done, pq_todo) = split_checked ch.pq in
    (
      merge_writes-AllChecked write_shamt wq_done wq_todo (split_checked-AllChecked ch.wq),
      check_reads-AllChecked write_shamt ch.offset_bits wq' rq_done rq_todo
          (split_checked-AllChecked ch.rq),
      check_reads-AllChecked write_shamt ch.offset_bits wq' pq_done pq_todo
          (split_checked-AllChecked ch.pq),
    )
