-- ===== src/Channel/Tests.antt =====
-- A channel of blocks of 64 bytes, two packets to a queue: a write waits, and two reads of its block.
use cscore_sstelem.Prelude.{◌≡◌, refl, [], ◌∷◌, true, false, length, arith}
use cscore_sstelem.Channel.{Request, Channel, make_channel, add_rq, add_wq, add_pq}
use cscore_sstelem.Channel.Collision.{check_collision, set_union}
use cscore_sstelem.Channel.Bounds.{IsWithinSizes, IsAdded, add-IsWithinSizes}

abbrev a_read : Request
a_read = record {
  forward_checked = false;
  is_translated = true;
  response_requested = true;
  asid0 = 255;
  asid1 = 255;
  type = 0;
  pf_metadata = 0;
  cpu = 0;
  address = 4100;
  v_address = 4100;
  data_word = 0;
  instr_id = 1;
  ip = 0;
  instr_depend_on_me = 1 ∷ 4 ∷ [];
}

abbrev a_write : Request
a_write = record a_read {
  address = 4096;
  type = 3;
  data_word = 9;
  response_requested = false;
  instr_depend_on_me = [];
}

unfoldable waiting : Channel
unfolding make_channel add_rq add_wq add_pq
waiting =
    (add_pq (add_wq (add_rq (make_channel 2 2 2 6 false) a_read).0 a_write).0
      (record a_read { address = 8192 })).0

union_of_sorted : set_union (1 ∷ 4 ∷ []) (2 ∷ 4 ∷ 5 ∷ []) ≡ 1 ∷ 2 ∷ 4 ∷ 5 ∷ []
unfolding set_union
union_of_sorted = refl

read_is_answered : length (check_collision waiting).returned ≡ 1
unfolding waiting check_collision
read_is_answered = refl

waiting-IsWithinSizes : IsWithinSizes waiting
unfolding waiting
waiting-IsWithinSizes = (omega arith, omega arith, omega arith)

add-IsWithinSizes_example :
    let (rch, r) = add_rq waiting a_read in
    let (wch, w) = add_wq waiting a_read in
    let (pch, p) = add_pq waiting a_read in
    let old = waiting.sim_stats in
    let new_r = rch.sim_stats in
    let new_w = wch.sim_stats in
    let new_p = pch.sim_stats in
    IsWithinSizes rch
    × IsWithinSizes wch
    × IsWithinSizes pch
    × IsAdded waiting.rq waiting.rq_size a_read r rch.rq
        (old.rq_access, old.rq_to_cache, old.rq_full)
        (new_r.rq_access, new_r.rq_to_cache, new_r.rq_full)
    × IsAdded waiting.wq waiting.wq_size a_read w wch.wq
        (old.wq_access, old.wq_to_cache, old.wq_full)
        (new_w.wq_access, new_w.wq_to_cache, new_w.wq_full)
    × IsAdded waiting.pq waiting.pq_size a_read p pch.pq
        (old.pq_access, old.pq_to_cache, old.pq_full)
        (new_p.pq_access, new_p.pq_to_cache, new_p.pq_full)
add-IsWithinSizes_example = add-IsWithinSizes waiting a_read waiting-IsWithinSizes
