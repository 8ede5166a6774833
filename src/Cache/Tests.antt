-- ===== src/Cache/Tests.antt =====
-- A last-level cache of two sets of two ways, with blocks of 64 bytes and two registers. The addresses
-- from 4096 to 8191 lie in a pool. What is sent to the fabric is listed, and always taken.
use cscore_sstelem.Prelude.{
  ℕ, suc, ◌+◌, ◌<◌, ◌≤◌, ◌≡◌, refl, List, [], ◌∷◌, ◌++◌, Bool, true, false, ◌||◌, none, some,
  replicate, if◌then◌else◌, arith,
}
use cscore_sstelem.Prelude.Result.{ok}
use cscore_sstelem.Packet.{SstRequest}
use cscore_sstelem.Packet.Control.{is_write_request}
use cscore_sstelem.Packet.Convert.{convert_request_to_event}
use cscore_sstelem.AddressMap
use cscore_sstelem.AddressMap.{AddressEntry, pool}
use cscore_sstelem.Channel.{no_queue_stats, Channel, Response}
use cscore_sstelem.Lru.{Lru, lru_replacement}
use cscore_sstelem.Cache.{
  CacheBlock, TagLookup, Mshr, Cache, empty_stats, set_begin, has_unknown_readiness, top_bit,
  get_set_index, pool_latency_bin,
}
use cscore_sstelem.Cache.Mshrs.{merge_mshr, find_mshr, first_unreturned}
use cscore_sstelem.Cache.Answers.{finish_packet}
use cscore_sstelem.Cache.Fill.{remote_writeback, choose_way, handle_fill, first_invalid}
use cscore_sstelem.Cache.Lookup.{has_type, try_hit}
use cscore_sstelem.Cache.Miss.{forward_packet, remote_request, handle_miss}
use cscore_sstelem.Cache.Operate.{operate}
use cscore_sstelem.Cache.Entries.{entries_for}
use cscore_sstelem.Cache.Unique.{IsOwned}
use cscore_sstelem.Cache.Settled.{unanswered, answered_front, answered_all, IsSettled}
use cscore_sstelem.Cache.Returns.{finish_packet_lem}
use cscore_sstelem.Cache.Cycle.{registers, IsKept}
use cscore_sstelem.Cache.Kept.{AreExpected, checked, operate-IsKept}
use cscore_sstelem.Cache.Waiters.{
  merge_mshr-waiters, returned_of, occurrences, response_to, handle_fill-returned,
}
use cscore_sstelem.Cache.Remote.{fabric_requests, handle_miss-refused}
use cscore_sstelem.Cache.Hit.{fill-hit}

abbrev channel : Channel
channel = record {
  rq_size = 2;
  pq_size = 2;
  wq_size = 2;
  offset_bits = 6;
  match_offset_bits = false;
  rq = [];
  pq = [];
  wq = [];
  returned = [];
  sim_stats = no_queue_stats;
  roi_stats = no_queue_stats;
}

abbrev range : AddressEntry
range = record {
  node_id = 0;
  start = 4096;
  size = 4096;
  type = pool;
  target = 100;
  pool_offset = 0;
}

abbrev no_block : CacheBlock
no_block = record {
  valid = false;
  prefetch = false;
  dirty = false;
  address = 0;
  v_address = 0;
  data_word = 0;
  pf_metadata = 0;
}

abbrev lookup_of : ℕ → TagLookup
lookup_of addr = record {
  address = addr;
  v_address = addr;
  data_word = 0;
  ip = 0;
  instr_id = 1;
  pf_metadata = 0;
  cpu = 0;
  type = 0;
  prefetch_from_this = false;
  skip_fill = false;
  is_translated = true;
  translate_issued = false;
  asid0 = 255;
  asid1 = 255;
  event_cycle = some 0;
  instr_depend_on_me = 1 ∷ [];
  to_return = 7 ∷ [];
}

abbrev entry_of : ℕ → Mshr
entry_of addr = record {
  address = addr;
  v_address = addr;
  ip = 0;
  instr_id = 1;
  data_promise = record { data_word = 0; pf_metadata = 0; event_cycle = none };
  cpu = 0;
  type = 0;
  prefetch_from_this = false;
  time_enqueued = 0;
  remote_issue_time = none;
  remote_is_pool = false;
  instr_depend_on_me = 1 ∷ [];
  to_return = 7 ∷ [];
}

-- An entry that waits for its answer, and a tag check that is due.
abbrev llc : Cache Lru
llc = record {
  current_time = 417;
  clock_period = 417;
  warmup = false;
  cpu = 0;
  is_llc = true;
  num_set = 2;
  num_way = 2;
  mshr_size = 2;
  pq_size = 2;
  hit_latency = 417;
  fill_latency = 417;
  offset_bits = 6;
  block = no_block ∷ no_block ∷ no_block ∷ no_block ∷ [];
  max_tag = 1;
  max_fill = 1;
  prefetch_as_load = false;
  match_offset_bits = false;
  virtual_prefetch = false;
  pref_activate_mask = 0 ∷ [];
  replacement = record { num_way = 2; last_used_cycles = 0 ∷ 0 ∷ 0 ∷ 0 ∷ []; cycle = 0 };
  upper_levels = (7, channel) ∷ [];
  lower_level = channel;
  lower_translate = none;
  internal_pq = [];
  inflight_tag_check = lookup_of 4160 ∷ [];
  translation_stash = [];
  mshr = entry_of 128 ∷ [];
  inflight_writes = [];
  address_map = some ((range ∷ []) ∷ []);
  has_remote = true;
  node_id = 0;
  sim_stats = empty_stats;
  roi_stats = empty_stats;
}

abbrev listed : List SstRequest → SstRequest → List SstRequest × Bool
listed reqs req = (reqs ++ (req ∷ []), true)

-- No register is free.
abbrev full : Cache Lru
full = record llc { mshr = entry_of 128 ∷ entry_of 192 ∷ [] }

bins : pool_latency_bin 1000 ≡ 9
unfolding pool_latency_bin top_bit
bins = refl

one_at_most : (b : ℕ) → entries_for 6 b (entry_of 128 ∷ []) ≤ 1
unfolding entries_for
one_at_most b = ground arith

llc-IsOwned : IsOwned 6 2 (entry_of 128 ∷ [])
llc-IsOwned = record { once = one_at_most; few = omega arith }

llc-IsSettled : IsSettled (entry_of 128 ∷ [])
unfolding IsSettled answered_front answered_all has_unknown_readiness
llc-IsSettled = refl

llc-IsKept : IsKept (registers llc)
unfolding IsKept
llc-IsKept = (llc-IsOwned, llc-IsSettled)

abbrev from_below : Response
from_below = record {
  address = 130;
  v_address = 130;
  data_word = 5;
  pf_metadata = 0;
  instr_depend_on_me = [];
}

entry_found : find_mshr 6 130 (entry_of 128 ∷ []) ≡ some (0, entry_of 128)
unfolding find_mshr
entry_found = refl

-- The last-level cache, when the answer has come.
abbrev answered_llc : Cache Lru
answered_llc = record llc { lower_level = record (llc.lower_level) { returned = from_below ∷ [] } }

from_below-IsExpected : AreExpected (checked answered_llc) (from_below ∷ [])
unfolding AreExpected checked finish_packet find_mshr first_unreturned has_unknown_readiness
from_below-IsExpected =
    (record { index = 0; entry = entry_of 128; found = refl; no_answer = refl }, tt)

operate-IsKept_example :
    (c' : Cache Lru) × (env' : List SstRequest) × (n : ℕ) × (operate listed answered_llc []
      ≡ ok (c', env', n))
    × IsKept (registers c')
operate-IsKept_example = operate-IsKept listed answered_llc [] from_below-IsExpected llc-IsKept

entry_waits : unanswered (entry_of 128) ≡ true
unfolding has_unknown_readiness
entry_waits = refl

finish_packet_lem_example :
    (c' : Cache Lru) × (finish_packet llc from_below ≡ ok c')
    × IsOwned 6 2 c'.mshr
    × IsSettled c'.mshr
    × (answered_all c'.mshr ≡ suc (answered_all llc.mshr))
finish_packet_lem_example =
    finish_packet_lem llc from_below 0 (entry_of 128) entry_found entry_waits llc-IsOwned
      llc-IsSettled

merge_mshr-waiters_example :
    let m = merge_mshr (entry_of 128) (record (entry_of 130) { to_return = 5 ∷ [] }) in
    (has_type m.to_return 5 ≡ (has_type (7 ∷ []) 5 || has_type (5 ∷ []) 5))
    × (has_type m.instr_depend_on_me 5 ≡ (has_type (1 ∷ []) 5 || has_type (1 ∷ []) 5))
merge_mshr-waiters_example =
    merge_mshr-waiters (entry_of 128) (record (entry_of 130) { to_return = 5 ∷ [] }) 5

abbrev here : Mshr
here = record (entry_of 128) {
  data_promise = record { data_word = 5; pf_metadata = 0; event_cycle = some 417 };
}

handle_fill-returned_example :
    let (c', env', done) = handle_fill listed llc [] here in
    returned_of 7 c'.upper_levels
    ≡ [] ++ (if done then replicate (occurrences 7 (7 ∷ [])) (response_to here) else [])
handle_fill-returned_example = handle_fill-returned listed llc [] here 7 refl

fill_done : (handle_fill listed llc [] here).2 ≡ true
unfolding handle_fill choose_way first_invalid get_set_index top_bit
fill_done = refl

way_chosen : (choose_way llc here).1 < 2
unfolding choose_way first_invalid get_set_index top_bit
way_chosen = omega arith

set_there : set_begin llc 128 + 2 ≤ 4
unfolding get_set_index top_bit
set_there = omega arith

fill-hit_example : (try_hit (handle_fill listed llc [] here).0 (lookup_of 140)).1 ≡ true
fill-hit_example = fill-hit listed llc [] here (lookup_of 140) fill_done way_chosen set_there refl

fabric_requests_example :
    let miss = remote_request 0 range (forward_packet (lookup_of 4160)) in
    let writeback = remote_writeback 0 range no_block here in
    (is_write_request (convert_request_to_event miss) ≡ false)
    × (miss.msg_bytes ≡ 8)
    × (is_write_request (convert_request_to_event writeback) ≡ true)
    × (writeback.msg_bytes ≡ 64)
    × (writeback.response_requested ≡ false)
fabric_requests_example = fabric_requests 0 range (lookup_of 4160) no_block here (omega arith)

full_refuses : (handle_miss listed full [] (lookup_of 4160)).2 ≡ false
unfolding handle_miss find_mshr
full_refuses = refl

handle_miss-refused_example :
    let c' = (handle_miss listed full [] (lookup_of 4160)).0 in
    (c'.mshr ≡ full.mshr)
    × (c'.block ≡ full.block)
    × (c'.sim_stats ≡ full.sim_stats)
    × (c'.upper_levels ≡ full.upper_levels)
handle_miss-refused_example = handle_miss-refused listed full [] (lookup_of 4160) full_refuses

-- The miss in the pool is sent to it.
to_the_pool :
    (handle_miss listed llc [] (lookup_of 4160)).1
    ≡ remote_request 0 range (forward_packet (lookup_of 4160)) ∷ []
unfolding handle_miss find_mshr AddressMap.lookup AddressMap.contains AddressMap.last_not_after
to_the_pool = refl
