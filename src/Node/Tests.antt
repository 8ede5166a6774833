-- ===== src/Node/Tests.antt =====
-- A node with one settled link, with a link queue and without, and a core that retires ten instructions.
use cscore_sstelem.Prelude.{
  ℕ, ◌*◌, ◌≤◌, ◌<◌, ◌≡◌, refl, List, [], ◌∷◌, ◌++◌, true, false, Option, none, some, get_elem?,
  arith, if◌then◌else◌,
}
use cscore_sstelem.Prelude.Int.{pos, to_int64}
use cscore_sstelem.Double.{nat_double}
use cscore_sstelem.Packet.{SstRequest, SstResponse, default_request}
use cscore_sstelem.Packet.Convert.{convert_response_to_event}
use cscore_sstelem.Packet.RoundTrip.{ResponseInRange}
use cscore_sstelem.Prelude.Result.{ok}
use cscore_sstelem.Channel.{no_queue_stats, Channel}
use cscore_sstelem.Lru.{Lru}
use cscore_sstelem.Cache.{TagLookup, Mshr, Cache, empty_stats}
use cscore_sstelem.Cache.Answers
use cscore_sstelem.Cache.Mshrs.{find_mshr, remove_at}
use cscore_sstelem.Cache.Fill.{remote_entry}
use cscore_sstelem.Cache.Miss.{forward_packet, remote_request, handle_miss}
use cscore_sstelem.Node.LastLevel.{handle_event_cxl, handle_miss-unsent, answer_reaches_entry}
use cscore_sstelem.LatBwQueue.{LatBwQueue}
use cscore_sstelem.AddressMap
use cscore_sstelem.AddressMap.{AddressEntry, pool, page_size}
use cscore_sstelem.VirtualMemory.{
  VirtualMemory, find_page, pool_entry, va_to_pa, populate_pages, pages_from,
}
use cscore_sstelem.VirtualMemory.PoolPages.{IsAligned}
use cscore_sstelem.Node.{
  Node, CoreView, make_remote_link_queue, cycles_per_request_from_bw_bytes, resolve_dram_bw_cycles,
  resolve_pool_pa_base, enqueue_remote_request, champsim_tick,
}
use cscore_sstelem.Node.Requests.{unsent}
use cscore_sstelem.Node.Runs.{Operation, Carried, enqueue, tick, run, run-Carried}
use cscore_sstelem.Node.Settings.{pool_window_apart}
use cscore_sstelem.Node.Phases.{IsPhased, champsim_tick-IsPhased}

abbrev fresh : Option (LatBwQueue ℕ SstRequest) → Node ℕ ℕ
fresh queue = record {
  node_id = 3;
  warmup_insts = 5;
  sim_insts = 5;
  warmup_done = false;
  final_stats_printed = false;
  fetched_insts = 0;
  trace = 1 ∷ 2 ∷ 3 ∷ [];
  has_link = true;
  remote_outbox = [];
  remote_link_queue = queue;
  sent = [];
  calls = [];
}

abbrev unlinked : Node ℕ ℕ
unlinked = fresh none

-- 64 bytes in a cycle, and one cycle of latency.
abbrev linked : Node ℕ ℕ
linked = fresh (make_remote_link_queue (pos 1) (pos 0) (pos 0))

abbrev core : CoreView ℕ
core = record {
  num_retired = 10;
  in_queue_size = 2;
  input_queue = [];
  rob_empty = false;
  ifetch_buffer_empty = true;
  decode_buffer_empty = true;
  dispatch_buffer_empty = true;
  dib_hit_buffer_empty = true;
  lq_empty = true;
  sq_empty = true;
}

-- 24 bytes in a cycle: three cycles for a block.
three_cycles : resolve_dram_bw_cycles 0 24 ≡ pos 3
unfolding resolve_dram_bw_cycles cycles_per_request_from_bw_bytes to_int64
three_cycles = refl

base_forced : resolve_pool_pa_base 5 1000 ≡ 1000
unfolding resolve_pool_pa_base
base_forced = refl

-- The core has retired ten instructions: the first tick ends the warm-up and the run.
abbrev reqs : List (Operation ℕ)
reqs =
    enqueue default_request
    ∷ enqueue (record default_request { address = 64 })
    ∷ tick core
    ∷ enqueue (record default_request { address = 128 })
    ∷ tick core
    ∷ []

run-Carried_example : Carried (unsent linked ++ (run linked reqs).1) linked.sent (run linked reqs).0
run-Carried_example = run-Carried linked reqs

abbrev instructions : List ℕ
instructions = 1 ∷ 2 ∷ 3 ∷ []

abbrev range : AddressEntry
range = record {
  node_id = 0;
  start = 4096;
  size = 8192;
  type = pool;
  target = 100;
  pool_offset = 0;
}

-- A DRAM of 1 GiB, with no base asked for.
abbrev memory : VirtualMemory
memory = record {
  vpage_to_ppage_map = [];
  ppage_free_list = 301 ∷ 302 ∷ [];
  minor_fault_penalty = 200;
  address_map = some ((range ∷ []) ∷ []);
  node_id = 0;
  pool_pa_base = 1073741824;
}

default_base : 1073741824 ≡ resolve_pool_pa_base 0 1073741824
unfolding resolve_pool_pa_base
default_base = refl

page_2_unmapped : find_page [] 0 2 ≡ none
unfolding find_page
page_2_unmapped = refl

page_2_pool : pool_entry memory 2 ≡ some range
unfolding pool_entry AddressMap.lookup AddressMap.contains AddressMap.last_not_after
page_2_pool = refl

range-IsAligned : IsAligned 1073741824 range
unfolding IsAligned
range-IsAligned = (refl, refl, refl, omega arith)

free_page : get_elem? populate_pages 1 ≡ some 257
unfolding populate_pages pages_from
free_page = refl

pool_window_apart_example :
    (1073741824 ≤ (va_to_pa (λ ps. ps) memory 0 2).1 * page_size)
    × (257 < (va_to_pa (λ ps. ps) memory 0 2).1)
pool_window_apart_example =
    pool_window_apart (λ ps. ps) memory 0 2 0 1073741824 1 257 range default_base page_2_pool
      page_2_unmapped range-IsAligned (omega arith) (omega arith) (omega arith) free_page

unlinked-IsPhased : IsPhased unlinked
unlinked-IsPhased = record { calls = refl; one_reset = refl }

champsim_tick-IsPhased_example :
    let (node', cpu', over) = champsim_tick unlinked core in
    IsPhased node' × (node'.final_stats_printed ≡ over)
champsim_tick-IsPhased_example = champsim_tick-IsPhased unlinked core refl unlinked-IsPhased

-- The core has retired all its instructions in one tick: the run is over.
over_at_once : (champsim_tick unlinked core).2 ≡ true
unfolding champsim_tick
over_at_once = refl

-- A last-level cache of one way, whose level below is empty, and a pool from 4096 to 8191.
abbrev below : Channel
below = record {
  rq_size = 2;
  pq_size = 2;
  wq_size = 2;
  offset_bits = 6;
  match_offset_bits = false;
  rq = [];
  pq = [];
  wq = [];
  returned = [];
  sim_stats = no_queue_stats;
  roi_stats = no_queue_stats;
}

abbrev llc : Cache Lru
llc = record {
  current_time = 417;
  clock_period = 417;
  warmup = false;
  cpu = 0;
  is_llc = true;
  num_set = 1;
  num_way = 1;
  mshr_size = 2;
  pq_size = 2;
  hit_latency = 417;
  fill_latency = 417;
  offset_bits = 6;
  block = [];
  max_tag = 1;
  max_fill = 1;
  prefetch_as_load = false;
  match_offset_bits = false;
  virtual_prefetch = false;
  pref_activate_mask = [];
  replacement = record { num_way = 1; last_used_cycles = 0 ∷ []; cycle = 0 };
  upper_levels = [];
  lower_level = below;
  lower_translate = none;
  internal_pq = [];
  inflight_tag_check = [];
  translation_stash = [];
  mshr = [];
  inflight_writes = [];
  address_map = some ((range ∷ []) ∷ []);
  has_remote = true;
  node_id = 0;
  sim_stats = empty_stats;
  roi_stats = empty_stats;
}

abbrev pkt : TagLookup
pkt = record {
  address = 4160;
  v_address = 4160;
  data_word = 0;
  ip = 0;
  instr_id = 1;
  pf_metadata = 0;
  cpu = 0;
  type = 0;
  prefetch_from_this = false;
  skip_fill = false;
  is_translated = true;
  translate_issued = false;
  asid0 = 255;
  asid1 = 255;
  event_cycle = some 0;
  instr_depend_on_me = [];
  to_return = 7 ∷ [];
}

no_entry : find_mshr 6 4160 [] ≡ none
unfolding find_mshr
no_entry = refl

in_the_pool : remote_entry llc 4160 ≡ some range
unfolding remote_entry AddressMap.lookup AddressMap.contains AddressMap.last_not_after
in_the_pool = refl

handle_miss-unsent_example :
    let (c', node', done) = handle_miss enqueue_remote_request llc linked pkt in
    let req = remote_request 0 range (forward_packet pkt) in
    (unsent node' ≡ unsent linked ++ (if done then req ∷ [] else []))
    × (node'.sent ≡ linked.sent)
    × (c'.lower_level ≡ llc.lower_level)
handle_miss-unsent_example = handle_miss-unsent llc linked pkt range no_entry refl in_the_pool

-- The pool's answer, for another address of the block.
abbrev answer : SstResponse
answer = record {
  src_node = 100;
  dst_node = 0;
  address = 4170;
  v_address = 4170;
  data_word = 5;
  pf_metadata = 0;
  cpu = 0;
  sst_cpu = 0;
  msg_bytes = 64;
}

answer-InRange : ResponseInRange answer
answer-InRange = record {
  src_node = omega arith;
  dst_node = omega arith;
  pf_metadata = omega arith;
  cpu = omega arith;
  sst_cpu = omega arith;
  msg_bytes = omega arith;
}

miss_dealt_with : (handle_miss enqueue_remote_request llc unlinked pkt).2 ≡ true
unfolding handle_miss find_mshr remote_entry AddressMap.lookup AddressMap.contains
    AddressMap.last_not_after enqueue_remote_request
miss_dealt_with = refl

wants_answer : (forward_packet pkt).response_requested ≡ true
unfolding forward_packet
wants_answer = refl

answer_reaches_entry_example :
    let c' = (handle_miss enqueue_remote_request llc unlinked pkt).0 in
    (c'' : Cache Lru) × (i : ℕ) × (entry : Mshr) × (handle_event_cxl
        (c' ∷ [])
        (convert_response_to_event answer)
      ≡ ok (c'' ∷ []))
    × (find_mshr c'.offset_bits answer.address c'.mshr ≡ some (i, entry))
    × (c''.mshr
        ≡ record entry { data_promise = Answers.answer c' answer.data_word answer.pf_metadata }
          ∷ remove_at i c'.mshr)
answer_reaches_entry_example =
    answer_reaches_entry llc unlinked pkt answer [] refl miss_dealt_with wants_answer refl
      answer-InRange
