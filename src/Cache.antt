-- ===== src/Cache.antt =====
-- src/cache.cc and inc/cache.h, with inc/block.h, inc/waitable.h, inc/cache_stats.h and
-- inc/event_counter.h: the state of a cache, and what its operations share.
-- Times are numbers of picoseconds, and `time_point::max()` is `none`; no operation comes before the
-- time that an entry was made. A channel of an upper level is known by the number that stands for its
-- address, in the order of which `std::set_union` merges pointers. The counters do not overflow.
pub mod Mshrs
pub mod Fill
pub mod Lookup
pub mod Miss
pub mod Answers
pub mod Entries
pub mod Unique
pub mod Settled
pub mod Returns
pub mod Translation
pub mod Operate
pub mod Phases
pub mod Cycle
pub mod Kept
pub mod Filled
pub mod Waiters
pub mod Remote
pub mod Hit
mod Tests
use cscore_sstelem.Prelude.{
  ℕ, zero, suc, ◌+◌, ◌-◌, ◌*◌, ◌/◌, ◌%◌, ◌^◌, min, List, [], ◌∷◌, ◌++◌, Bool, true, false, ◌&&◌,
  ◌||◌, Option, none, some, get_elem?, set, replicate, ltb, leb, ◌==◌, if◌then◌else◌,
}
use cscore_sstelem.AddressMap.{AddressEntry}
use cscore_sstelem.Channel.{Channel, Response}

-- `access_type`, of which WRITE is `Packet.write_type`
abbrev pub load_type : ℕ
load_type = 0

abbrev pub rfo_type : ℕ
rfo_type = 1

abbrev pub prefetch_type : ℕ
prefetch_type = 2

-- `cache_block`
pub record CacheBlock : Type 0 where
  pub valid : Bool
  pub prefetch : Bool
  pub dirty : Bool
  pub address : ℕ
  pub v_address : ℕ
  pub data_word : ℕ
  pub pf_metadata : ℕ

-- `waitable<returned_value>`
pub record Promise : Type 0 where
  pub data_word : ℕ
  pub pf_metadata : ℕ
  pub event_cycle : Option ℕ

unfoldable pub is_ready_at : Promise → ℕ → Bool
is_ready_at p now = elim p.event_cycle [ none ↦ false | some cycle ↦ leb cycle now ]

unfoldable pub has_unknown_readiness : Promise → Bool
has_unknown_readiness p = elim p.event_cycle [ none ↦ true | some cycle ↦ false ]

-- `tag_lookup_type`
pub record TagLookup : Type 0 where
  pub address : ℕ
  pub v_address : ℕ
  pub data_word : ℕ
  pub ip : ℕ
  pub instr_id : ℕ
  pub pf_metadata : ℕ
  pub cpu : ℕ
  pub type : ℕ
  pub prefetch_from_this : Bool
  pub skip_fill : Bool
  pub is_translated : Bool
  pub translate_issued : Bool
  pub asid0 : ℕ
  pub asid1 : ℕ
  pub event_cycle : Option ℕ
  pub instr_depend_on_me : List ℕ
  pub to_return : List ℕ

-- `mshr_type`
pub record Mshr : Type 0 where
  pub address : ℕ
  pub v_address : ℕ
  pub ip : ℕ
  pub instr_id : ℕ
  pub data_promise : Promise
  pub cpu : ℕ
  pub type : ℕ
  pub prefetch_from_this : Bool
  pub time_enqueued : ℕ
  pub remote_issue_time : Option ℕ
  pub remote_is_pool : Bool
  pub instr_depend_on_me : List ℕ
  pub to_return : List ℕ

-- `event_counter` of pairs of a type and a cpu, in the order of the keys.
abbrev pub EventCounter : Type 0
EventCounter = List ((ℕ × ℕ) × ℕ)

unfoldable pub count_event : EventCounter → ℕ → ℕ → EventCounter
count_event [] type cpu = ((type, cpu), 1) ∷ []
count_event (((t, c), n) ∷ es) type cpu =
    let rest = count_event es type cpu in
    if t == type && c == cpu
    then ((t, c), n + 1) ∷ es
    else if ltb type t || (type == t && ltb cpu c)
    then ((type, cpu), 1) ∷ ((t, c), n) ∷ es
    else ((t, c), n) ∷ rest

-- `cache_stats`
pub record CacheStats : Type 0 where
  pub pf_requested : ℕ
  pub pf_issued : ℕ
  pub pf_useful : ℕ
  pub pf_useless : ℕ
  pub pf_fill : ℕ
  pub hits : EventCounter
  pub misses : EventCounter
  pub mshr_merge : EventCounter
  pub mshr_return : EventCounter
  pub total_miss_latency_cycles : ℕ
  pub pool_accesses : ℕ
  pub pool_completed : ℕ
  pub pool_latency_sum : ℕ
  pub pool_demand_miss_count : ℕ
  pub pool_demand_miss_latency_sum : ℕ
  pub pool_latency_hist : List ℕ
  pub miss_latency_hist : List ℕ

abbrev pub empty_stats : CacheStats
empty_stats = record {
  pf_requested = 0;
  pf_issued = 0;
  pf_useful = 0;
  pf_useless = 0;
  pf_fill = 0;
  hits = [];
  misses = [];
  mshr_merge = [];
  mshr_return = [];
  total_miss_latency_cycles = 0;
  pool_accesses = 0;
  pool_completed = 0;
  pool_latency_sum = 0;
  pool_demand_miss_count = 0;
  pool_demand_miss_latency_sum = 0;
  pool_latency_hist = replicate 32 0;
  miss_latency_hist = replicate 100 0;
}

-- A replacement policy with the state `R`: the operations that a cache calls.
pub record Replacement (R : Type 0) : Type 0 where
  -- cpu, instruction, set, the blocks of the set, ip, address, type
  pub find_victim : R → ℕ → ℕ → ℕ → List CacheBlock → ℕ → ℕ → ℕ → R × ℕ
  -- cpu, set, way, address, ip, victim, type, hit
  pub update_replacement_state : R → ℕ → ℕ → ℕ → ℕ → ℕ → ℕ → ℕ → Bool → R
  -- cpu, set, way, address, ip, victim, type
  pub replacement_cache_fill : R → ℕ → ℕ → ℕ → ℕ → ℕ → ℕ → ℕ → R

-- `CACHE`. `is_llc` says that its name is LLC, and `has_remote` that `send_remote` is set.
pub record Cache (R : Type 0) : Type 0 where
  pub current_time : ℕ
  pub clock_period : ℕ
  pub warmup : Bool
  pub cpu : ℕ
  pub is_llc : Bool
  pub num_set : ℕ
  pub num_way : ℕ
  pub mshr_size : ℕ
  pub pq_size : ℕ
  pub hit_latency : ℕ
  pub fill_latency : ℕ
  pub offset_bits : ℕ
  pub block : List CacheBlock
  pub max_tag : ℕ
  pub max_fill : ℕ
  pub prefetch_as_load : Bool
  pub match_offset_bits : Bool
  pub virtual_prefetch : Bool
  pub pref_activate_mask : List ℕ
  pub replacement : R
  pub upper_levels : List (ℕ × Channel)
  pub lower_level : Channel
  pub lower_translate : Option Channel
  pub internal_pq : List TagLookup
  pub inflight_tag_check : List TagLookup
  pub translation_stash : List TagLookup
  pub mshr : List Mshr
  pub inflight_writes : List Mshr
  pub address_map : Option (List (List AddressEntry))
  pub has_remote : Bool
  pub node_id : ℕ
  pub sim_stats : CacheStats
  pub roi_stats : CacheStats

-- The greatest of the numbers up to `n` whose power of 2 is at most `v`: `lg2(v)`, and
-- `63 - __builtin_clzll(v)`, for `n` = 63.
unfoldable pub top_bit : ℕ → ℕ → ℕ
top_bit zero v = 0
top_bit (suc n) v = let lower = top_bit n v in if leb (2 ^ suc n) v then suc n else lower

unfoldable pub pool_latency_bin : ℕ → ℕ
unfolding top_bit
pool_latency_bin cycles = if cycles == 0 then 0 else min (top_bit 63 cycles) 31

-- `v.at(i)++`
abbrev pub count_bin : List ℕ → ℕ → List ℕ
count_bin v i = elim (get_elem? v i) [ none ↦ v | some n ↦ set v i (n + 1) ]

unfoldable pub record_pool_latency : CacheStats → ℕ → CacheStats
unfolding pool_latency_bin
record_pool_latency stats cycles = record stats {
  pool_latency_hist = count_bin stats.pool_latency_hist (pool_latency_bin cycles);
}

-- Bins of ten nanoseconds.
unfoldable pub miss_latency_bin : ℕ → ℕ
miss_latency_bin latency = if latency / 1000 == 0 then 0 else min (latency / 1000 / 10) 99

unfoldable pub record_miss_latency : CacheStats → ℕ → CacheStats
unfolding miss_latency_bin
record_miss_latency stats latency = record stats {
  miss_latency_hist = count_bin stats.miss_latency_hist (miss_latency_bin latency);
}

-- The block of an address: `slice_upper` of the offset bits.
abbrev pub block_of : ℕ → ℕ → ℕ
block_of offset_bits addr = addr / 2 ^ offset_bits

module _ {R : Type 0} where
  unfoldable pub get_set_index : Cache R → ℕ → ℕ
  unfolding top_bit
  get_set_index c addr = addr / 2 ^ c.offset_bits % 2 ^ top_bit 63 c.num_set

  -- The start of the span of `get_set_span`.
  abbrev pub set_begin : Cache R → ℕ → ℕ
  set_begin c addr = get_set_index c addr * c.num_way

  -- The address that the prefetcher and the replacement policy see, for an element's two addresses.
  unfoldable pub module_address : Cache R → ℕ → ℕ → ℕ
  module_address c address v_address =
      let a = if c.virtual_prefetch then v_address else address in
      let bits = if c.match_offset_bits then 0 else c.offset_bits in a / 2 ^ bits * 2 ^ bits

  -- The time at which what comes back now is filled.
  abbrev pub fill_time : Cache R → ℕ
  fill_time c = c.current_time + (if c.warmup then 0 else c.fill_latency)

-- `ret->push_back(response)` for the channels `ids`.
unfoldable pub push_returned : ℕ → Response → List (ℕ × Channel) → List (ℕ × Channel)
push_returned id response [] = []
push_returned id response ((i, ch) ∷ ups) =
    (i, (if i == id then record ch { returned = ch.returned ++ (response ∷ []) } else ch))
    ∷ push_returned id response ups

unfoldable pub return_to : List ℕ → Response → List (ℕ × Channel) → List (ℕ × Channel)
unfolding push_returned
return_to [] response ups = ups
return_to (id ∷ ids) response ups = return_to ids response (push_returned id response ups)
