-- ===== src/Cache/Fill.antt =====
-- src/cache.cc, `handle_fill`: an entry whose data has come takes the place of a victim, which is
-- written back first if it is dirty: to the fabric if the address map sends it there, and to the level
-- below if not. The prefetcher is `no` (prefetcher/no/no.cc), the one that cscore.cc builds every cache
-- with: it hands the metadata on and does nothing else.
use cscore_sstelem.Prelude.{
  ℕ, suc, ◌+◌, ◌-◌, ◌/◌, List, [], ◌∷◌, Bool, true, false, ◌&&◌, ◌||◌, Option, none, some,
  get_elem?, set, take, drop, ltb, ◌==◌, if◌then◌else◌,
}
use cscore_sstelem.Packet.{SstRequest, write_type, max_u8}
use cscore_sstelem.AddressMap
use cscore_sstelem.AddressMap.{AddressEntry, AddressType, local, remote, pool}
use cscore_sstelem.Channel
use cscore_sstelem.Channel.{Channel, Request, Response}
use cscore_sstelem.Cache.{
  CacheBlock, Mshr, Cache, CacheStats, Replacement, load_type, rfo_type, prefetch_type, count_event,
  get_set_index, set_begin, module_address, record_miss_latency, return_to,
}

-- `no::prefetcher_cache_fill`
unfoldable pub prefetcher_cache_fill : ℕ → ℕ
prefetcher_cache_fill metadata_in = metadata_in

-- `fill_block`
unfoldable pub fill_block : Mshr → ℕ → CacheBlock
fill_block m metadata = record {
  valid = true;
  prefetch = m.prefetch_from_this;
  dirty = m.type == write_type;
  address = m.address;
  v_address = m.v_address;
  data_word = m.data_promise.data_word;
  pf_metadata = metadata;
}

-- `std::find_if_not` of the valid blocks: the way, which is the number of ways if all are valid.
unfoldable pub first_invalid : List CacheBlock → ℕ
first_invalid [] = 0
first_invalid (b ∷ bs) = let rest = first_invalid bs in if b.valid then suc rest else 0

-- The write of a dirty block to the fabric.
unfoldable pub remote_writeback : ℕ → AddressEntry → CacheBlock → Mshr → SstRequest
remote_writeback node_id entry way fill_mshr = record {
  src_node = node_id;
  dst_node = entry.target;
  forward_checked = false;
  is_translated = true;
  response_requested = false;
  asid0 = max_u8;
  asid1 = max_u8;
  type = write_type;
  pf_metadata = way.pf_metadata;
  cpu = fill_mshr.cpu;
  sst_cpu = node_id;
  address = way.address;
  v_address = way.v_address;
  data_word = way.data_word;
  instr_id = fill_mshr.instr_id;
  ip = 0;
  msg_bytes = 64;
}

-- The write of a dirty block to the level below; what it does not set is as in a new request.
unfoldable pub local_writeback : CacheBlock → Mshr → Request
local_writeback way fill_mshr = record {
  forward_checked = false;
  is_translated = true;
  response_requested = false;
  asid0 = max_u8;
  asid1 = max_u8;
  type = write_type;
  pf_metadata = way.pf_metadata;
  cpu = fill_mshr.cpu;
  address = way.address;
  v_address = way.v_address;
  data_word = way.data_word;
  instr_id = fill_mshr.instr_id;
  ip = 0;
  instr_depend_on_me = [];
}

-- The entry of the address map that sends an address to the fabric, if the cache is one that asks.
unfoldable pub remote_entry : {R : Type 0} → Cache R → ℕ → Option AddressEntry
remote_entry c v_address =
    if c.has_remote
    then elim c.address_map [
      | none ↦ none
      | some entries ↦ elim (AddressMap.lookup entries c.node_id v_address) [
        | none ↦ none
        | some entry ↦ elim entry.type [ local ↦ none | _ ↦ some entry ]
      ]
    ]
    else none

module _ {R : Type 0} where
  -- The counts of a fill, and the response to those that wait for it.
  unfoldable pub answer_waiters : Cache R → Mshr → ℕ → Cache R
  unfolding count_event record_miss_latency return_to
  answer_waiters c m metadata =
      let time = c.current_time - m.time_enqueued in
      let cycles = time / c.clock_period in
      let stats = c.sim_stats in
      let demand : CacheStats = record stats {
        total_miss_latency_cycles = stats.total_miss_latency_cycles + cycles;
        pool_demand_miss_latency_sum =
            stats.pool_demand_miss_latency_sum + (if m.remote_is_pool then cycles else 0);
        pool_demand_miss_count = stats.pool_demand_miss_count + (if m.remote_is_pool then 1 else 0);
      } in
      let counted : CacheStats =
        if m.type == load_type || m.type == rfo_type
        then (if c.is_llc then record_miss_latency demand time else demand)
        else stats in
      let response : Response = record {
        address = m.address;
        v_address = m.v_address;
        data_word = m.data_promise.data_word;
        pf_metadata = metadata;
        instr_depend_on_me = m.instr_depend_on_me;
      } in
      record c {
        sim_stats = record counted { mshr_return = count_event stats.mshr_return m.type m.cpu };
        upper_levels = return_to m.to_return response c.upper_levels;
      }

module _ {R : Type 0} ⦃r : Replacement R⦄ where
  -- The way of the fill, with the state of the policy after it: an invalid one, or the policy's victim.
  unfoldable pub choose_way : Cache R → Mshr → R × ℕ
  unfolding first_invalid
  choose_way c m =
      let blocks = take c.num_way (drop (set_begin c m.address) c.block) in
      let way = first_invalid blocks in
      if ltb way c.num_way
      then (c.replacement, way)
      else r.find_victim c.replacement m.cpu m.instr_id (get_set_index c m.address) blocks m.ip
          m.address m.type

  -- The fill itself, once a victim is out of the way. `at` is the place of the way in the blocks, and
  -- `old` the block there, if the policy does not bypass the cache.
  unfoldable pub fill_way : Cache R → Mshr → ℕ → Option CacheBlock → Cache R
  unfolding answer_waiters fill_block prefetcher_cache_fill
  fill_way c m way old =
      let metadata = prefetcher_cache_fill m.data_promise.pf_metadata in
      let evicted : ℕ = elim old [
        | none ↦ 0
        | some b ↦ (if b.valid then module_address c b.address b.v_address else 0)
      ] in
      let stats = c.sim_stats in
      let useless : ℕ = elim old [ none ↦ 0 | some b ↦ (if b.valid && b.prefetch then 1 else 0) ] in
      let filled : Cache R = record c {
        replacement =
            r.replacement_cache_fill c.replacement m.cpu (get_set_index c m.address) way
              (module_address c m.address m.v_address) m.ip evicted m.type;
        block = elim old [
          | none ↦ c.block
          | some b ↦ set c.block (set_begin c m.address + way) (fill_block m metadata)
        ];
        sim_stats = record stats {
          pf_useless = stats.pf_useless + useless;
          pf_fill =
              stats.pf_fill
              + (elim old [ none ↦ 0 | some b ↦ (if m.type == prefetch_type then 1 else 0) ]);
        };
      } in
      answer_waiters filled m metadata

module _ {R E : Type 0} (send_remote : E → SstRequest → E × Bool) where
  -- The writing back of a dirty victim; the flag says whether it was taken.
  unfoldable pub write_back : Cache R → E → CacheBlock → Mshr → Cache R × E × Bool
  unfolding remote_entry
  write_back c env way fill_mshr = elim (remote_entry c way.v_address) [
    | some entry ↦
        let (env', taken) = send_remote env (remote_writeback c.node_id entry way fill_mshr) in
        (c, env', taken)
    | none ↦
        let (lower, taken) = Channel.add_wq c.lower_level (local_writeback way fill_mshr) in
        (record c { lower_level = lower }, env, taken)
  ]

module _ {R E : Type 0} ⦃r : Replacement R⦄ (send_remote : E → SstRequest → E × Bool) where
  unfoldable pub handle_fill : Cache R → E → Mshr → Cache R × E × Bool
  unfolding choose_way write_back fill_way
  handle_fill c env m =
      let (policy, way) = choose_way c m in
      let c₁ : Cache R = record c { cpu = m.cpu; replacement = policy } in
      let old : Option CacheBlock =
        if ltb way c.num_way then get_elem? c.block (set_begin c m.address + way) else none in
      elim old [
        | none ↦ (fill_way c₁ m way none, env, true)
        | some b ↦
            let (c₂, env', taken) = write_back send_remote c₁ env b m in
            if b.valid && b.dirty
            then (if taken then (fill_way c₂ m way (some b), env', true) else (c₂, env', false))
            else (fill_way c₁ m way (some b), env, true)
      ]
