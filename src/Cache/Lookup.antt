-- ===== src/Cache/Lookup.antt =====
-- src/cache.cc, `try_hit`, `invalidate_entry`, `get_way`, `prefetch_line` and `should_activate_prefetcher`:
-- what a cache does with an address and its own blocks. The prefetcher is `no`.
use cscore_sstelem.Prelude.{
  ℕ, suc, ◌+◌, List, [], ◌∷◌, ◌++◌, Bool, true, false, ◌&&◌, ◌||◌, not, Option, none, some,
  get_elem?, set, take, drop, length, leb, ◌==◌, if◌then◌else◌,
}
use cscore_sstelem.Packet.{write_type, max_u8}
use cscore_sstelem.Channel.{Response}
use cscore_sstelem.Cache.{
  CacheBlock, TagLookup, Cache, CacheStats, Replacement, prefetch_type, block_of, count_event,
  get_set_index, set_begin, module_address, return_to,
}

-- `std::find_if` over the blocks of a set: the first valid way with the block of an address.
unfoldable pub find_way : ℕ → ℕ → List CacheBlock → Option ℕ
find_way offset_bits addr [] = none
find_way offset_bits addr (b ∷ bs) =
    let rest = find_way offset_bits addr bs in
    if b.valid && (block_of offset_bits b.address == block_of offset_bits addr)
    then some 0
    else elim rest [ none ↦ none | some i ↦ some (suc i) ]

-- The same with no test of `valid`, as `get_way` and `invalidate_entry` search.
unfoldable pub find_any_way : ℕ → ℕ → List CacheBlock → Option ℕ
find_any_way offset_bits addr [] = none
find_any_way offset_bits addr (b ∷ bs) =
    let rest = find_any_way offset_bits addr bs in
    if block_of offset_bits b.address == block_of offset_bits addr
    then some 0
    else elim rest [ none ↦ none | some i ↦ some (suc i) ]

-- `no::prefetcher_cache_operate`
unfoldable pub prefetcher_cache_operate : ℕ → ℕ
prefetcher_cache_operate metadata_in = metadata_in

-- `std::count(...) > 0` of a type in the mask.
abbrev pub has_type : List ℕ → ℕ → Bool
has_type [] type = false
has_type (t ∷ ts) type = t == type || has_type ts type

module _ {R : Type 0} where
  -- The blocks of the set of an address.
  abbrev pub set_span : Cache R → ℕ → List CacheBlock
  set_span c addr = take c.num_way (drop (set_begin c addr) c.block)

  unfoldable pub should_activate_prefetcher : Cache R → TagLookup → Bool
  should_activate_prefetcher c pkt =
      not pkt.prefetch_from_this && has_type c.pref_activate_mask pkt.type

  -- `get_way`: the number of ways for an address that is not there.
  unfoldable pub get_way : Cache R → ℕ → ℕ
  unfolding find_any_way
  get_way c addr = elim (find_any_way c.offset_bits addr (set_span c addr)) [
    | none ↦ length (set_span c addr)
    | some way ↦ way
  ]

  unfoldable pub invalidate_entry : Cache R → ℕ → Cache R × ℕ
  unfolding find_any_way
  invalidate_entry c addr = elim (find_any_way c.offset_bits addr (set_span c addr)) [
    | none ↦ (c, length (set_span c addr))
    | some way ↦ elim (get_elem? c.block (set_begin c addr + way)) [
      | none ↦ (c, way)
      | some b ↦ (
        record c { block = set c.block (set_begin c addr + way) (record b { valid = false }) },
        way,
      )
    ]
  ]

  -- `tag_lookup_type` of a prefetch of this cache.
  unfoldable pub prefetch_entry : Cache R → ℕ → Bool → ℕ → TagLookup
  prefetch_entry c pf_addr fill_this_level metadata = record {
    address = pf_addr;
    v_address = (if c.virtual_prefetch then pf_addr else 0);
    data_word = 0;
    ip = 0;
    instr_id = 0;
    pf_metadata = metadata;
    cpu = c.cpu;
    type = prefetch_type;
    prefetch_from_this = true;
    skip_fill = not fill_this_level;
    is_translated = not c.virtual_prefetch;
    translate_issued = false;
    asid0 = max_u8;
    asid1 = max_u8;
    event_cycle = none;
    instr_depend_on_me = [];
    to_return = [];
  }

  unfoldable pub prefetch_line : Cache R → ℕ → Bool → ℕ → Cache R × Bool
  unfolding prefetch_entry
  prefetch_line c pf_addr fill_this_level metadata =
      let requested : CacheStats = record (c.sim_stats) {
        pf_requested = c.sim_stats.pf_requested + 1;
      } in
      if leb c.pq_size (length c.internal_pq)
      then (record c { sim_stats = requested }, false)
      else (
        record c {
          internal_pq = c.internal_pq ++ (prefetch_entry c pf_addr fill_this_level metadata ∷ []);
          sim_stats = record requested { pf_issued = requested.pf_issued + 1 };
        },
        true,
      )

  -- What a hit does to the block, the counts and those that wait.
  unfoldable pub hit_block : Cache R → TagLookup → ℕ → CacheBlock → ℕ → Cache R
  unfolding count_event return_to
  hit_block c pkt place b metadata =
      let useful = b.prefetch && not pkt.prefetch_from_this in
      let stats = c.sim_stats in
      let response : Response = record {
        address = pkt.address;
        v_address = pkt.v_address;
        data_word = b.data_word;
        pf_metadata = metadata;
        instr_depend_on_me = pkt.instr_depend_on_me;
      } in
      record c {
        sim_stats = record stats {
          hits = count_event stats.hits pkt.type pkt.cpu;
          pf_useful = stats.pf_useful + (if useful then 1 else 0);
        };
        upper_levels = return_to pkt.to_return response c.upper_levels;
        block = set c.block place (record b {
          dirty = b.dirty || pkt.type == write_type;
          prefetch = b.prefetch && not useful;
        });
      }

module _ {R : Type 0} ⦃r : Replacement R⦄ where
  -- `try_hit`: whether the address is in the cache.
  unfoldable pub try_hit : Cache R → TagLookup → Cache R × Bool
  unfolding find_way hit_block should_activate_prefetcher prefetcher_cache_operate
  try_hit c pkt =
      let found = find_way c.offset_bits pkt.address (set_span c pkt.address) in
      let metadata =
        if should_activate_prefetcher c pkt
        then prefetcher_cache_operate pkt.pf_metadata
        else pkt.pf_metadata in
      let update : ℕ → Bool → R = λ (way : ℕ) (hit : Bool).
        r.update_replacement_state c.replacement pkt.cpu (get_set_index c pkt.address) way
          (module_address c pkt.address pkt.v_address) pkt.ip 0 pkt.type hit in
      elim found [
        | none ↦ (record c { cpu = pkt.cpu; replacement = update c.num_way false }, false)
        | some way ↦
            let place = set_begin c pkt.address + way in
            let looked : Cache R = record c { cpu = pkt.cpu; replacement = update way true } in
            elim (get_elem? c.block place) [
              | none ↦ (looked, true)
              | some b ↦ (hit_block looked pkt place b metadata, true)
            ]
      ]
