-- ===== src/Cache/Answers.antt =====
-- src/cache.cc, `finish_packet` and `handle_remote_response`: the answer to a miss is kept in its entry,
-- from which it will be filled.
use cscore_sstelem.Prelude.{ℕ, ◌+◌, ◌-◌, ◌/◌, List, [], ◌∷◌, none, some, set, if◌then◌else◌}
use cscore_sstelem.Prelude.Result.{Result, ok, err, ◌>>=◌}
use cscore_sstelem.Packet.{SstResponse}
use cscore_sstelem.Channel.{Response}
use cscore_sstelem.Cache.{Mshr, Promise, Cache, CacheStats, fill_time, record_pool_latency}
use cscore_sstelem.Cache.Mshrs.{
  find_mshr, first_unreturned, remove_at, Fault, no_matching_entry, swap_with_end,
}

module _ {R : Type 0} where
  -- The promise of an answer.
  abbrev pub answer : Cache R → ℕ → ℕ → Promise
  answer c data_word metadata = record {
    data_word = data_word;
    pf_metadata = metadata;
    event_cycle = some (fill_time c);
  }

  -- `finish_packet`: the entry trades places with the first that has no answer. The trade is made on
  -- the entries with the new promise.
  unfoldable pub finish_packet : Cache R → Response → Result Fault (Cache R)
  unfolding find_mshr first_unreturned
  finish_packet c packet = elim (find_mshr c.offset_bits packet.address c.mshr) [
    | none ↦ err (no_matching_entry packet.address)
    | some (i, entry) ↦ elim (first_unreturned c.mshr) [
      | none ↦ err swap_with_end
      | some (j, other) ↦
          let answered : Mshr = record entry {
            data_promise = answer c packet.data_word packet.pf_metadata;
          } in
          ok (record c { mshr = set (set c.mshr i other) j answered })
    ]
  ]

  -- The counts of an answer from the fabric, for those that come from a pool.
  unfoldable pub count_remote : Cache R → Mshr → CacheStats
  unfolding record_pool_latency
  count_remote c entry = elim entry.remote_issue_time [
    | none ↦ c.sim_stats
    | some issued ↦
        let latency_cycles = (c.current_time - issued) / c.clock_period in
        (if entry.remote_is_pool
          then record_pool_latency
              (record (c.sim_stats) {
                pool_completed = c.sim_stats.pool_completed + 1;
                pool_latency_sum = c.sim_stats.pool_latency_sum + latency_cycles;
              })
              latency_cycles
          else c.sim_stats)
  ]

  -- `handle_remote_response`: the entry goes to the front.
  unfoldable pub handle_remote_response : Cache R → SstResponse → Result Fault (Cache R)
  unfolding find_mshr remove_at count_remote
  handle_remote_response c resp = elim (find_mshr c.offset_bits resp.address c.mshr) [
    | none ↦ err (no_matching_entry resp.address)
    | some (i, entry) ↦
        let answered : Mshr = record entry {
          data_promise = answer c resp.data_word resp.pf_metadata;
        } in
        ok (record c { mshr = answered ∷ remove_at i c.mshr; sim_stats = count_remote c entry })
  ]

  -- The answers of the level below, in order.
  unfoldable pub finish_packets : Cache R → List Response → Result Fault (Cache R)
  unfolding finish_packet
  finish_packets c [] = ok c
  finish_packets c (packet ∷ packets) = do c' ← finish_packet c packet; finish_packets c' packets
