-- ===== src/Cache/Phases.antt =====
-- src/cache.cc: `begin_phase` and `end_phase`. The name in the statistics is left out.
use cscore_sstelem.Prelude.{ℕ, ◌≡◌, refl, ap, List, [], ◌∷◌, map}
use cscore_sstelem.Channel.{Channel, no_queue_stats}
use cscore_sstelem.Cache.{Cache, empty_stats}

abbrev pub reset_channel : ℕ × Channel → ℕ × Channel
reset_channel up = (up.0, record (up.1) { roi_stats = no_queue_stats; sim_stats = no_queue_stats })

abbrev pub keep_channel : ℕ × Channel → ℕ × Channel
keep_channel up =
    let stats = (up.1).sim_stats in
    (
      up.0,
      record (up.1) {
        roi_stats = record {
          rq_access = stats.rq_access;
          rq_merged = stats.rq_merged;
          rq_full = stats.rq_full;
          rq_to_cache = stats.rq_to_cache;
          pq_access = stats.pq_access;
          pq_merged = stats.pq_merged;
          pq_full = stats.pq_full;
          pq_to_cache = stats.pq_to_cache;
          wq_access = stats.wq_access;
          wq_merged = stats.wq_merged;
          wq_full = stats.wq_full;
          wq_to_cache = stats.wq_to_cache;
          wq_forward = stats.wq_forward;
        };
      },
    )

kept_stats :
    (ups : List (ℕ × Channel))
    → map (λ (up : ℕ × Channel). (up.1).roi_stats) (map keep_channel ups)
      ≡ map (λ (up : ℕ × Channel). (up.1).sim_stats) ups
kept_stats [] = refl
kept_stats (up ∷ ups) = ap (λ stats. (up.1).sim_stats ∷ stats) (kept_stats ups)

module _ {R : Type 0} where
  unfoldable pub begin_phase : Cache R → Cache R
  begin_phase c = record c {
    roi_stats = empty_stats;
    sim_stats = empty_stats;
    upper_levels = map reset_channel c.upper_levels;
  }

  unfoldable pub end_phase : Cache R → Cache R
  end_phase c =
      let sim = c.sim_stats in
      record c {
        roi_stats = record (c.roi_stats) {
          total_miss_latency_cycles = sim.total_miss_latency_cycles;
          hits = sim.hits;
          misses = sim.misses;
          mshr_merge = sim.mshr_merge;
          mshr_return = sim.mshr_return;
          pf_requested = sim.pf_requested;
          pf_issued = sim.pf_issued;
          pf_useful = sim.pf_useful;
          pf_useless = sim.pf_useless;
          pf_fill = sim.pf_fill;
          pool_accesses = sim.pool_accesses;
          pool_completed = sim.pool_completed;
          pool_latency_sum = sim.pool_latency_sum;
          pool_demand_miss_count = sim.pool_demand_miss_count;
          pool_demand_miss_latency_sum = sim.pool_demand_miss_latency_sum;
          pool_latency_hist = sim.pool_latency_hist;
          miss_latency_hist = sim.miss_latency_hist;
        };
        upper_levels = map keep_channel c.upper_levels;
      }

  -- The end of a phase copies every count, of the cache and of the channels above it.
  pub end_phase-stats :
      (c : Cache R)
      → ((end_phase c).roi_stats ≡ c.sim_stats)
        × (map (λ (up : ℕ × Channel). (up.1).roi_stats) (end_phase c).upper_levels
            ≡ map (λ (up : ℕ × Channel). (up.1).sim_stats) c.upper_levels)
  unfolding end_phase
  end_phase-stats c = (refl, kept_stats c.upper_levels)
