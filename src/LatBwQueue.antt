-- ===== src/LatBwQueue.antt =====
-- src/lat_bw_queue.cc and inc/lat_bw_queue.h: a queue that first holds a packet until its bytes have
-- been sent at the peak bandwidth, and then until its latency has passed.
-- `std::priority_queue` is a list in the order in which its entries leave. The order of entries that
-- compare equal is open in C++; here the one pushed first leaves first.
-- The clock and the latencies do not overflow `int64_t`.
pub mod Conservation
pub mod Timing
pub mod Capacity
mod Tests
use cscore_sstelem.Prelude.{
  ℕ, ◌+◌, ◌%◌, ◌<◌, max, List, [], ◌∷◌, ◌++◌, Bool, true, false, ◌&&◌, ◌||◌, Option, none, some,
  length, set, get_or, replicate, ltb, leb, ◌==◌, if◌then◌else◌,
}
use cscore_sstelem.Prelude.Int.{ℤ, pos, negsuc, ltb_ℤ}
use cscore_sstelem.Double.{Double, nought, min_double, max_double, clamp}

-- `kUtilWindow`
abbrev pub util_window : ℕ
util_window = 256

-- `std::max<int64_t>(v, 1)`
abbrev pub at_least_one : ℤ → ℕ
at_least_one (pos n) = max n 1
at_least_one (negsuc n) = 1

-- `pending_entry`
pub record PendingEntry (D T : Type 0) : Type 0 where
  pub payload : T
  pub remaining_bytes : D

-- `entry`
pub record Entry (T : Type 0) : Type 0 where
  pub payload : T
  pub injection_time : ℕ
  pub completion_time : ℕ

pub record LatBwQueue (D T : Type 0) : Type 0 where
  pub peak_bw_per_cycle : D
  pub internal_clock : ℕ
  pub latency_function : D → ℤ
  pub bw_cost_fn : Option (T → D)
  pub active_queue : List (Entry T)
  pub blocked_queue : List (PendingEntry D T)
  pub max_pending : ℤ
  pub util_sum : D
  pub util_samples : ℕ
  pub bw_hist : List D
  pub bw_idx : ℕ
  pub bw_sum : D
  pub bw_used_this_cycle : D

module _ {T : Type 0} where
  -- `b < a` by the queue's reversed comparator: `a` leaves before `b`.
  abbrev pub leaves_before : Entry T → Entry T → Bool
  leaves_before a b =
      if a.completion_time == b.completion_time
      then ltb a.injection_time b.injection_time
      else ltb a.completion_time b.completion_time

  -- `active_queue.push`
  unfoldable pub push_active : Entry T → List (Entry T) → List (Entry T)
  push_active e [] = e ∷ []
  push_active e (x ∷ xs) = if leaves_before e x then e ∷ x ∷ xs else x ∷ push_active e xs

  -- The loop of `on_tick` that pops what is complete: the packets popped, and what stays.
  unfoldable pub pop_completed : ℕ → List (Entry T) → List T × List (Entry T)
  pop_completed now [] = ([], [])
  pop_completed now (e ∷ es) =
      let (done, rest) = pop_completed now es in
      if leb e.completion_time now then (e.payload ∷ done, rest) else ([], e ∷ es)

module _ {D T : Type 0} ⦃d : Double D⦄ where
  unfoldable pub make_queue : D → (D → ℤ) → Option (T → D) → ℤ → LatBwQueue D T
  make_queue peak latency cost pending = record {
    peak_bw_per_cycle = peak;
    internal_clock = 0;
    latency_function = latency;
    bw_cost_fn = cost;
    active_queue = [];
    blocked_queue = [];
    max_pending = pending;
    util_sum = nought;
    util_samples = 0;
    bw_hist = replicate util_window nought;
    bw_idx = 0;
    bw_sum = nought;
    bw_used_this_cycle = nought;
  }

  unfoldable pub get_utilization : LatBwQueue D T → D
  get_utilization q =
      let denom = d.mul (d.of_nat util_window) q.peak_bw_per_cycle in
      if d.le q.peak_bw_per_cycle nought
      then nought
      else if d.le denom nought
      then nought
      else clamp (d.div q.bw_sum denom) nought (d.of_nat 1)

  unfoldable pub utilization : LatBwQueue D T → D
  unfolding get_utilization
  utilization q = get_utilization q

  unfoldable pub average_utilization : LatBwQueue D T → D
  average_utilization q =
      if q.util_samples == 0 then nought else d.div q.util_sum (d.of_nat q.util_samples)

  unfoldable pub reset_utilization : LatBwQueue D T → LatBwQueue D T
  reset_utilization q = record q {
    util_sum = nought;
    util_samples = 0;
    bw_hist = replicate util_window nought;
    bw_sum = nought;
    bw_used_this_cycle = nought;
  }

  unfoldable pub occupancy : LatBwQueue D T → ℕ
  occupancy q = length q.blocked_queue + length q.active_queue

  unfoldable pub is_full : LatBwQueue D T → Bool
  unfolding occupancy
  is_full q =
      ltb_ℤ (pos 0) q.max_pending
      && (if ltb_ℤ (pos (occupancy q)) q.max_pending then false else true)

  -- The bytes that a packet is charged: at least one.
  unfoldable pub packet_bytes : LatBwQueue D T → T → D
  packet_bytes q packet =
      max_double (elim q.bw_cost_fn [ none ↦ d.of_nat 64 | some f ↦ f packet ]) (d.of_nat 1)

  unfoldable pub add_packet : LatBwQueue D T → T → LatBwQueue D T × Bool
  unfolding is_full packet_bytes
  add_packet q packet = if is_full q then (q, false) else (
    record q {
      blocked_queue =
          q.blocked_queue
          ++ (record { payload = packet; remaining_bytes = packet_bytes q packet } ∷ []);
    },
    true,
  )

  -- The entry of a packet whose bytes have all been sent.
  unfoldable pub activate : LatBwQueue D T → T → Entry T
  unfolding get_utilization
  activate q packet = record {
    payload = packet;
    injection_time = q.internal_clock;
    completion_time = q.internal_clock + at_least_one (q.latency_function (get_utilization q));
  }

  -- The loop of `service_bandwidth`, over the blocked queue: the bytes still available and used so
  -- far, and the active queue.
  unfoldable pub serve :
      LatBwQueue D T → List (PendingEntry D T) → D → D → List (Entry T) → LatBwQueue D T
  unfolding activate push_active
  serve q [] avail used active = record q {
    bw_used_this_cycle = used;
    blocked_queue = [];
    active_queue = active;
  }
  serve q (front ∷ rest) avail used active =
      let sent = min_double avail front.remaining_bytes in
      let left = d.sub front.remaining_bytes sent in
      let later =
        serve q rest (d.sub avail sent) (d.add used sent)
          (push_active (activate q front.payload) active) in
      if d.lt nought avail
      then (if d.le left nought then later else record q {
        bw_used_this_cycle = d.add used sent;
        blocked_queue = record front { remaining_bytes = left } ∷ rest;
        active_queue = active;
      })
      else record q {
        bw_used_this_cycle = used;
        blocked_queue = front ∷ rest;
        active_queue = active;
      }

  unfoldable pub service_bandwidth : LatBwQueue D T → LatBwQueue D T
  unfolding serve
  service_bandwidth q =
      if d.le q.peak_bw_per_cycle nought
      then record q { bw_used_this_cycle = nought }
      else serve q q.blocked_queue q.peak_bw_per_cycle nought q.active_queue

  -- The end of `on_tick`: the sliding window and the running average.
  unfoldable pub update_history : LatBwQueue D T → LatBwQueue D T
  unfolding get_utilization
  update_history q =
      let dropped = d.sub q.bw_sum (get_or q.bw_hist q.bw_idx nought) in
      let q' : LatBwQueue D T = record q {
        bw_hist = set q.bw_hist q.bw_idx q.bw_used_this_cycle;
        bw_sum = d.add dropped q.bw_used_this_cycle;
        bw_idx = (q.bw_idx + 1) % util_window;
      } in
      record q' {
        util_sum = d.add q.util_sum (get_utilization q');
        util_samples = q.util_samples + 1;
      }

  unfoldable pub on_tick : LatBwQueue D T → LatBwQueue D T × List T
  unfolding pop_completed service_bandwidth update_history
  on_tick q =
      let now = q.internal_clock + 1 in
      let (done, rest) = pop_completed now q.active_queue in
      (
        update_history (service_bandwidth (record q { internal_clock = now; active_queue = rest })),
        done,
      )
