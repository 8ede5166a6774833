-- ===== src/Node/Settings.antt =====
-- cscore.cc, the constructor: the bandwidth of the DRAM, and the window of the pool's addresses.
use native.Mathlib.Nat.{lt-div-mul-add, div-mul-le_self, div-le_self}
use cscore_sstelem.Prelude.{
  ℕ, zero, suc, ◌+◌, ◌-◌, ◌*◌, ◌/◌, ◌%◌, ◌^◌, max, ◌≤◌, ◌<◌, ◌≡◌, List, none, some, get_elem?,
  arith,
}
use cscore_sstelem.Prelude.Int.{pos, to_int64_small}
use cscore_sstelem.AddressMap.{AddressEntry, page_size}
use cscore_sstelem.VirtualMemory.{
  find_page, VirtualMemory, pool_entry, pages_from, populate_pages, va_to_pa,
}
use cscore_sstelem.VirtualMemory.PoolPages.{IsAligned, va_to_pa-pool}
use cscore_sstelem.Node.{
  block_size, cycles_per_request_from_bw_bytes, resolve_dram_bw_cycles, resolve_pool_pa_base,
}

max-suc : (q : ℕ) → max (suc q) 1 ≡ suc q
max-suc q = omega arith

no_wrap : (b : ℕ) → b + 64 ≤ 2 ^ 63 → (block_size + b + 2 ^ 64 - 1) % 2 ^ 64 ≡ 63 + b
no_wrap b h = omega arith

ceiling :
    (b q : ℕ) → 63 + b < q * b + b → q * b ≤ 63 + b → (64 ≤ max q 1 * b) × (max q 1 * b < 64 + b)
ceiling b zero lo hi = omega arith
ceiling b (suc q) lo hi = rw (max-suc q) (omega arith, omega arith)

cycles_of :
    (b : ℕ)
    → 1 ≤ b
    → b + 64 ≤ 2 ^ 63
    → cycles_per_request_from_bw_bytes b ≡ pos (max ((63 + b) / b) 1)
unfolding cycles_per_request_from_bw_bytes
cycles_of b lo hi =
    let small = to_int64_small (max ((63 + b) / b) 1) (omega (arith, div-le_self (63 + b) b)) in
    ground (arith, no_wrap b hi, small)

resolve_pool_pa_base_above : (base dram_size : ℕ) → dram_size ≤ resolve_pool_pa_base base dram_size
unfolding resolve_pool_pa_base
resolve_pool_pa_base_above base dram_size = ground arith

pages_from_below :
    (base n i page : ℕ) → get_elem? (pages_from base n) i ≡ some page → page < base + n
unfolding pages_from
pages_from_below base zero i page m = cc
pages_from_below base (suc n) zero page m = ground arith
pages_from_below base (suc n) (suc i) page m = omega (arith, pages_from_below (base + 1) n i page m)

populate_pages_below : (i page : ℕ) → get_elem? populate_pages i ≡ some page → page < 256 + 32768
unfolding populate_pages
populate_pages_below i page m = pages_from_below 256 32768 i page m

-- With no cycles given, the cycles of a request are the fewest in which the given bytes per cycle, at
-- least one and small enough to be counted in 63 bits, move a block of 64 bytes.
pub resolve_dram_bw_cycles_lem :
    (bytes_per_cycle : ℕ)
    → 1 ≤ bytes_per_cycle
    → bytes_per_cycle + 64 ≤ 2 ^ 63
    → (n : ℕ) × (resolve_dram_bw_cycles 0 bytes_per_cycle ≡ pos n)
      × (block_size ≤ n * bytes_per_cycle)
      × (n * bytes_per_cycle < block_size + bytes_per_cycle)
unfolding resolve_dram_bw_cycles cycles_per_request_from_bw_bytes
resolve_dram_bw_cycles_lem b lo hi =
    let q = (63 + b) / b in
    let (enough, fewest) = ceiling b q (lt-div-mul-add lo) (div-mul-le_self (63 + b) b) in
    (max q 1, cycles_of b lo hi, enough, fewest)

-- Whatever base is asked for and however large the DRAM: a new page of an aligned pool range is mapped at
-- or above the size of the DRAM.
pub pool_window_above :
    (shuffle : List ℕ → List ℕ) (vm : VirtualMemory) (cpu vpage base dram_size : ℕ)
    (entry : AddressEntry)
    → vm.pool_pa_base ≡ resolve_pool_pa_base base dram_size
    → pool_entry vm vpage ≡ some entry
    → find_page vm.vpage_to_ppage_map cpu vpage ≡ none
    → IsAligned vm.pool_pa_base entry
    → entry.start ≤ vpage * page_size
    → vpage * page_size < entry.start + entry.size
    → dram_size ≤ (va_to_pa shuffle vm cpu vpage).1 * page_size
pool_window_above shuffle vm cpu vpage base dram_size entry b p f a lo hi =
    let (where_mapped, _, _) = va_to_pa-pool shuffle vm cpu vpage entry p f a lo hi in
    omega (arith, where_mapped, resolve_pool_pa_base_above base dram_size, b)

-- Where the DRAM is large enough for all the pages that the free list is made of, whatever base is asked
-- for: a new page of an aligned pool range is mapped at or above the size of the DRAM, and above any
-- given page of that list.
pub pool_window_apart :
    (shuffle : List ℕ → List ℕ) (vm : VirtualMemory) (cpu vpage base dram_size i page : ℕ)
    (entry : AddressEntry)
    → vm.pool_pa_base ≡ resolve_pool_pa_base base dram_size
    → pool_entry vm vpage ≡ some entry
    → find_page vm.vpage_to_ppage_map cpu vpage ≡ none
    → IsAligned vm.pool_pa_base entry
    → entry.start ≤ vpage * page_size
    → vpage * page_size < entry.start + entry.size
    → (256 + 32768) * page_size ≤ dram_size
    → get_elem? populate_pages i ≡ some page
    → (dram_size ≤ (va_to_pa shuffle vm cpu vpage).1 * page_size)
      × (page < (va_to_pa shuffle vm cpu vpage).1)
pool_window_apart shuffle vm cpu vpage base dram_size i page entry b p f a lo hi room m =
    let above = pool_window_above shuffle vm cpu vpage base dram_size entry b p f a lo hi in
    let below = populate_pages_below i page m in (above, omega (arith, above, room, below))
