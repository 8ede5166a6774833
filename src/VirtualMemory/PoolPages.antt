-- ===== src/VirtualMemory/PoolPages.antt =====
-- src/vmem.cc, `va_to_pa`: the pages of a pool range, and the formula of README.md for them.
use cscore_sstelem.Prelude.{
  ℕ, ◌+◌, ◌-◌, ◌*◌, ◌/◌, ◌%◌, ◌^◌, ◌≤◌, ◌<◌, ◌≡◌, ◌≢◌, ◌⊎◌, inl, inr, ap, List, none, some, arith,
}
use cscore_sstelem.AddressMap.{AddressEntry, page_size}
use cscore_sstelem.VirtualMemory.{
  find_page, VirtualMemory, pool_page, pool_entry, try_emplace, translate_pool, va_to_pa,
}

-- Base, offset and start of a pool range are the first bytes of pages, as the loader makes sure, and
-- the range's part of the pool ends below 2 ^ 64.
unfoldable pub IsAligned : ℕ → AddressEntry → Type 0
IsAligned base entry =
    (base % page_size ≡ 0)
    × (entry.pool_offset % page_size ≡ 0)
    × (entry.start % page_size ≡ 0)
    × (base + entry.pool_offset + entry.size ≤ 2 ^ 64)

IsAligned-pages :
    (b o s v n : ℕ)
    → s ≤ v * 4096
    → v * 4096 < s + n
    → b % 4096 ≡ 0
    → o % 4096 ≡ 0
    → s % 4096 ≡ 0
    → b + o + n ≤ 2 ^ 64
    → ((b / 4096 + o / 4096 + (v + 2 ^ 64 - s / 4096) % 2 ^ 64) % 2 ^ 52) * 4096
      ≡ b + o + (v * 4096 - s)
IsAligned-pages b o s v n lo hi hb ho hs h = omega arith

-- The physical page of a page in a pool range is the one at the pool's base plus the range's offset in
-- the pool plus the distance from the range's start.
pub pool_page_lem :
    (base : ℕ) (entry : AddressEntry) (vpage : ℕ)
    → IsAligned base entry
    → entry.start ≤ vpage * page_size
    → vpage * page_size < entry.start + entry.size
    → pool_page base entry vpage * page_size
      ≡ base + entry.pool_offset + (vpage * page_size - entry.start)
unfolding pool_page IsAligned
pool_page_lem base entry vpage a lo hi =
    IsAligned-pages base entry.pool_offset entry.start vpage entry.size lo hi a.0 a.1 a.2 a.3

-- A page that is not mapped yet, and that the address map sends to an aligned pool range which contains
-- it, is mapped to the pool's base plus the range's offset in the pool plus the distance of the page
-- from the range's start, at the penalty of a minor fault, and takes no page from the free list.
pub va_to_pa-pool :
    (shuffle : List ℕ → List ℕ) (vm : VirtualMemory) (cpu vpage : ℕ) (entry : AddressEntry)
    → pool_entry vm vpage ≡ some entry
    → find_page vm.vpage_to_ppage_map cpu vpage ≡ none
    → IsAligned vm.pool_pa_base entry
    → entry.start ≤ vpage * page_size
    → vpage * page_size < entry.start + entry.size
    → ((va_to_pa shuffle vm cpu vpage).1 * page_size
        ≡ vm.pool_pa_base + entry.pool_offset + (vpage * page_size - entry.start))
      × ((va_to_pa shuffle vm cpu vpage).2 ≡ vm.minor_fault_penalty)
      × ((va_to_pa shuffle vm cpu vpage).0.ppage_free_list ≡ vm.ppage_free_list)
unfolding va_to_pa translate_pool try_emplace
va_to_pa-pool shuffle vm cpu vpage entry p f a lo hi =
    ground (arith, pool_page_lem vm.pool_pa_base entry vpage a lo hi)

-- Two pages of the pool are different where they lie in one range and are different pages of it, or in
-- two ranges whose parts of the pool do not overlap.
pub pool_page-apart :
    (base : ℕ) (e f : AddressEntry) (v w : ℕ)
    → IsAligned base e
    → IsAligned base f
    → e.start ≤ v * page_size
    → v * page_size < e.start + e.size
    → f.start ≤ w * page_size
    → w * page_size < f.start + f.size
    → ((e ≡ f) × (v ≢ w)) ⊎ (e.pool_offset + e.size ≤ f.pool_offset)
    → pool_page base e v ≢ pool_page base f w
pool_page-apart base e f v w a b lo hi lo2 hi2 (inl (same, ne)) q = ne (
    omega (
      arith,
      ap (λ x. x.pool_offset) same,
      ap (λ x. x.start) same,
      ap (λ x. x * page_size) q,
      pool_page_lem base e v a lo hi,
      pool_page_lem base f w b lo2 hi2,
    ))
pool_page-apart base e f v w a b lo hi lo2 hi2 (inr le) q = omega (
  arith,
  ap (λ x. x * page_size) q,
  pool_page_lem base e v a lo hi,
  pool_page_lem base f w b lo2 hi2,
)
