-- ===== src/VirtualMemory/Tests.antt =====
-- A memory whose free list is not shuffled, in which node 0 has one pool range of two pages.
use cscore_sstelem.Prelude.{
  ℕ, ◌+◌, ◌-◌, ◌*◌, ◌≡◌, refl, List, [], ◌∷◌, ◌++◌, none, some, Perm, arith,
}
use cscore_sstelem.AddressMap
use cscore_sstelem.AddressMap.{AddressEntry, pool, page_size}
use cscore_sstelem.VirtualMemory.{VirtualMemory, find_page, pool_entry, va_to_pa}
use cscore_sstelem.VirtualMemory.Translate.{va_to_pa-pages, pages_used}
use cscore_sstelem.VirtualMemory.PoolPages.{IsAligned, va_to_pa-pool}

abbrev same_order : List ℕ → List ℕ
same_order ps = ps

abbrev range : AddressEntry
range = record {
  node_id = 0;
  start = 4096;
  size = 8192;
  type = pool;
  target = 100;
  pool_offset = 0;
}

-- Page 7 is mapped already, and two pages are free.
abbrev memory : VirtualMemory
memory = record {
  vpage_to_ppage_map = ((0, 7), 300) ∷ [];
  ppage_free_list = 301 ∷ 302 ∷ [];
  minor_fault_penalty = 200;
  address_map = some ((range ∷ []) ∷ []);
  node_id = 0;
  pool_pa_base = 1048576;
}

page_7 : find_page memory.vpage_to_ppage_map 0 7 ≡ some 300
unfolding find_page
page_7 = refl

page_2_unmapped : find_page memory.vpage_to_ppage_map 0 2 ≡ none
unfolding find_page
page_2_unmapped = refl

page_9_unmapped : find_page memory.vpage_to_ppage_map 0 9 ≡ none
unfolding find_page
page_9_unmapped = refl

page_2_pool : pool_entry memory 2 ≡ some range
unfolding pool_entry AddressMap.lookup AddressMap.contains AddressMap.last_not_after
page_2_pool = refl

page_9_local : pool_entry memory 9 ≡ none
unfolding pool_entry AddressMap.lookup AddressMap.contains AddressMap.last_not_after
page_9_local = refl

range-IsAligned : IsAligned 1048576 range
unfolding IsAligned
range-IsAligned = (refl, refl, refl, omega arith)

va_to_pa-pages_example :
    let (vm', ppage, penalty) = va_to_pa same_order memory 0 9 in
    (ppage ≡ 301)
    × (penalty ≡ 200)
    × (vm'.vpage_to_ppage_map ≡ ((0, 9), 301) ∷ memory.vpage_to_ppage_map)
    × (vm'.ppage_free_list ≡ 302 ∷ [])
    × Perm
        (pages_used memory.vpage_to_ppage_map ++ memory.ppage_free_list)
        (pages_used vm'.vpage_to_ppage_map ++ vm'.ppage_free_list)
va_to_pa-pages_example =
    va_to_pa-pages same_order memory 0 9 301 302 [] refl page_9_local page_9_unmapped

va_to_pa-pool_example :
    ((va_to_pa same_order memory 0 2).1 * page_size ≡ 1048576 + 0 + (2 * page_size - 4096))
    × ((va_to_pa same_order memory 0 2).2 ≡ 200)
    × ((va_to_pa same_order memory 0 2).0.ppage_free_list ≡ 301 ∷ 302 ∷ [])
va_to_pa-pool_example =
    va_to_pa-pool same_order memory 0 2 range page_2_pool page_2_unmapped range-IsAligned
      (omega arith) (omega arith)
