-- ===== src/VirtualMemory.antt =====
-- src/vmem.cc and inc/vmem.h, the translation of pages: the free list, the map of pages, and the pages
-- that the address map sends to a pool. `std::shuffle` of the free list is the parameter `shuffle`.
-- The page table itself (`get_pte_pa`) is not modelled here.
pub mod Translate
pub mod PoolPages
mod Tests
use cscore_sstelem.Prelude.{
  ℕ, zero, suc, ◌+◌, ◌-◌, ◌*◌, ◌/◌, ◌%◌, ◌^◌, List, [], ◌∷◌, Bool, true, false, ◌&&◌, Option, none,
  some, ◌==◌, if◌then◌else◌,
}
use cscore_sstelem.AddressMap
use cscore_sstelem.AddressMap.{AddressEntry, AddressType, local, remote, pool, page_size}

-- `vpage_to_ppage_map`: the physical page of a cpu's virtual page.
abbrev pub PageMap : Type 0
PageMap = List ((ℕ × ℕ) × ℕ)

unfoldable pub find_page : PageMap → ℕ → ℕ → Option ℕ
find_page [] cpu vpage = none
find_page (((c, v), p) ∷ m) cpu vpage =
    if c == cpu && v == vpage then some p else find_page m cpu vpage

pub record VirtualMemory : Type 0 where
  pub vpage_to_ppage_map : PageMap
  pub ppage_free_list : List ℕ
  pub minor_fault_penalty : ℕ
  pub address_map : Option (List (List AddressEntry))
  pub node_id : ℕ
  pub pool_pa_base : ℕ

-- `n` page numbers from `base` on.
unfoldable pub pages_from : ℕ → ℕ → List ℕ
pages_from base zero = []
pages_from base (suc n) = base ∷ pages_from (base + 1) n

-- The first physical page: the one at 1 MiB.
abbrev pub first_page : ℕ
first_page = 256

-- `populate_pages`: 32768 pages.
unfoldable pub populate_pages : List ℕ
unfolding pages_from
populate_pages = pages_from first_page 32768

-- `ppage_front`, which the code calls on a list that is not empty.
unfoldable pub ppage_front : VirtualMemory → ℕ
ppage_front vm = elim vm.ppage_free_list [ [] ↦ 0 | p ∷ _ ↦ p ]

-- The pages of an address in a pool range, as a page number of 52 bits.
unfoldable pub pool_page : ℕ → AddressEntry → ℕ → ℕ
pool_page pool_pa_base entry vpage =
    (pool_pa_base / page_size
      + entry.pool_offset / page_size
      + (vpage + 2 ^ 64 - entry.start / page_size) % 2 ^ 64)
    % 2 ^ 52

-- The pool entry of a virtual page, if the address map sends it to a pool.
unfoldable pub pool_entry : VirtualMemory → ℕ → Option AddressEntry
pool_entry vm vpage = elim vm.address_map [
  | none ↦ none
  | some entries ↦ elim (AddressMap.lookup entries vm.node_id (vpage * page_size % 2 ^ 64)) [
    | none ↦ none
    | some entry ↦ elim entry.type [ pool ↦ some entry | _ ↦ none ]
  ]
]

-- `try_emplace(...)`: the page that is mapped then, whether it is new, and the map.
unfoldable pub try_emplace : PageMap → ℕ → ℕ → ℕ → ℕ × Bool × PageMap
unfolding find_page
try_emplace m cpu vpage ppage = elim (find_page m cpu vpage) [
  | some old ↦ (old, false, m)
  | none ↦ (ppage, true, ((cpu, vpage), ppage) ∷ m)
]

unfoldable pub set_address_map : VirtualMemory → List (List AddressEntry) → ℕ → ℕ → VirtualMemory
set_address_map vm map node base = record vm {
  address_map = some map;
  node_id = node;
  pool_pa_base = base;
}

module _ (shuffle : List ℕ → List ℕ) where
  -- The constructor's page list; the later arguments are the members' values.
  unfoldable pub make_memory : ℕ → VirtualMemory
  make_memory penalty = record {
    vpage_to_ppage_map = [];
    ppage_free_list = shuffle populate_pages;
    minor_fault_penalty = penalty;
    address_map = none;
    node_id = 0;
    pool_pa_base = 0;
  }

  -- `ppage_pop`: the free list is filled again when its last page goes.
  unfoldable pub ppage_pop : List ℕ → List ℕ
  ppage_pop [] = shuffle populate_pages
  ppage_pop (p ∷ []) = shuffle populate_pages
  ppage_pop (p ∷ q ∷ ps) = q ∷ ps

  unfoldable pub translate_pool : VirtualMemory → ℕ → ℕ → AddressEntry → VirtualMemory × ℕ × ℕ
  unfolding try_emplace pool_page
  translate_pool vm cpu vpage entry =
      let (ppage, inserted, m) =
        try_emplace vm.vpage_to_ppage_map cpu vpage (pool_page vm.pool_pa_base entry vpage) in
      (
        record vm { vpage_to_ppage_map = m },
        ppage,
        (if inserted then vm.minor_fault_penalty else 0),
      )

  unfoldable pub translate_local : VirtualMemory → ℕ → ℕ → VirtualMemory × ℕ × ℕ
  unfolding try_emplace ppage_pop ppage_front
  translate_local vm cpu vpage =
      let (ppage, fault, m) = try_emplace vm.vpage_to_ppage_map cpu vpage (ppage_front vm) in
      (
        record vm {
          vpage_to_ppage_map = m;
          ppage_free_list = (if fault then ppage_pop vm.ppage_free_list else vm.ppage_free_list);
        },
        ppage,
        (if fault then vm.minor_fault_penalty else 0),
      )

  -- `va_to_pa`: the memory after it, the physical page and the penalty.
  unfoldable pub va_to_pa : VirtualMemory → ℕ → ℕ → VirtualMemory × ℕ × ℕ
  unfolding translate_pool translate_local pool_entry
  va_to_pa vm cpu vpage = elim (pool_entry vm vpage) [
    | some entry ↦ translate_pool vm cpu vpage entry
    | none ↦ translate_local vm cpu vpage
  ]
