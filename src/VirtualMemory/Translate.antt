-- ===== src/VirtualMemory/Translate.antt =====
-- src/vmem.cc, `va_to_pa`: what a translation keeps, whichever way it goes.
use cscore_sstelem.Prelude.{
  ℕ, ◌≡◌, sym, subst, List, [], ◌∷◌, ◌++◌, map, none, some, arith, Perm, perm_shift,
}
use cscore_sstelem.AddressMap.{AddressEntry}
use cscore_sstelem.VirtualMemory.{
  PageMap, find_page, VirtualMemory, pool_page, pool_entry, try_emplace, ppage_front, ppage_pop,
  translate_pool, translate_local, va_to_pa,
}

pub try_emplace-find_page :
    (m : PageMap) (cpu vpage ppage : ℕ)
    → find_page (try_emplace m cpu vpage ppage).2 cpu vpage ≡ some (try_emplace m cpu vpage ppage).0
unfolding try_emplace find_page
try_emplace-find_page m cpu vpage ppage = ground arith

pub try_emplace-keeps :
    (m : PageMap) (cpu vpage ppage c v p : ℕ)
    → find_page m c v ≡ some p
    → find_page (try_emplace m cpu vpage ppage).2 c v ≡ some p
unfolding try_emplace find_page
try_emplace-keeps m cpu vpage ppage c v p h = ground arith

-- A page that is mapped already is translated to its page, whatever the map of addresses says, at no
-- penalty, and the memory stays as it is.
pub va_to_pa-mapped :
    (shuffle : List ℕ → List ℕ) (vm : VirtualMemory) (cpu vpage p : ℕ)
    → find_page vm.vpage_to_ppage_map cpu vpage ≡ some p
    → va_to_pa shuffle vm cpu vpage ≡ (vm, p, 0)
unfolding va_to_pa translate_pool translate_local try_emplace
va_to_pa-mapped shuffle vm cpu vpage p h = ground arith

-- The page of a translation is recorded.
pub va_to_pa-find_page :
    (shuffle : List ℕ → List ℕ) (vm : VirtualMemory) (cpu vpage : ℕ)
    → find_page (va_to_pa shuffle vm cpu vpage).0.vpage_to_ppage_map cpu vpage
      ≡ some (va_to_pa shuffle vm cpu vpage).1
unfolding va_to_pa translate_pool translate_local
va_to_pa-find_page shuffle vm cpu vpage = ground (
  arith,
  try_emplace-find_page vm.vpage_to_ppage_map cpu vpage (ppage_front vm),
  λ (entry : AddressEntry).
      try_emplace-find_page vm.vpage_to_ppage_map cpu vpage (pool_page vm.pool_pa_base entry vpage),
)

-- Translating a page a second time gives the same page at no penalty and changes nothing.
pub va_to_pa-va_to_pa :
    (shuffle : List ℕ → List ℕ) (vm : VirtualMemory) (cpu vpage : ℕ)
    → va_to_pa shuffle (va_to_pa shuffle vm cpu vpage).0 cpu vpage
      ≡ ((va_to_pa shuffle vm cpu vpage).0, (va_to_pa shuffle vm cpu vpage).1, 0)
va_to_pa-va_to_pa shuffle vm cpu vpage =
    va_to_pa-mapped shuffle (va_to_pa shuffle vm cpu vpage).0 cpu vpage
      (va_to_pa shuffle vm cpu vpage).1 (va_to_pa-find_page shuffle vm cpu vpage)

-- A translation leaves every mapping that was there before it as it was.
pub va_to_pa-keeps :
    (shuffle : List ℕ → List ℕ) (vm : VirtualMemory) (cpu vpage c v p : ℕ)
    → find_page vm.vpage_to_ppage_map c v ≡ some p
    → find_page (va_to_pa shuffle vm cpu vpage).0.vpage_to_ppage_map c v ≡ some p
unfolding va_to_pa translate_pool translate_local
va_to_pa-keeps shuffle vm cpu vpage c v p h = ground (
  arith,
  try_emplace-keeps vm.vpage_to_ppage_map cpu vpage (ppage_front vm) c v p h,
  λ (entry : AddressEntry).
      try_emplace-keeps vm.vpage_to_ppage_map cpu vpage (pool_page vm.pool_pa_base entry vpage) c v
        p h,
)

-- The physical pages in use.
abbrev pub pages_used : PageMap → List ℕ
pages_used m = map (λ q. q.1) m

va_to_pa-used :
    (shuffle : List ℕ → List ℕ) (vm : VirtualMemory) (cpu vpage p q : ℕ) (ps : List ℕ)
    → vm.ppage_free_list ≡ p ∷ q ∷ ps
    → pool_entry vm vpage ≡ none
    → find_page vm.vpage_to_ppage_map cpu vpage ≡ none
    → ((va_to_pa shuffle vm cpu vpage).0.vpage_to_ppage_map
        ≡ ((cpu, vpage), p) ∷ vm.vpage_to_ppage_map)
      × ((va_to_pa shuffle vm cpu vpage).0.ppage_free_list ≡ q ∷ ps)
      × ((va_to_pa shuffle vm cpu vpage).1 ≡ p)
      × ((va_to_pa shuffle vm cpu vpage).2 ≡ vm.minor_fault_penalty)
unfolding va_to_pa translate_local try_emplace ppage_front ppage_pop
va_to_pa-used shuffle vm cpu vpage p q ps h n f = ground arith

-- While the list of free pages holds more than one: a page that is new and in no pool takes the first of
-- them, which becomes its translation, at the penalty of a minor fault, and leaves the list. No other
-- mapping changes, and the pages in use and the free ones are together the same pages after it as before.
pub va_to_pa-pages :
    (shuffle : List ℕ → List ℕ) (vm : VirtualMemory) (cpu vpage p q : ℕ) (ps : List ℕ)
    → vm.ppage_free_list ≡ p ∷ q ∷ ps
    → pool_entry vm vpage ≡ none
    → find_page vm.vpage_to_ppage_map cpu vpage ≡ none
    → let (vm', ppage, penalty) = va_to_pa shuffle vm cpu vpage in
      (ppage ≡ p)
      × (penalty ≡ vm.minor_fault_penalty)
      × (vm'.vpage_to_ppage_map ≡ ((cpu, vpage), p) ∷ vm.vpage_to_ppage_map)
      × (vm'.ppage_free_list ≡ q ∷ ps)
      × Perm
          (pages_used vm.vpage_to_ppage_map ++ vm.ppage_free_list)
          (pages_used vm'.vpage_to_ppage_map ++ vm'.ppage_free_list)
va_to_pa-pages shuffle vm cpu vpage p q ps h n f =
    let used = va_to_pa-used shuffle vm cpu vpage p q ps h n f in
    (
      used.2,
      used.3,
      used.0,
      used.1,
      subst
          (λ xs. Perm (pages_used vm.vpage_to_ppage_map ++ xs) (
            pages_used (va_to_pa shuffle vm cpu vpage).0.vpage_to_ppage_map
            ++ (va_to_pa shuffle vm cpu vpage).0.ppage_free_list))
          (sym h)
          (subst
            (λ m.
              Perm (pages_used vm.vpage_to_ppage_map ++ (p ∷ q ∷ ps))
                (pages_used m ++ (va_to_pa shuffle vm cpu vpage).0.ppage_free_list))
            (sym used.0)
            (subst
              (λ xs.
                Perm (pages_used vm.vpage_to_ppage_map ++ (p ∷ q ∷ ps))
                  (p ∷ pages_used vm.vpage_to_ppage_map ++ xs))
              (sym used.1) (perm_shift (pages_used vm.vpage_to_ppage_map) (p ∷ []) (q ∷ ps)))),
    )
