-- ===== src/AddressMap/Tests.antt =====
-- The ranges of node 0: a pool range of two pages, a gap, and a pool range of one page.
use cscore_sstelem.Prelude.{ℕ, ◌+◌, ◌≤◌, ◌≡◌, ◌↔◌, refl, [], ◌∷◌, true, some, get_elem?, arith}
use cscore_sstelem.AddressMap.{AddressEntry, pool, contains, assign_offsets, lookup_in, Row, load}
use cscore_sstelem.Prelude.Result.{ok}
use cscore_sstelem.AddressMap.Lookup.{Ranges, lookup_in_iff}
use cscore_sstelem.AddressMap.Offsets.{offsets_disjoint, pool_bytes}

abbrev low : AddressEntry
low = record { node_id = 0; start = 4096; size = 8192; type = pool; target = 100; pool_offset = 0 }

abbrev high : AddressEntry
high = record low { start = 16384; size = 4096 }

abbrev high_offset : AddressEntry
high_offset = record high { pool_offset = 8192 }

abbrev low_row : Row
low_row = record { node_id = 0; start = 4096; size = 8192; type_word = "pool"; target = 100 }

abbrev high_row : Row
high_row = record low_row { start = 16384; size = 4096 }

-- The file names the higher range first.
loaded : load ((1, high_row) ∷ (2, low_row) ∷ []) ≡ ok ((low ∷ high_offset ∷ []) ∷ [])
unfolding load
loaded = refl

low-Ranges : Ranges 0 (low ∷ high_offset ∷ [])
low-Ranges = (omega arith, omega arith, (omega arith, omega arith, tt))

lookup_in_iff_example :
    (lookup_in (low ∷ high_offset ∷ []) 12287 ≡ some low)
    ↔ ((contains low 12287 ≡ true) × ((i : ℕ) × (get_elem? (low ∷ high_offset ∷ []) i ≡ some low)))
lookup_in_iff_example = lookup_in_iff 0 (low ∷ high_offset ∷ []) 12287 low low-Ranges

at_0 : get_elem? (assign_offsets 0 (low ∷ high ∷ [])) 0 ≡ some low
unfolding assign_offsets
at_0 = refl

at_1 : get_elem? (assign_offsets 0 (low ∷ high ∷ [])) 1 ≡ some high_offset
unfolding assign_offsets
at_1 = refl

offsets_disjoint_example : low.pool_offset + low.size ≤ high_offset.pool_offset
unfolding pool_bytes
offsets_disjoint_example =
    offsets_disjoint 0 (low ∷ high ∷ []) 0 1 low high_offset (omega arith) (omega arith) at_0 at_1
      refl refl
