-- ===== src/AddressMap/Offsets.antt =====
-- src/address_map.cc, `load`: the pool ranges of a node get parts of the pool that do not overlap.
use cscore_sstelem.Prelude.{
  ℕ, zero, suc, ◌+◌, ◌%◌, ◌^◌, ◌≤◌, ◌<◌, ◌≡◌, List, [], ◌∷◌, some, get_elem?, arith,
}
use cscore_sstelem.AddressMap.{AddressEntry, pool, assign_offsets}

-- The bytes of the pool ranges of a list.
unfoldable pub pool_bytes : List AddressEntry → ℕ
pool_bytes [] = 0
pool_bytes (e ∷ es) = elim e.type [ pool ↦ e.size + pool_bytes es | _ ↦ pool_bytes es ]

offset_within :
    (r : ℕ) (es : List AddressEntry) (i : ℕ) (e : AddressEntry)
    → r + pool_bytes es < 2 ^ 64
    → get_elem? (assign_offsets r es) i ≡ some e
    → e.type ≡ pool
    → (r ≤ e.pool_offset) × (e.pool_offset + e.size ≤ r + pool_bytes es)
unfolding assign_offsets pool_bytes
offset_within r [] i e small h t = cc
offset_within r (x ∷ xs) zero e small h t = ground arith
offset_within r (x ∷ xs) (suc i) e small h t =
    ground (arith, offset_within ((r + x.size) % 2 ^ 64) xs i e, offset_within r xs i e)

-- Where the pool ranges of a node come to less than 2 ^ 64 bytes, the parts of the pool that two of
-- them get do not overlap: the later range begins where the earlier one has ended, or after.
pub offsets_disjoint :
    (r : ℕ) (es : List AddressEntry) (i j : ℕ) (e f : AddressEntry)
    → r + pool_bytes es < 2 ^ 64
    → i < j
    → get_elem? (assign_offsets r es) i ≡ some e
    → get_elem? (assign_offsets r es) j ≡ some f
    → e.type ≡ pool
    → f.type ≡ pool
    → e.pool_offset + e.size ≤ f.pool_offset
unfolding assign_offsets pool_bytes
offsets_disjoint r [] i j e f small lt h k t u = cc
offsets_disjoint r (x ∷ xs) i zero e f small lt h k t u = elim lt [ ]
offsets_disjoint r (x ∷ xs) zero (suc j) e f small lt h k t u =
    ground (arith, offset_within ((r + x.size) % 2 ^ 64) xs j f)
offsets_disjoint r (x ∷ xs) (suc i) (suc j) e f small lt h k t u =
    ground
      (arith, offsets_disjoint ((r + x.size) % 2 ^ 64) xs i j e f, offsets_disjoint r xs i j e f)
