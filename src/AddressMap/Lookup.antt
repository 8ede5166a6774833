-- ===== src/AddressMap/Lookup.antt =====
-- src/address_map.cc, `lookup`: on ranges that do not overlap, the binary search finds the range that
-- contains the address.
use cscore_sstelem.Prelude.{
  ℕ, zero, suc, ◌+◌, ◌^◌, ◌≤◌, ◌<◌, ◌≡◌, ◌↔◌, refl, sym, ◌∙◌, List, [], ◌∷◌, true, Option, none,
  some, get_elem?, ltb, arith, Bool-cases, inl, inr, ◌⊎◌,
}
use cscore_sstelem.AddressMap.{AddressEntry, contains, last_not_after, lookup_in}

-- The ranges follow one another from `lo` on without overlap, and end below 2 ^ 64.
abbrev pub Ranges : ℕ → List AddressEntry → Type 0
Ranges lo [] = Unit {0}
Ranges lo (e ∷ es) = (lo ≤ e.start) × (e.start + e.size < 2 ^ 64) × Ranges (e.start + e.size) es

last_not_after-above :
    (addr lo : ℕ) (before : Option AddressEntry) (es : List AddressEntry)
    → Ranges lo es
    → addr < lo
    → last_not_after addr before es ≡ before
unfolding last_not_after
last_not_after-above addr lo before [] r h = refl
last_not_after-above addr lo before (e ∷ es) r h = ground arith

Ranges-start :
    (lo : ℕ) (es : List AddressEntry) (i : ℕ) {e : AddressEntry}
    → Ranges lo es
    → get_elem? es i ≡ some e
    → lo ≤ e.start
Ranges-start lo [] i r h = cc
Ranges-start lo (x ∷ xs) zero r h = ground arith
Ranges-start lo (x ∷ xs) (suc i) r h =
    omega (arith, r.0, Ranges-start (x.start + x.size) xs i r.2 h)

last_not_after-contains :
    (addr lo : ℕ) (before : Option AddressEntry) (es : List AddressEntry) (i : ℕ) {e : AddressEntry}
    → Ranges lo es
    → get_elem? es i ≡ some e
    → contains e addr ≡ true
    → last_not_after addr before es ≡ some e
unfolding last_not_after contains
last_not_after-contains addr lo before [] i r h c = cc
last_not_after-contains addr lo before (x ∷ xs) zero {e} r h c =
    ground (arith, last_not_after-above addr (x.start + x.size) (some x) xs r.2)
last_not_after-contains addr lo before (x ∷ xs) (suc i) {e} r h c = ground (
  arith,
  last_not_after-contains addr (x.start + x.size) (some x) xs i r.2 h c,
  Ranges-start (x.start + x.size) xs i r.2 h,
)

-- What the search finds is `before` or an entry of the list.
last_not_after-from :
    (addr : ℕ) (before : Option AddressEntry) (es : List AddressEntry)
    → (last_not_after addr before es ≡ before)
      ⊎ ((i : ℕ) × (get_elem? es i ≡ last_not_after addr before es))
unfolding last_not_after
last_not_after-from addr before [] = inl refl
last_not_after-from addr before (x ∷ xs) = elim (Bool-cases (ltb addr x.start)) [
  | inl past ↦ rw (past, last_not_after) (inl refl)
  | inr more ↦ rw (more, last_not_after) (shifted (last_not_after-from addr (some x) xs))
]
  where
    shifted :
        (last_not_after addr (some x) xs ≡ some x)
          ⊎ ((i : ℕ) × (get_elem? xs i ≡ last_not_after addr (some x) xs))
        → (last_not_after addr (some x) xs ≡ before)
          ⊎ ((i : ℕ) × (get_elem? (x ∷ xs) i ≡ last_not_after addr (some x) xs))
    shifted (inl e) = inr (0, sym e)
    shifted (inr (i, e)) = inr (suc i, e)

lookup_in-eq :
    (vec : List AddressEntry) (addr : ℕ) (e : AddressEntry)
    → lookup_in vec addr ≡ some e
    → (last_not_after addr none vec ≡ some e) × (contains e addr ≡ true)
unfolding lookup_in
lookup_in-eq vec addr e h = ground arith

lookup_in_sound :
    (vec : List AddressEntry) (addr : ℕ) {e : AddressEntry}
    → lookup_in vec addr ≡ some e
    → (contains e addr ≡ true) × ((i : ℕ) × (get_elem? vec i ≡ some e))
lookup_in_sound vec addr {e} h = (eq.1, from (last_not_after-from addr none vec))
  where
    eq : (last_not_after addr none vec ≡ some e) × (contains e addr ≡ true)
    eq = lookup_in-eq vec addr e h

    from :
        (last_not_after addr none vec ≡ none)
          ⊎ ((i : ℕ) × (get_elem? vec i ≡ last_not_after addr none vec))
        → (i : ℕ) × (get_elem? vec i ≡ some e)
    from (inl q) = absurd (cc (q, eq.0))
    from (inr (i, q)) = (i, q ∙ eq.0)

-- On entries in the order of their starts whose ranges do not overlap and end below 2 ^ 64, the lookup
-- returns an entry exactly when it is one of the entries and contains the address.
pub lookup_in_iff :
    (lo : ℕ) (vec : List AddressEntry) (addr : ℕ) (e : AddressEntry)
    → Ranges lo vec
    → (lookup_in vec addr ≡ some e)
      ↔ ((contains e addr ≡ true) × ((i : ℕ) × (get_elem? vec i ≡ some e)))
unfolding lookup_in
lookup_in_iff lo vec addr e r = (
  lookup_in_sound vec addr,
  λ h. ground (arith, last_not_after-contains addr lo none vec h.1.0 r h.1.1 h.0),
)
