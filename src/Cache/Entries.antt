-- ===== src/Cache/Entries.antt =====
-- src/cache.cc: the searches of the miss status holding registers, and how many entries a block has.
use mathlib.Core.Option.{some-injective}
use cscore_sstelem.Prelude.{
  ℕ, zero, suc, ◌+◌, ◌≡◌, refl, ap, subst, ==_iff, ◌∙◌, sym, List, [], ◌∷◌, ◌++◌, none, some,
  get_elem?, set, length, ◌==◌, if◌then◌else◌, Bool-cases, Option-cases, inl, inr, arith,
}
use cscore_sstelem.Cache.{Mshr, block_of}
use cscore_sstelem.Cache.Mshrs.{find_mshr, remove_at}

-- How many entries are for the block `b`.
unfoldable pub entries_for : ℕ → ℕ → List Mshr → ℕ
entries_for bits b [] = 0
entries_for bits b (m ∷ ms) =
    (if block_of bits m.address == b then 1 else 0) + entries_for bits b ms

pub entries_for-append :
    (bits b : ℕ) (xs ys : List Mshr)
    → entries_for bits b (xs ++ ys) ≡ entries_for bits b xs + entries_for bits b ys
unfolding entries_for
entries_for-append bits b [] ys = omega arith
entries_for-append bits b (x ∷ xs) ys = omega (arith, entries_for-append bits b xs ys)

found_here :
    (bits addr : ℕ) (x : Mshr) (xs : List Mshr) (i : ℕ) (m : Mshr)
    → block_of bits x.address ≡ block_of bits addr
    → ◌≡◌ {A = ℕ × Mshr} (0, x) (i, m)
    → (get_elem? (x ∷ xs) i ≡ some m) × (block_of bits m.address ≡ block_of bits addr)
found_here bits addr x xs i m same e =
    subst
      (λ (p : ℕ × Mshr).
        (get_elem? (x ∷ xs) p.0 ≡ some p.1) × (block_of bits p.1.address ≡ block_of bits addr))
      e (refl, same)

found_later :
    (bits addr : ℕ) (x : Mshr) (xs : List Mshr) (j i : ℕ) (m' m : Mshr)
    → (get_elem? xs j ≡ some m') × (block_of bits m'.address ≡ block_of bits addr)
    → ◌≡◌ {A = ℕ × Mshr} (suc j, m') (i, m)
    → (get_elem? (x ∷ xs) i ≡ some m) × (block_of bits m.address ≡ block_of bits addr)
found_later bits addr x xs j i m' m h e =
    subst
      (λ (p : ℕ × Mshr).
        (get_elem? (x ∷ xs) p.0 ≡ some p.1) × (block_of bits p.1.address ≡ block_of bits addr))
      e h

-- The entry that is found is at its position, and is for the block; where none is found, none is.
pub find_mshr_found :
    (bits addr : ℕ) (xs : List Mshr) (i : ℕ) (m : Mshr)
    → find_mshr bits addr xs ≡ some (i, m)
    → (get_elem? xs i ≡ some m) × (block_of bits m.address ≡ block_of bits addr)
unfolding find_mshr
find_mshr_found bits addr [] i m e = cc
find_mshr_found bits addr (x ∷ xs) i m e =
    elim (Bool-cases (block_of bits x.address == block_of bits addr)) [
      | inl same ↦
          found_here bits addr x xs i m
            ((==_iff (block_of bits x.address) (block_of bits addr)).0 same)
            (some-injective {A = ℕ × Mshr} (0, x) (i, m) (ground arith))
      | inr differs ↦ elim (Option-cases (find_mshr bits addr xs)) [
        | inl n ↦ ground arith
        | inr ((j, m'), s) ↦
            found_later bits addr x xs j i m' m (find_mshr_found bits addr xs j m' s)
              (some-injective {A = ℕ × Mshr} (suc j, m') (i, m) (ground arith))
      ]
    ]

pub find_mshr-none :
    (bits addr : ℕ) (xs : List Mshr)
    → find_mshr bits addr xs ≡ none
    → entries_for bits (block_of bits addr) xs ≡ 0
unfolding find_mshr entries_for
find_mshr-none bits addr [] e = refl
find_mshr-none bits addr (x ∷ xs) e = elim (Option-cases (find_mshr bits addr xs)) [
  | inl n ↦ ground (arith, find_mshr-none bits addr xs n)
  | inr ((j, m'), s) ↦ ground arith
]

pub one_block :
    (bits b : ℕ) (x y : Mshr)
    → block_of bits x.address ≡ block_of bits y.address
    → entries_for bits b (x ∷ []) ≡ entries_for bits b (y ∷ [])
unfolding entries_for
one_block bits b x y e = rw e refl

-- A write over an entry by one of the same block changes no count.
pub entries_for-set :
    (bits b : ℕ) (xs : List Mshr) (i : ℕ) (old new : Mshr)
    → get_elem? xs i ≡ some old
    → entries_for bits b (set xs i new) + entries_for bits b (old ∷ [])
      ≡ entries_for bits b xs + entries_for bits b (new ∷ [])
unfolding entries_for
entries_for-set bits b [] i old new e = cc
entries_for-set bits b (x ∷ xs) zero old new e =
    let same : x ≡ old = some-injective x old e in
    omega (arith, ap (λ (m : Mshr). entries_for bits b (m ∷ [])) same)
entries_for-set bits b (x ∷ xs) (suc i) old new e =
    omega (arith, entries_for-set bits b xs i old new e)

pub entries_for-remove_at :
    (bits b : ℕ) (xs : List Mshr) (i : ℕ) (old : Mshr)
    → get_elem? xs i ≡ some old
    → (entries_for bits b (old ∷ remove_at i xs) ≡ entries_for bits b xs)
      × (length (old ∷ remove_at i xs) ≡ length xs)
unfolding entries_for remove_at
entries_for-remove_at bits b [] i old e = cc
entries_for-remove_at bits b (x ∷ xs) zero old e =
    let same : x ≡ old = some-injective x old e in
    (omega (arith, ap (λ (m : Mshr). entries_for bits b (m ∷ [])) same), refl)
entries_for-remove_at bits b (x ∷ xs) (suc i) old e =
    let h = entries_for-remove_at bits b xs i old e in (omega (arith, h), omega (arith, h))

-- A write over an entry that was found, by one for the same block, changes no count.
pub set_same :
    (bits addr b : ℕ) (xs : List Mshr) (i : ℕ) (old new : Mshr)
    → find_mshr bits addr xs ≡ some (i, old)
    → block_of bits new.address ≡ block_of bits addr
    → entries_for bits b (set xs i new) ≡ entries_for bits b xs
set_same bits addr b xs i old new found same =
    let (place, block) = find_mshr_found bits addr xs i old found in
    omega (
      arith,
      entries_for-set bits b xs i old new place,
      one_block bits b old new (block ∙ sym same),
    )
