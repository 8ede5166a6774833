-- ===== src/Cache/Hit.antt =====
-- src/cache.cc: an address hits after its block has been filled.
use mathlib.Core.Bool.{true≢false}
use mathlib.Core.Option.{some-injective}
use cscore_sstelem.Prelude.{
  ℕ, zero, suc, ◌+◌, ◌*◌, ◌/◌, ◌%◌, ◌^◌, lt→ltb, ◌≤◌, ◌<◌, ◌≡◌, refl, ap, subst, ◌∙◌, sym, List, [],
  ◌∷◌, Bool, true, ◌&&◌, none, some, get_elem?, get_elem?-set_self, set, take, drop, length, ◌==◌,
  if◌then◌else◌, Bool-cases, Option-cases, inl, inr, arith,
}
use cscore_sstelem.Packet.{SstRequest}
use cscore_sstelem.Channel.{Channel}
use cscore_sstelem.Cache.{
  CacheBlock, CacheStats, TagLookup, Mshr, Cache, Replacement, block_of, set_begin, get_set_index,
  top_bit,
}
use cscore_sstelem.Cache.Fill.{
  choose_way, answer_waiters, fill_block, fill_way, handle_fill, prefetcher_cache_fill,
}
use cscore_sstelem.Cache.Filled.{contents, filled, refused, handle_fill-Outcome}
use cscore_sstelem.Cache.Lookup.{find_way, set_span, try_hit}

find_way_exists :
    (bits addr : ℕ) (xs : List CacheBlock) (i : ℕ) (b : CacheBlock)
    → get_elem? xs i ≡ some b
    → b.valid ≡ true
    → block_of bits b.address ≡ block_of bits addr
    → (w : ℕ) × (find_way bits addr xs ≡ some w)
unfolding find_way
find_way_exists bits addr [] i b e v s = absurd (ground (arith, e))
find_way_exists bits addr (x ∷ xs) zero b e v s =
    let here : x ≡ b = some-injective x b e in (0, rw (here, v) (ground (arith, s)))
find_way_exists bits addr (x ∷ xs) (suc i) b e v s =
    let (w, later) = find_way_exists bits addr xs i b e v s in
    elim (Bool-cases (x.valid && (block_of bits x.address == block_of bits addr))) [
      | inl hit ↦ (0, rw hit refl)
      | inr miss ↦ (suc w, rw (miss, later) refl)
    ]

span_get :
    (n k j : ℕ) (xs : List CacheBlock) (b : CacheBlock)
    → j < n
    → get_elem? xs (k + j) ≡ some b
    → get_elem? (take n (drop k xs)) j ≡ some b
span_get n k j xs b h e = take_get n (drop k xs) j b h (drop_get k xs j ∙ e)
  where
    take_get :
        (n : ℕ) (xs : List CacheBlock) (j : ℕ) (b : CacheBlock)
        → j < n
        → get_elem? xs j ≡ some b
        → get_elem? (take n xs) j ≡ some b
    take_get zero xs j b h e = absurd (omega (arith, h))
    take_get (suc n) [] j b h e = e
    take_get (suc n) (y ∷ xs) zero b h e = e
    take_get (suc n) (y ∷ xs) (suc j) b h e = take_get n xs j b (omega (arith, h)) e

    drop_get :
        (k : ℕ) (xs : List CacheBlock) (j : ℕ) → get_elem? (drop k xs) j ≡ get_elem? xs (k + j)
    drop_get zero xs j = ap (get_elem? xs) (omega arith)
    drop_get (suc k) [] j = refl
    drop_get (suc k) (y ∷ xs) j =
        let next : suc (k + j) ≡ suc k + j = omega arith in
        drop_get k xs j ∙ ap (get_elem? (y ∷ xs)) next

in_range :
    (xs : List CacheBlock) (i : ℕ) → i < length xs → (b : CacheBlock) × (get_elem? xs i ≡ some b)
in_range [] i h = absurd (omega (arith, h))
in_range (x ∷ xs) zero h = (x, refl)
in_range (x ∷ xs) (suc i) h = in_range xs i (omega (arith, h))

module _ {R : Type 0} ⦃r : Replacement R⦄ where
  -- The filled block is found in its set, by any address of it.
  fill_way-found :
      (c : Cache R) (m : Mshr) (way : ℕ) (b : CacheBlock) (addr : ℕ)
      → way < c.num_way
      → set_begin c m.address + c.num_way ≤ length c.block
      → block_of c.offset_bits addr ≡ block_of c.offset_bits m.address
      → let c' = fill_way c m way (some b) in
        (w : ℕ) × (find_way c'.offset_bits addr (set_span c' addr) ≡ some w)
  unfolding fill_way answer_waiters prefetcher_cache_fill fill_block get_set_index
  fill_way-found c m way b addr lo room same =
      let new = fill_block m m.data_promise.pf_metadata in
      let place = set_begin c m.address + way in
      let there : get_elem? (set c.block place new) place ≡ some new =
        get_elem?-set_self c.block place new (omega (arith, lo, room)) in
      let begin = ap (λ (k : ℕ). k % 2 ^ top_bit 63 c.num_set * c.num_way) (sym same) in
      find_way_exists c.offset_bits addr _ way new
        (span_get c.num_way _ way (set c.block place new) new lo
          (subst (λ (k : ℕ). get_elem? (set c.block place new) (k + way) ≡ some new) begin there))
        refl (sym same)

  -- The same for a cache with the contents of `c`.
  filled_hits :
      (before c : Cache R) (m : Mshr) (way : ℕ) (b : CacheBlock) (addr : ℕ)
      → contents before ≡ contents c
      → way < c.num_way
      → set_begin c m.address + c.num_way ≤ length c.block
      → block_of c.offset_bits addr ≡ block_of c.offset_bits m.address
      → let c' = fill_way before m way (some b) in
        (w : ℕ) × (find_way c'.offset_bits addr (set_span c' addr) ≡ some w)
  unfolding get_set_index
  filled_hits before c m way b addr alike lo room same =
      let Contents = List (ℕ × Channel) × List CacheBlock × CacheStats × ℕ × ℕ × ℕ in
      let blocks : before.block ≡ c.block = ap (λ (p : Contents). p.1) alike in
      let ways : before.num_way ≡ c.num_way = ap (λ (p : Contents). p.4) alike in
      let bits : before.offset_bits ≡ c.offset_bits = ap (λ (p : Contents). p.5) alike in
      let begin : set_begin before m.address ≡ set_begin c m.address =
        ap (λ (p : Contents). m.address / 2 ^ p.5 % 2 ^ top_bit 63 p.3 * p.4) alike in
      fill_way-found before m way b addr (omega (arith, lo, ways))
        (omega (arith, room, begin, ways, ap length blocks))
        (subst (λ (k : ℕ). block_of k addr ≡ block_of k m.address) (sym bits) same)

  try_hit-found :
      (c : Cache R) (pkt : TagLookup) (w : ℕ)
      → find_way c.offset_bits pkt.address (set_span c pkt.address) ≡ some w
      → (try_hit c pkt).1 ≡ true
  unfolding try_hit
  try_hit-found c pkt w f = elim (Option-cases (get_elem? c.block (set_begin c pkt.address + w))) [
    | inl n ↦ rw (f, try_hit) (rw n refl)
    | inr (b, e) ↦ rw (f, try_hit) (rw e refl)
  ]

module _ {R E : Type 0} ⦃r : Replacement R⦄ (send_remote : E → SstRequest → E × Bool) where
  -- After an entry has been filled into a way of its set, in a cache that has the ways of that set, every
  -- lookup of an address of its block hits.
  pub fill-hit :
      (c : Cache R) (env : E) (m : Mshr) (pkt : TagLookup)
      → (handle_fill send_remote c env m).2 ≡ true
      → (choose_way c m).1 < c.num_way
      → set_begin c m.address + c.num_way ≤ length c.block
      → block_of c.offset_bits pkt.address ≡ block_of c.offset_bits m.address
      → (try_hit (handle_fill send_remote c env m).0 pkt).1 ≡ true
  fill-hit c env m pkt d lo room same = elim (handle_fill-Outcome send_remote c env m) [
    | refused _ not_done ↦ absurd (true≢false (sym d ∙ not_done))
    | filled before way old alike w o e _ ↦
        let lo' : way < c.num_way = omega (arith, lo, w) in
        let (b, there) =
          in_range c.block (set_begin c m.address + way) (omega (arith, room, lo')) in
        let holds : old ≡ some b =
          o
          ∙ ap (λ (t : Bool). if t then get_elem? c.block (set_begin c m.address + way) else none)
              (lt→ltb way c.num_way lo')
          ∙ there in
        let (w', found) = filled_hits before c m way b pkt.address alike lo' room same in
        subst (λ (c' : Cache R). (try_hit c' pkt).1 ≡ true)
          (sym (e ∙ ap (fill_way before m way) holds))
          (try_hit-found (fill_way before m way (some b)) pkt w' found)
  ]
