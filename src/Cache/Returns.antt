-- ===== src/Cache/Returns.antt =====
-- src/cache.cc, `finish_packet` and `handle_remote_response`: what an answer does to the entries.
use cscore_sstelem.Prelude.{
  ℕ, zero, suc, ◌+◌, ◌≤◌, ◌≡◌, refl, List, [], ◌∷◌, true, false, some, get_elem?, set, length-set,
  arith,
}
use cscore_sstelem.Prelude.Result.{ok}
use cscore_sstelem.Packet.{SstResponse}
use cscore_sstelem.Channel.{Response}
use cscore_sstelem.Cache.{Mshr, Cache, has_unknown_readiness}
use cscore_sstelem.Cache.Mshrs.{find_mshr, remove_at}
use cscore_sstelem.Cache.Answers.{answer, count_remote, finish_packet, handle_remote_response}
use cscore_sstelem.Cache.Entries.{
  find_mshr_found, entries_for-append, entries_for-set, entries_for-remove_at, one_block,
}
use cscore_sstelem.Cache.Unique.{IsOwned}
use cscore_sstelem.Cache.Settled.{
  unanswered, answered_front, answered_all, IsSettled, answered_all-set, first_unreturned_exists,
  swap-front, remove_at-IsSettled, front_at_most,
}

-- The first write of a swap puts the first unanswered entry where the answered one is, and leaves it
-- where it was.
still_there :
    (ms : List Mshr) (i j : ℕ) (entry other : Mshr)
    → get_elem? ms i ≡ some entry
    → get_elem? ms j ≡ some other
    → get_elem? (set ms i other) j ≡ some other
still_there [] i j entry other at place = cc
still_there (m ∷ ms) zero zero entry other at place = refl
still_there (m ∷ ms) zero (suc j) entry other at place = place
still_there (m ∷ ms) (suc i) zero entry other at place = place
still_there (m ∷ ms) (suc i) (suc j) entry other at place = still_there ms i j entry other at place

one_answered : (m : Mshr) → unanswered m ≡ false → answered_all (m ∷ []) ≡ 1
unfolding answered_all
one_answered m e = rw e (omega arith)

none_answered : (m : Mshr) → unanswered m ≡ true → answered_all (m ∷ []) ≡ 0
unfolding answered_all
none_answered m e = rw e refl

sandwich :
    (front all front' all' : ℕ)
    → front ≡ all
    → 1 + front ≤ front'
    → front' ≤ all'
    → all' ≡ suc all
    → (front' ≡ all') × (all' ≡ suc all)
sandwich front all front' all' h more most e = (omega arith, e)

swap-IsOwned :
    (bits size : ℕ) (ms : List Mshr) (i j : ℕ) (entry other new : Mshr)
    → get_elem? ms i ≡ some entry
    → get_elem? ms j ≡ some other
    → new.address ≡ entry.address
    → IsOwned bits size ms
    → IsOwned bits size (set (set ms i other) j new)
swap-IsOwned bits size ms i j entry other new at place same h =
    let there = still_there ms i j entry other at place in
    record {
      once = λ b. omega (
        arith,
        h.once b,
        entries_for-set bits b ms i entry other at,
        entries_for-set bits b (set ms i other) j other new there,
        one_block bits b new entry (rw same refl),
      );
      few = rw (length-set (set ms i other) j new, length-set ms i other) (h.few);
    }

removed-IsOwned :
    (bits size : ℕ) (ms : List Mshr) (i : ℕ) (entry new : Mshr)
    → get_elem? ms i ≡ some entry
    → new.address ≡ entry.address
    → IsOwned bits size ms
    → IsOwned bits size (new ∷ remove_at i ms)
removed-IsOwned bits size ms i entry new at same h = record {
  once = λ b.
      let (counts, _) = entries_for-remove_at bits b ms i entry at in
      omega (
        arith,
        h.once b,
        counts,
        entries_for-append bits b (entry ∷ []) (remove_at i ms),
        entries_for-append bits b (new ∷ []) (remove_at i ms),
        one_block bits b new entry (rw same refl),
      );
  few = omega (arith, h.few, (entries_for-remove_at bits 0 ms i entry at).1);
}

swap-IsSettled :
    (ms : List Mshr) (i : ℕ) (entry other new : Mshr)
    → get_elem? ms i ≡ some entry
    → get_elem? ms (answered_front ms) ≡ some other
    → unanswered entry ≡ true
    → unanswered other ≡ true
    → unanswered new ≡ false
    → IsSettled ms
    → let ms' = set (set ms i other) (answered_front ms) new in
      IsSettled ms' × (answered_all ms' ≡ suc (answered_all ms))
unfolding IsSettled
swap-IsSettled ms i entry other new at place u w k h =
    let j = answered_front ms in
    let there = still_there ms i j entry other at place in
    let more = swap-front ms i entry other new at u k in
    let first = answered_all-set ms i entry other at in
    let second = answered_all-set (set ms i other) j other new there in
    let most = front_at_most (set (set ms i other) j new) in
    sandwich (answered_front ms) (answered_all ms) _ _ h more most (
      omega
        (arith, first, second, none_answered entry u, none_answered other w, one_answered new k))

module _ {R : Type 0} where
  -- Where each block has at most one entry, there are no more entries than registers, and the answered
  -- ones are in front, an answer from the level below, for an entry that has none, is taken: it stays
  -- so, and one entry more is answered.
  pub finish_packet_lem :
      (c : Cache R) (packet : Response) (i : ℕ) (entry : Mshr)
      → find_mshr c.offset_bits packet.address c.mshr ≡ some (i, entry)
      → unanswered entry ≡ true
      → IsOwned c.offset_bits c.mshr_size c.mshr
      → IsSettled c.mshr
      → (c' : Cache R) × (finish_packet c packet ≡ ok c')
        × IsOwned c.offset_bits c.mshr_size c'.mshr
        × IsSettled c'.mshr
        × (answered_all c'.mshr ≡ suc (answered_all c.mshr))
  unfolding finish_packet has_unknown_readiness
  finish_packet_lem c packet i entry f u owned settled =
      let at = (find_mshr_found c.offset_bits packet.address c.mshr i entry f).0 in
      let (other, first, place, w) = first_unreturned_exists c.mshr i entry at u in
      let new : Mshr = record entry {
        data_promise = answer c packet.data_word packet.pf_metadata;
      } in
      let (settled', more) = swap-IsSettled c.mshr i entry other new at place u w refl settled in
      (
        record c { mshr = set (set c.mshr i other) (answered_front c.mshr) new },
        rw (f, finish_packet, first) refl,
        swap-IsOwned c.offset_bits c.mshr_size c.mshr i (answered_front c.mshr) entry other new at
            place refl owned,
        settled',
        more,
      )

  -- An answer from the fabric, for a block that has an entry, is taken: the entry, answered, comes first,
  -- and the others keep their order.
  pub handle_remote_response_lem :
      (c : Cache R) (resp : SstResponse) (i : ℕ) (entry : Mshr)
      → find_mshr c.offset_bits resp.address c.mshr ≡ some (i, entry)
      → IsOwned c.offset_bits c.mshr_size c.mshr
      → IsSettled c.mshr
      → (c' : Cache R) × (handle_remote_response c resp ≡ ok c')
        × (c'.mshr
            ≡ record entry { data_promise = answer c resp.data_word resp.pf_metadata }
              ∷ remove_at i c.mshr)
        × IsOwned c.offset_bits c.mshr_size c'.mshr
        × IsSettled c'.mshr
  unfolding handle_remote_response IsSettled answered_front answered_all has_unknown_readiness
  handle_remote_response_lem c resp i entry f owned settled =
      let at = (find_mshr_found c.offset_bits resp.address c.mshr i entry f).0 in
      let new : Mshr = record entry { data_promise = answer c resp.data_word resp.pf_metadata } in
      (
        record c { mshr = new ∷ remove_at i c.mshr; sim_stats = count_remote c entry },
        rw (f, handle_remote_response) refl,
        refl,
        removed-IsOwned c.offset_bits c.mshr_size c.mshr i entry new at refl owned,
        omega (arith, remove_at-IsSettled c.mshr i settled),
      )
