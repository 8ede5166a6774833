-- ===== src/Cache/Unique.antt =====
-- src/cache.cc: no two entries of the miss status holding registers are for one block, and there are no
-- more of them than the cache has.
use cscore_sstelem.Prelude.{
  ℕ, ◌≤◌, ◌<◌, ◌≡◌, refl, ap, ==_iff, ◌∙◌, sym, List, [], ◌∷◌, ◌++◌, Bool, true, false, none, some,
  set, length, length-append, length-set, leb, ◌==◌, if_cases, Bool-cases, Option-cases, inl, inr,
  arith,
}
use cscore_sstelem.Packet.{SstRequest}
use cscore_sstelem.Cache.{TagLookup, Mshr, Cache, block_of, has_unknown_readiness}
use cscore_sstelem.Cache.Mshrs.{make_mshr, merge_mshr, find_mshr}
use cscore_sstelem.Cache.Fill.{remote_entry}
use cscore_sstelem.Cache.Miss.{
  handle_miss, new_miss, merge_miss, count_miss, remote_miss, remote_mshr, allocate, send_below,
  forward_packet, remote_request,
}
use cscore_sstelem.Cache.Entries.{
  entries_for, entries_for-append, find_mshr_found, find_mshr-none, set_same,
}

-- What a miss in the block of `addr` does to the entries: nothing, or it joins the block's entry, which
-- keeps its answer, or it gets a new one, with no answer, if the block has none and there is room.
pub data Entered (bits addr size : ℕ) (before after : List Mshr) : Type 0 where
  unchanged : after ≡ before → Entered bits addr size before after
  merged :
      (i : ℕ) (entry new : Mshr)
      → find_mshr bits addr before ≡ some (i, entry)
      → block_of bits new.address ≡ block_of bits addr
      → new.data_promise ≡ entry.data_promise
      → after ≡ set before i new
      → Entered bits addr size before after
  appended :
      (new : Mshr)
      → find_mshr bits addr before ≡ none
      → length before < size
      → new.address ≡ addr
      → has_unknown_readiness new.data_promise ≡ true
      → after ≡ before ++ (new ∷ [])
      → Entered bits addr size before after

pub merge_mshr-block :
    (bits : ℕ) (entry new : Mshr)
    → block_of bits entry.address ≡ block_of bits new.address
    → (block_of bits (merge_mshr entry new).address ≡ block_of bits new.address)
      × ((merge_mshr entry new).data_promise ≡ entry.data_promise)
unfolding merge_mshr
merge_mshr-block bits entry new h = ground arith

appended_once :
    (bits addr b : ℕ) (before : List Mshr) (new : Mshr)
    → find_mshr bits addr before ≡ none
    → new.address ≡ addr
    → entries_for bits b before ≤ 1
    → entries_for bits b (before ++ (new ∷ [])) ≤ 1
unfolding entries_for
appended_once bits addr b before new n a h =
    let split = entries_for-append bits b before (new ∷ []) in
    let nobody = find_mshr-none bits addr before n in
    elim (Bool-cases (block_of bits new.address == b)) [
      | inl same ↦
          let here : block_of bits addr ≡ b =
            ap (block_of bits) (sym a) ∙ (==_iff (block_of bits new.address) b).0 same in
          let none_here : entries_for bits b before ≡ 0 =
            ap (λ (x : ℕ). entries_for bits x before) (sym here) ∙ nobody in
          ground (arith, split, none_here, same)
      | inr differs ↦ ground (arith, split, differs)
    ]

module _ {R : Type 0} where
  allocate-Entered :
      (c : Cache R) (addr : ℕ) (wanted : Bool) (m : Mshr)
      → find_mshr c.offset_bits addr c.mshr ≡ none
      → length c.mshr < c.mshr_size
      → m.address ≡ addr
      → has_unknown_readiness m.data_promise ≡ true
      → Entered c.offset_bits addr c.mshr_size c.mshr (allocate c wanted m).mshr
  unfolding allocate
  allocate-Entered c addr true m n room a u = appended m n room a u refl
  allocate-Entered c addr false m n room a u = unchanged refl

module _ {R E : Type 0} (send_remote : E → SstRequest → E × Bool) where
  new_miss-Entered :
      (c : Cache R) (env : E) (pkt : TagLookup)
      → find_mshr c.offset_bits pkt.address c.mshr ≡ none
      → length c.mshr < c.mshr_size
      → Entered c.offset_bits pkt.address c.mshr_size c.mshr (new_miss send_remote c env pkt).0.mshr
  unfolding new_miss count_miss remote_miss remote_mshr make_mshr has_unknown_readiness
  new_miss-Entered c env pkt n room =
      let P = λ (res : Cache R × E × Bool).
        Entered c.offset_bits pkt.address c.mshr_size c.mshr res.0.mshr in
      elim (Option-cases (remote_entry c pkt.v_address)) [
        | inl e ↦
            rw (e, new_miss)
              (if_cases P (send_below c pkt).1
                (λ _.
                  allocate-Entered (record c { lower_level = (send_below c pkt).0 }) pkt.address _
                    (make_mshr pkt c.current_time) n room refl refl)
                (λ _. unchanged refl))
        | inr (entry, e) ↦
            rw (e, new_miss)
              (if_cases P (send_remote env (remote_request c.node_id entry (forward_packet pkt))).1
                (λ _. allocate-Entered c pkt.address _ (remote_mshr c pkt entry) n room refl refl)
                (λ _. unchanged refl))
      ]

  pub handle_miss-Entered :
      (c : Cache R) (env : E) (pkt : TagLookup)
      → let (c', env', done) = handle_miss send_remote c env pkt in
        Entered c.offset_bits pkt.address c.mshr_size c.mshr c'.mshr
  unfolding handle_miss merge_miss count_miss
  handle_miss-Entered c env pkt =
      let P = λ (res : Cache R × E × Bool).
        Entered c.offset_bits pkt.address c.mshr_size c.mshr res.0.mshr in
      elim (Option-cases (find_mshr c.offset_bits pkt.address c.mshr)) [
        | inl n ↦
            rw (n, handle_miss)
              (if_cases P (leb c.mshr_size (length c.mshr)) (λ _. unchanged refl)
                (λ full.
                  new_miss-Entered (record c { cpu = pkt.cpu }) env pkt n (ground (arith, full))))
        | inr ((i, entry), f) ↦
            let new = make_mshr pkt c.current_time in
            let (block, promise) =
              merge_mshr-block c.offset_bits entry new
                (find_mshr_found c.offset_bits pkt.address c.mshr i entry f).1 in
            rw (f, handle_miss) (merged i entry (merge_mshr entry new) f block promise refl)
      ]

-- At most one entry for each block, and no more entries than there are registers.
pub record IsOwned (bits size : ℕ) (entries : List Mshr) : Type 0 where
  pub once : (b : ℕ) → entries_for bits b entries ≤ 1
  pub few : length entries ≤ size

Entered-IsOwned :
    (bits addr size : ℕ) (before after : List Mshr)
    → Entered bits addr size before after
    → IsOwned bits size before
    → IsOwned bits size after
Entered-IsOwned bits addr size before after (unchanged e) h = rw e h
Entered-IsOwned bits addr size before after (merged i entry new f block promise e) h =
    rw e (record {
      once = λ b. rw (set_same bits addr b before i entry new f block) (h.once b);
      few = rw (length-set before i new) (h.few);
    })
Entered-IsOwned bits addr size before after (appended new n room a u e) h = rw e (record {
  once = λ b. appended_once bits addr b before new n a (h.once b);
  few = omega (arith, length-append before (new ∷ []));
})

module _ {R E : Type 0} (send_remote : E → SstRequest → E × Bool) where
  -- A miss keeps at most one entry for each block, and no more entries than there are registers, whatever
  -- becomes of it: it is refused, joins an entry, or goes to the fabric or to the level below.
  pub handle_miss-IsOwned :
      (c : Cache R) (env : E) (pkt : TagLookup)
      → IsOwned c.offset_bits c.mshr_size c.mshr
      → let (c', env', done) = handle_miss send_remote c env pkt in
        IsOwned c.offset_bits c.mshr_size c'.mshr
  handle_miss-IsOwned c env pkt =
      Entered-IsOwned c.offset_bits pkt.address c.mshr_size c.mshr _
        (handle_miss-Entered send_remote c env pkt)
