-- ===== src/Cache/Remote.antt =====
-- src/cache.cc: the last-level cache and the fabric.
use mathlib.Core.Bool.{true≢false}
use cscore_sstelem.Prelude.{
  ℕ, ◌^◌, ◌≤◌, ◌<◌, ◌≡◌, ◌⊎◌, refl, ap, subst, ◌∙◌, sym, List, [], ◌∷◌, ◌++◌, Bool, true, false,
  none, some, length, leb, if◌then◌else◌, Bool-cases, Option-cases, inl, inr, arith,
}
use cscore_sstelem.Prelude.Result.{ok}
use cscore_sstelem.Packet.{SstRequest, SstResponse}
use cscore_sstelem.Packet.Control.{is_write_request}
use cscore_sstelem.Packet.Convert.{convert_request_to_event}
use cscore_sstelem.AddressMap.{AddressEntry}
use cscore_sstelem.Cache.{CacheBlock, TagLookup, Mshr, Cache, block_of}
use cscore_sstelem.Cache.Mshrs.{find_mshr, make_mshr, merge_mshr, remove_at}
use cscore_sstelem.Cache.Fill.{remote_entry, remote_writeback}
use cscore_sstelem.Cache.Miss.{
  forward_packet, remote_request, remote_mshr, remote_miss, allocate, count_miss, merge_miss,
  new_miss, handle_miss,
}
use cscore_sstelem.Cache.Answers.{answer, count_remote, handle_remote_response}
use cscore_sstelem.Cache.Entries.{
  entries_for, entries_for-append, entries_for-remove_at, find_mshr_found, find_mshr-none, set_same,
}
use cscore_sstelem.Cache.Unique.{merge_mshr-block}
use cscore_sstelem.Cache.Cycle.{handle_miss-sizes}

-- What the switch sees of the two requests that a cache sends to the fabric: the request for a miss is
-- never a write, and has 8 bytes; that of a dirty block is a write of 64 bytes, to which there is no
-- response. The type of the packet is a 32-bit word.
pub fabric_requests :
    (node_id : ℕ) (entry : AddressEntry) (pkt : TagLookup) (way : CacheBlock) (m : Mshr)
    → pkt.type < 2 ^ 32
    → let miss = remote_request node_id entry (forward_packet pkt) in
      let writeback = remote_writeback node_id entry way m in
      (is_write_request (convert_request_to_event miss) ≡ false)
      × (miss.msg_bytes ≡ 8)
      × (is_write_request (convert_request_to_event writeback) ≡ true)
      × (writeback.msg_bytes ≡ 64)
      × (writeback.response_requested ≡ false)
unfolding is_write_request convert_request_to_event remote_request forward_packet remote_writeback
fabric_requests node_id entry pkt way m h = ground arith

own_entry :
    (bits b : ℕ) (m : Mshr) (ms : List Mshr)
    → block_of bits m.address ≡ b
    → 1 ≤ entries_for bits b (m ∷ ms)
unfolding entries_for
own_entry bits b m ms e = ground arith

module _ {R : Type 0} where
  -- `resp` has answered an entry for its block: this comes first now, and the others keep their order.
  pub record AnswerTaken (c : Cache R) (resp : SstResponse) (c' : Cache R) : Type 0 where
    pub index : ℕ
    pub entry : Mshr
    pub found : find_mshr c.offset_bits resp.address c.mshr ≡ some (index, entry)
    pub in_front :
        c'.mshr
        ≡ record entry { data_promise = answer c resp.data_word resp.pf_metadata }
          ∷ remove_at index c.mshr

  answer_finds :
      (c : Cache R) (resp : SstResponse)
      → 1 ≤ entries_for c.offset_bits (block_of c.offset_bits resp.address) c.mshr
      → (c' : Cache R) × (handle_remote_response c resp ≡ ok c') × AnswerTaken c resp c'
  unfolding handle_remote_response
  answer_finds c resp h = elim (Option-cases (find_mshr c.offset_bits resp.address c.mshr)) [
    | inl n ↦ absurd (ground (arith, h, find_mshr-none c.offset_bits resp.address c.mshr n))
    | inr ((i, entry), f) ↦
        let new : Mshr = record entry { data_promise = answer c resp.data_word resp.pf_metadata } in
        (
          record c { mshr = new ∷ remove_at i c.mshr; sim_stats = count_remote c entry },
          rw (f, handle_remote_response) refl,
          record { index = i; entry = entry; found = f; in_front = refl },
        )
  ]

module _ {R E : Type 0} (send_remote : E → SstRequest → E × Bool) where
  -- A miss that is refused, because there is no room for an entry or what it would be sent to does not
  -- take it, leaves the entries, the blocks, the counts and the responses as they are.
  pub handle_miss-refused :
      (c : Cache R) (env : E) (pkt : TagLookup)
      → (handle_miss send_remote c env pkt).2 ≡ false
      → let c' = (handle_miss send_remote c env pkt).0 in
        (c'.mshr ≡ c.mshr)
        × (c'.block ≡ c.block)
        × (c'.sim_stats ≡ c.sim_stats)
        × (c'.upper_levels ≡ c.upper_levels)
  unfolding handle_miss new_miss
  handle_miss-refused c env pkt h = ground arith

  pub fabric_only :
      (c : Cache R) (env : E) (pkt : TagLookup) (entry : AddressEntry)
      → remote_entry c pkt.v_address ≡ some entry
      → (handle_miss send_remote c env pkt).0.lower_level ≡ c.lower_level
  unfolding handle_miss merge_miss count_miss new_miss remote_miss allocate remote_entry
  fabric_only c env pkt entry e = ground arith

  below_only :
      (c : Cache R) (env : E) (pkt : TagLookup)
      → remote_entry c pkt.v_address ≡ none
      → (handle_miss send_remote c env pkt).1 ≡ env
  unfolding handle_miss new_miss remote_entry
  below_only c env pkt e = ground arith

  -- A miss is sent one way at most: what the address map sends to the fabric leaves the level below as it
  -- is, and all else leaves the fabric as it is.
  pub handle_miss-one_way :
      (c : Cache R) (env : E) (pkt : TagLookup)
      → let (c', env', done) = handle_miss send_remote c env pkt in
        (c'.lower_level ≡ c.lower_level) ⊎ (env' ≡ env)
  unfolding handle_miss merge_miss count_miss new_miss remote_miss allocate
  handle_miss-one_way c env pkt = elim (Option-cases (remote_entry c pkt.v_address)) [
    | inl n ↦ inr (below_only c env pkt n)
    | inr (entry, e) ↦ inl (fabric_only c env pkt entry e)
  ]

  pub new_miss_fabric :
      (c : Cache R) (env : E) (pkt : TagLookup) (entry : AddressEntry)
      → remote_entry c pkt.v_address ≡ some entry
      → let (env', accepted) =
          send_remote env (remote_request c.node_id entry (forward_packet pkt)) in
        new_miss send_remote c env pkt ≡ (
          if accepted
          then (count_miss (remote_miss c pkt entry) pkt, env', true)
          else (c, env', false))
  unfolding new_miss
  new_miss_fabric c env pkt entry e = rw (e, new_miss) refl

  new_miss-entry :
      (c : Cache R) (env : E) (pkt : TagLookup)
      → (new_miss send_remote c env pkt).2 ≡ true
      → (forward_packet pkt).response_requested ≡ true
      → (m : Mshr) × ((new_miss send_remote c env pkt).0.mshr ≡ c.mshr ++ (m ∷ []))
        × (m.address ≡ pkt.address)
  unfolding new_miss count_miss remote_miss allocate remote_mshr make_mshr
  new_miss-entry c env pkt d w = elim (Option-cases (remote_entry c pkt.v_address)) [
    | inl n ↦ (make_mshr pkt c.current_time, ground (arith, n, d, w), refl)
    | inr (entry, e) ↦ (remote_mshr c pkt entry, ground (arith, e, d, w), refl)
  ]

  pub handle_new :
      (c : Cache R) (env : E) (pkt : TagLookup)
      → find_mshr c.offset_bits pkt.address c.mshr ≡ none
      → leb c.mshr_size (length c.mshr) ≡ false
      → handle_miss send_remote c env pkt
        ≡ new_miss send_remote (record c { cpu = pkt.cpu }) env pkt
  unfolding handle_miss
  handle_new c env pkt n room = rw (n, handle_miss) (rw room refl)

  handle_full :
      (c : Cache R) (env : E) (pkt : TagLookup)
      → find_mshr c.offset_bits pkt.address c.mshr ≡ none
      → leb c.mshr_size (length c.mshr) ≡ true
      → handle_miss send_remote c env pkt ≡ (record c { cpu = pkt.cpu }, env, false)
  unfolding handle_miss
  handle_full c env pkt n full = rw (n, handle_miss) (rw full refl)

  miss_has_entry :
      (c : Cache R) (env : E) (pkt : TagLookup)
      → (handle_miss send_remote c env pkt).2 ≡ true
      → (forward_packet pkt).response_requested ≡ true
      → 1
        ≤ entries_for c.offset_bits
            (block_of c.offset_bits pkt.address)
            (handle_miss send_remote c env pkt).0.mshr
  unfolding handle_miss merge_miss count_miss
  miss_has_entry c env pkt d w =
      let bits = c.offset_bits in
      let c₁ : Cache R = record c { cpu = pkt.cpu } in
      let P =
        λ (res : Cache R × E × Bool). 1 ≤ entries_for bits (block_of bits pkt.address) res.0.mshr in
      elim (Option-cases (find_mshr bits pkt.address c.mshr)) [
        | inl n ↦ elim (Bool-cases (leb c.mshr_size (length c.mshr))) [
          | inl full ↦ absurd (
              true≢false
                (sym d ∙ ap (λ (res : Cache R × E × Bool). res.2) (handle_full c env pkt n full)))
          | inr room ↦
              let same = handle_new c env pkt n room in
              let done = sym (ap (λ (res : Cache R × E × Bool). res.2) same) ∙ d in
              let (m, after, here) = new_miss-entry c₁ env pkt done w in
              subst P (sym same) (
                subst (λ (ms : List Mshr). 1 ≤ entries_for bits (block_of bits pkt.address) ms)
                  (sym after)
                  (omega (
                    arith,
                    entries_for-append bits (block_of bits pkt.address) c.mshr (m ∷ []),
                    own_entry bits (block_of bits pkt.address) m [] (ap (block_of bits) here),
                  )))
        ]
        | inr ((i, entry), f) ↦
            let (place, block) = find_mshr_found bits pkt.address c.mshr i entry f in
            let new = make_mshr pkt c.current_time in
            let merged = (merge_mshr-block bits entry new block).0 in
            rw (f, handle_miss)
              (omega (
                arith,
                set_same bits pkt.address (block_of bits pkt.address) c.mshr i entry
                    (merge_mshr entry new) f merged,
                entries_for-remove_at bits (block_of bits pkt.address) c.mshr i entry place,
                own_entry bits (block_of bits pkt.address) entry (remove_at i c.mshr) block,
              ))
      ]

  -- The answer to a miss that was dealt with and that waits for one finds an entry for its block, and
  -- answers it.
  pub miss_can_be_answered :
      (c : Cache R) (env : E) (pkt : TagLookup) (resp : SstResponse)
      → (handle_miss send_remote c env pkt).2 ≡ true
      → (forward_packet pkt).response_requested ≡ true
      → block_of c.offset_bits resp.address ≡ block_of c.offset_bits pkt.address
      → let c' = (handle_miss send_remote c env pkt).0 in
        (c'' : Cache R) × (handle_remote_response c' resp ≡ ok c'') × AnswerTaken c' resp c''
  miss_can_be_answered c env pkt resp d w same =
      let c' = (handle_miss send_remote c env pkt).0 in
      let there = miss_has_entry c env pkt d w in
      answer_finds c' resp (
        subst (λ (bits : ℕ). 1 ≤ entries_for bits (block_of bits resp.address) c'.mshr)
          (sym (handle_miss-sizes send_remote c env pkt).0)
          (subst (λ (b : ℕ). 1 ≤ entries_for c.offset_bits b c'.mshr) (sym same) there))
