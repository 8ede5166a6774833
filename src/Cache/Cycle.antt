-- ===== src/Cache/Cycle.antt =====
-- src/cache.cc, `operate`: what a cycle keeps of the entries, after the answers from the level below.
use cscore_sstelem.Prelude.{
  ℕ, zero, suc, ◌+◌, ◌-◌, ◌≤◌, ◌≡◌, refl, subst, ◌∙◌, sym, List, [], ◌∷◌, Bool, ◌&&◌, not, Option,
  none, some, get_elem?, drop, length-drop, ltb, ◌==◌, if◌then◌else◌, if_cases, Option-cases, inl,
  inr, arith,
}
use cscore_sstelem.Packet.{SstRequest, write_type}
use cscore_sstelem.Channel.{Response}
use cscore_sstelem.Cache.{CacheBlock, TagLookup, Mshr, Cache, Replacement, set_begin}
use cscore_sstelem.Cache.Fill.{
  remote_entry, choose_way, answer_waiters, fill_way, write_back, handle_fill,
}
use cscore_sstelem.Cache.Lookup.{hit_block, try_hit}
use cscore_sstelem.Cache.Miss.{
  handle_miss, handle_write, new_miss, merge_miss, count_miss, remote_miss, allocate,
}
use cscore_sstelem.Cache.Entries.{entries_for}
use cscore_sstelem.Cache.Unique.{IsOwned, handle_miss-Entered, handle_miss-IsOwned}
use cscore_sstelem.Cache.Settled.{IsSettled, IsSettled-tail, Entered-IsSettled}
use cscore_sstelem.Cache.Translation.{finish_translations, finish_translation}
use cscore_sstelem.Span.{span_while}
use cscore_sstelem.Cache.Operate.{
  is_due, fill_each, ready, perform_fills, check_tags, do_handle_miss, handle_misses,
  perform_tag_checks, take_translations, initiate_tag_checks, issue_translations, stash_missed,
  operate_rest,
}

-- The part of a cache that the entries depend on.
abbrev pub registers : {R : Type 0} → Cache R → ℕ × ℕ × List Mshr
registers c = (c.offset_bits, c.mshr_size, c.mshr)

-- One entry at most for each block, no more than there is room for, and the answered ones first.
unfoldable pub IsKept : ℕ × ℕ × List Mshr → Type 0
IsKept (bits, size, entries) = IsOwned bits size entries × IsSettled entries

entries_for-drop :
    (bits b n : ℕ) (ms : List Mshr) → entries_for bits b (drop n ms) ≤ entries_for bits b ms
unfolding entries_for
entries_for-drop bits b zero ms = omega arith
entries_for-drop bits b (suc n) [] = omega arith
entries_for-drop bits b (suc n) (m ∷ ms) = omega (arith, entries_for-drop bits b n ms)

drop-IsSettled : (n : ℕ) (ms : List Mshr) → IsSettled ms → IsSettled (drop n ms)
drop-IsSettled zero ms h = h
drop-IsSettled (suc n) [] h = h
drop-IsSettled (suc n) (m ∷ ms) h = drop-IsSettled n ms (IsSettled-tail m ms h)

drop-IsKept :
    (bits size n : ℕ) (ms : List Mshr) → IsKept (bits, size, ms) → IsKept (bits, size, drop n ms)
unfolding IsKept
drop-IsKept bits size n ms h = (
  record {
    once = λ b. omega (arith, h.0.once b, entries_for-drop bits b n ms);
    few = omega (arith, h.0.few, length-drop n ms);
  },
  drop-IsSettled n ms h.1,
)

module _ {R : Type 0} where
  finish_translations-registers :
      (c : Cache R) (packets : List Response)
      → registers (finish_translations c packets) ≡ registers c
  unfolding finish_translations finish_translation
  finish_translations-registers c [] = refl
  finish_translations-registers c (packet ∷ packets) =
      finish_translations-registers (finish_translation c packet) packets

  take_translations-registers : (c : Cache R) → registers (take_translations c).0 ≡ registers c
  unfolding take_translations
  take_translations-registers c = elim (Option-cases c.lower_translate) [
    | inl e ↦ rw (e, take_translations) refl
    | inr (ch, e) ↦ rw (e, take_translations) (finish_translations-registers c ch.returned)
  ]

  issue_translations-registers : (c : Cache R) → registers (issue_translations c) ≡ registers c
  unfolding issue_translations
  issue_translations-registers c = elim (Option-cases c.lower_translate) [
    | inl e ↦ rw (e, issue_translations) refl
    | inr (ch, e) ↦ rw (e, issue_translations) refl
  ]

  checks_begun-registers :
      (c : Cache R)
      → registers (stash_missed (issue_translations (initiate_tag_checks c).0)).0 ≡ registers c
  unfolding stash_missed initiate_tag_checks
  checks_begun-registers c = issue_translations-registers (initiate_tag_checks c).0

module _ {R E : Type 0} (send_remote : E → SstRequest → E × Bool) where
  pub handle_miss-sizes :
      (c : Cache R) (env : E) (pkt : TagLookup)
      → let c' = (handle_miss send_remote c env pkt).0 in
        (c'.offset_bits ≡ c.offset_bits) × (c'.mshr_size ≡ c.mshr_size)
  unfolding handle_miss merge_miss count_miss new_miss remote_miss allocate
  handle_miss-sizes c env pkt = ground arith

  do_handle_miss-IsKept :
      (c : Cache R) (env : E) (q : TagLookup)
      → IsKept (registers c)
      → IsKept (registers (do_handle_miss send_remote c env q).0)
  unfolding do_handle_miss handle_write count_miss IsKept
  do_handle_miss-IsKept c env q h =
      if_cases (λ (res : Cache R × E × Bool). IsKept (registers res.0))
        (q.type == write_type && not c.match_offset_bits) (λ _. h)
        (λ _.
          let (bits, size) = handle_miss-sizes c env q in
          rw (bits, size)
            (
              handle_miss-IsOwned send_remote c env q h.0,
              Entered-IsSettled c.offset_bits q.address c.mshr_size c.mshr _
                  (handle_miss-Entered send_remote c env q) h.1,
            ))

  handle_misses-IsKept :
      (c : Cache R) (env : E) (qs : List TagLookup)
      → IsKept (registers c)
      → IsKept (registers (handle_misses send_remote c env qs).0)
  unfolding handle_misses
  handle_misses-IsKept c env [] h = h
  handle_misses-IsKept c env (q ∷ qs) h =
      let (c₁, env₁, done) = do_handle_miss send_remote c env q in
      handle_misses-IsKept c₁ env₁ qs (do_handle_miss-IsKept c env q h)

module _ {R : Type 0} ⦃r : Replacement R⦄ where
  fill_way-registers :
      (c : Cache R) (m : Mshr) (way : ℕ) (old : Option CacheBlock)
      → registers (fill_way c m way old) ≡ registers c
  unfolding fill_way answer_waiters
  fill_way-registers c m way old = refl

  try_hit-registers : (c : Cache R) (q : TagLookup) → registers (try_hit c q).0 ≡ registers c
  unfolding try_hit hit_block
  try_hit-registers c q = ground arith

  check_tags-registers :
      (c : Cache R) (qs : List TagLookup) → registers (check_tags c qs).0 ≡ registers c
  unfolding check_tags
  check_tags-registers c [] = refl
  check_tags-registers c (q ∷ qs) = check_tags-registers (try_hit c q).0 qs ∙ try_hit-registers c q

module _ {R E : Type 0} (send_remote : E → SstRequest → E × Bool) where
  write_back-registers :
      (c : Cache R) (env : E) (b : CacheBlock) (m : Mshr)
      → registers (write_back send_remote c env b m).0 ≡ registers c
  unfolding write_back
  write_back-registers c env b m = elim (Option-cases (remote_entry c b.v_address)) [
    | inl e ↦ rw (e, write_back) refl
    | inr (entry, e) ↦ rw (e, write_back) refl
  ]

module _ {R E : Type 0} ⦃r : Replacement R⦄ (send_remote : E → SstRequest → E × Bool) where
  handle_fill-registers :
      (c : Cache R) (env : E) (m : Mshr)
      → registers (handle_fill send_remote c env m).0 ≡ registers c
  unfolding handle_fill
  handle_fill-registers c env m =
      let (policy, way) = choose_way c m in
      let c₁ : Cache R = record c { cpu = m.cpu; replacement = policy } in
      let old : Option CacheBlock =
        if ltb way c.num_way then get_elem? c.block (set_begin c m.address + way) else none in
      let P = λ (res : Cache R × E × Bool). registers res.0 ≡ registers c in
      elim (Option-cases old) [
        | inl e ↦ rw (e, handle_fill) (fill_way-registers c₁ m way none)
        | inr (b, e) ↦
            let back = write_back-registers send_remote c₁ env b m in
            rw (e, handle_fill)
              (if_cases P (b.valid && b.dirty)
                (λ _.
                  if_cases P (write_back send_remote c₁ env b m).2
                    (λ _.
                      fill_way-registers (write_back send_remote c₁ env b m).0 m way (some b)
                      ∙ back)
                    (λ _. back))
                (λ _. fill_way-registers c₁ m way (some b)))
      ]

  fill_each-registers :
      (c : Cache R) (env : E) (ms : List Mshr)
      → registers (fill_each send_remote c env ms).0 ≡ registers c
  unfolding fill_each
  fill_each-registers c env [] = refl
  fill_each-registers c env (m ∷ ms) =
      let (c₁, env₁, filled) = handle_fill send_remote c env m in
      let one = handle_fill-registers c env m in
      if_cases (λ (res : Cache R × E × ℕ). registers res.0 ≡ registers c) filled
        (λ _. fill_each-registers c₁ env₁ ms ∙ one) (λ _. one)

  fill_pass-IsKept :
      (c : Cache R) (env : E) (ms : List Mshr) (n : ℕ)
      → IsKept (registers c)
      → let c' = (fill_each send_remote c env ms).0 in
        IsKept (c'.offset_bits, c'.mshr_size, drop n c'.mshr)
  fill_pass-IsKept c env ms n h =
      subst (λ (k : ℕ × ℕ × List Mshr). IsKept (k.0, k.1, drop n k.2))
        (sym (fill_each-registers c env ms)) (drop-IsKept c.offset_bits c.mshr_size n c.mshr h)

  perform_fills-IsKept :
      (c : Cache R) (env : E)
      → IsKept (registers c)
      → IsKept (registers (perform_fills send_remote c env).0)
  unfolding perform_fills
  perform_fills-IsKept c env h =
      let (c₁, env₁, n) = fill_each send_remote c env (ready c c.max_fill c.mshr) in
      let c₂ : Cache R = record c₁ { mshr = drop n c₁.mshr } in
      let kept = fill_pass-IsKept c env (ready c c.max_fill c.mshr) n h in
      subst IsKept
        (sym (fill_each-registers c₂ env₁ (ready c₂ (c.max_fill - n) c₂.inflight_writes))) kept

  perform_tag_checks-IsKept :
      (c : Cache R) (env : E)
      → IsKept (registers c)
      → IsKept (registers (perform_tag_checks send_remote c env).0)
  unfolding perform_tag_checks
  perform_tag_checks-IsKept c env h =
      let (due, rest) =
        span_while (λ (q : TagLookup). is_due c.current_time q && q.is_translated) c.max_tag
          c.inflight_tag_check in
      let (c₁, missed) = check_tags c due in
      handle_misses-IsKept send_remote c₁ env missed
        (subst IsKept (sym (check_tags-registers c due)) h)

  -- What a cycle does after it has taken the answers from the level below keeps, whatever is in the
  -- queues, at most one entry for each block, no more of them than there are registers, and the answered
  -- ones before the others.
  pub operate_rest-IsKept :
      (c : Cache R) (env : E)
      → IsKept (registers c)
      → IsKept (registers (operate_rest send_remote c env).0)
  unfolding operate_rest
  operate_rest-IsKept c env h =
      let (c₁, n₁) = take_translations c in
      let (c₂, env₁, n₂) = perform_fills send_remote c₁ env in
      let (c₃, n₃) = initiate_tag_checks c₂ in
      let (c₄, n₄) = stash_missed (issue_translations c₃) in
      perform_tag_checks-IsKept c₄ env₁ (
        subst IsKept (sym (checks_begun-registers c₂))
          (perform_fills-IsKept c₁ env (subst IsKept (sym (take_translations-registers c)) h)))
