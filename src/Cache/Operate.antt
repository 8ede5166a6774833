-- ===== src/Cache/Operate.antt =====
-- src/cache.cc, `operate`: a cycle of a cache. Answers come in, entries are filled, new requests begin
-- their tag checks as far as the bandwidth goes, translations are asked for, and the tag checks that are
-- due are made. The steps after the answers are functions of their own.
-- `std::stable_partition` applies its test to the elements in order.
use cscore_sstelem.Prelude.{
  ℕ, suc, ◌+◌, ◌-◌, ◌*◌, ◌/◌, min, max, List, [], ◌∷◌, ◌++◌, map, Bool, true, false, ◌&&◌, ◌||◌,
  not, none, some, length, ltb, leb, drop, ◌==◌, if◌then◌else◌,
}
use cscore_sstelem.Prelude.Result.{Result, ok, ◌>>=◌}
use cscore_sstelem.Packet.{SstRequest, write_type}
use cscore_sstelem.Channel.{Channel, Request}
use cscore_sstelem.Channel.Collision.{check_collision}
use cscore_sstelem.Cache.{TagLookup, Mshr, Cache, Replacement, is_ready_at}
use cscore_sstelem.Cache.Mshrs.{Fault}
use cscore_sstelem.Cache.Answers.{finish_packets}
use cscore_sstelem.Cache.Fill.{handle_fill}
use cscore_sstelem.Cache.Lookup.{try_hit}
use cscore_sstelem.Span.{span_while}
use cscore_sstelem.Cache.Miss.{handle_miss, handle_write}
use cscore_sstelem.Cache.Translation.{finish_translations, issue_each}

-- The `event_cycle` has come.
abbrev pub is_due : ℕ → TagLookup → Bool
is_due now q = elim q.event_cycle [ none ↦ false | some cycle ↦ leb cycle now ]

-- `tag_lookup_type(req, false, false)` with the time of its check, and with the channel to return to.
unfoldable pub tag_check_of : ℕ → ℕ → Request → TagLookup
tag_check_of time id req = record {
  address = req.address;
  v_address = req.v_address;
  data_word = req.data_word;
  ip = req.ip;
  instr_id = req.instr_id;
  pf_metadata = req.pf_metadata;
  cpu = req.cpu;
  type = req.type;
  prefetch_from_this = false;
  skip_fill = false;
  is_translated = req.is_translated;
  translate_issued = false;
  asid0 = 255;
  asid1 = 255;
  event_cycle = some time;
  instr_depend_on_me = req.instr_depend_on_me;
  to_return = (if req.response_requested then id ∷ [] else []);
}

abbrev pub check_at : ℕ → TagLookup → TagLookup
check_at time q = record q { event_cycle = some time }

-- The tag checks that begin for one upper level, from its three queues in turn, with the bandwidth that
-- remains.
unfoldable pub take_from_upper :
    (Request → Bool) → ℕ → ℕ → ℕ → ℕ × Channel → (ℕ × Channel) × List TagLookup × ℕ
unfolding span_while tag_check_of
take_from_upper test time per_upper remaining (id, ch) =
    let (ws, wq) = span_while test (min per_upper remaining) ch.wq in
    let left₁ = remaining - length ws in
    let (rs, rq) = span_while test (min per_upper left₁) ch.rq in
    let left₂ = left₁ - length rs in
    let (ps, pq) = span_while test (min per_upper left₂) ch.pq in
    (
      (id, record ch { wq = wq; rq = rq; pq = pq }),
      map (tag_check_of time id) (ws ++ (rs ++ ps)),
      left₂ - length ps,
    )

unfoldable pub take_from_uppers :
    (Request → Bool) → ℕ → ℕ → ℕ → List (ℕ × Channel) → List (ℕ × Channel) × List TagLookup × ℕ
unfolding take_from_upper
take_from_uppers test time per_upper remaining [] = ([], [], remaining)
take_from_uppers test time per_upper remaining (up ∷ ups) =
    let (up', tags, left) = take_from_upper test time per_upper remaining up in
    let (ups', more, rest) = take_from_uppers test time per_upper left ups in
    (up' ∷ ups', tags ++ more, rest)

-- `std::rotate` by one.
abbrev pub rotate_one : {A : Type 0} → List A → List A
rotate_one [] = []
rotate_one (x ∷ xs) = xs ++ (x ∷ [])

-- `extract_if`: what stays, and what goes to the stash.
unfoldable pub extract_missed : ℕ → List TagLookup → List TagLookup × List TagLookup
extract_missed now [] = ([], [])
extract_missed now (q ∷ qs) =
    let (kept, missed) = extract_missed now qs in
    if is_due now q && not q.is_translated then (kept, q ∷ missed) else (q ∷ kept, missed)

module _ {R : Type 0} where
  -- The tag checks that begin in this cycle, and how much of the bandwidth they use.
  unfoldable pub initiate_tag_checks : Cache R → Cache R × ℕ
  unfolding span_while take_from_uppers
  initiate_tag_checks c =
      let tag_lat_cycles = max 1 (c.hit_latency / c.clock_period) in
      let bandwidth = min (c.max_tag * tag_lat_cycles - length c.inflight_tag_check) c.max_tag in
      let time = c.current_time + (if c.warmup then 0 else c.hit_latency) in
      let available = ltb (length c.translation_stash) c.mshr_size in
      let (from_stash, stash) =
        span_while (λ (q : TagLookup). q.is_translated) bandwidth c.translation_stash in
      let left = bandwidth - length from_stash in
      let uppers = rotate_one c.upper_levels in
      let per_upper = if uppers_empty uppers then 0 else max (left / length uppers) 1 in
      let (uppers', from_uppers, left') =
        take_from_uppers (λ (req : Request). available || req.is_translated) time per_upper left
          uppers in
      let (from_pq, pq) =
        span_while (λ (q : TagLookup). available || q.is_translated) left' c.internal_pq in
      (
        record c {
          upper_levels = uppers';
          internal_pq = pq;
          translation_stash = stash;
          inflight_tag_check =
              c.inflight_tag_check
              ++ (map (check_at time) from_stash ++ (from_uppers ++ map (check_at time) from_pq));
        },
        bandwidth - (left' - length from_pq),
      )
    where
      uppers_empty : List (ℕ × Channel) → Bool
      uppers_empty [] = true
      uppers_empty (x ∷ xs) = false

  -- The translations that are asked for, and the entries that have missed theirs.
  unfoldable pub issue_translations : Cache R → Cache R
  unfolding issue_each
  issue_translations c = elim c.lower_translate [
    | none ↦ c
    | some ch ↦
        let (ch₁, checks) = issue_each ch c.inflight_tag_check in
        let (ch₂, stash) = issue_each ch₁ c.translation_stash in
        record c {
          lower_translate = some ch₂;
          inflight_tag_check = checks;
          translation_stash = stash;
        }
  ]

  unfoldable pub stash_missed : Cache R → Cache R × ℕ
  unfolding extract_missed
  stash_missed c =
      let (kept, missed) = extract_missed c.current_time c.inflight_tag_check in
      (
        record c { inflight_tag_check = kept; translation_stash = c.translation_stash ++ missed },
        length missed,
      )

  -- What has come back from the level that translates.
  unfoldable pub take_translations : Cache R → Cache R × ℕ
  unfolding finish_translations
  take_translations c = elim c.lower_translate [
    | none ↦ (c, 0)
    | some ch ↦ (
      record (finish_translations c ch.returned) {
        lower_translate = some (record ch { returned = [] });
      },
      length ch.returned,
    )
  ]

  -- The entries that are ready, at most `n` from the front.
  abbrev pub ready : Cache R → ℕ → List Mshr → List Mshr
  ready c n ms = (span_while (λ (m : Mshr). is_ready_at m.data_promise c.current_time) n ms).0

module _ {R : Type 0} ⦃r : Replacement R⦄ where
  -- The first partition of the tag checks: what misses.
  unfoldable pub check_tags : Cache R → List TagLookup → Cache R × List TagLookup
  unfolding try_hit
  check_tags c [] = (c, [])
  check_tags c (q ∷ qs) =
      let (c₁, hit) = try_hit c q in
      let (c₂, missed) = check_tags c₁ qs in (c₂, (if hit then missed else q ∷ missed))

module _ {R E : Type 0} (send_remote : E → SstRequest → E × Bool) where
  -- `do_handle_miss`
  unfoldable pub do_handle_miss : Cache R → E → TagLookup → Cache R × E × Bool
  unfolding handle_write handle_miss
  do_handle_miss c env q =
      if q.type == write_type && not c.match_offset_bits
      then (handle_write c q, env, true)
      else handle_miss send_remote c env q

  -- The second partition: the misses that could not be dealt with.
  unfoldable pub handle_misses : Cache R → E → List TagLookup → Cache R × E × List TagLookup
  unfolding do_handle_miss
  handle_misses c env [] = (c, env, [])
  handle_misses c env (q ∷ qs) =
      let (c₁, env₁, done) = do_handle_miss c env q in
      let (c₂, env₂, left) = handle_misses c₁ env₁ qs in
      (c₂, env₂, (if done then left else q ∷ left))

module _ {R E : Type 0} ⦃r : Replacement R⦄ (send_remote : E → SstRequest → E × Bool) where
  -- The loop of fills over entries that are ready, up to the first that cannot be filled: how many are.
  unfoldable pub fill_each : Cache R → E → List Mshr → Cache R × E × ℕ
  unfolding handle_fill
  fill_each c env [] = (c, env, 0)
  fill_each c env (m ∷ ms) =
      let (c₁, env₁, filled) = handle_fill send_remote c env m in
      let (c₂, env₂, n) = fill_each c₁ env₁ ms in
      if filled then (c₂, env₂, suc n) else (c₁, env₁, 0)

  -- The fills of a cycle: first of the misses, then of the writes, with the bandwidth that is left.
  unfoldable pub perform_fills : Cache R → E → Cache R × E × ℕ
  unfolding fill_each span_while is_ready_at
  perform_fills c env =
      let (c₁, env₁, n) = fill_each c env (ready c c.max_fill c.mshr) in
      let c₂ : Cache R = record c₁ { mshr = drop n c₁.mshr } in
      let (c₃, env₂, k) = fill_each c₂ env₁ (ready c₂ (c.max_fill - n) c₂.inflight_writes) in
      (record c₃ { inflight_writes = drop k c₃.inflight_writes }, env₂, n + k)

  -- The tag checks that are due, and how many of them are finished.
  unfoldable pub perform_tag_checks : Cache R → E → Cache R × E × ℕ
  unfolding span_while check_tags handle_misses
  perform_tag_checks c env =
      let (due, rest) =
        span_while (λ (q : TagLookup). is_due c.current_time q && q.is_translated) c.max_tag
          c.inflight_tag_check in
      let (c₁, missed) = check_tags c due in
      let (c₂, env', left) = handle_misses send_remote c₁ env missed in
      (record c₂ { inflight_tag_check = left ++ rest }, env', length due - length left)

  -- A cycle after the answers of the level below have been taken.
  unfoldable pub operate_rest : Cache R → E → Cache R × E × ℕ
  unfolding take_translations perform_fills initiate_tag_checks issue_translations stash_missed
      perform_tag_checks
  operate_rest c env =
      let (c₁, translated) = take_translations c in
      let (c₂, env₁, filled) = perform_fills c₁ env in
      let (c₃, begun) = initiate_tag_checks c₂ in
      let (c₄, stashed) = stash_missed (issue_translations c₃) in
      let (c₅, env₂, checked) = perform_tag_checks c₄ env₁ in
      (c₅, env₂, translated + filled + begun + stashed + checked)

  -- `operate`: the cache, the world that requests are sent to, and the progress made.
  unfoldable pub operate : Cache R → E → Result Fault (Cache R × E × ℕ)
  unfolding operate_rest
  operate c env = do
    let answers = c.lower_level.returned in
        (finish_packets
            (record c {
              upper_levels =
                  map (λ (up : ℕ × Channel). (up.0, check_collision up.1)) c.upper_levels;
            })
            answers
          >>= λ (c₁ : Cache R).
              let (c₂, env', n) =
                operate_rest (record c₁ { lower_level = record (c₁.lower_level) { returned = [] } })
                  env in
              ok (c₂, env', length answers + n))
