-- ===== src/Cache/Translation.antt =====
-- src/cache.cc, `issue_translation` and `finish_translation`: the entries of a cache that works on virtual
-- addresses wait until the level that translates has answered.
use cscore_sstelem.Prelude.{
  ℕ, ◌+◌, ◌*◌, ◌/◌, ◌%◌, List, [], ◌∷◌, ◌++◌, Bool, true, false, ◌&&◌, not, ◌==◌, if◌then◌else◌,
}
use cscore_sstelem.AddressMap.{page_size}
use cscore_sstelem.Channel
use cscore_sstelem.Channel.{Channel, Request, Response}
use cscore_sstelem.Cache.{TagLookup, Cache, load_type}

-- The request that asks for the translation of an entry.
unfoldable pub translation_request : TagLookup → Request
translation_request q = record {
  forward_checked = false;
  is_translated = true;
  response_requested = true;
  asid0 = q.asid0;
  asid1 = q.asid1;
  type = load_type;
  pf_metadata = 0;
  cpu = q.cpu;
  address = q.address;
  v_address = q.v_address;
  data_word = q.data_word;
  instr_id = q.instr_id;
  ip = q.ip;
  instr_depend_on_me = q.instr_depend_on_me;
}

-- `issue_translation` of one entry, by the channel of the level that translates.
unfoldable pub issue_translation : Channel → TagLookup → Channel × TagLookup
unfolding translation_request
issue_translation ch q =
    if not q.translate_issued && not q.is_translated
    then (let (ch', taken) = Channel.add_rq ch (translation_request q) in
        (ch', record q { translate_issued = taken }))
    else (ch, q)

unfoldable pub issue_each : Channel → List TagLookup → Channel × List TagLookup
unfolding issue_translation
issue_each ch [] = (ch, [])
issue_each ch (q ∷ qs) =
    let (ch₁, q') = issue_translation ch q in let (ch₂, qs') = issue_each ch₁ qs in (ch₂, q' ∷ qs')

abbrev pub page_of : ℕ → ℕ
page_of addr = addr / page_size

-- The function `matches_vpage`.
unfoldable pub matches_vpage : Response → TagLookup → Bool
matches_vpage packet q = page_of q.v_address == page_of packet.v_address && not q.is_translated

-- The function `mark_translated`: the page of the answer, with the offset of the virtual address.
unfoldable pub mark_translated : Response → TagLookup → TagLookup
mark_translated packet q = record q {
  address = page_of packet.data_word * page_size + q.v_address % page_size;
  is_translated = true;
}

-- The stash, split at its first entry that is not translated.
unfoldable pub split_translated : List TagLookup → List TagLookup × List TagLookup
split_translated [] = ([], [])
split_translated (q ∷ qs) =
    let (done, todo) = split_translated qs in
    if q.is_translated then (q ∷ done, todo) else ([], q ∷ qs)

-- `std::stable_partition` by `matches_vpage`, with the entries of the first part marked.
unfoldable pub mark_partition : Response → List TagLookup → List TagLookup × List TagLookup
unfolding matches_vpage mark_translated
mark_partition packet [] = ([], [])
mark_partition packet (q ∷ qs) =
    let (marked, others) = mark_partition packet qs in
    if matches_vpage packet q
    then (mark_translated packet q ∷ marked, others)
    else (marked, q ∷ others)

unfoldable pub mark_each : Response → List TagLookup → List TagLookup
unfolding matches_vpage mark_translated
mark_each packet [] = []
mark_each packet (q ∷ qs) =
    (if matches_vpage packet q then mark_translated packet q else q) ∷ mark_each packet qs

module _ {R : Type 0} where
  unfoldable pub finish_translation : Cache R → Response → Cache R
  unfolding split_translated mark_partition mark_each
  finish_translation c packet =
      let (done, todo) = split_translated c.translation_stash in
      let (marked, others) = mark_partition packet todo in
      record c {
        translation_stash = done ++ (marked ++ others);
        inflight_tag_check = mark_each packet c.inflight_tag_check;
      }

  unfoldable pub finish_translations : Cache R → List Response → Cache R
  unfolding finish_translation
  finish_translations c [] = c
  finish_translations c (packet ∷ packets) =
      finish_translations (finish_translation c packet) packets
