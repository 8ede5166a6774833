-- ===== src/Cache/Mshrs.antt =====
-- src/cache.cc: the entries of the miss status holding registers, and the answers that come back for
-- them from the level below and from the fabric.
use cscore_sstelem.Prelude.{
  ℕ, zero, suc, List, [], ◌∷◌, false, ◌&&◌, ◌||◌, not, Option, none, some, ◌==◌, if◌then◌else◌,
}
use cscore_sstelem.Channel.Collision.{set_union}
use cscore_sstelem.Cache.{TagLookup, Mshr, has_unknown_readiness, prefetch_type, block_of}

-- `mshr_type(req, time)`
unfoldable pub make_mshr : TagLookup → ℕ → Mshr
make_mshr req time = record {
  address = req.address;
  v_address = req.v_address;
  ip = req.ip;
  instr_id = req.instr_id;
  data_promise = record { data_word = 0; pf_metadata = 0; event_cycle = none };
  cpu = req.cpu;
  type = req.type;
  prefetch_from_this = req.prefetch_from_this;
  time_enqueued = time;
  remote_issue_time = none;
  remote_is_pool = false;
  instr_depend_on_me = req.instr_depend_on_me;
  to_return = req.to_return;
}

-- `mshr_type::merge`
unfoldable pub merge_mshr : Mshr → Mshr → Mshr
merge_mshr predecessor successor =
    let retval = if successor.type == prefetch_type then predecessor else successor in
    record retval {
      time_enqueued =
          (if not (successor.type == prefetch_type) && predecessor.type == prefetch_type
            then successor.time_enqueued
            else predecessor.time_enqueued);
      instr_depend_on_me = set_union predecessor.instr_depend_on_me successor.instr_depend_on_me;
      to_return = set_union predecessor.to_return successor.to_return;
      data_promise = predecessor.data_promise;
      remote_issue_time = elim predecessor.remote_issue_time [
        | none ↦ successor.remote_issue_time
        | some time ↦ some time
      ];
      remote_is_pool = predecessor.remote_is_pool || successor.remote_is_pool;
    }

-- `std::find_if` over the entries with `matches_address`: the position of the first entry of a block,
-- and the entry.
unfoldable pub find_mshr : ℕ → ℕ → List Mshr → Option (ℕ × Mshr)
find_mshr offset_bits addr [] = none
find_mshr offset_bits addr (m ∷ ms) =
    let rest = find_mshr offset_bits addr ms in
    if block_of offset_bits m.address == block_of offset_bits addr
    then some (0, m)
    else elim rest [ none ↦ none | some (i, found) ↦ some (suc i, found) ]

-- The first entry whose data is not known to come.
unfoldable pub first_unreturned : List Mshr → Option (ℕ × Mshr)
first_unreturned [] = none
first_unreturned (m ∷ ms) =
    let rest = first_unreturned ms in
    if has_unknown_readiness m.data_promise
    then some (0, m)
    else elim rest [ none ↦ none | some (i, found) ↦ some (suc i, found) ]

-- The list without its element at a position.
unfoldable pub remove_at : ℕ → List Mshr → List Mshr
remove_at i [] = []
remove_at zero (m ∷ ms) = ms
remove_at (suc i) (m ∷ ms) = m ∷ remove_at i ms

-- What the code does not allow: an answer for which there is no entry (an assertion), and an entry to be
-- swapped with the end of the queue (undefined).
pub data Fault : Type 0 where
  no_matching_entry : ℕ → Fault
  swap_with_end : Fault
