-- ===== src/Cache/Miss.antt =====
-- src/cache.cc, `handle_miss` and `handle_write`: a miss joins the entry of its block, or is sent on, to
-- the fabric or to the level below, and gets an entry.
use cscore_sstelem.Prelude.{
  ℕ, ◌+◌, [], ◌∷◌, ◌++◌, Bool, true, false, ◌&&◌, ◌||◌, not, none, some, set, length, leb, ◌==◌,
  if◌then◌else◌,
}
use cscore_sstelem.Packet.{SstRequest, write_type}
use cscore_sstelem.AddressMap.{AddressEntry, pool}
use cscore_sstelem.Channel
use cscore_sstelem.Channel.{Channel, Request}
use cscore_sstelem.Cache.{TagLookup, Mshr, Cache, rfo_type, prefetch_type, count_event, fill_time}
use cscore_sstelem.Cache.Mshrs.{make_mshr, merge_mshr, find_mshr}
use cscore_sstelem.Cache.Fill.{remote_entry}

-- The second half of `mshr_and_forward_packet`: what is sent on for a miss.
unfoldable pub forward_packet : TagLookup → Request
forward_packet pkt = record {
  forward_checked = false;
  is_translated = true;
  response_requested = not pkt.prefetch_from_this || not pkt.skip_fill;
  asid0 = pkt.asid0;
  asid1 = pkt.asid1;
  type = (if pkt.type == write_type then rfo_type else pkt.type);
  pf_metadata = pkt.pf_metadata;
  cpu = pkt.cpu;
  address = pkt.address;
  v_address = pkt.v_address;
  data_word = pkt.data_word;
  instr_id = pkt.instr_id;
  ip = pkt.ip;
  instr_depend_on_me = pkt.instr_depend_on_me;
}

-- The request to the fabric for a packet.
unfoldable pub remote_request : ℕ → AddressEntry → Request → SstRequest
remote_request node_id entry packet = record {
  src_node = node_id;
  dst_node = entry.target;
  forward_checked = packet.forward_checked;
  is_translated = packet.is_translated;
  response_requested = packet.response_requested;
  asid0 = packet.asid0;
  asid1 = packet.asid1;
  type = packet.type;
  pf_metadata = packet.pf_metadata;
  cpu = packet.cpu;
  sst_cpu = node_id;
  address = packet.address;
  v_address = packet.v_address;
  data_word = packet.data_word;
  instr_id = packet.instr_id;
  ip = packet.ip;
  msg_bytes = (if packet.type == write_type then 64 else 8);
}

abbrev pub is_pool : AddressEntry → Bool
is_pool entry = elim entry.type [ pool ↦ true | _ ↦ false ]

module _ {R : Type 0} where
  -- `sim_stats.misses.increment(...)`
  unfoldable pub count_miss : Cache R → TagLookup → Cache R
  unfolding count_event
  count_miss c pkt = record c {
    sim_stats = record (c.sim_stats) { misses = count_event c.sim_stats.misses pkt.type pkt.cpu };
  }

  -- A new entry at the end, if the packet asks for a response.
  unfoldable pub allocate : Cache R → Bool → Mshr → Cache R
  allocate c wanted m = if wanted then record c { mshr = c.mshr ++ (m ∷ []) } else c

  -- A miss in a block that has an entry.
  unfoldable pub merge_miss : Cache R → TagLookup → ℕ → Mshr → Cache R
  unfolding merge_mshr make_mshr count_event
  merge_miss c pkt place entry =
      let stats = c.sim_stats in
      let useful =
        entry.type == prefetch_type
        && not (pkt.type == prefetch_type)
        && entry.prefetch_from_this in
      record c {
        mshr = set c.mshr place (merge_mshr entry (make_mshr pkt c.current_time));
        sim_stats = record stats {
          pf_useful = stats.pf_useful + (if useful then 1 else 0);
          mshr_merge = count_event stats.mshr_merge pkt.type pkt.cpu;
        };
      }

  -- The entry of a miss that has been sent to the fabric.
  unfoldable pub remote_mshr : Cache R → TagLookup → AddressEntry → Mshr
  unfolding make_mshr
  remote_mshr c pkt entry = record (make_mshr pkt c.current_time) {
    remote_issue_time = some c.current_time;
    remote_is_pool = is_pool entry;
  }

  -- A miss that the fabric has taken.
  unfoldable pub remote_miss : Cache R → TagLookup → AddressEntry → Cache R
  unfolding allocate remote_mshr
  remote_miss c pkt entry =
      let c' = allocate c (forward_packet pkt).response_requested (remote_mshr c pkt entry) in
      record c' {
        sim_stats = record (c'.sim_stats) {
          pool_accesses = c'.sim_stats.pool_accesses + (if is_pool entry then 1 else 0);
        };
      }

  -- A miss for the level below: its channel, and whether it has taken the packet.
  unfoldable pub send_below : Cache R → TagLookup → Channel × Bool
  unfolding forward_packet
  send_below c pkt =
      if c.prefetch_as_load || not (pkt.type == prefetch_type)
      then Channel.add_rq c.lower_level (forward_packet pkt)
      else Channel.add_pq c.lower_level (forward_packet pkt)

  -- `handle_write`
  unfoldable pub handle_write : Cache R → TagLookup → Cache R
  unfolding make_mshr count_miss
  handle_write c pkt =
      let m = make_mshr pkt c.current_time in
      count_miss
        (record c {
          inflight_writes =
              c.inflight_writes
              ++ (record m {
                data_promise = record (m.data_promise) { event_cycle = some (fill_time c) };
              }
                  ∷ []);
        })
        pkt

module _ {R E : Type 0} (send_remote : E → SstRequest → E × Bool) where
  -- A miss in a block that has no entry, with room for one.
  unfoldable pub new_miss : Cache R → E → TagLookup → Cache R × E × Bool
  unfolding remote_entry remote_request forward_packet remote_miss send_below count_miss allocate
  new_miss c env pkt = elim (remote_entry c pkt.v_address) [
    | some entry ↦
        let (env', accepted) =
          send_remote env (remote_request c.node_id entry (forward_packet pkt)) in
        (if accepted
          then (count_miss (remote_miss c pkt entry) pkt, env', true)
          else (c, env', false))
    | none ↦
        let (lower, success) = send_below c pkt in
        let below : Cache R = record c { lower_level = lower } in
        (if success
          then (
            count_miss
                (allocate below (forward_packet pkt).response_requested
                  (make_mshr pkt c.current_time))
                pkt,
            env,
            true,
          )
          else (below, env, false))
  ]

  -- `handle_miss`; the flag says whether the miss has been dealt with.
  unfoldable pub handle_miss : Cache R → E → TagLookup → Cache R × E × Bool
  unfolding find_mshr merge_miss new_miss count_miss
  handle_miss c env pkt =
      let c₁ : Cache R = record c { cpu = pkt.cpu } in
      elim (find_mshr c.offset_bits pkt.address c.mshr) [
        | some (i, entry) ↦ (count_miss (merge_miss c₁ pkt i entry) pkt, env, true)
        | none ↦
            let missed = new_miss c₁ env pkt in
            (if leb c.mshr_size (length c.mshr) then (c₁, env, false) else missed)
      ]
