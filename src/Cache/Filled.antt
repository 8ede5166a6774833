-- ===== src/Cache/Filled.antt =====
-- src/cache.cc, `handle_fill`: its two outcomes. A fill is made, in the way that was chosen, or it is
-- refused, because the dirty victim could not be sent, and then only the policy, the current cpu, the
-- level below and the fabric may have changed.
use cscore_sstelem.Prelude.{
  ℕ, ◌+◌, ◌≡◌, refl, sym, List, Bool, true, false, ◌&&◌, Option, none, some, get_elem?, ltb,
  if◌then◌else◌, if_cases, Option-cases, inl, inr,
}
use cscore_sstelem.Packet.{SstRequest}
use cscore_sstelem.Channel.{Channel}
use cscore_sstelem.Cache.{CacheBlock, CacheStats, Mshr, Cache, Replacement, set_begin}
use cscore_sstelem.Cache.Fill.{remote_entry, choose_way, fill_way, write_back, handle_fill}

-- What a fill leaves alone until it is made.
abbrev pub contents :
    {R : Type 0} → Cache R → List (ℕ × Channel) × List CacheBlock × CacheStats × ℕ × ℕ × ℕ
contents c = (c.upper_levels, c.block, c.sim_stats, c.num_set, c.num_way, c.offset_bits)

module _ {R E : Type 0} ⦃r : Replacement R⦄ where
  pub data Outcome (c : Cache R) (m : Mshr) (res : Cache R × E × Bool) : Type 0 where
    filled :
        (before : Cache R) (way : ℕ) (old : Option CacheBlock)
        → contents before ≡ contents c
        → way ≡ (choose_way c m).1
        → old
          ≡ (if ltb way c.num_way then get_elem? c.block (set_begin c m.address + way) else none)
        → res.0 ≡ fill_way before m way old
        → res.2 ≡ true
        → Outcome c m res
    refused : contents (res.0) ≡ contents c → res.2 ≡ false → Outcome c m res

module _ {R E : Type 0} (send_remote : E → SstRequest → E × Bool) where
  write_back-contents :
      (c : Cache R) (env : E) (b : CacheBlock) (m : Mshr)
      → contents (write_back send_remote c env b m).0 ≡ contents c
  unfolding write_back
  write_back-contents c env b m = elim (Option-cases (remote_entry c b.v_address)) [
    | inl e ↦ rw (e, write_back) refl
    | inr (entry, e) ↦ rw (e, write_back) refl
  ]

module _ {R E : Type 0} ⦃r : Replacement R⦄ (send_remote : E → SstRequest → E × Bool) where
  pub handle_fill-Outcome :
      (c : Cache R) (env : E) (m : Mshr) → Outcome c m (handle_fill send_remote c env m)
  unfolding handle_fill
  handle_fill-Outcome c env m =
      let (policy, way) = choose_way c m in
      let c₁ : Cache R = record c { cpu = m.cpu; replacement = policy } in
      let old : Option CacheBlock =
        if ltb way c.num_way then get_elem? c.block (set_begin c m.address + way) else none in
      elim (Option-cases old) [
        | inl e ↦ rw (e, handle_fill) (filled c₁ way none refl refl (sym e) refl refl)
        | inr (b, e) ↦
            let back = write_back-contents send_remote c₁ env b m in
            let c₂ = (write_back send_remote c₁ env b m).0 in
            rw (e, handle_fill)
              (if_cases (Outcome c m) (b.valid && b.dirty)
                (λ _.
                  if_cases (Outcome c m) (write_back send_remote c₁ env b m).2
                    (λ _. filled c₂ way (some b) back refl (sym e) refl refl)
                    (λ _. refused back refl))
                (λ _. filled c₁ way (some b) refl refl (sym e) refl refl))
      ]
