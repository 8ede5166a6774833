-- ===== src/Cache/Kept.antt =====
-- src/cache.cc, `operate`: what a whole cycle keeps of the entries, with the answers of the level below
-- that it takes first.
use cscore_sstelem.Prelude.{
  ℕ, Bool, suc, ◌+◌, ◌≡◌, refl, List, [], ◌∷◌, true, some, map, length, arith, Option-cases, inl,
  inr,
}
use cscore_sstelem.Prelude.Result.{ok, OnOk, OnOk-elim}
use cscore_sstelem.Packet.{SstRequest}
use cscore_sstelem.Channel.{Channel, Response}
use cscore_sstelem.Channel.Collision.{check_collision}
use cscore_sstelem.Cache.{Mshr, Cache, Replacement}
use cscore_sstelem.Cache.Mshrs.{find_mshr, first_unreturned}
use cscore_sstelem.Cache.Answers.{finish_packet, finish_packets}
use cscore_sstelem.Cache.Settled.{unanswered, answered_all}
use cscore_sstelem.Cache.Returns.{finish_packet_lem}
use cscore_sstelem.Cache.Cycle.{registers, IsKept, operate_rest-IsKept}
use cscore_sstelem.Cache.Operate.{operate, operate_rest}

module _ {R : Type 0} where
  -- The answer is for an entry that has none yet.
  pub record IsExpected (c : Cache R) (packet : Response) : Type 0 where
    pub index : ℕ
    pub entry : Mshr
    pub found : find_mshr c.offset_bits packet.address c.mshr ≡ some (index, entry)
    pub no_answer : unanswered entry ≡ true

  -- Each of the answers, when its turn comes, is for an entry that has none yet.
  unfoldable pub AreExpected : Cache R → List Response → Type 0
  AreExpected c [] = Unit
  AreExpected c (packet ∷ packets) =
      IsExpected c packet × OnOk (λ c'. AreExpected c' packets) (finish_packet c packet)

  finish_packet-sizes :
      (c : Cache R) (packet : Response)
      → OnOk
          (λ (c' : Cache R). (c'.offset_bits ≡ c.offset_bits) × (c'.mshr_size ≡ c.mshr_size))
          (finish_packet c packet)
  unfolding finish_packet
  finish_packet-sizes c packet =
      elim (Option-cases (find_mshr c.offset_bits packet.address c.mshr)) [
        | inl e ↦ rw (e, finish_packet) tt
        | inr (at, e) ↦ elim (Option-cases (first_unreturned c.mshr)) [
          | inl f ↦ rw (e, f, finish_packet) tt
          | inr (place, f) ↦ rw (e, f, finish_packet) (refl, refl)
        ]
      ]

  finish_packet-IsKept :
      (c : Cache R) (packet : Response)
      → IsExpected c packet
      → IsKept (registers c)
      → (c' : Cache R) × (finish_packet c packet ≡ ok c')
        × IsKept (registers c')
        × (answered_all c'.mshr ≡ suc (answered_all c.mshr))
  unfolding IsKept
  finish_packet-IsKept c packet x h =
      let (c', e, owned, settled, more) =
        finish_packet_lem c packet x.index x.entry x.found x.no_answer h.0 h.1 in
      let (bits, size) =
        OnOk-elim
          (λ (c' : Cache R). (c'.offset_bits ≡ c.offset_bits) × (c'.mshr_size ≡ c.mshr_size))
          (finish_packet c packet) c' e (finish_packet-sizes c packet) in
      (c', e, rw (bits, size) (owned, settled), more)

  -- Answers that are expected are taken, and each is one entry more with an answer.
  pub finish_packets-IsKept :
      (c : Cache R) (packets : List Response)
      → AreExpected c packets
      → IsKept (registers c)
      → (c' : Cache R) × (finish_packets c packets ≡ ok c')
        × IsKept (registers c')
        × (answered_all c'.mshr ≡ answered_all c.mshr + length packets)
  unfolding AreExpected finish_packets
  finish_packets-IsKept c [] x h = (c, refl, h, omega arith)
  finish_packets-IsKept c (packet ∷ packets) x h =
      let (c₁, e₁, h₁, more) = finish_packet-IsKept c packet x.0 h in
      let x₁ = OnOk-elim (λ c'. AreExpected c' packets) (finish_packet c packet) c₁ e₁ x.1 in
      let (c₂, e₂, h₂, more') = finish_packets-IsKept c₁ packets x₁ h₁ in
      (c₂, rw e₁ e₂, h₂, omega (arith, more, more'))

-- The cache once it has checked its channels for collisions, with which `operate` begins.
unfoldable pub checked : {R : Type 0} → Cache R → Cache R
checked c = record c {
  upper_levels = map (λ (up : ℕ × Channel). (up.0, check_collision up.1)) c.upper_levels;
}

module _ {R E : Type 0} ⦃r : Replacement R⦄ (send_remote : E → SstRequest → E × Bool) where
  -- If each answer from the level below is, when its turn comes, for an entry that has none yet, a cycle
  -- raises no error and keeps, whatever else is in the queues, at most one entry for each block, no
  -- more of them than there are registers, and the answered ones before the others.
  pub operate-IsKept :
      (c : Cache R) (env : E)
      → AreExpected (checked c) c.lower_level.returned
      → IsKept (registers c)
      → (c' : Cache R) × (env' : E) × (n : ℕ) × (operate send_remote c env ≡ ok (c', env', n))
        × IsKept (registers c')
  unfolding operate checked
  operate-IsKept c env x h =
      let (c₁, e₁, h₁, _) = finish_packets-IsKept (checked c) c.lower_level.returned x h in
      let c₂ : Cache R = record c₁ { lower_level = record (c₁.lower_level) { returned = [] } } in
      let (c₃, env', n) = operate_rest send_remote c₂ env in
      (
        c₃,
        env',
        length c.lower_level.returned + n,
        rw e₁ refl,
        operate_rest-IsKept send_remote c₂ env h₁,
      )
