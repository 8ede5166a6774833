-- ===== src/FabricPort/Setup.antt =====
-- src/fabric_port.cc, `configure`: the ports that two components start with are balanced.
use cscore_sstelem.Prelude.{ℕ, ◌<◌, ◌*◌, ◌≡◌, refl, true, arith}
use cscore_sstelem.Prelude.Int.{ℤ, pos, pos_part}
use cscore_sstelem.Prelude.Result.{ok}
use cscore_sstelem.Double.{Double}
use cscore_sstelem.FabricPort.{FabricPort, configure, configured_port}
use cscore_sstelem.FabricPort.Credits.{IsFinite, total_bytes, total_credit}
use cscore_sstelem.FabricPort.Accounts.{held, owed, IsSender, IsReceiver}
use cscore_sstelem.FabricPort.Protocol.{IsBalanced}

module _ {D : Type 0} ⦃d : Double D⦄ where
  configure-ok :
      (p : FabricPort D) (id : ℕ) (bw lat n : ℤ)
      → configure true id bw lat n ≡ ok p
      → configured_port id (pos_part bw) (pos_part lat) n ≡ p
  unfolding configure
  configure-ok p id bw lat n e = ground arith

  configured_port-IsSender :
      (id bw lat n : ℕ)
      → 0 < n
      → let p : FabricPort D = configured_port id bw lat (pos n) in
        IsSender p (n * 64) (n * 64) × (total_bytes p.sent ≡ 0)
  unfolding configured_port total_bytes
  configured_port-IsSender id bw lat n h =
      (record { credits = ground arith; capacity_eq = ground arith; cheap = tt }, refl)

  configured_port-IsReceiver :
      (id bw lat : ℕ) (n : ℤ)
      → let p : FabricPort D = configured_port id bw lat n in IsReceiver p × (owed p ≡ 0)
  unfolding configured_port owed held total_bytes total_credit
  configured_port-IsReceiver id bw lat n = (record { plain = tt; no_limit = refl }, refl)

  -- Two ports that `configure` has made are balanced at 64 bytes for each packet of the near port's
  -- queue size, which is positive and such that this is below the mark for no limit.
  pub configure-IsBalanced :
      (near far : FabricPort D) (id id' n : ℕ) (bw lat bw' lat' n' : ℤ)
      → 0 < n
      → IsFinite (n * 64)
      → configure true id bw lat (pos n) ≡ ok near
      → configure true id' bw' lat' n' ≡ ok far
      → IsBalanced (record { near = near; far = far }) (n * 64)
  configure-IsBalanced near far id id' n bw lat bw' lat' n' h f e e' =
      let (sender, none_sent) = configured_port-IsSender id (pos_part bw) (pos_part lat) n h in
      let (receiver, nothing) = configured_port-IsReceiver id' (pos_part bw') (pos_part lat') n' in
      rw (← configure-ok near id bw lat (pos n) e, ← configure-ok far id' bw' lat' n' e')
        (record {
          credits = n * 64;
          sender = sender;
          receiver = receiver;
          finite = f;
          balance = omega (arith, none_sent, nothing);
        })
