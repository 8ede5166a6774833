-- ===== src/Packet/Control.antt =====
-- inc/control_event.h, with the three copies of the tests on the kind of an event that
-- src/fabric_port.cc, switch.cc and cxl_mempool.cc make.
use cscore_sstelem.Prelude.{
  ℕ, ◌%◌, ◌^◌, Bool, ◌&&◌, ◌||◌, [], ◌∷◌, length, ◌==◌, leb, false, if◌then◌else◌,
}
use cscore_sstelem.Packet.{CsEvent, event_of, word, max_u64, write_type}

-- `kControlBroadcast`
abbrev pub control_broadcast : ℕ
control_broadcast = max_u64

-- `kControlResetUtil`
abbrev pub control_reset_util : ℕ
control_reset_util = 1

-- `kControlCredit`
abbrev pub control_credit : ℕ
control_credit = 2

unfoldable pub make_control_event : ℕ → ℕ → ℕ → CsEvent
make_control_event src dst ctrl = event_of (src ∷ dst ∷ ctrl ∷ [])

unfoldable pub is_control_event : CsEvent → Bool
is_control_event ev = length ev.payload == 3 || length ev.payload == 4

unfoldable pub make_reset_util_event : ℕ → ℕ → CsEvent
unfolding make_control_event
make_reset_util_event src dst = make_control_event src dst control_reset_util

unfoldable pub make_credit_event : ℕ → ℕ → ℕ → CsEvent
make_credit_event src dst bytes = event_of (src ∷ dst ∷ control_credit ∷ bytes ∷ [])

-- `is_reset_event` of switch.cc and of cxl_mempool.cc
unfoldable pub is_reset_event : CsEvent → Bool
is_reset_event ev =
    (length ev.payload == 3 || length ev.payload == 4) && word ev 2 == control_reset_util

unfoldable pub is_write_request : CsEvent → Bool
is_write_request ev =
    if leb (length ev.payload) 10 then false else word ev 10 % 2 ^ 32 == write_type
