-- ===== src/Packet.antt =====
-- csEvent.h, inc/SST_CS_packets.h and inc/access_type.h: the packets that travel on the fabric.
-- A word of `w` bits is a number; `InRange` says that it is below 2 ^ w. A request keeps the numeric
-- value of its `access_type`, because a cast from a payload word can give any 32-bit value.
pub mod Control
pub mod Convert
pub mod RoundTrip
mod Tests
use cscore_sstelem.Prelude.{ℕ, ◌<◌, ◌^◌, ◌-◌, List, [], Bool, true, false, get_or}

-- `csEvent`
pub record CsEvent : Type 0 where
  pub payload : List ℕ
  pub last : Bool

-- `new csEvent()` whose payload words have been pushed.
abbrev pub event_of : List ℕ → CsEvent
event_of ws = record { payload = ws; last = false }

-- `payload[i]`, read only where the code has checked the size.
abbrev pub word : CsEvent → ℕ → ℕ
word ev i = get_or ev.payload i 0

abbrev pub max_u8 : ℕ
max_u8 = 2 ^ 8 - 1

abbrev pub max_u32 : ℕ
max_u32 = 2 ^ 32 - 1

abbrev pub max_u64 : ℕ
max_u64 = 2 ^ 64 - 1

-- `access_type::WRITE`
abbrev pub write_type : ℕ
write_type = 3

-- `sst_request`
pub record SstRequest : Type 0 where
  pub src_node : ℕ
  pub dst_node : ℕ
  pub forward_checked : Bool
  pub is_translated : Bool
  pub response_requested : Bool
  pub asid0 : ℕ
  pub asid1 : ℕ
  pub type : ℕ
  pub pf_metadata : ℕ
  pub cpu : ℕ
  pub sst_cpu : ℕ
  pub address : ℕ
  pub v_address : ℕ
  pub data_word : ℕ
  pub instr_id : ℕ
  pub ip : ℕ
  pub msg_bytes : ℕ

-- `sst_request req;`
abbrev pub default_request : SstRequest
default_request = record {
  src_node = max_u32;
  dst_node = max_u32;
  forward_checked = false;
  is_translated = true;
  response_requested = true;
  asid0 = max_u8;
  asid1 = max_u8;
  type = 0;
  pf_metadata = 0;
  cpu = max_u32;
  sst_cpu = 0;
  address = 0;
  v_address = 0;
  data_word = 0;
  instr_id = 0;
  ip = 0;
  msg_bytes = 64;
}

-- `sst_response`
pub record SstResponse : Type 0 where
  pub src_node : ℕ
  pub dst_node : ℕ
  pub address : ℕ
  pub v_address : ℕ
  pub data_word : ℕ
  pub pf_metadata : ℕ
  pub cpu : ℕ
  pub sst_cpu : ℕ
  pub msg_bytes : ℕ

-- The constructor of `sst_response`; its first three arguments are 64-bit, the others 32-bit.
unfoldable pub make_response : ℕ → ℕ → ℕ → ℕ → ℕ → ℕ → SstResponse
make_response addr v_addr d pf_meta cpu_n sst_cpu_n = record {
  src_node = max_u32;
  dst_node = max_u32;
  address = addr;
  v_address = v_addr;
  data_word = d;
  pf_metadata = pf_meta;
  cpu = cpu_n;
  sst_cpu = sst_cpu_n;
  msg_bytes = 64;
}
