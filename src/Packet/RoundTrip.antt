-- ===== src/Packet/RoundTrip.antt =====
-- What a request or a response is after it has been an event.
use cscore_sstelem.Prelude.{◌<◌, ◌^◌, ◌≡◌, Bool, arith, not, ◌==◌}
use cscore_sstelem.Packet.{SstRequest, SstResponse}
use cscore_sstelem.Packet.Convert.{
  of_flag, request_src, request_dst, convert_request_to_event, convert_event_to_request,
  response_src, response_dst, convert_response_to_event, convert_event_to_response,
}

-- Each field fits its C type.
pub record RequestInRange (req : SstRequest) : Type 0 where
  pub src_node : req.src_node < 2 ^ 32
  pub dst_node : req.dst_node < 2 ^ 32
  pub asid0 : req.asid0 < 2 ^ 8
  pub asid1 : req.asid1 < 2 ^ 8
  pub type : req.type < 2 ^ 32
  pub pf_metadata : req.pf_metadata < 2 ^ 32
  pub cpu : req.cpu < 2 ^ 32
  pub sst_cpu : req.sst_cpu < 2 ^ 32
  pub msg_bytes : req.msg_bytes < 2 ^ 16

pub record ResponseInRange (resp : SstResponse) : Type 0 where
  pub src_node : resp.src_node < 2 ^ 32
  pub dst_node : resp.dst_node < 2 ^ 32
  pub pf_metadata : resp.pf_metadata < 2 ^ 32
  pub cpu : resp.cpu < 2 ^ 32
  pub sst_cpu : resp.sst_cpu < 2 ^ 32
  pub msg_bytes : resp.msg_bytes < 2 ^ 16

flag_roundtrip : (b : Bool) → not (of_flag b == 0) ≡ b
flag_roundtrip b = ground arith

-- A request whose fields fit their types comes out of its event as it went in, but that an unset
-- source node has become the cpu and an unset destination node the `sst_cpu`.
pub request_roundtrip :
    (req : SstRequest)
    → RequestInRange req
    → convert_event_to_request (convert_request_to_event req)
      ≡ record req { src_node = request_src req; dst_node = request_dst req }
unfolding convert_event_to_request convert_request_to_event request_src request_dst
request_roundtrip req v = ground arith

-- A response whose fields fit their types comes out of its event as it went in, but that an unset
-- source node has become the `sst_cpu` and an unset destination node the cpu.
pub response_roundtrip :
    (resp : SstResponse)
    → ResponseInRange resp
    → convert_event_to_response (convert_response_to_event resp)
      ≡ record resp { src_node = response_src resp; dst_node = response_dst resp }
unfolding convert_event_to_response convert_response_to_event response_src response_dst
response_roundtrip resp v = ground arith
