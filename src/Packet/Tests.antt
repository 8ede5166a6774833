-- ===== src/Packet/Tests.antt =====
-- A write from node 1 to the pool 100, and the response to a request that names no nodes.
use cscore_sstelem.Prelude.{◌≡◌, arith, refl, true}
use cscore_sstelem.Packet.{SstRequest, default_request, SstResponse, make_response}
use cscore_sstelem.Packet.Control.{is_write_request}
use cscore_sstelem.Packet.Convert.{
  request_src, request_dst, convert_request_to_event, convert_event_to_request, response_src,
  response_dst, convert_response_to_event, convert_event_to_response,
}
use cscore_sstelem.Packet.RoundTrip.{
  RequestInRange, ResponseInRange, request_roundtrip, response_roundtrip,
}

abbrev a_write : SstRequest
a_write = record default_request { src_node = 1; dst_node = 100; type = 3; address = 4096; cpu = 1 }

a_write-InRange : RequestInRange a_write
a_write-InRange = record {
  src_node = omega arith;
  dst_node = omega arith;
  asid0 = omega arith;
  asid1 = omega arith;
  type = omega arith;
  pf_metadata = omega arith;
  cpu = omega arith;
  sst_cpu = omega arith;
  msg_bytes = omega arith;
}

a_write_is_write : is_write_request (convert_request_to_event a_write) ≡ true
unfolding is_write_request convert_request_to_event
a_write_is_write = refl

request_roundtrip_example :
    convert_event_to_request (convert_request_to_event a_write)
    ≡ record a_write { src_node = request_src a_write; dst_node = request_dst a_write }
request_roundtrip_example = request_roundtrip a_write a_write-InRange

unfoldable a_response : SstResponse
unfolding make_response
a_response = make_response 4096 8192 5 0 2 7

a_response-InRange : ResponseInRange a_response
unfolding a_response
a_response-InRange = record {
  src_node = omega arith;
  dst_node = omega arith;
  pf_metadata = omega arith;
  cpu = omega arith;
  sst_cpu = omega arith;
  msg_bytes = omega arith;
}

response_roundtrip_example :
    convert_event_to_response (convert_response_to_event a_response)
    ≡ record a_response { src_node = response_src a_response; dst_node = response_dst a_response }
response_roundtrip_example = response_roundtrip a_response a_response-InRange
