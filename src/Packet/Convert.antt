-- ===== src/Packet/Convert.antt =====
-- convert_ev_packet.cc: requests and responses as payload words, and back.
use cscore_sstelem.Prelude.{ℕ, ◌%◌, ◌^◌, Bool, not, [], ◌∷◌, length, ◌==◌, ltb, if◌then◌else◌}
use cscore_sstelem.Packet.{
  CsEvent, event_of, word, max_u32, SstRequest, default_request, SstResponse, make_response,
}

-- `flag ? 1 : 0`
abbrev pub of_flag : Bool → ℕ
of_flag b = if b then 1 else 0

abbrev pub to_u32 : ℕ → ℕ
to_u32 n = n % 2 ^ 32

-- The source that a request's event carries.
unfoldable pub request_src : SstRequest → ℕ
request_src req = if req.src_node == max_u32 then req.cpu else req.src_node

unfoldable pub request_dst : SstRequest → ℕ
request_dst req = if req.dst_node == max_u32 then req.sst_cpu else req.dst_node

unfoldable pub convert_request_to_event : SstRequest → CsEvent
convert_request_to_event req = event_of (
    request_src req
    ∷ request_dst req
    ∷ req.address
    ∷ req.v_address
    ∷ req.data_word
    ∷ req.instr_id
    ∷ req.ip
    ∷ req.pf_metadata
    ∷ req.cpu
    ∷ req.sst_cpu
    ∷ req.type
    ∷ req.asid0
    ∷ req.asid1
    ∷ of_flag req.forward_checked
    ∷ of_flag req.is_translated
    ∷ of_flag req.response_requested
    ∷ req.msg_bytes
    ∷ [])

unfoldable pub convert_event_to_request : CsEvent → SstRequest
convert_event_to_request ev = if ltb (length ev.payload) 16 then default_request else record {
  src_node = to_u32 (word ev 0);
  dst_node = to_u32 (word ev 1);
  forward_checked = not (word ev 13 == 0);
  is_translated = not (word ev 14 == 0);
  response_requested = not (word ev 15 == 0);
  asid0 = word ev 11 % 2 ^ 8;
  asid1 = word ev 12 % 2 ^ 8;
  type = to_u32 (word ev 10);
  pf_metadata = to_u32 (word ev 7);
  cpu = to_u32 (word ev 8);
  sst_cpu = to_u32 (word ev 9);
  address = word ev 2;
  v_address = word ev 3;
  data_word = word ev 4;
  instr_id = word ev 5;
  ip = word ev 6;
  msg_bytes = if ltb 16 (length ev.payload) then word ev 16 % 2 ^ 16 else 64;
}

unfoldable pub response_src : SstResponse → ℕ
response_src resp = if resp.src_node == max_u32 then resp.sst_cpu else resp.src_node

unfoldable pub response_dst : SstResponse → ℕ
response_dst resp = if resp.dst_node == max_u32 then resp.cpu else resp.dst_node

unfoldable pub convert_response_to_event : SstResponse → CsEvent
convert_response_to_event resp = event_of (
    response_src resp
    ∷ response_dst resp
    ∷ resp.address
    ∷ resp.v_address
    ∷ resp.data_word
    ∷ resp.pf_metadata
    ∷ resp.cpu
    ∷ resp.sst_cpu
    ∷ resp.msg_bytes
    ∷ [])

unfoldable pub convert_event_to_response : CsEvent → SstResponse
unfolding make_response
convert_event_to_response ev =
    if ltb (length ev.payload) 8
    then make_response 0 0 0 0 0 0
    else record (make_response (word ev 2) (word ev 3) (word ev 4) (to_u32 (word ev 5))
        (to_u32 (word ev 6)) (to_u32 (word ev 7))) {
          src_node = to_u32 (word ev 0);
          dst_node = to_u32 (word ev 1);
          msg_bytes = if ltb 8 (length ev.payload) then word ev 8 % 2 ^ 16 else 64;
        }
