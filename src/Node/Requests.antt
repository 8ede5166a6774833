-- ===== src/Node/Requests.antt =====
-- cscore.cc, `enqueue_remote_request` and `advance_remote_requests`: every request that is accepted
-- reaches the link as its event, once.
use mathlib.Core.List.Perm
use cscore_sstelem.Prelude.{
  ◌≡◌, refl, sym, ◌∙◌, List, [], ◌∷◌, ◌++◌, map, append-nil, append_assoc, Perm, perm_shift, true,
  false, Option, none, some, if◌then◌else◌, Bool-cases, Option-cases, inl, inr, arith,
}
use cscore_sstelem.Double.{Double}
use cscore_sstelem.Packet.{CsEvent, SstRequest}
use cscore_sstelem.Packet.Convert.{convert_request_to_event}
use cscore_sstelem.LatBwQueue.{LatBwQueue, add_packet, on_tick}
use cscore_sstelem.LatBwQueue.Conservation.{pending, in_flight, on_tick-Moved, add_packet_lem}
use cscore_sstelem.Node.{Node, enqueue_remote_request, send_all, advance_remote_requests}

-- The requests that the node has accepted and not sent, of its outbox and its queue.
unfoldable pub unsent_of :
    {D : Type 0} → List SstRequest → Option (LatBwQueue D SstRequest) → List SstRequest
unsent_of box none = box
unsent_of box (some queue) = box ++ (in_flight queue ++ pending queue)

abbrev pub unsent : {D I : Type 0} → Node D I → List SstRequest
unsent node = unsent_of node.remote_outbox node.remote_link_queue

abbrev pub events_of : List SstRequest → List CsEvent
events_of = map convert_request_to_event

pub send_all-append :
    (reqs : List SstRequest) (sent : List CsEvent) → send_all reqs sent ≡ sent ++ events_of reqs
unfolding send_all
send_all-append [] sent = sym (append-nil sent)
send_all-append (req ∷ reqs) sent =
    rw
      (
        send_all-append reqs (sent ++ (convert_request_to_event req ∷ [])),
        append_assoc sent (convert_request_to_event req ∷ []) (events_of reqs),
      )
      refl

advance_perm :
    (out box air air' taken rest : List SstRequest)
    → Perm (out ++ air') (taken ++ air)
    → Perm (out ++ (box ++ (air' ++ rest))) (box ++ (air ++ (taken ++ rest)))
advance_perm out box air air' taken rest p = Perm.trans (perm_shift out box (air' ++ rest)) (
    Perm.append_left box (
      Perm.trans
        (rw (← append_assoc out air' rest, ← append_assoc taken air rest)
          (Perm.append_right rest p))
        (perm_shift taken air rest)))

-- What became of the requests: those of `out` were sent, in this order, and those that are not sent are
-- the others of `before`.
pub record Delivered {D I : Type 0} (before : List SstRequest) (sent : List CsEvent)
    (node : Node D I) : Type 0 where
  pub out : List SstRequest
  pub out_sent : node.sent ≡ sent ++ events_of out
  pub kept : Perm (out ++ unsent node) before

outbox_sent :
    (D : Type 0) (box : List SstRequest)
    → Perm (box ++ unsent_of {D = D} [] none) (unsent_of {D = D} box none)
unfolding unsent_of
outbox_sent D box = rw (append-nil box) Perm.rfl

module _ {D : Type 0} ⦃d : Double D⦄ where
  unsent-add_packet :
      (box : List SstRequest) (queue : LatBwQueue D SstRequest) (req : SstRequest)
      → let (queue', accepted) = add_packet queue req in
        unsent_of box (some queue')
        ≡ unsent_of box (some queue) ++ (if accepted then req ∷ [] else [])
  unfolding unsent_of
  unsent-add_packet box queue req =
      let (_, waiting, flying, _) = add_packet_lem queue req in
      elim (Bool-cases (add_packet queue req).1) [
        | inl e ↦
            rw
              (
                flying,
                waiting,
                e,
                append_assoc box (in_flight queue ++ pending queue) (req ∷ []),
                append_assoc (in_flight queue) (pending queue) (req ∷ []),
              )
              refl
        | inr e ↦
            rw (flying, waiting, e, append-nil (box ++ (in_flight queue ++ pending queue))) refl
      ]

  queue_ticked :
      (box : List SstRequest) (queue : LatBwQueue D SstRequest)
      → let (queue', ready) = on_tick queue in
        Perm (ready ++ unsent_of box (some queue')) (unsent_of box (some queue))
  unfolding unsent_of
  queue_ticked box queue =
      let (queue', ready) = on_tick queue in
      let m = on_tick-Moved queue in
      rw (m.from_front) (
        advance_perm ready box (in_flight queue) (in_flight queue') m.taken (pending queue') m.kept)

module _ {D I : Type 0} ⦃d : Double D⦄ where
  pub enqueue_outbox :
      (node : Node D I) (req : SstRequest)
      → node.remote_link_queue ≡ none
      → enqueue_remote_request node req
        ≡ (record node { remote_outbox = node.remote_outbox ++ (req ∷ []) }, true)
  unfolding enqueue_remote_request
  enqueue_outbox node req e = ground arith

  enqueue_queue :
      (node : Node D I) (req : SstRequest) (queue : LatBwQueue D SstRequest)
      → node.remote_link_queue ≡ some queue
      → enqueue_remote_request node req ≡ (
        record node { remote_link_queue = some (add_packet queue req).0 },
        (add_packet queue req).1,
      )
  unfolding enqueue_remote_request
  enqueue_queue node req queue e = ground arith

  pub enqueue_lem :
      (node : Node D I) (req : SstRequest)
      → let (node', accepted) = enqueue_remote_request node req in
        (node'.sent ≡ node.sent)
        × (unsent node' ≡ unsent node ++ (if accepted then req ∷ [] else []))
  unfolding unsent_of
  enqueue_lem node req = elim (Option-cases node.remote_link_queue) [
    | inl e ↦ rw (enqueue_outbox node req e, e) (refl, refl)
    | inr (queue, e) ↦
        rw (enqueue_queue node req queue e, e)
          (refl, unsent-add_packet node.remote_outbox queue req)
  ]

  advance_unlinked : (node : Node D I) → node.has_link ≡ false → advance_remote_requests node ≡ node
  unfolding advance_remote_requests
  advance_unlinked node h = ground arith

  advance_outbox :
      (node : Node D I)
      → node.has_link ≡ true
      → node.remote_link_queue ≡ none
      → advance_remote_requests node
        ≡ record node { sent = send_all node.remote_outbox node.sent; remote_outbox = [] }
  unfolding advance_remote_requests
  advance_outbox node h e = ground arith

  advance_queue :
      (node : Node D I) (queue : LatBwQueue D SstRequest)
      → node.has_link ≡ true
      → node.remote_link_queue ≡ some queue
      → advance_remote_requests node ≡ record node {
        remote_link_queue = some (on_tick queue).0;
        sent = send_all (on_tick queue).1 node.sent;
      }
  unfolding advance_remote_requests
  advance_queue node queue h e = ground arith

  pub advance_lem :
      (node : Node D I) → Delivered (unsent node) node.sent (advance_remote_requests node)
  advance_lem node = elim (Bool-cases node.has_link) [
    | inl h ↦ elim (Option-cases node.remote_link_queue) [
      | inl e ↦ rw (advance_outbox node h e) (record {
        out = node.remote_outbox;
        out_sent = send_all-append node.remote_outbox node.sent;
        kept = rw e (outbox_sent D node.remote_outbox);
      })
      | inr (queue, e) ↦ rw (advance_queue node queue h e) (record {
        out = (on_tick queue).1;
        out_sent = send_all-append (on_tick queue).1 node.sent;
        kept = rw e (queue_ticked node.remote_outbox queue);
      })
    ]
    | inr h ↦
        rw (advance_unlinked node h)
          (record { out = []; out_sent = sym (append-nil node.sent); kept = Perm.rfl })
  ]

  pub advance_in_order :
      (node : Node D I)
      → node.remote_link_queue ≡ none
      → let node' = advance_remote_requests node in
        (node'.sent ++ events_of node'.remote_outbox ≡ node.sent ++ events_of node.remote_outbox)
        × (node'.remote_link_queue ≡ none)
  advance_in_order node e = elim (Bool-cases node.has_link) [
    | inl h ↦ rw (advance_outbox node h e) (
      append-nil (send_all node.remote_outbox node.sent)
          ∙ send_all-append node.remote_outbox node.sent,
      e,
    )
    | inr h ↦ rw (advance_unlinked node h) (refl, e)
  ]
