-- ===== src/Delivery/Network.antt =====
-- The transport of the publisher over a network that may lose messages: `AsgiTransport.send` of
-- transport.py, which turns a connection failure into a `TransportError`, in front of the endpoint.
-- The environment decides what happens to each call.
use aeronta_inventory.Base.{String, Bool, Option, none, some, List, [], ◌∷◌, if◌then◌else◌}
use aeronta_inventory.Delivery.Publisher.{
  TransportResponse, Answer, answered, transport_error, raised,
}
use aeronta_inventory.Delivery.Endpoint.{Accepted, Reply, ingest}

-- `spoil_response` stands for an answer whose "retry-after" is no number, so that `float` raises a
-- ValueError once the endpoint has done its work.
pub data Fault : Type 0 where
  deliver lose_request lose_response spoil_response : Fault

-- What happens to the calls to come, and what the endpoint has accepted. After the listed calls
-- every message arrives.
pub record Net (E : Type 0) : Type 0 where
  pub faults : List Fault
  pub accepted : Accepted E

module _ {E B W : Type 0} (tenant_of event_id : E → String) (decode : B → Option E)
    (limited : String → E → Bool) (one_second : W) where
  abbrev pub response : Reply → TransportResponse W
  response r = record {
    status_code = r.status_code;
    retry_after_s = if r.retry_after then some one_second else none;
  }

  unfoldable pub send_with : Fault → List Fault → String → B → Accepted E → Answer W × Net E
  send_with deliver rest tenant body accepted =
      let (r, accepted') = ingest tenant_of event_id decode limited tenant body accepted in
      (answered (response r), record { faults = rest; accepted = accepted' })
  send_with lose_request rest tenant body accepted =
      (transport_error, record { faults = rest; accepted = accepted })
  send_with lose_response rest tenant body accepted =
      let (r, accepted') = ingest tenant_of event_id decode limited tenant body accepted in
      (transport_error, record { faults = rest; accepted = accepted' })
  send_with spoil_response rest tenant body accepted =
      let (r, accepted') = ingest tenant_of event_id decode limited tenant body accepted in
      (raised, record { faults = rest; accepted = accepted' })

  abbrev pub send_over : List Fault → String → B → Accepted E → Answer W × Net E
  send_over [] tenant body accepted = send_with deliver [] tenant body accepted
  send_over (f ∷ rest) tenant body accepted = send_with f rest tenant body accepted

  -- `send`.
  unfoldable pub send : String → B → Net E → Answer W × Net E
  send tenant body net = send_over net.faults tenant body net.accepted
