-- ===== src/Delivery/Once.antt =====
-- At-least-once delivery into an endpoint that accepts each event id once: together, once.

use aeronta_inventory.Base.{
  ℕ, ◌≡◌, ◌⊎◌, if◌then◌else◌, refl, ◌∙◌, String, Bool, true, Option, none, some, List, [], ◌∷◌,
  arith, inl, inr, string_eq, pair_eq, ==-refl, Option-cases,
}
use aeronta_inventory.Base.Dict.{lookup, insert, lookup-insert_self}
use aeronta_inventory.Delivery.Publisher.{
  emitted, PublishResult, Answer, answered, World, accept, verdict, publish,
}
use aeronta_inventory.Delivery.Publisher.Keeps.{publish-keeps, publish-emitted}
use aeronta_inventory.Delivery.Endpoint.{Accepted, Reply, reply, ingest_envelope, ingest}
use aeronta_inventory.Delivery.Network.{
  Fault, deliver, lose_request, lose_response, spoil_response, Net, response, send_with, send_over,
  send,
}

module _ {E : Type 0} where
  -- What deliveries of an event under a key may do to the accepted events.
  abbrev pub Files : String × String → E → Accepted E → Accepted E → Type 0
  Files k e a a' = (a' ≡ a) ⊎ ((lookup k a ≡ none) × (a' ≡ insert k e a))

  -- An event is accepted under the key.
  abbrev pub Contains : String × String → Accepted E → Type 0
  Contains k a = (v : E) × (lookup k a ≡ some v)

module _ {E B W : Type 0} (tenant_of event_id : E → String) (decode : B → Option E)
    (limited : String → E → Bool) (one_second : W) (encode : E → B) where
  abbrev call : E → Net E → Answer W × Net E
  call e net = send tenant_of event_id decode limited one_second (tenant_of e) (encode e) net

  module _ (e : E) (round_trip : decode (encode e) ≡ some e) where
    abbrev key : String × String
    key = (tenant_of e, event_id e)

    abbrev request : Accepted E → Reply × Accepted E
    request a = ingest tenant_of event_id decode limited (tenant_of e) (encode e) a

    abbrev Becomes : Accepted E → Accepted E → Type 0
    Becomes = Files key e

    envelope_lem :
        (a : Accepted E)
        → ingest_envelope tenant_of event_id decode limited (tenant_of e) e a ≡ (
            if limited (tenant_of e) e
            then (record { status_code = 429; retry_after = true }, a)
            else elim (lookup key a) [
              | some _ ↦ (reply 409, a)
              | none ↦ (reply 202, insert key e a)
            ])
    unfolding ingest_envelope
    envelope_lem a = ground (arith, ==-refl (tenant_of e))

    request_lem :
        (a : Accepted E)
        → request a ≡ (
            if limited (tenant_of e) e
            then (record { status_code = 429; retry_after = true }, a)
            else elim (lookup key a) [
              | some _ ↦ (reply 409, a)
              | none ↦ (reply 202, insert key e a)
            ])
    unfolding ingest
    request_lem a = rw (round_trip, ingest) (envelope_lem a)

    request-Files : (a : Accepted E) → Becomes a (request a).1
    request-Files a = rw (request_lem a) (ground arith)

    -- A request that is answered with a success code leaves an event under the key.
    request-success :
        (a : Accepted E) (c : ℕ)
        → verdict (answered (response tenant_of event_id decode limited one_second (request a).0))
          ≡ accept c
        → (v : E) × (lookup key (request a).1 ≡ some v)
    unfolding verdict
    request-success a c h = elim (Option-cases (lookup key a)) [
      | inl free ↦
          (e, rw (request_lem a) (ground (arith, request_lem a, lookup-insert_self key e a)))
      | inr (v, held) ↦ (v, ground (arith, request_lem a))
    ]

    abbrev through : Fault → List Fault → Accepted E → Answer W × Net E
    through f rest a =
        send_with tenant_of event_id decode limited one_second f rest (tenant_of e) (encode e) a

    through-Files :
        (f : Fault) (rest : List Fault) (a : Accepted E) → Becomes a (through f rest a).1.accepted
    unfolding send_with
    through-Files deliver rest a = request-Files a
    through-Files lose_request rest a = inl refl
    through-Files lose_response rest a = request-Files a
    through-Files spoil_response rest a = request-Files a

    over-Files :
        (faults : List Fault) (a : Accepted E)
        → Becomes a
            (send_over tenant_of event_id decode limited one_second faults
              (tenant_of e)
              (encode e)
              a).1.accepted
    over-Files [] a = through-Files deliver [] a
    over-Files (f ∷ rest) a = through-Files f rest a

    call-Files : (net : Net E) → Becomes net.accepted (call e net).1.accepted
    unfolding send
    call-Files net = over-Files net.faults net.accepted

    -- An event is held under the key.
    abbrev Holds : Net E → Type 0
    Holds net = Contains key net.accepted

    through-Holds :
        (f : Fault) (rest : List Fault) (a : Accepted E) (c : ℕ)
        → verdict (through f rest a).0 ≡ accept c
        → Holds (through f rest a).1
    unfolding send_with
    through-Holds deliver rest a c h = request-success a c h
    through-Holds lose_request rest a c h = absurd (unfold verdict in cc h)
    through-Holds lose_response rest a c h = absurd (unfold verdict in cc h)
    through-Holds spoil_response rest a c h = absurd (unfold verdict in cc h)

    over-Holds :
        (faults : List Fault) (a : Accepted E) (c : ℕ)
        → let x =
            send_over tenant_of event_id decode limited one_second faults
              (tenant_of e)
              (encode e)
              a in
          verdict x.0 ≡ accept c → Holds x.1
    over-Holds [] a c h = through-Holds deliver [] a c h
    over-Holds (f ∷ rest) a c h = through-Holds f rest a c h

    call-Holds : (net : Net E) (c : ℕ) → verdict (call e net).0 ≡ accept c → Holds (call e net).1
    unfolding send
    call-Holds net c h = over-Holds net.faults net.accepted c h

    Files-trans : (a b c : Accepted E) → Becomes a b → Becomes b c → Becomes a c
    Files-trans a b c (inl same) second = rw (← same) second
    Files-trans a b c (inr (free, added)) (inl same) = inr (free, same ∙ added)
    Files-trans a b c (inr (free, added)) (inr (free', added')) =
        absurd (cc (lookup-insert_self key e a, added, free'))

    module _ (max_attempts : ℕ) (backoff : List W) (sleepable : W → Bool) where
      abbrev deliver_event : World (Net E) E W → Option PublishResult × World (Net E) E W
      deliver_event =
          publish (send tenant_of event_id decode limited one_second) tenant_of encode max_attempts
            backoff sleepable e

      -- Whatever the network loses and however `publish` ends, the endpoint has accepted what it
      -- had accepted before, and at most the event besides, under its own key, if that was free.
      pub publish-Files :
          (w : World (Net E) E W)
          → Files key e w.transport.accepted (deliver_event w).1.transport.accepted
      publish-Files w =
          publish-keeps (send tenant_of event_id decode limited one_second) tenant_of encode
            max_attempts backoff sleepable e (λ net. Becomes w.transport.accepted net.accepted)
            (λ net h.
              Files-trans w.transport.accepted net.accepted (call e net).1.accepted h
                (call-Files net))
            w (inl refl)

      -- If the event is reported as emitted, the endpoint holds an event under its key.
      pub publish-Holds :
          (w : World (Net E) E W) (r : PublishResult)
          → (deliver_event w).0 ≡ some r
          → r.status ≡ emitted
          → Contains key (deliver_event w).1.transport.accepted
      publish-Holds w =
          publish-emitted (send tenant_of event_id decode limited one_second) tenant_of encode
            max_attempts backoff sleepable e Holds call-Holds w

      -- Publishing an event again that was reported as emitted changes nothing at the endpoint,
      -- over any faults of the network.
      pub publish-publish :
          (w : World (Net E) E W) (r : PublishResult)
          → (deliver_event w).0 ≡ some r
          → r.status ≡ emitted
          → (deliver_event (deliver_event w).1).1.transport.accepted
            ≡ (deliver_event w).1.transport.accepted
      publish-publish w r is_r h = elim (publish-Files (deliver_event w).1) [
        | inl same ↦ same
        | inr (free, added) ↦ let (v, held) = publish-Holds w r is_r h in absurd (cc (free, held))
      ]
