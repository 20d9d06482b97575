-- ===== src/Tests/Deliveries.antt =====
-- Deliveries over a network that loses the first response.
use aeronta_inventory.Base.{
  ℕ, zero, suc, ◌≡◌, ◌≢◌, refl, String, Bool, true, false, Option, none, some, [], ◌∷◌, arith,
  string_eq, pair_eq, ◌++◌,
}
use aeronta_inventory.Base.Dict.{lookup, insert}
use aeronta_inventory.Delivery.Publisher.{
  PublishResult, Answer, answered, transport_error, raised, emitted, World, verdict, backoff_for,
  wait_for, pause, attempts_from, publish, result_of,
}
use aeronta_inventory.Delivery.Publisher.Reports.{IsReport, publish-IsReport}
use aeronta_inventory.Delivery.Endpoint.{ingest_envelope, ingest}
use aeronta_inventory.Delivery.Network.{lose_request, lose_response, Net, send_with, send}
use aeronta_inventory.Delivery.Once.{Files, Contains, publish-Files, publish-Holds, publish-publish}
use aeronta_inventory.Events.Patterns.{is_kebab, codes, is_kebab-newline, kebab_from, newline}

-- An event is its id, of the one tenant; a body is the event.
abbrev tenant : String → String
tenant e = "acme"

abbrev id : String → String
id e = e

abbrev decode : String → Option String
decode b = some b

abbrev unlimited : String → String → Bool
unlimited t e = false

abbrev any_wait : ℕ → Bool
any_wait x = true

abbrev network : World (Net String) String ℕ
network = record {
  transport = record { faults = lose_response ∷ lose_request ∷ []; accepted = [] };
  dlq = [];
  slept = [];
}

abbrev publish_event :
    World (Net String) String ℕ → Option PublishResult × World (Net String) String ℕ
publish_event = publish (send tenant id decode unlimited 1) tenant id 7 (1 ∷ 2 ∷ []) any_wait "e1"

third_time : (publish_event network).0 ≡ some (result_of emitted 3 (some 409) false)
unfolding publish attempts_from verdict pause wait_for backoff_for send send_with ingest
    ingest_envelope lookup insert
third_time = refl

-- A transport that only refuses a connection, then asks for a wait, then accepts.
abbrev flaky : String → Option String → ℕ → Answer ℕ × ℕ
flaky t b zero = (transport_error, 1)
flaky t b (suc zero) = (answered (record { status_code = 429; retry_after_s = some 5 }), 2)
flaky t b (suc (suc n)) = (answered (record { status_code = 202; retry_after_s = none }), 3)

flaky-calm : (s : ℕ) → (flaky "acme" (some "e1") s).0 ≢ raised
flaky-calm zero h = absurd (ground (arith, h))
flaky-calm (suc zero) h = absurd (ground (arith, h))
flaky-calm (suc (suc n)) h = absurd (ground (arith, h))

abbrev start : World ℕ String ℕ
start = record { transport = 0; dlq = []; slept = [] }

abbrev publish_flaky : Option PublishResult × World ℕ String ℕ
publish_flaky = publish flaky tenant decode 7 (1 ∷ 2 ∷ []) any_wait "e1" start

publish-IsReport_example :
    (r : PublishResult) × (publish_flaky.0 ≡ some r)
    × IsReport flaky tenant decode 7 (1 ∷ 2 ∷ []) any_wait 1 "e1" start r publish_flaky.1
publish-IsReport_example =
    publish-IsReport flaky tenant decode 7 (1 ∷ 2 ∷ []) any_wait "e1" (omega arith)
      (refl, (refl, tt)) flaky-calm (λ s r x is_r busy named. refl) start (omega arith)

publish-Files_example : Files ("acme", "e1") "e1" [] (publish_event network).1.transport.accepted
publish-Files_example =
    publish-Files tenant id decode unlimited 1 id "e1" refl 7 (1 ∷ 2 ∷ []) any_wait network

publish-Holds_example : Contains ("acme", "e1") (publish_event network).1.transport.accepted
publish-Holds_example =
    publish-Holds tenant id decode unlimited 1 id "e1" refl 7 (1 ∷ 2 ∷ []) any_wait network
      (result_of emitted 3 (some 409) false) third_time refl

publish-publish_example :
    (publish_event (publish_event network).1).1.transport.accepted
    ≡ (publish_event network).1.transport.accepted
publish-publish_example =
    publish-publish tenant id decode unlimited 1 id "e1" refl 7 (1 ∷ 2 ∷ []) any_wait network
      (result_of emitted 3 (some 409) false) third_time refl

is_kebab-newline_example : is_kebab (codes "acme-air" ++ newline ∷ []) ≡ true
unfolding is_kebab kebab_from
is_kebab-newline_example = is_kebab-newline (codes "acme-air") refl refl
