-- ===== src/Delivery/Endpoint.antt =====
-- endpoint.py: the reference endpoint, which accepts each event id of a tenant once. The decoding
-- of a body (`model_validate_json`) and the rate limiter are parameters.
use aeronta_inventory.Base.{
  ℕ, String, Bool, true, false, Option, none, some, List, [], ◌∷◌, ◌==◌, string_eq, pair_eq,
  if◌then◌else◌,
}
use aeronta_inventory.Base.Dict.{Dict, lookup, insert}

-- `app.state.accepted`.
abbrev pub Accepted : Type 0 → Type 0
Accepted E = Dict (String × String) E

-- A response: its status code and whether it carries `Retry-After: 1`.
pub record Reply : Type 0 where
  pub status_code : ℕ
  pub retry_after : Bool

abbrev pub reply : ℕ → Reply
reply code = record { status_code = code; retry_after = false }

module _ {E B : Type 0} (tenant_of event_id : E → String) (decode : B → Option E)
    (limited : String → E → Bool) where
  -- `ingest`, on a decoded envelope.
  unfoldable pub ingest_envelope : String → E → Accepted E → Reply × Accepted E
  ingest_envelope tenant e accepted =
      if tenant_of e == tenant
      then (if limited tenant e
          then (record { status_code = 429; retry_after = true }, accepted)
          else elim (lookup (tenant, event_id e) accepted) [
            | some _ ↦ (reply 409, accepted)
            | none ↦ (reply 202, insert (tenant, event_id e) e accepted)
          ])
      else (reply 403, accepted)

  -- `ingest`.
  unfoldable pub ingest : String → B → Accepted E → Reply × Accepted E
  ingest tenant raw accepted = elim (decode raw) [
    | none ↦ (reply 400, accepted)
    | some e ↦ ingest_envelope tenant e accepted
  ]

-- `replay`: the accepted events of a tenant, in the order of acceptance.
module _ {E : Type 0} where
  unfoldable pub replay : String → Accepted E → List E
  replay tenant [] = []
  replay tenant (((owner, id), e) ∷ rest) =
      let others = replay tenant rest in if owner == tenant then e ∷ others else others
