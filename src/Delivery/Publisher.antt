-- ===== src/Delivery/Publisher.antt =====
-- publisher.py and dlq.py: delivery with retries, waits and a dead-letter queue. An event is of
-- type `E`, a request body of type `B`, a wait of type `W` (a float), the transport's state of
-- type `S`.
pub mod Reports
pub mod Keeps
use aeronta_inventory.Base.{
  ℕ, zero, suc, ◌+◌, ◌-◌, String, Bool, true, false, Option, none, some, List, [], ◌∷◌, ◌++◌, ltb,
  min, length, contains, nat_beq, nat_eq, if◌then◌else◌,
}

pub data PublishStatus : Type 0 where
  emitted rejected dead_lettered : PublishStatus

pub record PublishResult : Type 0 where
  pub status : PublishStatus
  pub attempts : ℕ
  pub last_status_code : Option ℕ
  pub dead_lettered : Bool

pub record TransportResponse (W : Type 0) : Type 0 where
  pub status_code : ℕ
  pub retry_after_s : Option W

-- What a call of the transport comes to: an answer, a `TransportError`, or another exception.
pub data Answer (W : Type 0) : Type 0 where
  answered : TransportResponse W → Answer W
  transport_error raised : Answer W

-- The texts "terminal {code}" and "exhausted {n} attempts".
pub data Reason : Type 0 where
  terminal exhausted : ℕ → Reason

-- What a publisher acts on: the transport, its `InMemoryDeadLetterQueue`, and the waits so far.
pub record World (S E W : Type 0) : Type 0 where
  pub transport : S
  pub dlq : List (E × Reason)
  pub slept : List W

abbrev pub terminal_codes : List ℕ
terminal_codes = 400 ∷ 401 ∷ 403 ∷ []

abbrev pub success_codes : List ℕ
success_codes = 202 ∷ 409 ∷ []

-- `xs[i]`; `none` stands for the `IndexError`.
abbrev pub get_elem? : {A : Type 0} → List A → ℕ → Option A
get_elem? [] i = none
get_elem? (x ∷ xs) zero = some x
get_elem? (x ∷ xs) (suc i) = get_elem? xs i

-- `_result`.
abbrev pub result_of : PublishStatus → ℕ → Option ℕ → Bool → PublishResult
result_of status attempts last_code dead = record {
  status = status;
  attempts = attempts;
  last_status_code = last_code;
  dead_lettered = dead;
}

abbrev pub code_of : {W : Type 0} → Answer W → Option ℕ
code_of (answered r) = some r.status_code
code_of transport_error = none
code_of raised = none

-- How the loop reads an answer; only a `TransportError` is caught.
pub data Verdict (W : Type 0) : Type 0 where
  accept : ℕ → Verdict W
  refuse : ℕ → Verdict W
  retry : Option W → Verdict W
  leave : Verdict W

unfoldable pub verdict : {W : Type 0} → Answer W → Verdict W
verdict transport_error = retry none
verdict raised = leave
verdict (answered r) =
    if contains r.status_code success_codes
    then accept r.status_code
    else if contains r.status_code terminal_codes
    then refuse r.status_code
    else if nat_beq r.status_code 429
    then retry r.retry_after_s
    else retry none

module _ {S E B W : Type 0} (send : String → B → S → Answer W × S) (tenant_id : E → String)
    (encode : E → B) (max_attempts : ℕ) (backoff : List W) (sleepable : W → Bool) where
  -- `_backoff_for`; for no waits at all, the index is -1 into an empty tuple.
  unfoldable pub backoff_for : ℕ → Option W
  backoff_for attempt = get_elem? backoff (min (attempt - 1) (length backoff - 1))

  -- `retry_after if retry_after is not None else self._backoff_for(attempt)`.
  unfoldable pub wait_for : Option W → ℕ → Option W
  wait_for none attempt = backoff_for attempt
  wait_for (some w) attempt = some w

  -- The wait that `sleep` takes; `time.sleep` refuses one that is negative or a NaN.
  unfoldable pub pause : Option W → ℕ → Option W
  pause after attempt = elim (wait_for after attempt) [
    | none ↦ none
    | some x ↦ if sleepable x then some x else none
  ]

  abbrev pub bury : E → Reason → World S E W → World S E W
  bury e reason w = record w { dlq = w.dlq ++ (e, reason) ∷ [] }

  abbrev pub sleep : W → World S E W → World S E W
  sleep x w = record w { slept = w.slept ++ x ∷ [] }

  abbrev pub sent : S → World S E W → World S E W
  sent s w = record w { transport = s }

  -- The loop of `publish`, with `left` rounds to go, `attempt` the next one's number and the last
  -- status code. `none` stands for an exception that leaves `publish`.
  unfoldable pub attempts_from :
      ℕ → ℕ → Option ℕ → E → World S E W → Option PublishResult × World S E W
  attempts_from zero attempt last e w =
      (some (result_of dead_lettered max_attempts last true), bury e (exhausted max_attempts) w)
  attempts_from (suc left) attempt last e w =
      let (answer, s) = send (tenant_id e) (encode e) w.transport in
      let w' = sent s w in
      elim (verdict answer) [
        | accept code ↦ (some (result_of emitted attempt (some code) false), w')
        | refuse code ↦
            (some (result_of rejected attempt (some code) true), bury e (terminal code) w')
        | leave ↦ (none, w')
        | retry after ↦
            if ltb attempt max_attempts
            then elim (pause after attempt) [
              | none ↦ (none, w')
              | some x ↦ attempts_from left (attempt + 1) (code_of answer) e (sleep x w')
            ]
            else attempts_from left (attempt + 1) (code_of answer) e w'
      ]

  -- `publish`.
  unfoldable pub publish : E → World S E W → Option PublishResult × World S E W
  publish e w = attempts_from max_attempts 1 none e w
