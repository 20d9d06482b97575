-- ===== src/Delivery/Publisher/Reports.antt =====
-- What a report of `publish` says: how the attempts, the waits and the dead-letter queue relate.
use mathlib.Core.Path.{subst}
use aeronta_inventory.Base.{
  sym, ap, lt→ltb, All, ◌≢◌, Bool, ℕ, zero, suc, ◌+◌, ◌-◌, ◌≤◌, ◌<◌, ◌≡◌, refl, ◌⊎◌, ◌∙◌, String,
  true, false, Option, none, some, List, [], ◌∷◌, ◌++◌, arith, inl, inr, ltb, min, length,
  length-append, contains, nat_eq,
}
use aeronta_inventory.Delivery.Publisher.{
  PublishStatus, emitted, rejected, dead_lettered, PublishResult, TransportResponse, terminal,
  exhausted, World, terminal_codes, success_codes, get_elem?, result_of, code_of, Verdict, accept,
  refuse, retry, leave, Answer, answered, transport_error, raised, verdict, backoff_for, wait_for,
  pause, attempts_from, publish, sleep, sent,
}

get_elem?-All :
    {A : Type 0} (P : A → Type 0) (xs : List A) (i : ℕ)
    → i < length xs
    → All P xs
    → (x : A) × (get_elem? xs i ≡ some x) × P x
get_elem?-All P [] i h ps = elim h [ ]
get_elem?-All P (x ∷ xs) zero h (p, ps) = (x, refl, p)
get_elem?-All P (x ∷ xs) (suc i) h (p, ps) = get_elem?-All P xs i (omega arith) ps

verdict-accept :
    {W : Type 0} (a : Answer W) (c : ℕ) → verdict a ≡ accept c → contains c success_codes ≡ true
unfolding verdict
verdict-accept transport_error c h = cc
verdict-accept raised c h = cc
verdict-accept (answered r) c h = ground arith

verdict-refuse :
    {W : Type 0} (a : Answer W) (c : ℕ) → verdict a ≡ refuse c → contains c terminal_codes ≡ true
unfolding verdict
verdict-refuse transport_error c h = cc
verdict-refuse raised c h = cc
verdict-refuse (answered r) c h = ground arith

verdict-leave : {W : Type 0} (a : Answer W) → verdict a ≡ leave → a ≡ raised
unfolding verdict
verdict-leave transport_error h = cc
verdict-leave raised h = refl
verdict-leave (answered r) h = ground (arith, h)

-- A wait that the loop takes from an answer.
verdict-retry :
    {W : Type 0} (a : Answer W) (x : W)
    → verdict a ≡ retry (some x)
    → (r : TransportResponse W) × (a ≡ answered r)
      × (r.status_code ≡ 429)
      × (r.retry_after_s ≡ some x)
unfolding verdict
verdict-retry transport_error x h = absurd (ground (arith, h))
verdict-retry raised x h = absurd (ground (arith, h))
verdict-retry (answered r) x h = (r, refl, ground (arith, h), ground (arith, h))

pub Verdict-cases :
    {W : Type 0} (v : Verdict W)
    → ((c : ℕ) × (v ≡ accept c))
      ⊎ ((c : ℕ) × (v ≡ refuse c))
      ⊎ ((x : Option W) × (v ≡ retry x))
      ⊎ (v ≡ leave)
Verdict-cases (accept c) = inl (c, refl)
Verdict-cases (refuse c) = inr (inl (c, refl))
Verdict-cases (retry x) = inr (inr (inl (x, refl)))
Verdict-cases leave = inr (inr (inr refl))

module _ {S E B W : Type 0} (send : String → B → S → Answer W × S) (tenant_id : E → String)
    (encode : E → B) (max_attempts : ℕ) (backoff : List W) (sleepable : W → Bool) where
  -- How a report of each status leaves the dead-letter queue, and which status code it carries.
  abbrev pub Ends : PublishStatus → E → World S E W → PublishResult → World S E W → Type 0
  Ends emitted e w r w' =
      (w'.dlq ≡ w.dlq)
      × (r.dead_lettered ≡ false)
      × ((c : ℕ) × (r.last_status_code ≡ some c) × (contains c success_codes ≡ true))
  Ends rejected e w r w' =
      (r.dead_lettered ≡ true)
      × ((c : ℕ) × (r.last_status_code ≡ some c)
          × (contains c terminal_codes ≡ true)
          × (w'.dlq ≡ w.dlq ++ (e, terminal c) ∷ []))
  Ends dead_lettered e w r w' =
      (r.dead_lettered ≡ true)
      × (r.attempts ≡ max_attempts)
      × (w'.dlq ≡ w.dlq ++ (e, exhausted max_attempts) ∷ [])

  pub record IsReport (attempt : ℕ) (e : E) (w : World S E W) (r : PublishResult) (w' : World S E W)
      : Type 0 where
    pub ends : Ends r.status e w r w'
    pub bounded : r.attempts ≤ max_attempts
    pub waits : length w'.slept + attempt ≡ length w.slept + r.attempts

  backoff-some :
      (attempt : ℕ)
      → 0 < length backoff
      → All (λ x. sleepable x ≡ true) backoff
      → (x : W) × (backoff_for send tenant_id encode max_attempts backoff sleepable attempt
          ≡ some x)
        × (sleepable x ≡ true)
  unfolding backoff_for
  backoff-some attempt h ok =
      get_elem?-All (λ x. sleepable x ≡ true) backoff (min (attempt - 1) (length backoff - 1))
        (omega arith) ok

  abbrev Pauses : Option W → ℕ → Type 0
  Pauses after attempt =
      (x : W) × (pause send tenant_id encode max_attempts backoff sleepable after attempt ≡ some x)

  pause-some :
      (after : Option W) (attempt : ℕ) (x : W)
      → wait_for send tenant_id encode max_attempts backoff sleepable after attempt ≡ some x
      → sleepable x ≡ true
      → Pauses after attempt
  unfolding pause
  pause-some after attempt x waits ok = (x, ground (arith, waits, ok))

  wait-some :
      (after : Option W) (attempt : ℕ)
      → 0 < length backoff
      → All (λ x. sleepable x ≡ true) backoff
      → ((x : W) → after ≡ some x → sleepable x ≡ true)
      → Pauses after attempt
  unfolding wait_for
  wait-some none attempt h ok named =
      let (x, waits, fits) = backoff-some attempt h ok in pause-some none attempt x waits fits
  wait-some (some x) attempt h ok named = pause-some (some x) attempt x refl (named x refl)

  abbrev loop : ℕ → ℕ → Option ℕ → E → World S E W → Option PublishResult × World S E W
  loop = attempts_from send tenant_id encode max_attempts backoff sleepable

  -- The loop returned, with a report that counts from `attempt`.
  abbrev Reported : ℕ → E → World S E W → Option PublishResult × World S E W → Type 0
  Reported attempt e w x = (r : PublishResult) × (x.0 ≡ some r) × IsReport attempt e w r x.1

  abbrev answer : E → World S E W → Answer W
  answer e w = (send (tenant_id e) (encode e) w.transport).0

  abbrev after_send : E → World S E W → World S E W
  after_send e w =
      sent send tenant_id encode max_attempts backoff sleepable
        (send (tenant_id e) (encode e) w.transport).1 w

  Ends-dlq :
      (status : PublishStatus) (e : E) (w w₁ : World S E W) (r : PublishResult) (w' : World S E W)
      → w₁.dlq ≡ w.dlq
      → Ends status e w₁ r w'
      → Ends status e w r w'
  Ends-dlq emitted e w w₁ r w' same (kept, dead, code) = (kept ∙ same, dead, code)
  Ends-dlq rejected e w w₁ r w' same (dead, (c, last, refused, buried)) =
      (dead, (c, last, refused, buried ∙ ap (λ q. q ++ (e, terminal c) ∷ []) same))
  Ends-dlq dead_lettered e w w₁ r w' same (dead, all, buried) =
      (dead, all, buried ∙ ap (λ q. q ++ (e, exhausted max_attempts) ∷ []) same)

  -- After a wait, the report of the later rounds counts from one attempt earlier.
  Reported-wait :
      (attempt : ℕ) (e : E) (w w₁ : World S E W) (x : Option PublishResult × World S E W)
      → w₁.dlq ≡ w.dlq
      → length w₁.slept ≡ length w.slept + 1
      → Reported (attempt + 1) e w₁ x
      → Reported attempt e w x
  Reported-wait attempt e w w₁ x same longer (r, returned, report) = (
    r,
    returned,
    record {
      ends = Ends-dlq r.status e w w₁ r x.1 same report.ends;
      bounded = report.bounded;
      waits = omega (arith, report.waits, longer);
    },
  )

  slept : W → E → World S E W → World S E W
  slept x e w = sleep send tenant_id encode max_attempts backoff sleepable x (after_send e w)

  loop-retry :
      (left attempt : ℕ) (last : Option ℕ) (e : E) (w : World S E W) (after : Option W) (x : W)
      → verdict (answer e w) ≡ retry after
      → ltb attempt max_attempts ≡ true
      → pause send tenant_id encode max_attempts backoff sleepable after attempt ≡ some x
      → loop (suc left) attempt last e w
        ≡ loop left (attempt + 1) (code_of (answer e w)) e (slept x e w)
  unfolding attempts_from slept
  loop-retry left attempt last e w after x v more waits = rw (v, more, waits, attempts_from) refl

  loop-accept :
      (left attempt : ℕ) (last : Option ℕ) (e : E) (w : World S E W) (c : ℕ)
      → attempt ≤ max_attempts
      → verdict (answer e w) ≡ accept c
      → Reported attempt e w (loop (suc left) attempt last e w)
  unfolding attempts_from
  loop-accept left attempt last e w c k v =
      rw (v, attempts_from)
        (
          result_of emitted attempt (some c) false,
          refl,
          record {
            ends = (refl, refl, (c, refl, verdict-accept (answer e w) c v));
            bounded = k;
            waits = refl;
          },
        )

  loop-refuse :
      (left attempt : ℕ) (last : Option ℕ) (e : E) (w : World S E W) (c : ℕ)
      → attempt ≤ max_attempts
      → verdict (answer e w) ≡ refuse c
      → Reported attempt e w (loop (suc left) attempt last e w)
  unfolding attempts_from
  loop-refuse left attempt last e w c k v =
      rw (v, attempts_from)
        (
          result_of rejected attempt (some c) true,
          refl,
          record {
            ends = (refl, (c, refl, verdict-refuse (answer e w) c v, refl));
            bounded = k;
            waits = refl;
          },
        )

  -- The last round, when it is to be tried again.
  loop-over :
      (attempt : ℕ) (last : Option ℕ) (e : E) (w : World S E W) (after : Option W)
      → attempt ≡ max_attempts
      → verdict (answer e w) ≡ retry after
      → Reported attempt e w (loop 1 attempt last e w)
  unfolding attempts_from
  loop-over attempt last e w after k v =
      let over : ltb attempt max_attempts ≡ false = ground arith in
      rw (v, over, attempts_from)
        (
          result_of dead_lettered max_attempts (code_of (answer e w)) true,
          refl,
          record { ends = (refl, refl, refl); bounded = omega arith; waits = omega arith },
        )

  -- Only a `TransportError` is raised by a call for the event, and only waits that `sleep` takes are
  -- asked for.
  module _ (e : E) (some_wait : 0 < length backoff) (backs : All (λ x. sleepable x ≡ true) backoff)
      (calm : (s : S) → (send (tenant_id e) (encode e) s).0 ≢ raised)
      (polite : (s : S) (r : TransportResponse W) (x : W)
        → (send (tenant_id e) (encode e) s).0 ≡ answered r
        → r.status_code ≡ 429
        → r.retry_after_s ≡ some x
        → sleepable x ≡ true) where
    asked :
        (w : World S E W) (after : Option W)
        → verdict (answer e w) ≡ retry after
        → (x : W) → after ≡ some x
        → sleepable x ≡ true
    asked w after v x is_x =
        let (r, is_r, busy, named) = verdict-retry (answer e w) x (v ∙ ap retry is_x) in
        polite w.transport r x is_r busy named

    loop-Reported :
        (left attempt : ℕ) (last : Option ℕ) (w : World S E W)
        → 0 < left
        → left + attempt ≡ max_attempts + 1
        → Reported attempt e w (loop left attempt last e w)
    unfolding slept
    loop-Reported zero attempt last w h k = elim h [ ]
    loop-Reported (suc zero) attempt last w h k = elim (Verdict-cases (verdict (answer e w))) [
      | inl (c, v) ↦ loop-accept 0 attempt last e w c (omega arith) v
      | inr (inl (c, v)) ↦ loop-refuse 0 attempt last e w c (omega arith) v
      | inr (inr (inl (after, v))) ↦ loop-over attempt last e w after (omega arith) v
      | inr (inr (inr v)) ↦ absurd (calm w.transport (verdict-leave (answer e w) v))
    ]
    loop-Reported (suc (suc left)) attempt last w h k =
        elim (Verdict-cases (verdict (answer e w))) [
          | inl (c, v) ↦ loop-accept (suc left) attempt last e w c (omega arith) v
          | inr (inl (c, v)) ↦ loop-refuse (suc left) attempt last e w c (omega arith) v
          | inr (inr (inl (after, v))) ↦
              let (x, waits) = wait-some after attempt some_wait backs (asked w after v) in
              subst (Reported attempt e w)
                (sym (
                  loop-retry (suc left) attempt last e w after x v
                    (lt→ltb attempt max_attempts (omega arith)) waits))
                (Reported-wait attempt e w (slept x e w)
                  (loop (suc left) (attempt + 1) (code_of (answer e w)) e (slept x e w)) refl
                  (length-append w.slept (x ∷ []))
                  (loop-Reported (suc left) (attempt + 1) (code_of (answer e w)) (slept x e w)
                    (omega arith) (omega arith)))
          | inr (inr (inr v)) ↦ absurd (calm w.transport (verdict-leave (answer e w) v))
        ]

    -- With at least one attempt, some waits to choose from that `sleep` takes, and a transport whose
    -- calls for the event raise nothing but a `TransportError` and whose answers of status 429 name
    -- only waits that `sleep` takes, `publish` returns, whatever else the transport does. An event is
    -- reported as emitted with a success code and then leaves the dead-letter queue alone; otherwise
    -- it is added there once, with the terminal code or after all the attempts. There are at most
    -- `max_attempts` attempts, and one wait between two of them.
    pub publish-IsReport :
        (w : World S E W)
        → 0 < max_attempts
        → (r : PublishResult) × ((publish send tenant_id encode max_attempts backoff sleepable e
              w).0
            ≡ some r)
          × IsReport 1 e w r (publish send tenant_id encode max_attempts backoff sleepable e w).1
    unfolding publish
    publish-IsReport w some_attempt = loop-Reported max_attempts 1 none w some_attempt refl
