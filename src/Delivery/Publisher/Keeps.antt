-- ===== src/Delivery/Publisher/Keeps.antt =====
-- What `publish` keeps of the transport's state, and what an emitted event says of it.
use aeronta_inventory.Base.{
  Bool, ℕ, zero, suc, ◌+◌, ◌≡◌, String, Option, none, some, List, [], ◌∷◌, ◌++◌, arith, inl, inr,
  ltb, Option-cases, Bool-cases,
}
use aeronta_inventory.Delivery.Publisher.{
  emitted, PublishResult, Answer, World, accept, verdict, code_of, pause, attempts_from, publish,
}
use aeronta_inventory.Delivery.Publisher.Reports.{Verdict-cases}

module _ {S E B W : Type 0} (send : String → B → S → Answer W × S) (tenant_id : E → String)
    (encode : E → B) (max_attempts : ℕ) (backoff : List W) (sleepable : W → Bool) where
  abbrev loop : ℕ → ℕ → Option ℕ → E → World S E W → Option PublishResult × World S E W
  loop = attempts_from send tenant_id encode max_attempts backoff sleepable

  abbrev call : E → S → Answer W × S
  call e s = send (tenant_id e) (encode e) s

  abbrev after_call : E → World S E W → World S E W
  after_call e w = record w { transport = (call e w.transport).1 }

  abbrev slept : W → E → World S E W → World S E W
  slept x e w = record w { transport = (call e w.transport).1; slept = w.slept ++ x ∷ [] }

  module _ (e : E) (P : S → Type 0) (keep : (s : S) → P s → P (call e s).1) where
    loop-keeps :
        (left attempt : ℕ) (last : Option ℕ) (w : World S E W)
        → P w.transport
        → P (loop left attempt last e w).1.transport
    unfolding attempts_from
    loop-keeps zero attempt last w h = h
    loop-keeps (suc left) attempt last w h = elim (Verdict-cases (verdict (call e w.transport).0)) [
      | inl (c, v) ↦ rw (v, attempts_from) (keep w.transport h)
      | inr (inl (c, v)) ↦ rw (v, attempts_from) (keep w.transport h)
      | inr (inr (inr v)) ↦ rw (v, attempts_from) (keep w.transport h)
      | inr (inr (inl (after, v))) ↦ elim (Bool-cases (ltb attempt max_attempts)) [
        | inl more ↦
            elim (Option-cases
              (pause send tenant_id encode max_attempts backoff sleepable after attempt)) [
                | inl no_wait ↦ rw (v, more, no_wait, attempts_from) (keep w.transport h)
                | inr (x, wait) ↦
                    rw (v, more, wait, attempts_from)
                      (loop-keeps left (attempt + 1) (code_of (call e w.transport).0) (slept x e w)
                        (keep w.transport h))
              ]
        | inr over ↦
            rw (v, over, attempts_from)
              (loop-keeps left (attempt + 1) (code_of (call e w.transport).0) (after_call e w)
                (keep w.transport h))
      ]
    ]

    -- What every call of the transport keeps, `publish` keeps.
    pub publish-keeps :
        (w : World S E W)
        → P w.transport
        → P (publish send tenant_id encode max_attempts backoff sleepable e w).1.transport
    unfolding publish
    publish-keeps w h = loop-keeps max_attempts 1 none w h

  module _ (e : E) (Q : S → Type 0)
      (accepts : (s : S) (c : ℕ) → verdict (call e s).0 ≡ accept c → Q (call e s).1) where
    abbrev IfEmitted : Option PublishResult × World S E W → Type 0
    IfEmitted x = (r : PublishResult) → x.0 ≡ some r → r.status ≡ emitted → Q x.1.transport

    loop-emitted :
        (left attempt : ℕ) (last : Option ℕ) (w : World S E W)
        → IfEmitted (loop left attempt last e w)
    unfolding attempts_from
    loop-emitted zero attempt last w = λ r is_r h. absurd (ground arith)
    loop-emitted (suc left) attempt last w = elim (Verdict-cases (verdict (call e w.transport).0)) [
      | inl (c, v) ↦ rw (v, attempts_from) (λ r is_r h. accepts w.transport c v)
      | inr (inl (c, v)) ↦ rw (v, attempts_from) (λ r is_r h. absurd (ground arith))
      | inr (inr (inr v)) ↦ rw (v, attempts_from) (λ r is_r h. absurd (cc is_r))
      | inr (inr (inl (after, v))) ↦ elim (Bool-cases (ltb attempt max_attempts)) [
        | inl more ↦
            elim (Option-cases
              (pause send tenant_id encode max_attempts backoff sleepable after attempt)) [
                | inl no_wait ↦ rw (v, more, no_wait, attempts_from) (λ r is_r h. absurd (cc is_r))
                | inr (x, wait) ↦
                    rw (v, more, wait, attempts_from)
                      (loop-emitted left (attempt + 1) (code_of (call e w.transport).0)
                        (slept x e w))
              ]
        | inr over ↦
            rw (v, over, attempts_from)
              (loop-emitted left (attempt + 1) (code_of (call e w.transport).0) (after_call e w))
      ]
    ]

    -- What holds after every accepting call holds once `publish` reports the event as emitted.
    pub publish-emitted :
        (w : World S E W) (r : PublishResult)
        → (publish send tenant_id encode max_attempts backoff sleepable e w).0 ≡ some r
        → r.status ≡ emitted
        → Q (publish send tenant_id encode max_attempts backoff sleepable e w).1.transport
    unfolding publish
    publish-emitted w = loop-emitted max_attempts 1 none w
