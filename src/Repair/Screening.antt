-- ===== src/Repair/Screening.antt =====
-- The loop over the canonical orders: no line without a reason breaks an assertion, and the
-- quantities of the two sides add up.
use mathlib.Core.Path.{subst}
use aeronta_inventory.Base.{
  ℕ, ◌≡◌, ◌≢◌, ap, ◌∙◌, Option-cases, ◌==◌, refl, ◌+◌, ◌*◌, ◌<◌, String, Bool, true, false, not,
  ◌&&◌, Option, none, some, List, [], ◌∷◌, ◌++◌, arith, All, All-append, sum_of, sum_of-append, inl,
  inr, string_eq, contains, nat_beq, if◌then◌else◌, append-nil, any, Bool-cases, nat_beq_iff,
}
use aeronta_inventory.Repair.{
  Order, Code, WorkItem, Exclusion, units, terminal_statuses, open_statuses, clean, status_of,
  reasons_of, age_reasons, time_of, present, identity, missing_identities, both, or_else,
  location_reasons, serial_reasons, day, valid_item, primary_reason, includes, first_in, priority,
  rank, missing_order_identity, missing_line_identity, missing_opened_at, future_opened_at,
  missing_location, location_mismatch, terminal_status, ineligible_status, duplicate_order_line,
  duplicate_serial, serial_quantity_mismatch, aggregate_wip_cap, unidentified_aggregate_residual,
  Screened, screen, screen_from, work_item, exclude, admit, single, exclusion,
}
use aeronta_inventory.Repair.Notices.{IsNoticed, is_own, any-reasons}
use aeronta_inventory.Repair.Lawful.{IsLine}

includes-priority : (c : Code) → includes c priority ≡ true
includes-priority missing_order_identity = refl
includes-priority missing_line_identity = refl
includes-priority missing_opened_at = refl
includes-priority future_opened_at = refl
includes-priority missing_location = refl
includes-priority location_mismatch = refl
includes-priority terminal_status = refl
includes-priority ineligible_status = refl
includes-priority duplicate_order_line = refl
includes-priority duplicate_serial = refl
includes-priority serial_quantity_mismatch = refl
includes-priority aggregate_wip_cap = refl
includes-priority unidentified_aggregate_residual = refl

includes-rank : (a b : Code) (cs : List Code) → rank a ≡ rank b → includes a cs ≡ includes b cs
includes-rank a b [] h = refl
includes-rank a b (c ∷ cs) h = rw (h, includes-rank a b cs h) refl

first_in-some :
    (c : Code) (cs reasons : List Code)
    → includes c cs ≡ true
    → includes c reasons ≡ true
    → (p : Code) × (first_in cs reasons ≡ some p)
first_in-some c [] reasons h k = absurd (ground arith)
first_in-some c (b ∷ bs) reasons h k = elim (Bool-cases (includes b reasons)) [
  | inl hit ↦ (b, rw hit refl)
  | inr miss ↦
      let (p, e) =
        first_in-some c bs reasons
          (ground (arith, includes-rank c b reasons, nat_beq_iff (rank c) (rank b))) k in
      (p, rw miss e)
]

-- One of the reasons is the primary one.
primary_reason-cons : (c : Code) (cs : List Code) → (p : Code) × (primary_reason (c ∷ cs) ≡ some p)
unfolding primary_reason
primary_reason-cons c cs =
    first_in-some c priority (c ∷ cs) (includes-priority c)
      (ground (arith, nat_beq_iff (rank c) (rank c)))

and-4 :
    {a b c d : Bool}
    → a ≡ true
    → b ≡ true
    → c ≡ false
    → d ≡ true
    → (a && (b && (not c && d))) ≡ true
and-4 h i j k = rw (h, i, j, k) refl

and-6 :
    {a b c d e f : Bool}
    → a ≡ true
    → b ≡ true
    → c ≡ true
    → d ≡ true
    → e ≡ true
    → f ≡ true
    → ((a && (b && c)) && (d && (e && f))) ≡ true
and-6 g h i j k l = rw (g, h, i, j, k, l) refl

and-2 : {a b : Bool} → a ≡ true → b ≡ true → (a && b) ≡ true
and-2 h i = rw (h, i) refl

only-else : (b : Bool) (c : Code) → (if b then [] else c ∷ []) ≡ [] → b ≡ true
only-else true c h = refl
only-else false c h = absurd (ground arith)

neither-else :
    (a b : Bool) (c d : Code)
    → (if a then c ∷ [] else if b then [] else d ∷ []) ≡ []
    → (a ≡ false) × (b ≡ true)
neither-else true b c d h = absurd (ground arith)
neither-else false true c d h = (refl, refl)
neither-else false false c d h = absurd (ground arith)

-- No open status is empty.
present-open : (s : String) → contains s open_statuses ≡ true → present s ≡ true
present-open s h = elim (Bool-cases (s == "")) [
  | inl empty ↦
      absurd (absurd_open (subst (λ t. contains t open_statuses ≡ true) (same_text empty) h))
  | inr full ↦ rw full refl
]
  where
    same_text : (s == "") ≡ true → s ≡ ""
    same_text e = (string_eq.same_iff s "").0 e

    absurd_open : contains "" open_statuses ≡ true → ⊥
    absurd_open e = ground (arith, e)

abbrev pub item_units : Order × WorkItem × ℕ → ℕ
item_units (o, item, age) = item.quantity

module _ (location_code : String) (as_of : ℕ) where
  -- What holds of a work item that awaits the cap.
  pub record IsOpenWork (item : WorkItem) : Type 0 where
    pub valid : valid_item item ≡ true
    pub here : item.location_code ≡ location_code
    pub in_time : item.opened_at < as_of * day + day

  abbrev pub Admitted : Order × WorkItem × ℕ → Type 0
  Admitted (o, item, age) = IsOpenWork item

module _ (strip lower upper : String → String) (parse : Option String → Option (Option ℕ))
    (orders : List Order) (location_code : String) (as_of : ℕ) where
  age-clear :
      (t : Option ℕ)
      → age_reasons strip lower upper parse orders location_code as_of t ≡ []
      → (u : ℕ) × ((t ≡ some u) × (u < as_of * day + day))
  age-clear none h = absurd (ground arith)
  age-clear (some u) h = (u, (refl, ground arith))

  location-clear :
      (l : Option String)
      → location_reasons strip lower upper parse orders location_code as_of l ≡ []
      → l ≡ some location_code
  location-clear none h = absurd (ground arith)
  location-clear (some l) h = ground (arith, string_eq.same_iff l location_code)

  abbrev reasons : Order → List Code
  reasons o = reasons_of strip lower upper parse orders location_code as_of o

  serial-clear :
      (s : Option String) (n : ℕ)
      → serial_reasons strip lower upper parse orders location_code as_of s n ≡ []
      → single s n ≡ true
  serial-clear none n h = refl
  serial-clear (some s) n h = only-else (nat_beq n 1) serial_quantity_mismatch (append-nil _ _ h).1

  clean-present :
      (v : Option String) (a : String)
      → lower "" ≡ ""
      → clean strip lower upper parse v ≡ some a
      → present a ≡ true
  unfolding clean
  clean-present v a e h =
      let n = strip (or_else "" v) in
      elim (Bool-cases (contains (lower n) missing_identities)) [
        | inl missing ↦ absurd (ground (arith, missing, h))
        | inr known ↦ elim (Bool-cases (a == "")) [
          | inr full ↦ rw full refl
          | inl empty ↦
              let same : n ≡ a = ground (arith, known, h) in
              let blank : lower n ≡ "" = ap lower (same ∙ (string_eq.same_iff a "").0 empty) ∙ e in
              absurd
                (ground (arith, subst (λ t. contains t missing_identities ≡ false) blank known))
        ]
      ]

  both-present :
      (x y : Option String) (k : String × String)
      → both x y ≡ some k
      → (x ≡ some k.0) × (y ≡ some k.1)
  both-present none y k h = absurd (ground (arith, h))
  both-present (some a) none k h = absurd (ground (arith, h))
  both-present (some a) (some b) k h =
      let e : (a, b) ≡ k = ground (arith, h) in
      (ap (λ (j : String × String). some j.0) e, ap (λ (j : String × String). some j.1) e)

  identity-present :
      (o : Order) (k : String × String)
      → lower "" ≡ ""
      → identity strip lower upper parse o ≡ some k
      → (present k.0 ≡ true) × (present k.1 ≡ true)
  unfolding identity
  identity-present o k e h =
      let (x, y) = both-present _ _ k h in
      (clean-present o.order_id k.0 e x, clean-present o.order_line_id k.1 e y)

  -- What holds of a line without a reason.
  record IsClear (o : Order) : Type 0 where
    opened : ℕ
    opened_eq : time_of (parse o.opened_at) ≡ some opened
    in_time : opened < as_of * day + day
    here : clean strip lower upper parse o.location ≡ some location_code
    not_terminal : contains (status_of strip lower upper parse o.status) terminal_statuses ≡ false
    is_open : contains (status_of strip lower upper parse o.status) open_statuses ≡ true
    serial : single (clean strip lower upper parse o.serial_number) (units o) ≡ true

  reasons-IsClear : (o : Order) → reasons o ≡ [] → IsClear o
  unfolding reasons_of
  reasons-IsClear o h =
      let (age, h₁) = append-nil _ _ h in
      let (loc, h₂) = append-nil _ _ h₁ in
      let (stat, h₃) = append-nil _ _ h₂ in
      let (line, ser) = append-nil _ _ h₃ in
      let (u, (e, lt)) = age-clear (time_of (parse o.opened_at)) age in
      let (n, y) = neither-else _ _ terminal_status ineligible_status stat in
      record {
        opened = u;
        opened_eq = e;
        in_time = lt;
        here = location-clear (clean strip lower upper parse o.location) loc;
        not_terminal = n;
        is_open = y;
        serial = serial-clear (clean strip lower upper parse o.serial_number) (units o) ser;
      }

  -- The quantities in the middle of the loop, after an unidentified quantity of `missing`.
  pub record IsScreened (missing : ℕ) (s : Screened) : Type 0 where
    pub balance : s.identified ≡ s.preexcluded + sum_of item_units s.valid
    pub excluded : sum_of Exclusion.quantity s.exclusions ≡ missing + s.preexcluded
    pub admitted : All (Admitted location_code as_of) s.valid
    pub noticed : IsNoticed s.exclusions s.observed

  module _ (tenant_id part_number : String) (missing : ℕ) (lower_empty : lower "" ≡ "")
      (some_tenant : present (strip tenant_id) ≡ true)
      (some_part : present (strip part_number) ≡ true)
      (some_place : present location_code ≡ true) where
    abbrev screened : Order → List Code → Screened → Option Screened
    screened o rs s =
        screen strip lower upper parse tenant_id part_number location_code as_of o rs s

    exclude-IsScreened :
        (o : Order) (rs : List Code) (p : Code) (s : Screened)
        → any is_own (s.observed ++ rs) ≡ true
        → IsScreened missing s
        → (s' : Screened) × ((exclude strip lower upper parse tenant_id part_number location_code
                as_of o rs
                (some p)
                s
              ≡ some s')
            × IsScreened missing s')
    unfolding exclude exclusion
    exclude-IsScreened o rs p s n i = (
      _,
      (
        refl,
        record {
          balance = omega (arith, i.balance);
          excluded = omega (
            arith,
            i.excluded,
            sum_of-append Exclusion.quantity s.exclusions
                (exclusion strip lower upper parse o (units o) p ∷ []),
          );
          admitted = i.admitted;
          noticed = inr (n);
        },
      ),
    )

    admit-IsScreened :
        (o : Order) (s : Screened)
        → IsLine strip lower upper parse o
        → IsClear o
        → IsScreened missing s
        → (s' : Screened) × ((screened o [] s ≡ some s') × IsScreened missing s')
    unfolding screen admit work_item valid_item
    admit-IsScreened o s l c i =
        let known = identity-present o l.key lower_empty l.identified in
        rw (l.identified, c.opened_eq, c.here)
          (
            _,
            (
              refl,
              record {
                balance = omega (arith, i.balance, sum_of-append item_units s.valid _);
                excluded = i.excluded;
                admitted = All-append (Admitted location_code as_of) s.valid _ i.admitted (
                  record {
                    valid =
                        and-2 (and-4 (ground (arith, l.positive)) c.serial c.not_terminal c.is_open)
                          (and-6 some_tenant known.0 known.1 some_part some_place
                            (present-open (status_of strip lower upper parse o.status) c.is_open));
                    here = refl;
                    in_time = c.in_time;
                  },
                  tt,
                );
                noticed = i.noticed;
              },
            ),
          )

    screen-IsScreened :
        (o : Order) (rs : List Code) (s : Screened)
        → reasons o ≡ rs
        → IsLine strip lower upper parse o
        → IsScreened missing s
        → (s' : Screened) × ((screened o rs s ≡ some s') × IsScreened missing s')
    unfolding screen
    screen-IsScreened o [] s e l i = admit-IsScreened o s l (reasons-IsClear o e) i
    screen-IsScreened o (r ∷ rs) s e l i =
        let (p, q) = primary_reason-cons r rs in
        rw q (
          exclude-IsScreened o (r ∷ rs) p s
            (any-reasons strip lower upper parse orders location_code as_of s.observed o r rs e) i)

    abbrev screened_from : List Order → Screened → Option Screened
    screened_from os s =
        screen_from strip lower upper parse tenant_id part_number location_code as_of orders os s

    screened_from-cons :
        (o : Order) (os : List Order) (s s' : Screened)
        → parse o.opened_at ≢ none
        → screened o (reasons o) s ≡ some s'
        → screened_from (o ∷ os) s ≡ screened_from os s'
    unfolding screen_from
    screened_from-cons o os s s' r e = elim (Option-cases (parse o.opened_at)) [
      | inl raised ↦ absurd (r raised)
      | inr (t, was_read) ↦ ground (arith, e, was_read)
    ]

    -- The loop raises nothing and keeps the balance.
    pub screen_from-IsScreened :
        (os : List Order) (s : Screened)
        → All (IsLine strip lower upper parse) os
        → IsScreened missing s
        → (s' : Screened) × ((screened_from os s ≡ some s') × IsScreened missing s')
    unfolding screen_from
    screen_from-IsScreened [] s l i = (s, (refl, i))
    screen_from-IsScreened (o ∷ os) s (l, ls) i =
        let (s', (e, i')) = screen-IsScreened o (reasons o) s refl l i in
        let (s'', (f, i'')) = screen_from-IsScreened os s' ls i' in
        (s'', (rw (screened_from-cons o os s s' l.readable e) f, i''))
