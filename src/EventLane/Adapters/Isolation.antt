-- ===== src/EventLane/Adapters/Isolation.antt =====
-- What the store returns is of the tenant that asks, and of the key that it asks for.
use mathlib.Core.Path.{subst}
use aeronta_inventory.Base.{
  ◌≡◌, refl, String, Bool, true, ◌&&◌, Option, none, some, List, [], ◌∷◌, all, arith, inl, inr,
  Bool-cases, string_eq, ◌==◌,
}
use aeronta_inventory.Base.Dict.{lookup}
use aeronta_inventory.EventLane.Bundles.{FeatureBundle, if_present, valid_bundle}
use aeronta_inventory.EventLane.Adapters.{Bundles, then_get, checked_bundle, find_pn, find_location}

pub some_injective : {A : Type 0} (x y : A) → some x ≡ some y → x ≡ y
some_injective x y h = ground (arith, h)

pub then_get-some :
    {A B : Type 0} (x : Option A) (f : A → Option B) (y : B)
    → then_get x f ≡ some y
    → (a : A) × ((x ≡ some a) × (f a ≡ some y))
then_get-some none f y h = absurd (ground (arith, h))
then_get-some (some a) f y h = (a, (refl, h))

pub if_present-some :
    {A : Type 0} (p : A → Bool) (x : Option A) (a : A)
    → if_present p x ≡ true
    → x ≡ some a
    → p a ≡ true
if_present-some p none a h e = absurd (ground (arith, e))
if_present-some p (some b) a h e = subst (λ c. p c ≡ true) (some_injective b a e) h

pub lookup-all :
    {V : Type 0} (p : String × V → Bool) (k : String) (v : V) (d : List (String × V))
    → all p d ≡ true
    → lookup k d ≡ some v
    → p (k, v) ≡ true
unfolding lookup
lookup-all p k v [] h e = absurd (ground (arith, e))
lookup-all p k v ((j, w) ∷ d) h e = elim (Bool-cases (j == k)) [
  | inl same ↦
      subst (λ i. p (i, v) ≡ true) ((string_eq.same_iff j k).0 same)
        (subst (λ u. p (j, u) ≡ true) (some_injective w v (ground (arith, same, e)))
          (ground (arith, h)))
  | inr other ↦ lookup-all p k v d (ground (arith, h)) (ground (arith, other, e))
]

-- The text tests as equations.
pub texts_same : (a b : String) → (a == b) ≡ true → a ≡ b
texts_same a b h = (string_eq.same_iff a b).0 h

module _ {P : Type 0} where
  -- A bundle that passed the checks.
  pub record IsChecked (tenant pn location : String) (b : FeatureBundle P) : Type 0 where
    pub valid : valid_bundle b ≡ true
    pub tenant_eq : b.tenant_id ≡ tenant
    pub pn_eq : b.pn ≡ pn
    pub location_eq : b.location ≡ location

  module _ (revalidate : FeatureBundle P → Option (FeatureBundle P)) where
    pub checked_bundle-IsChecked :
        (tenant pn location : String) (b b' : FeatureBundle P)
        → checked_bundle revalidate tenant pn location b ≡ some b'
        → IsChecked tenant pn location b'
    unfolding checked_bundle
    checked_bundle-IsChecked tenant pn location b b' h =
        let (c, (_, e)) = then_get-some (revalidate b) _ b' h in
        elim (Bool-cases (valid_bundle c)) [
          | inr bad ↦ absurd (ground (arith, bad, e))
          | inl good ↦
              elim (Bool-cases (c.tenant_id == tenant && (c.pn == pn && c.location == location))) [
                | inr other ↦ absurd (ground (arith, good, other, e))
                | inl own ↦
                    subst (IsChecked tenant pn location)
                      (some_injective c b' (ground (arith, good, own, e)))
                      (record {
                        valid = good;
                        tenant_eq = texts_same c.tenant_id tenant (ground (arith, own));
                        pn_eq = texts_same c.pn pn (ground (arith, own));
                        location_eq = texts_same c.location location (ground (arith, own));
                      })
              ]
        ]

    pub find_pn-IsChecked :
        (tenant pn : String) (bundles : Bundles P) (b : FeatureBundle P)
        → find_pn revalidate tenant pn bundles ≡ some b
        → (location : String) × IsChecked tenant pn location b
    unfolding find_pn
    find_pn-IsChecked tenant pn [] b h = absurd (ground (arith, h))
    find_pn-IsChecked tenant pn (((bpn, location), c) ∷ rest) b h = elim (Bool-cases (bpn == pn)) [
      | inl same ↦ (
        location,
        subst (λ p. IsChecked tenant p location b) (texts_same bpn pn same)
            (checked_bundle-IsChecked tenant bpn location c b (ground (arith, same, h))),
      )
      | inr other ↦ find_pn-IsChecked tenant pn rest b (ground (arith, other, h))
    ]

    pub find_location-IsChecked :
        (tenant location : String) (bundles : Bundles P) (b : FeatureBundle P)
        → find_location revalidate tenant location bundles ≡ some b
        → (pn : String) × IsChecked tenant pn location b
    unfolding find_location
    find_location-IsChecked tenant location [] b h = absurd (ground (arith, h))
    find_location-IsChecked tenant location (((pn, bloc), c) ∷ rest) b h =
        elim (Bool-cases (bloc == location)) [
          | inl same ↦ (
            pn,
            subst (λ l. IsChecked tenant pn l b) (texts_same bloc location same)
                (checked_bundle-IsChecked tenant pn bloc c b (ground (arith, same, h))),
          )
          | inr other ↦ find_location-IsChecked tenant location rest b (ground (arith, other, h))
        ]
