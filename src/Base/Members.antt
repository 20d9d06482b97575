-- ===== src/Base/Members.antt =====
-- The elements of a list, and loops over them.
use Prim.Native.Nat.{◌+◌, ◌≤◌, ◌<◌}
use mathlib.Core.Path.{◌≡◌, refl, sym, subst, ap, ◌∙◌}
use mathlib.Core.Logic.{◌⊎◌, inl, inr, ◌≢◌}
use mathlib.Core.Bool.{Bool, true, false, not}
use mathlib.Core.List.{List, [], ◌∷◌, map}
use native.Mathlib.Omega.{arith}
use aeronta_inventory.Base.Tests.{Bool-cases, if_elim, if◌then◌else◌}
use aeronta_inventory.Base.Lists.{All, all, any, filter, length, count}
use aeronta_inventory.Base.Shuffle.{Shuffle, In, Apart}

module _ {A : Type 0} where
  pub All-In : (P : A → Type 0) (x : A) (xs : List A) → All P xs → In x xs → P x
  All-In P x [] h m = absurd m
  All-In P x (y ∷ ys) (p, h) (inl e) = subst P (sym e) p
  All-In P x (y ∷ ys) (p, h) (inr m) = All-In P x ys h m

  pub All-of-In : (P : A → Type 0) (xs : List A) → ((x : A) → In x xs → P x) → All P xs
  All-of-In P [] h = tt
  All-of-In P (x ∷ xs) h = (h x (inl refl), All-of-In P xs (λ y m. h y (inr m)))

  pub any-In : (p : A → Bool) (xs : List A) → any p xs ≡ true → (x : A) × (In x xs × (p x ≡ true))
  any-In p [] h = absurd (ground arith)
  any-In p (x ∷ xs) h = elim (Bool-cases (p x)) [
    | inl hit ↦ (x, (inl refl, hit))
    | inr miss ↦ let (y, (m, e)) = any-In p xs (ground (arith, miss, h)) in (y, (inr m, e))
  ]

  pub any-of-In : (p : A → Bool) (x : A) (xs : List A) → In x xs → p x ≡ true → any p xs ≡ true
  any-of-In p x [] m e = absurd m
  any-of-In p x (y ∷ ys) (inl same) e = rw (← same, e) refl
  any-of-In p x (y ∷ ys) (inr m) e = ground (arith, any-of-In p x ys m e)

  pub In-filter : (p : A → Bool) (x : A) (xs : List A) → In x xs → p x ≡ true → In x (filter p xs)
  In-filter p x [] m e = m
  In-filter p x (y ∷ ys) (inl same) e =
      if_elim (In x) (p y) (y ∷ filter p ys) (filter p ys) (λ _. inl same)
        (λ miss. absurd (ground (arith, miss, e, subst (λ z. p z ≡ true) same e)))
  In-filter p x (y ∷ ys) (inr m) e =
      if_elim (In x) (p y) (y ∷ filter p ys) (filter p ys) (λ _. inr (In-filter p x ys m e))
        (λ _. In-filter p x ys m e)

  In-if :
      (b : Bool) (x y : A) (l : List A)
      → In x (if b then y ∷ l else l)
      → ((x ≡ y) × (b ≡ true)) ⊎ In x l
  In-if true x y l (inl e) = inl (e, refl)
  In-if true x y l (inr m) = inr m
  In-if false x y l m = inr m

  pub In-of-filter :
      (p : A → Bool) (x : A) (xs : List A) → In x (filter p xs) → In x xs × (p x ≡ true)
  In-of-filter p x [] m = absurd m
  In-of-filter p x (y ∷ ys) m = elim (In-if (p y) x y (filter p ys) m) [
    | inl (same, e) ↦ (inl same, subst (λ z. p z ≡ true) (sym same) e)
    | inr n ↦ let (k, f) = In-of-filter p x ys n in (inr k, f)
  ]

  pub In-Shuffle : (x : A) {xs ys : List A} → Shuffle xs ys → In x xs → In x ys
  In-Shuffle x Shuffle.nil m = m
  In-Shuffle x (Shuffle.cons y s) (inl e) = inl e
  In-Shuffle x (Shuffle.cons y s) (inr m) = inr (In-Shuffle x s m)
  In-Shuffle x (Shuffle.swap y z l) (inl e) = inr (inl e)
  In-Shuffle x (Shuffle.swap y z l) (inr (inl e)) = inl e
  In-Shuffle x (Shuffle.swap y z l) (inr (inr m)) = inr (inr m)
  In-Shuffle x (Shuffle.trans s t) m = In-Shuffle x t (In-Shuffle x s m)

  pub length-Shuffle : {xs ys : List A} → Shuffle xs ys → length xs ≡ length ys
  length-Shuffle Shuffle.nil = refl
  length-Shuffle (Shuffle.cons y s) = omega (arith, length-Shuffle s)
  length-Shuffle (Shuffle.swap y z l) = refl
  length-Shuffle (Shuffle.trans s t) = omega (arith, length-Shuffle s, length-Shuffle t)

  -- Elements of a list with distinct keys that share a key are the same.
  pub Apart-unique :
      {B : Type 0} (f : A → B) (x y : A) (xs : List A)
      → Apart (λ a b. f a ≢ f b) xs
      → In x xs
      → In y xs
      → f x ≡ f y
      → x ≡ y
  Apart-unique f x y [] h m n e = absurd m
  Apart-unique f x y (z ∷ zs) (p, h) (inl a) (inl b) e = a ∙ sym b
  Apart-unique f x y (z ∷ zs) (p, h) (inl a) (inr n) e =
      absurd (All-In (λ w. f z ≢ f w) y zs p n (sym (ap f a) ∙ e))
  Apart-unique f x y (z ∷ zs) (p, h) (inr m) (inl b) e =
      absurd (All-In (λ w. f z ≢ f w) x zs p m (sym (ap f b) ∙ sym e))
  Apart-unique f x y (z ∷ zs) (p, h) (inr m) (inr n) e = Apart-unique f x y zs h m n e

  count_mono :
      (p q : A → Bool) (xs : List A) → ((x : A) → p x ≡ true → q x ≡ true) → count p xs ≤ count q xs
  count_mono p q [] h = omega arith
  count_mono p q (x ∷ xs) h = ground (arith, h x, count_mono p q xs h)

  -- A test that passes less, and fails at an element that the other passes.
  pub count-lt :
      (p q : A → Bool) (x : A) (xs : List A)
      → ((y : A) → p y ≡ true → q y ≡ true)
      → In x xs
      → p x ≡ false
      → q x ≡ true
      → count p xs < count q xs
  count-lt p q x [] h m e f = absurd m
  count-lt p q x (y ∷ ys) h (inl same) e f =
      ground (
        arith,
        subst (λ z. p z ≡ false) same e,
        subst (λ z. q z ≡ true) same f,
        count_mono p q ys h,
      )
  count-lt p q x (y ∷ ys) h (inr m) e f = ground (arith, h y, count-lt p q x ys h m e f)

  -- What two complementary tests pass.
  pub length-filter-not :
      (p : A → Bool) (xs : List A)
      → length (filter p xs) + length (filter (λ x. not (p x)) xs) ≡ length xs
  length-filter-not p [] = refl
  length-filter-not p (x ∷ xs) = ground (arith, length-filter-not p xs)

  -- A test that implies the filter's counts the same.
  pub count-filter :
      (p q : A → Bool) (xs : List A)
      → ((x : A) → p x ≡ true → q x ≡ true)
      → count p (filter q xs) ≡ count p xs
  count-filter p q [] h = refl
  count-filter p q (x ∷ xs) h = ground (arith, h x, count-filter p q xs h)

  pub count-Shuffle : (p : A → Bool) {xs ys : List A} → Shuffle xs ys → count p xs ≡ count p ys
  count-Shuffle p Shuffle.nil = refl
  count-Shuffle p (Shuffle.cons y s) = omega (arith, count-Shuffle p s)
  count-Shuffle p (Shuffle.swap y z l) = omega arith
  count-Shuffle p (Shuffle.trans s t) = omega (arith, count-Shuffle p s, count-Shuffle p t)

  pub all-All : (p : A → Bool) (xs : List A) → all p xs ≡ true → All (λ x. p x ≡ true) xs
  all-All p [] h = tt
  all-All p (x ∷ xs) h = (ground (arith, h), all-All p xs (ground (arith, h)))

  pub filter-ext :
      (p q : A → Bool) (xs : List A) → ((x : A) → p x ≡ q x) → filter p xs ≡ filter q xs
  filter-ext p q [] h = refl
  filter-ext p q (x ∷ xs) h = rw (h x, filter-ext p q xs h) refl

  pub All-filter : (P : A → Type 0) (p : A → Bool) (xs : List A) → All P xs → All P (filter p xs)
  All-filter P p [] h = tt
  All-filter P p (x ∷ xs) (q, h) =
      if_elim (All P) (p x) (x ∷ filter p xs) (filter p xs) (λ _. (q, All-filter P p xs h))
        (λ _. All-filter P p xs h)

  pub Apart-filter :
      (R : A → A → Type 0) (p : A → Bool) (xs : List A) → Apart R xs → Apart R (filter p xs)
  Apart-filter R p [] h = tt
  Apart-filter R p (x ∷ xs) (q, h) =
      if_elim (Apart R) (p x) (x ∷ filter p xs) (filter p xs)
        (λ _. (All-filter (R x) p xs q, Apart-filter R p xs h)) (λ _. Apart-filter R p xs h)

pub length-map : {A B : Type 0} (f : A → B) (xs : List A) → length (map f xs) ≡ length xs
length-map f [] = refl
length-map f (x ∷ xs) = omega (arith, length-map f xs)
