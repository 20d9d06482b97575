-- ===== src/Base/Shuffle.antt =====
-- Lists in another order: a shuffle keeps every test and every sum, and what is sorted by a total
-- order of distinct keys does not depend on the order that it was given in.
use mathlib.Core.Path.{◌≡◌, refl, ap, ◌∙◌}
use mathlib.Core.Logic.{◌⊎◌}
use mathlib.Core.Bool.{Bool, true, false}
use mathlib.Core.List.{List, [], ◌∷◌, map}
use native.Mathlib.Omega.{arith}
use aeronta_inventory.Base.Tests.{if_elim, if◌then◌else◌}
use aeronta_inventory.Base.Lists.{All, any, filter}
use aeronta_inventory.Base.Sort.{place, sorted, All-place}

pub data Shuffle {ℓ} {A : Type ℓ} : List A → List A → Type ℓ where
  nil : Shuffle [] []
  cons : (x : A) {xs ys : List A} → Shuffle xs ys → Shuffle (x ∷ xs) (x ∷ ys)
  swap : (x y : A) (xs : List A) → Shuffle (x ∷ y ∷ xs) (y ∷ x ∷ xs)
  trans : {xs ys zs : List A} → Shuffle xs ys → Shuffle ys zs → Shuffle xs zs

-- `x` is one of the list.
abbrev pub In : {A : Type 0} → A → List A → Type 0
In x [] = ⊥
In x (y ∷ ys) = (x ≡ y) ⊎ In x ys

-- Every element is related to each one behind it.
abbrev pub Apart {ℓ κ} : {A : Type ℓ} → (A → A → Type κ) → List A → Type κ
Apart R [] = Unit
Apart R (x ∷ xs) = All (R x) xs × Apart R xs

module _ {ℓ} {A : Type ℓ} where
  pub Shuffle-refl : (xs : List A) → Shuffle xs xs
  Shuffle-refl [] = nil
  Shuffle-refl (x ∷ xs) = cons x (Shuffle-refl xs)

  pub Shuffle-sym : {xs ys : List A} → Shuffle xs ys → Shuffle ys xs
  Shuffle-sym nil = nil
  Shuffle-sym (cons x s) = cons x (Shuffle-sym s)
  Shuffle-sym (swap x y xs) = swap y x xs
  Shuffle-sym (trans s t) = trans (Shuffle-sym t) (Shuffle-sym s)

  pub any-Shuffle : (p : A → Bool) {xs ys : List A} → Shuffle xs ys → any p xs ≡ any p ys
  any-Shuffle p nil = refl
  any-Shuffle p (cons x s) = ground (arith, any-Shuffle p s)
  any-Shuffle p (swap x y xs) = ground arith
  any-Shuffle p (trans s t) = any-Shuffle p s ∙ any-Shuffle p t

  pub All-Shuffle {κ} : (P : A → Type κ) {xs ys : List A} → Shuffle xs ys → All P xs → All P ys
  All-Shuffle P nil h = h
  All-Shuffle P (cons x s) (p, h) = (p, All-Shuffle P s h)
  All-Shuffle P (swap x y xs) (p, (q, h)) = (q, (p, h))
  All-Shuffle P (trans s t) h = All-Shuffle P t (All-Shuffle P s h)

  if-cons :
      (b : Bool) (x : A) {xs ys : List A}
      → Shuffle xs ys
      → Shuffle (if b then x ∷ xs else xs) (if b then x ∷ ys else ys)
  if-cons true x s = cons x s
  if-cons false x s = s

  if-swap :
      (b c : Bool) (x y : A) (xs : List A)
      → Shuffle
          (if b then x ∷ (if c then y ∷ xs else xs) else (if c then y ∷ xs else xs))
          (if c then y ∷ (if b then x ∷ xs else xs) else (if b then x ∷ xs else xs))
  if-swap true true x y xs = swap x y xs
  if-swap true false x y xs = Shuffle-refl (x ∷ xs)
  if-swap false true x y xs = Shuffle-refl (y ∷ xs)
  if-swap false false x y xs = Shuffle-refl xs

  pub filter-Shuffle :
      (p : A → Bool) {xs ys : List A} → Shuffle xs ys → Shuffle (filter p xs) (filter p ys)
  filter-Shuffle p nil = nil
  filter-Shuffle p (cons x s) = if-cons (p x) x (filter-Shuffle p s)
  filter-Shuffle p (swap x y xs) = if-swap (p x) (p y) x y (filter p xs)
  filter-Shuffle p (trans s t) = trans (filter-Shuffle p s) (filter-Shuffle p t)

  pub map-Shuffle {κ} :
      {B : Type κ} (f : A → B) {xs ys : List A} → Shuffle xs ys → Shuffle (map f xs) (map f ys)
  map-Shuffle f nil = nil
  map-Shuffle f (cons x s) = cons (f x) (map-Shuffle f s)
  map-Shuffle f (swap x y xs) = swap (f x) (f y) (map f xs)
  map-Shuffle f (trans s t) = trans (map-Shuffle f s) (map-Shuffle f t)

  pub All-imp {κ μ} :
      (P : A → Type κ) (Q : A → Type μ)
      → ((x : A) → P x → Q x)
      → (xs : List A) → All P xs
      → All Q xs
  All-imp P Q f [] h = tt
  All-imp P Q f (x ∷ xs) (p, h) = (f x p, All-imp P Q f xs h)

  pub Apart-imp {κ μ} :
      (R : A → A → Type κ) (S : A → A → Type μ)
      → ((x y : A) → R x y → S x y)
      → (xs : List A) → Apart R xs
      → Apart S xs
  Apart-imp R S f [] h = tt
  Apart-imp R S f (x ∷ xs) (p, h) = (All-imp (R x) (S x) (f x) xs p, Apart-imp R S f xs h)

  All-map {κ μ} :
      {B : Type κ} (P : B → Type μ) (f : A → B) (xs : List A)
      → All (λ x. P (f x)) xs
      → All P (map f xs)
  All-map P f [] h = tt
  All-map P f (x ∷ xs) (p, h) = (p, All-map P f xs h)

  pub Apart-map {κ μ} :
      {B : Type κ} (R : B → B → Type μ) (f : A → B) (xs : List A)
      → Apart (λ x y. R (f x) (f y)) xs
      → Apart R (map f xs)
  Apart-map R f [] h = tt
  Apart-map R f (x ∷ xs) (p, h) = (All-map (R (f x)) f xs p, Apart-map R f xs h)

  pub Apart-Shuffle {κ} :
      (R : A → A → Type κ)
      → ((x y : A) → R x y → R y x)
      → {xs ys : List A} → Shuffle xs ys
      → Apart R xs
      → Apart R ys
  Apart-Shuffle R flip nil h = h
  Apart-Shuffle R flip (cons x s) (p, h) = (All-Shuffle (R x) s p, Apart-Shuffle R flip s h)
  Apart-Shuffle R flip (swap x y xs) ((r, p), (q, h)) = ((flip x y r, q), (p, h))
  Apart-Shuffle R flip (trans s t) h = Apart-Shuffle R flip t (Apart-Shuffle R flip s h)

  -- Keys that a test cannot tell apart.
  abbrev pub NotTied : (A → A → Bool) → A → A → Type 0
  NotTied le x y = le x y ≡ true → le y x ≡ true → ⊥

  module _ (le : A → A → Bool) where
    place-Shuffle : (x : A) (l : List A) → Shuffle (place le x l) (x ∷ l)
    unfolding place
    place-Shuffle x [] = Shuffle-refl (x ∷ [])
    place-Shuffle x (y ∷ l) =
        if_elim (λ l'. Shuffle l' (x ∷ y ∷ l)) (le x y) (x ∷ y ∷ l) (y ∷ place le x l)
          (λ _. Shuffle-refl (x ∷ y ∷ l)) (λ _. trans (cons y (place-Shuffle x l)) (swap y x l))

    pub sorted-is_Shuffle : (l : List A) → Shuffle (sorted le l) l
    unfolding sorted
    sorted-is_Shuffle [] = nil
    sorted-is_Shuffle (x ∷ l) = trans (place-Shuffle x (sorted le l)) (cons x (sorted-is_Shuffle l))

  module _ (le : A → A → Bool) (le_total : (x y : A) → (le x y ≡ true) ⊎ (le y x ≡ true))
      (le_trans : (x y z : A) → le x y ≡ true → le y z ≡ true → le x z ≡ true) where
    place_comm :
        (x y : A) (l : List A)
        → NotTied le x y
        → place le x (place le y l) ≡ place le y (place le x l)
    unfolding place
    place_comm x y [] h = ground (arith, le_total x y, h)
    place_comm x y (z ∷ l) h =
        ground (arith, le_total x y, h, le_trans x y z, le_trans y x z, place_comm x y l h)

    -- Sorting by a total order forgets the order of the list, if no keys are tied.
    pub sorted-Shuffle :
        {xs ys : List A} → Shuffle xs ys → Apart (NotTied le) xs → sorted le xs ≡ sorted le ys
    unfolding sorted
    sorted-Shuffle nil h = refl
    sorted-Shuffle (cons x s) (p, h) = ap (place le x) (sorted-Shuffle s h)
    sorted-Shuffle (swap x y xs) ((p, q), h) = place_comm x y (sorted le xs) p
    sorted-Shuffle (trans s t) h =
        sorted-Shuffle s h ∙ sorted-Shuffle t (Apart-Shuffle (NotTied le) (λ x y r a b. r b a) s h)

    -- Each element is at most the ones behind it.
    abbrev pub IsSorted : List A → Type ℓ
    IsSorted [] = Unit
    IsSorted (x ∷ l) = All (λ y. le x y ≡ true) l × IsSorted l

    All-le :
        (x y : A) (l : List A)
        → le x y ≡ true
        → All (λ z. le y z ≡ true) l
        → All (λ z. le x z ≡ true) l
    All-le x y [] h k = tt
    All-le x y (z ∷ l) h (k, ks) = (le_trans x y z h k, All-le x y l h ks)

    place-IsSorted : (x : A) (l : List A) → IsSorted l → IsSorted (place le x l)
    unfolding place
    place-IsSorted x [] h = (tt, tt)
    place-IsSorted x (y ∷ l) (h, s) =
        if_elim IsSorted (le x y) (x ∷ y ∷ l) (y ∷ place le x l)
          (λ e. ((e, All-le x y l e h), (h, s)))
          (λ e. (
            All-place le (λ z. le y z ≡ true) x l (ground (arith, le_total x y, e)) h,
            place-IsSorted x l s,
          ))

    pub sorted-IsSorted : (l : List A) → IsSorted (sorted le l)
    unfolding sorted
    sorted-IsSorted [] = tt
    sorted-IsSorted (x ∷ l) = place-IsSorted x (sorted le l) (sorted-IsSorted l)

    place_least : (x : A) (l : List A) → All (λ y. le x y ≡ true) l → place le x l ≡ x ∷ l
    unfolding place
    place_least x [] h = refl
    place_least x (y ∷ l) (e, h) = rw e refl

    pub sorted_of_IsSorted : (l : List A) → IsSorted l → sorted le l ≡ l
    unfolding sorted
    sorted_of_IsSorted [] h = refl
    sorted_of_IsSorted (x ∷ l) (h, s) = ap (place le x) (sorted_of_IsSorted l s) ∙ place_least x l h
