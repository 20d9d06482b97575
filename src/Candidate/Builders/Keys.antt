-- ===== src/Candidate/Builders/Keys.antt =====
-- Distinct texts: kept by a shuffle and by a filter.
use aeronta_inventory.Base.{
  ◌≡◌, refl, String, Bool, true, false, ◌||◌, List, [], ◌∷◌, ◌++◌, map, filter, contains, ◌==◌,
  string_eq, arith,
}
use aeronta_inventory.Base.Shuffle.{Shuffle}
use aeronta_inventory.Candidate.Planner.{unique, same_texts}

pub same_texts_refl : (xs : List String) → same_texts xs xs ≡ true
same_texts_refl [] = refl
same_texts_refl (x ∷ xs) = ground (arith, (string_eq.same_iff x x).1 refl, same_texts_refl xs)

pub contains-Shuffle :
    (a : String) {xs ys : List String} → Shuffle xs ys → contains a xs ≡ contains a ys
contains-Shuffle a Shuffle.nil = refl
contains-Shuffle a (Shuffle.cons x s) = ground (arith, contains-Shuffle a s)
contains-Shuffle a (Shuffle.swap x y xs) = ground arith
contains-Shuffle a (Shuffle.trans s t) = ground (arith, contains-Shuffle a s, contains-Shuffle a t)

pub unique-Shuffle : {xs ys : List String} → Shuffle xs ys → unique xs ≡ unique ys
unique-Shuffle Shuffle.nil = refl
unique-Shuffle (Shuffle.cons x s) = ground (arith, contains-Shuffle x s, unique-Shuffle s)
unique-Shuffle (Shuffle.swap x y xs) =
    ground (arith, string_eq.same_iff x y, string_eq.same_iff y x)
unique-Shuffle (Shuffle.trans s t) = ground (arith, unique-Shuffle s, unique-Shuffle t)

module _ {A : Type 0} (f : A → String) (p : A → Bool) where
  contains-filter :
      (a : String) (xs : List A)
      → contains a (map f xs) ≡ false
      → contains a (map f (filter p xs)) ≡ false
  contains-filter a [] h = h
  contains-filter a (x ∷ xs) h = ground (arith, h, contains-filter a xs)

  pub unique-filter : (xs : List A) → unique (map f xs) ≡ true → unique (map f (filter p xs)) ≡ true
  unique-filter [] h = h
  unique-filter (x ∷ xs) h = ground (arith, h, unique-filter xs, contains-filter (f x) xs)

  -- A text at which the filter's test fails.
  pub contains-filter_out :
      (a : String) (xs : List A)
      → ((x : A) → f x ≡ a → p x ≡ false)
      → contains a (map f (filter p xs)) ≡ false
  contains-filter_out a [] h = refl
  contains-filter_out a (x ∷ xs) h = ground (
    arith,
    h x,
    contains-filter_out a xs h,
    string_eq.same_iff a (f x),
    string_eq.same_iff (f x) a,
  )

module _ {A : Type 0} (f : A → String) where
  pub contains-append :
      (a : String) (x : A) (xs : List A)
      → contains a (map f (xs ++ x ∷ [])) ≡ (contains a (map f xs) || a == f x)
  contains-append a x [] = ground arith
  contains-append a x (y ∷ xs) = ground (arith, contains-append a x xs)

  pub unique-append :
      (x : A) (xs : List A)
      → unique (map f xs) ≡ true
      → contains (f x) (map f xs) ≡ false
      → unique (map f (xs ++ x ∷ [])) ≡ true
  unique-append x [] h k = refl
  unique-append x (y ∷ xs) h k = ground (
    arith,
    h,
    k,
    unique-append x xs,
    contains-append (f y) x xs,
    string_eq.same_iff (f x) (f y),
    string_eq.same_iff (f y) (f x),
  )
