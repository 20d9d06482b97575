-- ===== src/Events/Patterns.antt =====
-- The regular expressions of schemas.py, matched from the start by `re.match`; a `$` at the end
-- also matches before a newline that ends the text.
use Prim.Native.Char.{code}
use Prim.Native.Nat.{pred}
use aeronta_inventory.Base.{
  ℕ, ◌≡◌, String, Bool, true, false, ◌&&◌, ◌||◌, List, [], ◌∷◌, ◌++◌, arith, leb, nat_beq,
  if◌then◌else◌, all,
}

abbrev pub codes : String → List ℕ
codes String.[] = []
codes (String.◌∷◌ c s) = code c ∷ codes s

abbrev pub newline : ℕ
newline = 10

-- What a `$` matches.
abbrev pub at_end : List ℕ → Bool
at_end [] = true
at_end (c ∷ []) = nat_beq c newline
at_end (c ∷ d ∷ cs) = false

-- `[a-z0-9]`
abbrev pub is_slug : ℕ → Bool
is_slug c = (leb b'a' c && leb c b'z') || (leb b'0' c && leb c b'9')

-- `_KEBAB`, with whether the last character was of `[a-z0-9]`.
unfoldable pub kebab_from : Bool → List ℕ → Bool
kebab_from seen [] = seen
kebab_from seen (c ∷ cs) =
    let slug = kebab_from true cs in
    let dash = kebab_from false cs in
    if is_slug c then slug else if nat_beq c b'-' && seen then dash else (seen && at_end (c ∷ cs))

unfoldable pub is_kebab : List ℕ → Bool
is_kebab cs = kebab_from false cs

module _ (is_digit : ℕ → Bool) where
  -- `_SEMVER`, with how many dots are still to come and whether a digit stands before.
  unfoldable pub semver_from : ℕ → Bool → List ℕ → Bool
  semver_from dots seen [] = seen && nat_beq dots 0
  semver_from dots seen (c ∷ cs) =
      let digit = semver_from dots true cs in
      let dot = semver_from (pred dots) false cs in
      if is_digit c
      then digit
      else if nat_beq c b'.' && (seen && leb 1 dots)
      then dot
      else (seen && (nat_beq dots 0 && at_end (c ∷ cs)))

  unfoldable pub is_semver : List ℕ → Bool
  is_semver cs = semver_from 2 false cs

-- `[a-z0-9-]`
abbrev is_slug_or_dash : ℕ → Bool
is_slug_or_dash c = is_slug c || nat_beq c b'-'

kebab_from-newline :
    (seen : Bool) (cs : List ℕ)
    → all is_slug_or_dash cs ≡ true
    → kebab_from seen cs ≡ true
    → kebab_from seen (cs ++ newline ∷ []) ≡ true
unfolding kebab_from
kebab_from-newline seen [] a h = ground arith
kebab_from-newline seen (c ∷ cs) a h =
    ground (arith, kebab_from-newline true cs, kebab_from-newline false cs)

-- Whatever tenant id of slugs and dashes `_KEBAB` accepts, it accepts with a newline behind it:
-- the pattern does not say `\Z`.
pub is_kebab-newline :
    (cs : List ℕ)
    → all is_slug_or_dash cs ≡ true
    → is_kebab cs ≡ true
    → is_kebab (cs ++ newline ∷ []) ≡ true
unfolding is_kebab
is_kebab-newline cs a h = kebab_from-newline false cs a h
