-- ===== src/Base/Order.antt =====
-- The order of texts is total, transitive and antisymmetric.
use Prim.Native.Char.{code}
use Prim.Native.String.{String}
use mathlib.Core.Path.{◌≡◌, refl}
use mathlib.Core.Logic.{◌⊎◌, inl, inr}
use mathlib.Core.Bool.{true}
use text.Mathlib.TextEquality.{Char-path}
use native.Mathlib.Omega.{arith}
use aeronta_inventory.Base.Sort.{text_le}

pub text_le_refl : (s : String) → text_le s s ≡ true
text_le_refl String.[] = refl
text_le_refl (String.◌∷◌ c s) = ground (arith, text_le_refl s)

pub text_le_total : (s t : String) → (text_le s t ≡ true) ⊎ (text_le t s ≡ true)
text_le_total String.[] t = inl refl
text_le_total (String.◌∷◌ c s) String.[] = inr refl
text_le_total (String.◌∷◌ c s) (String.◌∷◌ d t) = ground (arith, text_le_total s t)

pub text_le_trans : (s t u : String) → text_le s t ≡ true → text_le t u ≡ true → text_le s u ≡ true
text_le_trans String.[] t u h k = refl
text_le_trans (String.◌∷◌ c s) String.[] u h k = absurd (ground arith)
text_le_trans (String.◌∷◌ c s) (String.◌∷◌ d t) String.[] h k = absurd (ground arith)
text_le_trans (String.◌∷◌ c s) (String.◌∷◌ d t) (String.◌∷◌ e u) h k =
    ground (arith, text_le_trans s t u)

pub text_le_antisymm : (s t : String) → text_le s t ≡ true → text_le t s ≡ true → s ≡ t
text_le_antisymm String.[] String.[] h k = refl
text_le_antisymm String.[] (String.◌∷◌ d t) h k = absurd (ground arith)
text_le_antisymm (String.◌∷◌ c s) String.[] h k = absurd (ground arith)
text_le_antisymm (String.◌∷◌ c s) (String.◌∷◌ d t) h k =
    let e : code c ≡ code d = ground arith in
    let f = text_le_antisymm s t (ground arith) (ground arith) in rw (Char-path c d e, f) refl
