-- ===== src/Prelude/TextOrder.antt =====
-- Python's order on texts is total.
use Prim.Native.Char.{code}
use Prim.Native.Nat.{ℕ, Ordering, compare as compare_ℕ}
use Prim.Native.String.{String, then, compare}
use Prim.Native.String.compare
use mathlib.Core.Path.{◌≡◌, ap}
use mathlib.Core.Logic.{◌⊎◌, inl, inr}
use mathlib.Core.Bool.{true, false}
use native.Mathlib.Omega.{arith}
use text.Mathlib.Text.{is_le}
use yoma.Prelude.Text.{text_leb}

both :
    (m n : ℕ) (o p : Ordering)
    → (is_le o ≡ true) ⊎ (is_le p ≡ true)
    → (is_le (then (compare_ℕ m n) o) ≡ true) ⊎ (is_le (then (compare_ℕ n m) p) ≡ true)
both m n o p h = ground arith

pub text_leb_total : (s t : String) → (text_leb s t ≡ true) ⊎ (text_leb t s ≡ true)
text_leb_total String.[] String.[] = inl (ap is_le compare.nil-nil)
text_leb_total String.[] (String.◌∷◌ d t) = inl (ap is_le (compare.nil-cons d t))
text_leb_total (String.◌∷◌ c s) String.[] = inr (ap is_le (compare.nil-cons c s))
text_leb_total (String.◌∷◌ c s) (String.◌∷◌ d t) =
    rw (compare.cons-cons c d s t, compare.cons-cons d c t s)
      (both (code c) (code d) (compare s t) (compare t s) (text_leb_total s t))

pub text_leb_other : (s t : String) → text_leb s t ≡ false → text_leb t s ≡ true
text_leb_other s t h = elim (text_leb_total s t) [
  | inl before ↦ ground (arith, h, before)
  | inr behind ↦ behind
]
