-- ===== src/Prelude/Numerals.antt =====
-- Numerals are read back, so different numbers have different numerals.
use Prim.Native.Nat.{ℕ, zero, suc, ◌+◌, ◌-◌, ◌*◌, ◌/◌, ◌%◌, ◌≤◌, ◌<◌}
use Prim.Native.Char.{code}
use Prim.Native.String.{String}
use Prim.Native.String.append
use mathlib.Core.Path.{◌≡◌, refl, sym, ap, ◌∙◌}
use mathlib.Core.Logic.{inl, inr}
use native.Mathlib.Omega.{arith}
use text.Mathlib.TextLemmas.{append_cancel_left, append-eq-nil_iff}
use mathlib.Core.Bool.{true, false}
use text.Mathlib.TextEquality.{eq_iff}
use yoma.Prelude.Tests.{ltb, Bool-cases}
use yoma.Prelude.Text.{concat, is_empty, digit, decimal, decimal_from}

-- The number that a numeral stands for, behind the digits that were read before.
read_from : ℕ → String → ℕ
read_from n String.[] = n
read_from n (String.◌∷◌ c s) = read_from (n * 10 + (code c - 48)) s

read_from-concat : (s t : String) (n : ℕ) → read_from n (concat s t) ≡ read_from (read_from n s) t
unfolding read_from
read_from-concat String.[] t n = ap (read_from n) (append.nil t)
read_from-concat (String.◌∷◌ c s) t n =
    ap (read_from n) (append.cons c s t) ∙ read_from-concat s t (n * 10 + (code c - 48))

read_from-digit : (k n : ℕ) → k < 10 → read_from n (digit k) ≡ n * 10 + k
unfolding read_from
read_from-digit zero n h = refl
read_from-digit (suc zero) n h = refl
read_from-digit (suc (suc zero)) n h = refl
read_from-digit (suc (suc (suc zero))) n h = refl
read_from-digit (suc (suc (suc (suc zero)))) n h = refl
read_from-digit (suc (suc (suc (suc (suc zero))))) n h = refl
read_from-digit (suc (suc (suc (suc (suc (suc zero)))))) n h = refl
read_from-digit (suc (suc (suc (suc (suc (suc (suc zero))))))) n h = refl
read_from-digit (suc (suc (suc (suc (suc (suc (suc (suc zero)))))))) n h = refl
read_from-digit (suc (suc (suc (suc (suc (suc (suc (suc (suc zero))))))))) n h = refl
read_from-digit (suc (suc (suc (suc (suc (suc (suc (suc (suc (suc k)))))))))) n h = omega (arith, h)

read_from-decimal_from : (fuel n : ℕ) → n ≤ fuel → read_from 0 (decimal_from fuel n) ≡ n
unfolding decimal_from
read_from-decimal_from zero n h = read_from-digit n 0 (omega (arith, h)) ∙ omega arith
read_from-decimal_from (suc fuel) n h = elim (Bool-cases (ltb n 10)) [
  | inl small ↦ rw small (read_from-digit n 0 (ground (arith, small)) ∙ omega arith)
  | inr large ↦ rw large (
      read_from-concat (decimal_from fuel (n / 10)) (digit (n % 10)) 0
      ∙ read_from-digit (n % 10) _ (omega arith)
      ∙ ap (λ k. k * 10 + n % 10) (read_from-decimal_from fuel (n / 10) (ground (arith, h, large)))
      ∙ omega arith)
]

pub decimal-injective : (m n : ℕ) → decimal m ≡ decimal n → m ≡ n
unfolding decimal
decimal-injective m n e =
    sym (read_from-decimal_from m m (omega arith))
    ∙ ap (read_from 0) e
    ∙ read_from-decimal_from n n (omega arith)

-- Texts with the same front differ only behind it.
pub concat-cancel : (s t u : String) → concat s t ≡ concat s u → t ≡ u
concat-cancel s t u e = append_cancel_left s t u e

pub is_empty-concat : (s t : String) → is_empty s ≡ false → is_empty (concat s t) ≡ false
is_empty-concat s t h = elim (Bool-cases (is_empty (concat s t))) [
  | inr full ↦ full
  | inl empty ↦
      absurd (
        differ (sym h ∙ (eq_iff s "").1 (append-eq-nil_iff.0 ((eq_iff (concat s t) "").0 empty)).0))
]
  where
    differ : false ≡ true → ⊥
    differ e = cc
