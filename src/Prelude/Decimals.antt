-- ===== src/Prelude/Decimals.antt =====
-- Numbers as decimal texts: `strconv.FormatInt(n, 10)` at a number that is not negative.
use Prim.Native.Char.{Char, code}
use Prim.Native.Nat.{ℕ, zero, suc, ◌+◌, ◌*◌, ◌/◌, ◌%◌, ◌<◌}
use Prim.Native.String.{String}
use mathlib.Core.Path.{◌≡◌, refl, ap, sym, subst, ◌∙◌}
use mathlib.Core.Logic.{inl, inr}
use mathlib.Core.Bool.{true, false}
use mathlib.Core.Option.{some}
use native.Mathlib.Omega.{arith}
use lieutenant_operator.Prelude.Tests.{ltb, nat_eq, if◌then◌else◌, Bool-cases}
use lieutenant_operator.Prelude.Integers.{digits, number_of, atoi, pos, int_limit}

unfoldable pub digit : ℕ → Char
digit zero = "0"
digit (suc zero) = "1"
digit (suc (suc zero)) = "2"
digit (suc (suc (suc zero))) = "3"
digit (suc (suc (suc (suc zero)))) = "4"
digit (suc (suc (suc (suc (suc zero))))) = "5"
digit (suc (suc (suc (suc (suc (suc zero)))))) = "6"
digit (suc (suc (suc (suc (suc (suc (suc zero))))))) = "7"
digit (suc (suc (suc (suc (suc (suc (suc (suc zero)))))))) = "8"
digit _ = "9"

-- The digits of a number before a text. The fuel is more than the number.
unfoldable pub emit : ℕ → ℕ → String → String
unfolding digit
emit zero n out = out
emit (suc fuel) n out =
    let rest = emit fuel (n / 10) (String.◌∷◌ (digit (n % 10)) out) in
    if ltb n 10 then String.◌∷◌ (digit n) out else rest

unfoldable pub format_int : ℕ → String
unfolding emit
format_int n = emit (suc n) n ""

ltb_lem : (a b : ℕ) → a < b → ltb a b ≡ true
ltb_lem a b h = ground (arith)

digits-digit :
    (d m : ℕ) (s : String) → d < 10 → digits m (String.◌∷◌ (digit d) s) ≡ digits (m * 10 + d) s
unfolding digits digit
digits-digit zero m s h = refl
digits-digit (suc zero) m s h = refl
digits-digit (suc (suc zero)) m s h = refl
digits-digit (suc (suc (suc zero))) m s h = refl
digits-digit (suc (suc (suc (suc zero)))) m s h = refl
digits-digit (suc (suc (suc (suc (suc zero))))) m s h = refl
digits-digit (suc (suc (suc (suc (suc (suc zero)))))) m s h = refl
digits-digit (suc (suc (suc (suc (suc (suc (suc zero))))))) m s h = refl
digits-digit (suc (suc (suc (suc (suc (suc (suc (suc zero)))))))) m s h = refl
digits-digit (suc (suc (suc (suc (suc (suc (suc (suc (suc zero))))))))) m s h = refl
digits-digit (suc (suc (suc (suc (suc (suc (suc (suc (suc (suc d)))))))))) m s h =
    absurd (omega arith)

digits-emit : (fuel n : ℕ) (out : String) → n < fuel → digits 0 (emit fuel n out) ≡ digits n out
unfolding emit
digits-emit zero n out h = absurd (omega arith)
digits-emit (suc fuel) n out h = elim (Bool-cases (ltb n 10)) [
  | inl y ↦ rw y (digits-digit n 0 out (ground (arith)) ∙ ap (λ k. digits k out) (omega arith))
  | inr f ↦ rw f (
      digits-emit fuel (n / 10) (String.◌∷◌ (digit (n % 10)) out) (ground (arith))
      ∙ digits-digit (n % 10) (n / 10) out (omega arith)
      ∙ ap (λ k. digits k out) (omega arith))
]

-- The number is read back.
pub digits-format_int : (n : ℕ) → digits 0 (format_int n) ≡ some n
unfolding format_int digits
digits-format_int n = digits-emit (suc n) n "" (omega arith)

pub format_int-injective : (m n : ℕ) → format_int m ≡ format_int n → m ≡ n
format_int-injective m n h =
    some-injective (sym (digits-format_int m) ∙ ap (digits 0) h ∙ digits-format_int n)
  where
    some-injective : {a b : ℕ} → some a ≡ some b → a ≡ b
    some-injective e = cc

-- What holds of the empty text, and stays when a digit is put in front, holds of a number's text.
module _ (P : String → Type 0)
    (step : (d : ℕ) (s : String) → P s → P (String.◌∷◌ (digit d) s)) where
  emit_keeps : (fuel n : ℕ) (out : String) → P out → P (emit fuel n out)
  unfolding emit
  emit_keeps zero n out p = p
  emit_keeps (suc fuel) n out p = elim (Bool-cases (ltb n 10)) [
    | inl y ↦ rw y (step n out p)
    | inr f ↦
        rw f (emit_keeps fuel (n / 10) (String.◌∷◌ (digit (n % 10)) out) (step (n % 10) out p))
  ]

  pub format_int_keeps : P "" → (n : ℕ) → P (format_int n)
  unfolding format_int
  format_int_keeps p n = emit_keeps (suc n) n "" p

-- The text of a number begins with a digit.
abbrev StartsWithDigit : String → Type 0
StartsWithDigit s = (d : ℕ) × (t : String) × (s ≡ String.◌∷◌ (digit d) t)

emit-StartsWithDigit : (fuel n : ℕ) (out : String) → n < fuel → StartsWithDigit (emit fuel n out)
unfolding emit
emit-StartsWithDigit zero n out h = absurd (omega arith)
emit-StartsWithDigit (suc fuel) n out h = elim (Bool-cases (ltb n 10)) [
  | inl y ↦ rw y (n, out, refl)
  | inr f ↦
      rw f (emit-StartsWithDigit fuel (n / 10) (String.◌∷◌ (digit (n % 10)) out) (ground (arith)))
]

unsigned : (d : ℕ) → (nat_eq (code (digit d)) b'-' ≡ false) × (nat_eq (code (digit d)) b'+' ≡ false)
unfolding digit
unsigned zero = (refl, refl)
unsigned (suc zero) = (refl, refl)
unsigned (suc (suc zero)) = (refl, refl)
unsigned (suc (suc (suc zero))) = (refl, refl)
unsigned (suc (suc (suc (suc zero)))) = (refl, refl)
unsigned (suc (suc (suc (suc (suc zero))))) = (refl, refl)
unsigned (suc (suc (suc (suc (suc (suc zero)))))) = (refl, refl)
unsigned (suc (suc (suc (suc (suc (suc (suc zero))))))) = (refl, refl)
unsigned (suc (suc (suc (suc (suc (suc (suc (suc zero)))))))) = (refl, refl)
unsigned (suc (suc (suc (suc (suc (suc (suc (suc (suc d))))))))) = (refl, refl)

atoi-digit :
    (d n : ℕ) (t : String)
    → digits 0 (String.◌∷◌ (digit d) t) ≡ some n
    → n < int_limit
    → atoi (String.◌∷◌ (digit d) t) ≡ some (pos n)
unfolding atoi number_of
atoi-digit d n t h l =
    let below : ltb n int_limit ≡ true = ltb_lem n int_limit l in
    rw ((unsigned d).0, (unsigned d).1, h, below) refl

-- A number below the limit is read back.
pub atoi-format_int : (n : ℕ) → n < int_limit → atoi (format_int n) ≡ some (pos n)
unfolding format_int
atoi-format_int n l =
    let (d, t, e) = emit-StartsWithDigit (suc n) n "" (omega arith) in
    subst (λ s. digits 0 s ≡ some n → atoi s ≡ some (pos n)) (sym e) (λ h. atoi-digit d n t h l)
      (digits-format_int n)
