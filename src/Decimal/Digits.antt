-- ===== src/Decimal/Digits.antt =====
-- The decimal digits of a number, as `BigInt.prototype.toString` writes them.
use Prim.Native.Char.{Char, code}
use text.Mathlib.TextLemmas.{cons-append, nil-append}
use exchanger.Prelude.{
  ℕ, zero, suc, ◌+◌, ◌-◌, ◌*◌, ◌/◌, ◌%◌, ◌≡◌, ◌<◌, refl, ap, ◌∙◌, inl, inr, String, true, false,
  List, [], ◌∷◌, arith, concat, show_from, digit_text, ◌==◌, ==_iff, Bool-cases, if◌then◌else◌,
}
use exchanger.Prelude.Dict.Each.{All}
use exchanger.Decimal.Parse.{digits_value, span_digits, is_digit}

abbrev pub prepend : List ℕ → String → String
prepend [] s = s
prepend (d ∷ ds) s = concat (digit_text d) (prepend ds s)

abbrev pub AreDigits : List ℕ → Type 0
AreDigits = All (λ d. d < 10)

unfoldable pub digits_from : ℕ → ℕ → List ℕ → List ℕ
digits_from zero n acc = acc
digits_from (suc f) n acc =
    let rest = digits_from f (n / 10) (n % 10 ∷ acc) in if n / 10 == 0 then n % 10 ∷ acc else rest

pub show_from-prepend :
    (f n : ℕ) (acc : List ℕ) (s : String)
    → show_from f n (prepend acc s) ≡ prepend (digits_from f n acc) s
unfolding show_from digits_from
show_from-prepend zero n acc s = refl
show_from-prepend (suc f) n acc s = elim (Bool-cases (n / 10 == 0)) [
  | inl last ↦ rw last refl
  | inr more ↦ rw more (show_from-prepend f (n / 10) (n % 10 ∷ acc) s)
]

pub digits_from-AreDigits :
    (f n : ℕ) (acc : List ℕ) → AreDigits acc → AreDigits (digits_from f n acc)
unfolding digits_from
digits_from-AreDigits zero n acc h = h
digits_from-AreDigits (suc f) n acc h = elim (Bool-cases (n / 10 == 0)) [
  | inl last ↦ rw last (omega arith, h)
  | inr more ↦ rw more (digits_from-AreDigits f (n / 10) (n % 10 ∷ acc) (omega arith, h))
]

pub digits_value-digits_from :
    (f n : ℕ) (acc : List ℕ) → n < f → digits_value 0 (digits_from f n acc) ≡ digits_value n acc
unfolding digits_from
digits_value-digits_from zero n acc h = absurd (omega arith)
digits_value-digits_from (suc f) n acc h = elim (Bool-cases (n / 10 == 0)) [
  | inl last ↦
      let e : 0 * 10 + n % 10 ≡ n = omega (arith, (==_iff (n / 10) 0).0 last) in
      rw last (ap (λ k. digits_value k acc) e)
  | inr more ↦
      let e : n / 10 * 10 + n % 10 ≡ n = omega arith in
      rw more (
        digits_value-digits_from f (n / 10) (n % 10 ∷ acc) (ground arith)
        ∙ ap (λ k. digits_value k acc) e)
]

-- The first digit of a number is not zero, unless the number is.
abbrev pub Leads : List ℕ → Type 0
Leads [] = ⊥
Leads (d ∷ ds) = 0 < d

pub digits_from-Leads : (f n : ℕ) (acc : List ℕ) → n < f → 0 < n → Leads (digits_from f n acc)
unfolding digits_from
digits_from-Leads zero n acc h k = absurd (omega arith)
digits_from-Leads (suc f) n acc h k = elim (Bool-cases (n / 10 == 0)) [
  | inl last ↦ rw last (omega (arith, (==_iff (n / 10) 0).0 last))
  | inr more ↦ rw more (digits_from-Leads f (n / 10) (n % 10 ∷ acc) (ground arith) (ground arith))
]

-- A text that no digit begins.
abbrev pub Stops : String → Type 0
Stops String.[] = Unit
Stops (String.◌∷◌ c s) = is_digit (code c) ≡ false

abbrev pub digit_char : ℕ → Char
digit_char zero = "0"
digit_char (suc zero) = "1"
digit_char (suc (suc zero)) = "2"
digit_char (suc (suc (suc zero))) = "3"
digit_char (suc (suc (suc (suc zero)))) = "4"
digit_char (suc (suc (suc (suc (suc zero))))) = "5"
digit_char (suc (suc (suc (suc (suc (suc zero)))))) = "6"
digit_char (suc (suc (suc (suc (suc (suc (suc zero))))))) = "7"
digit_char (suc (suc (suc (suc (suc (suc (suc (suc zero)))))))) = "8"
digit_char (suc (suc (suc (suc (suc (suc (suc (suc (suc zero))))))))) = "9"
digit_char _ = "9"

pub digit_text-append :
    (d : ℕ) (s : String) → d < 10 → concat (digit_text d) s ≡ String.◌∷◌ (digit_char d) s
unfolding digit_text
digit_text-append zero s h = cons-append "0" "" s ∙ ap (String.◌∷◌ "0") (nil-append s)
digit_text-append (suc zero) s h = cons-append "1" "" s ∙ ap (String.◌∷◌ "1") (nil-append s)
digit_text-append (suc (suc zero)) s h = cons-append "2" "" s ∙ ap (String.◌∷◌ "2") (nil-append s)
digit_text-append (suc (suc (suc zero))) s h =
    cons-append "3" "" s ∙ ap (String.◌∷◌ "3") (nil-append s)
digit_text-append (suc (suc (suc (suc zero)))) s h =
    cons-append "4" "" s ∙ ap (String.◌∷◌ "4") (nil-append s)
digit_text-append (suc (suc (suc (suc (suc zero))))) s h =
    cons-append "5" "" s ∙ ap (String.◌∷◌ "5") (nil-append s)
digit_text-append (suc (suc (suc (suc (suc (suc zero)))))) s h =
    cons-append "6" "" s ∙ ap (String.◌∷◌ "6") (nil-append s)
digit_text-append (suc (suc (suc (suc (suc (suc (suc zero))))))) s h =
    cons-append "7" "" s ∙ ap (String.◌∷◌ "7") (nil-append s)
digit_text-append (suc (suc (suc (suc (suc (suc (suc (suc zero)))))))) s h =
    cons-append "8" "" s ∙ ap (String.◌∷◌ "8") (nil-append s)
digit_text-append (suc (suc (suc (suc (suc (suc (suc (suc (suc zero))))))))) s h =
    cons-append "9" "" s ∙ ap (String.◌∷◌ "9") (nil-append s)
digit_text-append (suc (suc (suc (suc (suc (suc (suc (suc (suc (suc d)))))))))) s h =
    absurd (omega arith)

digit_char_code :
    (d : ℕ) → d < 10 → (is_digit (code (digit_char d)) ≡ true) × (code (digit_char d) - 48 ≡ d)
digit_char_code zero h = (refl, refl)
digit_char_code (suc zero) h = (refl, refl)
digit_char_code (suc (suc zero)) h = (refl, refl)
digit_char_code (suc (suc (suc zero))) h = (refl, refl)
digit_char_code (suc (suc (suc (suc zero)))) h = (refl, refl)
digit_char_code (suc (suc (suc (suc (suc zero))))) h = (refl, refl)
digit_char_code (suc (suc (suc (suc (suc (suc zero)))))) h = (refl, refl)
digit_char_code (suc (suc (suc (suc (suc (suc (suc zero))))))) h = (refl, refl)
digit_char_code (suc (suc (suc (suc (suc (suc (suc (suc zero)))))))) h = (refl, refl)
digit_char_code (suc (suc (suc (suc (suc (suc (suc (suc (suc zero))))))))) h = (refl, refl)
digit_char_code (suc (suc (suc (suc (suc (suc (suc (suc (suc (suc d)))))))))) h =
    absurd (omega arith)

pub digit_char-not_sign : (d : ℕ) → d < 10 → (code (digit_char d) == 45) ≡ false
digit_char-not_sign zero h = refl
digit_char-not_sign (suc zero) h = refl
digit_char-not_sign (suc (suc zero)) h = refl
digit_char-not_sign (suc (suc (suc zero))) h = refl
digit_char-not_sign (suc (suc (suc (suc zero)))) h = refl
digit_char-not_sign (suc (suc (suc (suc (suc zero))))) h = refl
digit_char-not_sign (suc (suc (suc (suc (suc (suc zero)))))) h = refl
digit_char-not_sign (suc (suc (suc (suc (suc (suc (suc zero))))))) h = refl
digit_char-not_sign (suc (suc (suc (suc (suc (suc (suc (suc zero)))))))) h = refl
digit_char-not_sign (suc (suc (suc (suc (suc (suc (suc (suc (suc zero))))))))) h = refl
digit_char-not_sign (suc (suc (suc (suc (suc (suc (suc (suc (suc (suc d)))))))))) h =
    absurd (omega arith)

span_digits-digit_text :
    (d : ℕ) (s : String)
    → d < 10
    → span_digits (concat (digit_text d) s) ≡ (d ∷ (span_digits s).0, (span_digits s).1)
unfolding span_digits
span_digits-digit_text d s h =
    let known = digit_char_code d h in
    ap span_digits (digit_text-append d s h) ∙ (rw (known.0, known.1) refl)

pub span_digits-prepend :
    (ds : List ℕ) (s : String) → AreDigits ds → Stops s → span_digits (prepend ds s) ≡ (ds, s)
unfolding span_digits
span_digits-prepend [] String.[] h k = refl
span_digits-prepend [] (String.◌∷◌ c s) h k = rw k refl
span_digits-prepend (d ∷ ds) s h k =
    span_digits-digit_text d (prepend ds s) h.0 ∙ (rw (span_digits-prepend ds s h.1 k) refl)
