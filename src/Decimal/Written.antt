-- ===== src/Decimal/Written.antt =====
-- Slices and padding of digits, as `Decimal.toString` of shared-kernel/decimal.ts makes them.
use text.Mathlib.TextLemmas.{nil-append, append_assoc}
use exchanger.Prelude.{
  ℕ, zero, suc, ◌≡◌, refl, sym, ap, ◌∙◌, String, List, [], ◌∷◌, ◌++◌, arith, length, concat,
  digit_text, take, drop, replicate,
}
use exchanger.Decimal.Text.{text_length, take_text, drop_text, zeros}
use exchanger.Decimal.Parse.{digits_value}
use exchanger.Decimal.Digits.{prepend, AreDigits, digit_text-append, digit_char}

pub text_length-prepend : (ds : List ℕ) → AreDigits ds → text_length (prepend ds "") ≡ length ds
text_length-prepend [] h = refl
text_length-prepend (d ∷ ds) h =
    ap text_length (digit_text-append d (prepend ds "") h.0) ∙ ap suc (text_length-prepend ds h.1)

pub take_text-prepend :
    (k : ℕ) (ds : List ℕ) → AreDigits ds → take_text k (prepend ds "") ≡ prepend (take k ds) ""
unfolding take_text
take_text-prepend zero ds h = refl
take_text-prepend (suc k) [] h = refl
take_text-prepend (suc k) (d ∷ ds) h =
    ap (take_text (suc k)) (digit_text-append d (prepend ds "") h.0)
    ∙ ap (String.◌∷◌ (digit_char d)) (take_text-prepend k ds h.1)
    ∙ sym (digit_text-append d (prepend (take k ds) "") h.0)

pub drop_text-prepend :
    (k : ℕ) (ds : List ℕ) → AreDigits ds → drop_text k (prepend ds "") ≡ prepend (drop k ds) ""
unfolding drop_text
drop_text-prepend zero ds h = refl
drop_text-prepend (suc k) [] h = refl
drop_text-prepend (suc k) (d ∷ ds) h =
    ap (drop_text (suc k)) (digit_text-append d (prepend ds "") h.0) ∙ drop_text-prepend k ds h.1

pub zeros-prepend :
    (n : ℕ) (ds : List ℕ) → concat (zeros n) (prepend ds "") ≡ prepend (replicate n 0 ++ ds) ""
unfolding zeros digit_text
zeros-prepend zero ds = nil-append (prepend ds "")
zeros-prepend (suc n) ds =
    append_assoc "0" (zeros n) (prepend ds "") ∙ ap (concat "0") (zeros-prepend n ds)

pub concat-prepend : (ds : List ℕ) (s : String) → concat (prepend ds "") s ≡ prepend ds s
concat-prepend [] s = nil-append s
concat-prepend (d ∷ ds) s =
    append_assoc (digit_text d) (prepend ds "") s ∙ ap (concat (digit_text d)) (concat-prepend ds s)

pub AreDigits-replicate : (n : ℕ) (ds : List ℕ) → AreDigits ds → AreDigits (replicate n 0 ++ ds)
AreDigits-replicate zero ds h = h
AreDigits-replicate (suc n) ds h = (omega arith, AreDigits-replicate n ds h)

pub digits_value-replicate :
    (n : ℕ) (ds : List ℕ) → digits_value 0 (replicate n 0 ++ ds) ≡ digits_value 0 ds
digits_value-replicate zero ds = refl
digits_value-replicate (suc n) ds = digits_value-replicate n ds

pub AreDigits-take : (n : ℕ) (ds : List ℕ) → AreDigits ds → AreDigits (take n ds)
AreDigits-take zero ds h = tt
AreDigits-take (suc n) [] h = tt
AreDigits-take (suc n) (d ∷ ds) h = (h.0, AreDigits-take n ds h.1)

pub AreDigits-drop : (n : ℕ) (ds : List ℕ) → AreDigits ds → AreDigits (drop n ds)
AreDigits-drop zero ds h = h
AreDigits-drop (suc n) [] h = tt
AreDigits-drop (suc n) (d ∷ ds) h = AreDigits-drop n ds h.1
