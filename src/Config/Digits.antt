-- ===== src/Config/Digits.antt =====
-- strconv.Itoa of a number that is not negative: its digits give the number back, and make one part of
-- a path.
use Prim.Native.Char.{code}
use Prim.Native.String.{◌++◌ as append_text}
use text.Mathlib.TextLemmas.{cons-append, nil-append, cons≢nil, append-ne-nil_of_right_ne-nil}
use mathlib.Core.Path.{subst}
use distrib_kv.Prelude.{
  ℕ, zero, suc, ◌+◌, ◌*◌, ◌-◌, ◌/◌, ◌%◌, ◌≤◌, ◌<◌, ◌≡◌, ◌≢◌, refl, sym, ◌∙◌, ap, false, ltb, ltb→lt,
  ltb_false→le, ◌==◌, String, str_eq, str_eq_iff, pos, arith, Bool-cases, inl, inr,
}
use distrib_kv.Config.Paths.{split_char, split_path, digit, decimal, itoa}
use distrib_kv.Config.Dirs.{IsPart, IsPlain}

-- The number that decimal digits stand for, behind those that give `acc`.
value : ℕ → String → ℕ
value acc String.[] = acc
value acc (String.◌∷◌ c s) = value (10 * acc + (code c - 48)) s

value-append : (acc : ℕ) (s t : String) → value acc (append_text s t) ≡ value (value acc s) t
unfolding value
value-append acc String.[] t = rw (nil-append t) refl
value-append acc (String.◌∷◌ c s) t =
    rw (cons-append c s t) (value-append (10 * acc + (code c - 48)) s t)

value-digit : (acc n : ℕ) → n < 10 → value acc (digit n) ≡ 10 * acc + n
unfolding value digit
value-digit acc zero h = omega arith
value-digit acc (suc zero) h = omega arith
value-digit acc (suc (suc zero)) h = omega arith
value-digit acc (suc (suc (suc zero))) h = omega arith
value-digit acc (suc (suc (suc (suc zero)))) h = omega arith
value-digit acc (suc (suc (suc (suc (suc zero))))) h = omega arith
value-digit acc (suc (suc (suc (suc (suc (suc zero)))))) h = omega arith
value-digit acc (suc (suc (suc (suc (suc (suc (suc zero))))))) h = omega arith
value-digit acc (suc (suc (suc (suc (suc (suc (suc (suc zero)))))))) h = omega arith
value-digit acc (suc (suc (suc (suc (suc (suc (suc (suc (suc n))))))))) h = omega arith

value-decimal : (k n : ℕ) → n < k → value 0 (decimal k n) ≡ n
unfolding decimal
value-decimal zero n h = absurd (omega arith)
value-decimal (suc k) n h = elim (Bool-cases (ltb n 10)) [
  | inl e ↦ rw e (value-digit 0 n (ltb→lt n 10 e) ∙ omega arith)
  | inr e ↦
      let big = ltb_false→le n 10 e in
      let ih = value-decimal k (n / 10) (omega arith) in
      rw
        (
          e,
          value-append 0 (decimal k (n / 10)) (digit (n % 10)),
          ih,
          value-digit (n / 10) (n % 10) (omega arith),
        )
        (omega arith)
]

-- The digits give the number back.
pub itoa_inj : (m n : ℕ) → itoa (pos m) ≡ itoa (pos n) → m ≡ n
unfolding itoa
itoa_inj m n h =
    sym (value-decimal (suc m) m (omega arith))
    ∙ ap (value 0) h
    ∙ value-decimal (suc n) n (omega arith)

IsDigits : String → Type 0
IsDigits String.[] = Unit
IsDigits (String.◌∷◌ c s) = (48 ≤ code c) × (code c ≤ 57) × IsDigits s

IsDigits-append : (s t : String) → IsDigits s → IsDigits t → IsDigits (append_text s t)
unfolding IsDigits
IsDigits-append String.[] t h k = rw (nil-append t) k
IsDigits-append (String.◌∷◌ c s) t h k =
    rw (cons-append c s t) (h.0, h.1, IsDigits-append s t h.2 k)

digit-IsDigits : (n : ℕ) → IsDigits (digit n)
unfolding IsDigits digit
digit-IsDigits zero = omega arith
digit-IsDigits (suc zero) = omega arith
digit-IsDigits (suc (suc zero)) = omega arith
digit-IsDigits (suc (suc (suc zero))) = omega arith
digit-IsDigits (suc (suc (suc (suc zero)))) = omega arith
digit-IsDigits (suc (suc (suc (suc (suc zero))))) = omega arith
digit-IsDigits (suc (suc (suc (suc (suc (suc zero)))))) = omega arith
digit-IsDigits (suc (suc (suc (suc (suc (suc (suc zero))))))) = omega arith
digit-IsDigits (suc (suc (suc (suc (suc (suc (suc (suc zero)))))))) = omega arith
digit-IsDigits (suc (suc (suc (suc (suc (suc (suc (suc (suc n))))))))) = omega arith

decimal-IsDigits : (k n : ℕ) → IsDigits (decimal k n)
unfolding decimal IsDigits
decimal-IsDigits zero n = tt
decimal-IsDigits (suc k) n = elim (Bool-cases (ltb n 10)) [
  | inl e ↦ rw e (digit-IsDigits n)
  | inr e ↦ rw e (
      IsDigits-append (decimal k (n / 10)) (digit (n % 10)) (decimal-IsDigits k (n / 10))
        (digit-IsDigits (n % 10)))
]

digit-ne : (n : ℕ) → digit n ≢ ""
unfolding digit
digit-ne zero h = cons≢nil h
digit-ne (suc zero) h = cons≢nil h
digit-ne (suc (suc zero)) h = cons≢nil h
digit-ne (suc (suc (suc zero))) h = cons≢nil h
digit-ne (suc (suc (suc (suc zero)))) h = cons≢nil h
digit-ne (suc (suc (suc (suc (suc zero))))) h = cons≢nil h
digit-ne (suc (suc (suc (suc (suc (suc zero)))))) h = cons≢nil h
digit-ne (suc (suc (suc (suc (suc (suc (suc zero))))))) h = cons≢nil h
digit-ne (suc (suc (suc (suc (suc (suc (suc (suc zero)))))))) h = cons≢nil h
digit-ne (suc (suc (suc (suc (suc (suc (suc (suc (suc n))))))))) h = cons≢nil h

decimal-ne : (k n : ℕ) → decimal (suc k) n ≢ ""
unfolding decimal
decimal-ne k n = elim (Bool-cases (ltb n 10)) [
  | inl e ↦ rw e (digit-ne n)
  | inr e ↦ rw e (append-ne-nil_of_right_ne-nil (decimal k (n / 10)) (digit-ne (n % 10)))
]

digits-IsPart : (s : String) → IsDigits s → IsPart s
unfolding IsDigits split_path
digits-IsPart String.[] h = refl
digits-IsPart (String.◌∷◌ c s) h =
    let e : (code c == 47) ≡ false = ground arith in rw (digits-IsPart s h.2, split_char, e) refl

text_apart : (s t : String) → s ≢ t → str_eq s t ≡ false
text_apart s t h = elim (Bool-cases (str_eq s t)) [
  | inl e ↦ absurd (h ((str_eq_iff s t).0 e))
  | inr e ↦ e
]

pub itoa-IsPlain : (n : ℕ) → IsPlain (itoa (pos n))
unfolding itoa IsDigits
itoa-IsPlain n =
    let w = decimal (suc n) n in
    let d = decimal-IsDigits (suc n) n in
    record {
      part = digits-IsPart w d;
      nonempty = text_apart w "" (decimal-ne n n);
      no_dot = text_apart w "." (λ e. let d' : IsDigits "." = subst IsDigits e d in omega arith);
      no_dots = text_apart w ".." (λ e. let d' : IsDigits ".." = subst IsDigits e d in omega arith);
    }
