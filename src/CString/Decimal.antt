-- ===== src/CString/Decimal.antt =====
-- What `%d` prints of a natural number, and what strtol reads of it.
use native.Mathlib.Nat.{pow-suc}
use spp_tmp.Base.{
  ℕ, zero, suc, ◌+◌, ◌*◌, ◌/◌, ◌%◌, ◌^◌, ◌≤◌, ◌<◌, ◌≡◌, refl, sym, ap, ◌∙◌, subst, inl, inr, Bool,
  true, false, ◌||◌, some, List, [], ◌∷◌, ◌++◌, ◌==◌, if◌then◌else◌, ltb, arith, Bool-cases, length,
  append-nil,
}
use spp_tmp.CString.Tokens.{Lacks, IsWord}
use spp_tmp.CString.{
  between, digit_val, digits, number, based, is_hex, starts_zero, skip_space, sign, valued, convert,
}

-- The digits of `n` before `acc`. The number of digits is at most `n + 1`, so that much fuel is enough.
unfoldable pub dec_onto : ℕ → ℕ → List ℕ → List ℕ
dec_onto zero n acc = acc
dec_onto (suc f) n acc =
    let more = dec_onto f (n / 10) ((b'0' + n % 10) ∷ acc) in
    if ltb n 10 then (b'0' + n) ∷ acc else more

unfoldable pub dec : ℕ → List ℕ
unfolding dec_onto
dec n = dec_onto (n + 1) n []

pub dec_onto-append :
    (f n : ℕ) (acc ys : List ℕ) → dec_onto f n acc ++ ys ≡ dec_onto f n (acc ++ ys)
unfolding dec_onto
dec_onto-append zero n acc ys = refl
dec_onto-append (suc f) n acc ys = elim (Bool-cases (ltb n 10)) [
  | inl e ↦ rw e refl
  | inr e ↦ rw e (dec_onto-append f (n / 10) ((b'0' + n % 10) ∷ acc) ys)
]

-- No number goes on here.
abbrev pub Stops : List ℕ → Type 0
Stops [] = Unit {0}
Stops (c ∷ cs) = (ltb (digit_val c) 10 ≡ false) × ((c == b'x' || c == b'X') ≡ false)

digit_of : (d : ℕ) → d < 10 → digit_val (b'0' + d) ≡ d
digit_of d h = ground arith

digits_step :
    (acc d : ℕ) (ys : List ℕ)
    → d < 10
    → digits 10 acc ((b'0' + d) ∷ ys) ≡ digits 10 (acc * 10 + d) ys
unfolding digits
digits_step acc d ys h = let e = digit_of d h in rw (e, digits) (rw (lt_ltb d h) refl)
  where
    lt_ltb : (d : ℕ) → d < 10 → ltb d 10 ≡ true
    lt_ltb d h = ground arith

digits-dec_onto : (f n : ℕ) (ys : List ℕ) → n < f → digits 10 0 (dec_onto f n ys) ≡ digits 10 n ys
unfolding dec_onto
digits-dec_onto zero n ys h = absurd (omega arith)
digits-dec_onto (suc f) n ys h = elim (Bool-cases (ltb n 10)) [
  | inl e ↦ rw e (digits_step 0 n ys (ground arith) ∙ ap (λ m. digits 10 m ys) (zero_left n))
  | inr e ↦ rw e (
      digits-dec_onto f (n / 10) ((b'0' + n % 10) ∷ ys) (ground arith)
      ∙ digits_step (n / 10) (n % 10) ys (omega arith)
      ∙ ap (λ m. digits 10 m ys) (div_mod n))
]
  where
    zero_left : (n : ℕ) → 0 * 10 + n ≡ n
    zero_left n = omega arith

    div_mod : (n : ℕ) → n / 10 * 10 + n % 10 ≡ n
    div_mod n = omega arith

-- A run that stops leaves its value and the rest.
pub digits_stop : (n : ℕ) (ys : List ℕ) → Stops ys → digits 10 n ys ≡ (n, ys)
unfolding digits
digits_stop n [] h = refl
digits_stop n (c ∷ cs) h = rw (h.0) refl

-- The first digit is not 0, unless the number is.
pub dec_onto_head :
    (f n : ℕ) (ys : List ℕ)
    → n < f
    → (c : ℕ) × (t : List ℕ) × (dec_onto f n ys ≡ c ∷ t)
      × (b'0' ≤ c)
      × (c ≤ b'9')
      × (0 < n → b'0' < c)
unfolding dec_onto
dec_onto_head zero n ys h = absurd (omega arith)
dec_onto_head (suc f) n ys h = elim (Bool-cases (ltb n 10)) [
  | inl e ↦ (b'0' + n, ys, rw e refl, omega arith, ground arith, λ p. omega arith)
  | inr e ↦
      let (c, t, eq, lo, hi, pos) =
        dec_onto_head f (n / 10) ((b'0' + n % 10) ∷ ys) (ground arith) in
      (c, t, rw e eq, lo, hi, λ p. pos (ground arith))
]

number-digit :
    (base c : ℕ) (t : List ℕ)
    → ltb (digit_val c) base ≡ true
    → number base (c ∷ t) ≡ some (digits base 0 (c ∷ t))
unfolding number
number-digit base c t h = rw h refl

is_hex_nonzero : (c : ℕ) (t : List ℕ) → b'0' < c → is_hex (c ∷ t) ≡ false
unfolding is_hex
is_hex_nonzero c [] h = refl
is_hex_nonzero c (x ∷ []) h = refl
is_hex_nonzero c (x ∷ y ∷ t) h = ground arith

is_hex_zero : (ys : List ℕ) → Stops ys → is_hex (b'0' ∷ ys) ≡ false
unfolding is_hex
is_hex_zero [] h = refl
is_hex_zero (x ∷ []) h = refl
is_hex_zero (x ∷ y ∷ t) h = let e = h.1 in ground arith

starts_zero_nonzero : (c : ℕ) (t : List ℕ) → b'0' < c → starts_zero (c ∷ t) ≡ false
unfolding starts_zero
starts_zero_nonzero c t lo = ground arith

number-decimal :
    (c : ℕ) (t : List ℕ) → b'0' ≤ c → c ≤ b'9' → number 10 (c ∷ t) ≡ some (digits 10 0 (c ∷ t))
unfolding number
number-decimal c t lo hi = rw (is_digit c lo hi) refl
  where
    is_digit : (c : ℕ) → b'0' ≤ c → c ≤ b'9' → ltb (digit_val c) 10 ≡ true
    is_digit c lo hi = ground arith

based-nonzero :
    (c : ℕ) (t : List ℕ) → b'0' < c → c ≤ b'9' → based 0 (c ∷ t) ≡ some (digits 10 0 (c ∷ t))
unfolding based
based-nonzero c t lo hi = rw (is_hex_nonzero c t lo) (
    ap (λ (b : Bool). number (if b then 8 else 10) (c ∷ t)) (starts_zero_nonzero c t lo)
    ∙ number-decimal c t (omega arith) hi)

based-zero : (ys : List ℕ) → Stops ys → based 0 (b'0' ∷ ys) ≡ some (0, ys)
unfolding based starts_zero number digits
based-zero ys stop = rw (is_hex_zero ys stop) (ap some (octal ys stop))
  where
    octal : (ys : List ℕ) → Stops ys → digits 8 0 ys ≡ (0, ys)
    octal [] h = refl
    octal (c ∷ cs) h =
        let e = h.0 in let d : ltb (digit_val c) 8 ≡ false = ground arith in rw d refl

-- The number that was printed is read back, with what is behind it.
pub based-dec : (n : ℕ) (ys : List ℕ) → Stops ys → based 0 (dec n ++ ys) ≡ some (n, ys)
unfolding dec dec_onto
based-dec zero ys stop = based-zero ys stop
based-dec (suc n) ys stop =
    let (c, t, e, lo, hi, pos) = dec_onto_head (suc n + 1) (suc n) ys (omega arith) in
    subst (λ s. based 0 s ≡ some (suc n, ys)) (sym (dec_onto-append (suc n + 1) (suc n) [] ys))
      (rw e (
        based-nonzero c t (pos (omega arith)) hi
        ∙ ap some (
            ap (digits 10 0) (sym e)
            ∙ digits-dec_onto (suc n + 1) (suc n) ys (omega arith)
            ∙ digits_stop (suc n) ys stop)))

sign-digit : (c : ℕ) (t : List ℕ) → b'0' ≤ c → sign (skip_space (c ∷ t)) ≡ (false, c ∷ t)
unfolding sign skip_space
sign-digit c t lo = rw (not_space c lo) (rw (not_minus c lo) (rw (not_plus c lo) refl))
  where
    not_space : (c : ℕ) → b'0' ≤ c → (between 9 13 c || c == b' ') ≡ false
    not_space c lo = ground arith

    not_minus : (c : ℕ) → b'0' ≤ c → (c == b'-') ≡ false
    not_minus c lo = ground arith

    not_plus : (c : ℕ) → b'0' ≤ c → (c == b'+') ≡ false
    not_plus c lo = ground arith

pub dec_head :
    (n : ℕ) (ys : List ℕ) → (c : ℕ) × (t : List ℕ) × (dec n ++ ys ≡ c ∷ t) × (b'0' ≤ c) × (c ≤ b'9')
unfolding dec
dec_head n ys =
    let (c, t, e, lo, hi, pos) = dec_onto_head (n + 1) n ys (omega arith) in
    (c, t, dec_onto-append (n + 1) n [] ys ∙ e, lo, hi)

pub convert_parts :
    (value : Bool → ℕ → ℕ) (base : ℕ) (s : List ℕ) (neg : Bool) (t : List ℕ) (m : ℕ) (rest : List ℕ)
    → sign (skip_space s) ≡ (neg, t)
    → based base t ≡ some (m, rest)
    → convert value base s ≡ some (value neg m, rest)
unfolding convert valued
convert_parts value base s neg t m rest e b = ap (valued value base) e ∙ rw (b, valued) refl

pub convert-dec :
    (value : Bool → ℕ → ℕ) (n : ℕ) (ys : List ℕ)
    → Stops ys
    → convert value 0 (dec n ++ ys) ≡ some (value false n, ys)
convert-dec value n ys stop =
    let (c, t, e, lo, hi) = dec_head n ys in
    convert_parts value 0 (dec n ++ ys) false (c ∷ t) n ys
      (ap (λ s. sign (skip_space s)) e ∙ sign-digit c t lo)
      (ap (based 0) (sym e) ∙ based-dec n ys stop)

Lacks-dec_onto :
    (d f n : ℕ) (ys : List ℕ) → between b'0' b'9' d ≡ false → Lacks d ys → Lacks d (dec_onto f n ys)
unfolding dec_onto
Lacks-dec_onto d zero n ys h l = l
Lacks-dec_onto d (suc f) n ys h l = elim (Bool-cases (ltb n 10)) [
  | inl e ↦ rw e (ground arith, l)
  | inr e ↦ rw e (Lacks-dec_onto d f (n / 10) ((b'0' + n % 10) ∷ ys) h (is_not n d h, l))
]
  where
    is_not : (n d : ℕ) → between b'0' b'9' d ≡ false → ((b'0' + n % 10) == d) ≡ false
    is_not n d h = ground arith

-- A byte that is no digit does not stand in the decimal digits of a number.
pub Lacks-dec : (d n : ℕ) → between b'0' b'9' d ≡ false → Lacks d (dec n)
unfolding dec
Lacks-dec d n h = Lacks-dec_onto d (n + 1) n [] h tt

pub IsWord-dec : (d n : ℕ) → between b'0' b'9' d ≡ false → IsWord d (dec n)
IsWord-dec d n h = word (dec_head n []) (Lacks-dec d n h)
  where
    word :
        ((c : ℕ) × (t : List ℕ) × (dec n ++ [] ≡ c ∷ t) × (b'0' ≤ c) × (c ≤ b'9'))
        → Lacks d (dec n)
        → IsWord d (dec n)
    word (c, t, e, _, _) l =
        let e' = sym (append-nil (dec n)) ∙ e in subst (IsWord d) (sym e') (subst (Lacks d) e' l)

-- A number below 10 to the power of k has at most k digits.
length-dec_onto :
    (k f n : ℕ) (acc : List ℕ) → n < 10 ^ suc k → length (dec_onto f n acc) ≤ length acc + suc k
unfolding dec_onto
length-dec_onto k zero n acc h = omega arith
length-dec_onto zero (suc f) n acc h = let e : ltb n 10 ≡ true = ground arith in rw e (omega arith)
length-dec_onto (suc k) (suc f) n acc h = elim (Bool-cases (ltb n 10)) [
  | inl e ↦ rw e (omega arith)
  | inr e ↦
      let p = pow-suc 10 (suc k) in
      rw e (omega (arith, length-dec_onto k f (n / 10) ((b'0' + n % 10) ∷ acc) (omega (arith, p))))
]

pub length-dec : (k n : ℕ) → n < 10 ^ suc k → length (dec n) ≤ suc k
unfolding dec
length-dec k n h = omega (arith, length-dec_onto k (n + 1) n [] h)
