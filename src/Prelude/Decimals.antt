-- ===== src/Prelude/Decimals.antt =====
-- Go's decimal text of a number, `%d`, `strconv.ParseInt` with base 10 and 32 bits, and `strings.Cut`
-- at a colon.
use Prim.Native.Char.{Char, code}
use Prim.Native.Nat.{ℕ, zero, suc, ◌+◌, ◌-◌, ◌*◌, ◌/◌, ◌%◌, ◌^◌, ◌≤◌, ◌<◌}
use Prim.Native.String.{String, ◌++◌ as append}
use mathlib.Core.Path.{◌≡◌, refl, sym, ap, ◌∙◌}
use mathlib.Core.Bool.{true, false, ◌||◌}
use mathlib.Core.Option.{Option, none, some}
use native.Mathlib.Omega.{arith}
use text.Mathlib.TextLemmas.{nil-append, cons-append}
use headcount.Prelude.Tests.{if◌then◌else◌, ltb, ◌==◌, if_elim}

abbrev digit : ℕ → Char
digit d =
    if d == 0
    then "0"
    else if d == 1
    then "1"
    else if d == 2
    then "2"
    else if d == 3
    then "3"
    else if d == 4
    then "4"
    else if d == 5
    then "5"
    else if d == 6
    then "6"
    else if d == 7
    then "7"
    else if d == 8
    then "8"
    else "9"

-- The digits of a number before a text, by the number of digits that are left.
emit : ℕ → ℕ → String → String
emit zero n out = out
emit (suc f) n out =
    let rest = emit f (n / 10) (String.◌∷◌ (digit (n % 10)) out) in if n == 0 then out else rest

-- A 32-bit number has at most ten digits.
unfoldable pub format_int : ℕ → String
unfolding emit
format_int n = if n == 0 then "0" else emit 10 n ""

scan : String → ℕ → Option ℕ
scan String.[] n = some n
scan (String.◌∷◌ c s) n =
    if ltb (code c) 48 || ltb 57 (code c) then none else scan s (n * 10 + (code c - 48))

abbrev parse_unsigned : String → Option ℕ
parse_unsigned String.[] = none
parse_unsigned (String.◌∷◌ c s) = scan (String.◌∷◌ c s) 0

abbrev as_positive : Option ℕ → Option (Option ℕ)
as_positive none = none
as_positive (some n) = if ltb n (2 ^ 31) then some (some n) else none

abbrev as_negative : Option ℕ → Option (Option ℕ)
as_negative none = none
as_negative (some n) = if n == 0 then some (some 0) else if ltb (2 ^ 31) n then none else some none

-- None is an error, and `some none` a number below zero.
unfoldable pub parse_int32 : String → Option (Option ℕ)
unfolding scan
parse_int32 String.[] = none
parse_int32 (String.◌∷◌ c s) =
    if code c == b'+'
    then as_positive (parse_unsigned s)
    else if code c == b'-'
    then as_negative (parse_unsigned s)
    else as_positive (scan (String.◌∷◌ c s) 0)

abbrev cut_after : Char → Option (String × String) → Option (String × String)
cut_after c none = none
cut_after c (some (before, after)) = some (String.◌∷◌ c before, after)

unfoldable pub cut_colon : String → Option (String × String)
cut_colon String.[] = none
cut_colon (String.◌∷◌ c s) = if code c == b':' then some ("", s) else cut_after c (cut_colon s)

abbrev IsDigit : Char → Type 0
IsDigit c = (48 ≤ code c) × (code c ≤ 57)

abbrev AreDigits : String → Type 0
AreDigits String.[] = Unit
AreDigits (String.◌∷◌ c s) = IsDigit c × AreDigits s

abbrev IsFilled : String → Type 0
IsFilled String.[] = ⊥
IsFilled (String.◌∷◌ c s) = Unit

code-digit : (d : ℕ) → d < 10 → code (digit d) ≡ 48 + d
code-digit zero small = refl
code-digit (suc zero) small = refl
code-digit (suc (suc zero)) small = refl
code-digit (suc (suc (suc zero))) small = refl
code-digit (suc (suc (suc (suc zero)))) small = refl
code-digit (suc (suc (suc (suc (suc zero))))) small = refl
code-digit (suc (suc (suc (suc (suc (suc zero)))))) small = refl
code-digit (suc (suc (suc (suc (suc (suc (suc zero))))))) small = refl
code-digit (suc (suc (suc (suc (suc (suc (suc (suc zero)))))))) small = refl
code-digit (suc (suc (suc (suc (suc (suc (suc (suc (suc zero))))))))) small = refl
code-digit (suc (suc (suc (suc (suc (suc (suc (suc (suc (suc d)))))))))) small =
    absurd (omega arith)

scan-digit : (n : ℕ) (out : String) → scan (String.◌∷◌ (digit (n % 10)) out) (n / 10) ≡ scan out n
unfolding scan
scan-digit n out =
    let is = code-digit (n % 10) (omega arith) in
    let fits : (ltb (code (digit (n % 10))) 48 || ltb 57 (code (digit (n % 10)))) ≡ false =
      tests_of (code (digit (n % 10))) (n % 10) is (omega arith) in
    let same : n / 10 * 10 + (code (digit (n % 10)) - 48) ≡ n =
      value_of (code (digit (n % 10))) n is in
    rw fits (ap (scan out) same)
  where
    tests_of : (c d : ℕ) → c ≡ 48 + d → d < 10 → (ltb c 48 || ltb 57 c) ≡ false
    tests_of c d is small = ground arith

    value_of : (c k : ℕ) → c ≡ 48 + k % 10 → k / 10 * 10 + (c - 48) ≡ k
    value_of c k is = omega arith

-- The bound that the digits left keep below.
abbrev ten_to : ℕ → ℕ
ten_to zero = 1
ten_to (suc f) = 10 * ten_to f

scan-emit : (f n : ℕ) (out : String) → n < ten_to f → scan (emit f n out) 0 ≡ scan out n
unfolding scan emit
scan-emit zero n out small = ap (scan out) (omega arith)
scan-emit (suc f) n out small =
    if_elim (λ s. scan s 0 ≡ scan out n) (n == 0) (λ is. ap (scan out) (ground arith))
      (λ _. scan-emit f (n / 10) _ (omega arith) ∙ scan-digit n out)

emit-AreDigits : (f n : ℕ) (out : String) → AreDigits out → AreDigits (emit f n out)
unfolding emit
emit-AreDigits zero n out all = all
emit-AreDigits (suc f) n out all =
    if_elim AreDigits (n == 0) (λ _. all)
      (λ _.
        let is = code-digit (n % 10) (omega arith) in
        emit-AreDigits f (n / 10) _ (bounds (code (digit (n % 10))) (n % 10) is (omega arith), all))
  where
    bounds : (c d : ℕ) → c ≡ 48 + d → d < 10 → (48 ≤ c) × (c ≤ 57)
    bounds c d is small = (omega arith, omega arith)

emit-IsFilled : (f n : ℕ) (out : String) → IsFilled out → IsFilled (emit f n out)
unfolding emit
emit-IsFilled zero n out filled = filled
emit-IsFilled (suc f) n out filled =
    if_elim IsFilled (n == 0) (λ _. filled) (λ _. emit-IsFilled f (n / 10) _ tt)

parse_int32-digits :
    (s : String) → AreDigits s → IsFilled s → parse_int32 s ≡ as_positive (scan s 0)
unfolding parse_int32
parse_int32-digits String.[] all filled = absurd filled
parse_int32-digits (String.◌∷◌ c s) ((above, below), all) filled =
    let no_plus : (code c == b'+') ≡ false = ground arith in
    let no_minus : (code c == b'-') ≡ false = ground arith in rw (no_plus, no_minus) refl

cut_colon-digits : (s t : String) → AreDigits s → cut_colon (append s (append ":" t)) ≡ some (s, t)
unfolding cut_colon
cut_colon-digits String.[] t all = rw (nil-append, cons-append, nil-append) refl
cut_colon-digits (String.◌∷◌ c s) t ((above, below), all) =
    let no_colon : (code c == b':') ≡ false = ground arith in
    let whole : append (String.◌∷◌ c s) (append ":" t) ≡ String.◌∷◌ c (append s (append ":" t)) =
      cons-append c s (append ":" t) in
    rw (whole, no_colon, cut_colon-digits s t all) refl

-- Where there is a digit to write, the text is not empty.
emit-IsFilled_some : (f n : ℕ) → n == 0 ≡ false → IsFilled (emit (suc f) n "")
unfolding emit
emit-IsFilled_some f n e = rw e (emit-IsFilled f (n / 10) _ tt)

emit_text :
    (f n : ℕ)
    → n < ten_to (suc f)
    → n == 0 ≡ false
    → AreDigits (emit (suc f) n "")
      × IsFilled (emit (suc f) n "")
      × (scan (emit (suc f) n "") 0 ≡ some n)
unfolding scan
emit_text f n small e =
    (emit-AreDigits (suc f) n "" tt, emit-IsFilled_some f n e, scan-emit (suc f) n "" small)

-- The text of a number: digits that are read back as the number.
abbrev Writes : ℕ → String → Type 0
Writes n s = AreDigits s × IsFilled s × (scan s 0 ≡ some n)

format_int-Writes : (n : ℕ) → n < 2 ^ 31 → Writes n (format_int n)
unfolding format_int scan
format_int-Writes n small =
    if_elim (Writes n) (n == 0)
      (λ e.
        let is : n ≡ 0 = ground arith in (((omega arith, omega arith), tt), tt, ap some (sym is)))
      (λ e. emit_text 9 n (omega arith) e)

pub parse_int32-format_int : (n : ℕ) → n < 2 ^ 31 → parse_int32 (format_int n) ≡ some (some n)
parse_int32-format_int n small =
    let (all, filled, is) = format_int-Writes n small in
    let fits : ltb n (2 ^ 31) ≡ true = ground arith in
    parse_int32-digits (format_int n) all filled ∙ ap as_positive is ∙ rw fits refl

pub cut_colon-format_int :
    (n : ℕ)
    → n < 2 ^ 31
    → (t : String) → cut_colon (append (format_int n) (append ":" t)) ≡ some (format_int n, t)
cut_colon-format_int n small t = cut_colon-digits (format_int n) t (format_int-Writes n small).0
