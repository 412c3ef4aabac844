-- ===== src/Printing/Prices.antt =====
-- `_format_price` of qorder_api/printing, which both printers have word for word, and reading it back.
use goi_mon.Prelude.{
  ℕ, zero, suc, ◌+◌, ◌-◌, ◌*◌, ◌<◌, String, Bool, true, false, ◌&&◌, ◌==◌, leb, ltb, ◌≡◌, refl, ap,
  ◌∙◌, arith, if◌then◌else◌, ◌<>◌, inl, inr, Bool-cases,
}
use Prim.Native.Nat.{◌/◌, ◌%◌}
use Prim.Native.Char.{Char, code}
use Prim.Native.String as Text
use text.Mathlib.Text.{◌==◌ as str_eq}

unfoldable pub digit : ℕ → Char
digit d =
    if d == 0
    then "0"
    else if d == 1
    then "1"
    else if d == 2
    then "2"
    else if d == 3
    then "3"
    else if d == 4
    then "4"
    else if d == 5
    then "5"
    else if d == 6
    then "6"
    else if d == 7
    then "7"
    else if d == 8
    then "8"
    else "9"

-- The digits of n in front of `out`, the last first, with a comma in front of the k-th, if k is 3; the
-- first argument is fuel, and n + 1 is enough.
unfoldable pub digits : ℕ → Bool → ℕ → ℕ → String → String
unfolding digit
digits zero grouped k n out = out
digits (suc f) grouped k n out =
    let full = grouped && k == 3 in
    let out₁ = if full then Text.◌∷◌ "," out else out in
    let out₂ = Text.◌∷◌ (digit (n % 10)) out₁ in
    let rest = digits f grouped (if full then 1 else k + 1) (n / 10) out₂ in
    if ltb n 10 then out₂ else rest

-- str(n)
unfoldable pub show : ℕ → String
show n = digits (n + 1) false 0 n ""

-- f"{n:,}"
unfoldable pub thousands : ℕ → String
thousands n = digits (n + 1) true 0 n ""

-- s.replace(",", ".")
unfoldable pub dotted : String → String
dotted Text.[] = Text.[]
dotted (Text.◌∷◌ c s) =
    let rest = dotted s in if code c == b',' then Text.◌∷◌ "." rest else Text.◌∷◌ c rest

-- Two digits.
abbrev pub hundredths : ℕ → String
hundredths n = Text.◌∷◌ (digit (n / 10 % 10)) (Text.◌∷◌ (digit (n % 10)) Text.[])

-- The amount is in hundredths; `int(amount)` drops them.
unfoldable pub format_price : ℕ → String → String
format_price amount currency =
    if str_eq currency "VND"
    then dotted (thousands (amount / 100) <> "đ")
    else show (amount / 100) <> ("." <> (hundredths amount <> (" " <> currency)))

abbrev is_digit : Char → Bool
is_digit c = leb b'0' (code c) && leb (code c) b'9'

-- A reader's view of a price: the number that the digits spell, whatever stands between them.
unfoldable pub read_from : ℕ → String → ℕ
read_from n Text.[] = n
read_from n (Text.◌∷◌ c s) = read_from (if is_digit c then n * 10 + (code c - b'0') else n) s

unfoldable all_below : (ℕ → Bool) → ℕ → Bool
all_below test zero = true
all_below test (suc n) = test n && all_below test n

all_below_lem : (test : ℕ → Bool) (n d : ℕ) → all_below test n ≡ true → d < n → test d ≡ true
unfolding all_below
all_below_lem test zero d h bound = ground arith
all_below_lem test (suc n) d h bound = elim (Bool-cases (d == n)) [
  | inl same ↦ rw (the_same same) (ground arith)
  | inr other ↦ all_below_lem test n d (ground arith) (ground arith)
]
  where
    the_same : d == n ≡ true → d ≡ n
    the_same h = ground arith

code-digit : (d : ℕ) → d < 10 → code (digit d) ≡ b'0' + d
unfolding digit all_below
code-digit d h =
    let test = all_below_lem (λ d. code (digit d) == b'0' + d) 10 d refl h in ground arith

read_digit :
    (d n : ℕ) (s : String) → d < 10 → read_from n (Text.◌∷◌ (digit d) s) ≡ read_from (n * 10 + d) s
unfolding digit read_from
read_digit d n s h = ap (λ r. read_from r s) (reading (code (digit d)) (code-digit d h))
  where
    reading :
        (c : ℕ)
        → c ≡ b'0' + d
        → (if leb b'0' c && leb c b'9' then n * 10 + (c - b'0') else n) ≡ n * 10 + d
    reading c e = ground arith

read_grouped :
    (full : Bool) (n : ℕ) (out : String)
    → read_from n (if full then Text.◌∷◌ "," out else out) ≡ read_from n out
unfolding read_from
read_grouped false n out = refl
read_grouped true n out = refl

-- A last digit, and the comma that may follow it.
read_last :
    (full : Bool) (n m : ℕ) (out : String)
    → m ≡ n / 10
    → read_from m (Text.◌∷◌ (digit (n % 10)) (if full then Text.◌∷◌ "," out else out))
      ≡ read_from n out
read_last full n m out e =
    read_digit (n % 10) m (if full then Text.◌∷◌ "," out else out) (omega arith)
    ∙ ap (λ r. read_from r (if full then Text.◌∷◌ "," out else out)) (whole e)
    ∙ read_grouped full n out
  where
    whole : m ≡ n / 10 → m * 10 + n % 10 ≡ n
    whole e = omega arith

read-digits :
    (f : ℕ) (grouped : Bool) (k n : ℕ) (out : String)
    → n < f
    → read_from 0 (digits f grouped k n out) ≡ read_from n out
unfolding digits
read-digits zero grouped k n out h = ground arith
read-digits (suc f) grouped k n out h =
    let full = grouped && k == 3 in
    let out₂ = Text.◌∷◌ (digit (n % 10)) (if full then Text.◌∷◌ "," out else out) in
    elim (Bool-cases (ltb n 10)) [
      | inl small ↦ (rw small (read_last full n 0 out (ground arith)))
      | inr large ↦ rw large (
          read-digits f grouped (if full then 1 else k + 1) (n / 10) out₂ (ground arith)
          ∙ read_last full n (n / 10) out refl)
    ]

unfoldable NoDigits : String → Type 0
NoDigits s = (n : ℕ) → read_from n s ≡ n

read-<> : (n : ℕ) (s t : String) → NoDigits t → read_from n (s <> t) ≡ read_from n s
unfolding read_from NoDigits
read-<> n Text.[] t h = h n
read-<> n (Text.◌∷◌ c s) t h = read-<> (if is_digit c then n * 10 + (code c - b'0') else n) s t h

read-dotted : (n : ℕ) (s : String) → read_from n (dotted s) ≡ read_from n s
unfolding read_from dotted
read-dotted n Text.[] = refl
read-dotted n (Text.◌∷◌ c s) = elim (Bool-cases (code c == b',')) [
  | inl comma ↦ rw comma (rw (not_digit comma) (read-dotted n s))
  | inr other ↦ rw other (read-dotted (if is_digit c then n * 10 + (code c - b'0') else n) s)
]
  where
    not_digit : (code c == b',') ≡ true → is_digit c ≡ false
    not_digit e = ground arith

-- Reading the digits of a price in VND, as it is printed with dots between the groups of three,
-- gives back the amount without its hundredths.
pub format_price_dong : (amount : ℕ) → read_from 0 (format_price amount "VND") ≡ amount / 100
unfolding format_price thousands read_from NoDigits
format_price_dong amount =
    read-dotted 0 (thousands (amount / 100) <> "đ")
    ∙ read-<> 0 (thousands (amount / 100)) "đ" (λ n. refl)
    ∙ read-digits (amount / 100 + 1) true 0 (amount / 100) "" (omega arith)
