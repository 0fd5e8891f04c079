-- ===== src/Strconv.antt =====
-- Go's strconv, as far as the repository uses it: a decimal text, and its parse into 64 bits.
use file_cipher_core.Prelude.{
  ℕ, zero, suc, ◌+◌, ◌-◌, ◌*◌, ◌/◌, ◌%◌, ◌^◌, ◌≤◌, ◌<◌, ◌≡◌, refl, ◌&&◌, Option, none, some, [],
  ◌∷◌, ◌++◌, leb, ltb, ◌==◌, if◌then◌else◌, arith, ap, Bool-cases, inl, inr, false,
}
use file_cipher_core.Entity.{Bytes}
use file_cipher_core.Retry.{ℤ, pos, negsuc}

-- FormatInt(n, 10) of a number that is not negative; `fuel` bounds the digits in front of the last.
print_digits : ℕ → ℕ → Bytes
print_digits zero n = (48 + n % 10) ∷ []
print_digits (suc fuel) n =
    let front = print_digits fuel (n / 10) in
    if ltb n 10 then (48 + n) ∷ [] else front ++ (48 + n % 10) ∷ []

unfoldable pub print_int : ℕ → Bytes
unfolding print_digits
print_int n = print_digits n n

-- The digits of a text, behind those that were read already.
parse_digits : ℕ → Bytes → Option ℕ
parse_digits n [] = some n
parse_digits n (c ∷ rest) =
    let more = parse_digits (n * 10 + (c - 48)) rest in if leb 48 c && leb c 57 then more else none

parse_magnitude : Bytes → Option ℕ
unfolding parse_digits
parse_magnitude [] = none
parse_magnitude (c ∷ rest) = parse_digits 0 (c ∷ rest)

within : ℕ → (ℕ → ℤ) → Option ℕ → Option ℤ
within limit sign none = none
within limit sign (some n) = if ltb limit n then none else some (sign n)

minus : ℕ → ℤ
minus zero = pos 0
minus (suc n) = negsuc n

-- ParseInt(s, 10, 64), and Atoi where int has 64 bits; none stands for a syntax or a range error.
unfoldable pub parse_int : Bytes → Option ℤ
unfolding parse_magnitude within minus
parse_int [] = none
parse_int (c ∷ rest) =
    if c == b'-'
    then within (2 ^ 63) minus (parse_magnitude rest)
    else if c == b'+'
    then within (2 ^ 63 - 1) pos (parse_magnitude rest)
    else within (2 ^ 63 - 1) pos (parse_magnitude (c ∷ rest))

parse_digits-snoc :
    (n m d : ℕ) (a : Bytes)
    → d < 10
    → parse_digits n a ≡ some m
    → parse_digits n (a ++ (48 + d) ∷ []) ≡ some (m * 10 + d)
unfolding parse_digits
parse_digits-snoc n m d [] small h = ground arith
parse_digits-snoc n m d (c ∷ a) small h =
    ground (arith, parse_digits-snoc (n * 10 + (c - 48)) m d a small)

parse_digits-print_digits : (fuel n : ℕ) → n ≤ fuel → parse_digits 0 (print_digits fuel n) ≡ some n
unfolding print_digits parse_digits
parse_digits-print_digits zero n h = ground arith
parse_digits-print_digits (suc fuel) n h = ground (
  arith,
  parse_digits-snoc 0 (n / 10) (n % 10) (print_digits fuel (n / 10)),
  parse_digits-print_digits fuel (n / 10),
)

-- The text begins with a digit.
record Digits (text : Bytes) : Type 0 where
  first : ℕ
  others : Bytes
  shape : text ≡ first ∷ others
  least : 48 ≤ first
  most : first ≤ 57

Digits-snoc : (a b : Bytes) → Digits a → Digits (a ++ b)
Digits-snoc a b d = record {
  first = d.first;
  others = d.others ++ b;
  shape = ap (λ l. l ++ b) d.shape;
  least = d.least;
  most = d.most;
}

print_digits-Digits : (fuel n : ℕ) → Digits (print_digits fuel n)
unfolding print_digits
print_digits-Digits zero n = record {
  first = 48 + n % 10;
  others = [];
  shape = refl;
  least = omega arith;
  most = omega arith;
}
print_digits-Digits (suc fuel) n = elim (Bool-cases (ltb n 10)) [
  | inl small ↦
      rw small record {
        first = 48 + n;
        others = [];
        shape = refl;
        least = omega arith;
        most = ground arith;
      }
  | inr big ↦ rw big (Digits-snoc _ _ (print_digits-Digits fuel (n / 10)))
]

parse_int-Digits :
    (text : Bytes) (n : ℕ)
    → Digits text
    → parse_digits 0 text ≡ some n
    → n < 2 ^ 63
    → parse_int text ≡ some (pos n)
unfolding parse_int
parse_int-Digits text n d h small = rw d.shape (
    let h' = rw d.shape at h in
    let no_minus : (d.first == b'-') ≡ false = (let l = d.least in ground arith) in
    let no_plus : (d.first == b'+') ≡ false = (let l = d.least in ground arith) in
    rw (no_minus, no_plus, h') (ground arith))

-- A number below 2^63 is read back from its text.
pub parse_int-print_int : (n : ℕ) → n < 2 ^ 63 → parse_int (print_int n) ≡ some (pos n)
unfolding print_int
parse_int-print_int n small =
    parse_int-Digits (print_digits n n) n (print_digits-Digits n n)
      (parse_digits-print_digits n n (omega arith)) small
