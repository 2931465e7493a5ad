-- ===== src/Prelude/Numbers.antt =====
-- `parseInt` with its own choice of the radix: spaces, a sign, `0x`, and as many digits as there are.
use swift_remit.Prelude.{
  ℕ, ◌+◌, ◌-◌, ◌*◌, ◌&&◌, Option, none, some, [], ◌∷◌, leb, ◌==◌, if◌then◌else◌,
}
use swift_remit.Prelude.Dict.{Text}
use swift_remit.Prelude.Int.{ℤ, pos, ◌-ℤ◌}
use swift_remit.Prelude.Strings.{is_digit, is_space, lower}

-- The value of a digit, for a radix up to 16.
unfoldable pub digit : ℕ → ℕ → Option ℕ
digit radix c =
    if is_digit c
    then some (c - b'0')
    else if radix == 16 && leb b'a' (lower c) && leb (lower c) b'f'
    then some (lower c - b'a' + 10)
    else none

-- The number read so far, and the text after it.
digits_from : ℕ → ℕ → Text → ℕ
unfolding digit
digits_from radix n [] = n
digits_from radix n (c ∷ t) = elim (digit radix c) [
  | none ↦ n
  | some d ↦ digits_from radix (n * radix + d) t
]

-- Without a first digit the result is NaN.
unfoldable pub digits : ℕ → Text → Option ℕ
unfolding digits_from digit
digits radix [] = none
digits radix (c ∷ t) = elim (digit radix c) [ none ↦ none | some d ↦ some (digits_from radix d t) ]

unfoldable pub magnitude : Text → Option ℕ
unfolding digits
magnitude (c ∷ d ∷ t) = if c == b'0' && lower d == b'x' then digits 16 t else digits 10 (c ∷ d ∷ t)
magnitude (c ∷ []) = digits 10 (c ∷ [])
magnitude [] = none

unfoldable pub skip_spaces : Text → Text
skip_spaces [] = []
skip_spaces (c ∷ t) = if is_space c then skip_spaces t else c ∷ t

unfoldable pub signed_number : Text → Option ℤ
unfolding magnitude
signed_number [] = none
signed_number (c ∷ t) =
    if c == b'-'
    then elim (magnitude t) [ none ↦ none | some n ↦ some (pos 0 -ℤ pos n) ]
    else elim (if c == b'+' then magnitude t else magnitude (c ∷ t)) [
      | none ↦ none
      | some n ↦ some (pos n)
    ]

-- `parseInt(t)`; no result is NaN.
unfoldable pub parse_int : Text → Option ℤ
unfolding signed_number skip_spaces
parse_int t = signed_number (skip_spaces t)
