-- ===== src/Sdk/Errors.antt =====
-- `parseContractError` of `sdk/src/errors.ts`: a contract error code found in the text of an RPC
-- error. The four regular expressions are one record each. None needs backtracking: a gap and a run
-- of digits are never followed by a character of their own class.
pub mod Parsing
use Prim.Native.String.{String}
use swift_remit.Prelude.{
  ℕ, ◌+◌, ◌-◌, ◌*◌, Bool, true, false, ◌||◌, Option, none, some, List, [], ◌∷◌, ◌==◌, if◌then◌else◌,
}
use swift_remit.Prelude.Dict.{Text}
use swift_remit.Prelude.Strings.{text, is_digit, is_space, lower}
use swift_remit.Sdk.Codes.{ErrorCode, number, error_message, all_codes}

-- `SwiftRemitError`
pub record SwiftRemitError : Type 0 where
  pub code : ErrorCode
  pub message : String
  pub raw_error : Text

-- The constructor of the class; every code has a message.
unfoldable pub swift_remit_error : ErrorCode → Text → SwiftRemitError
unfolding error_message
swift_remit_error c raw = record { code = c; message = error_message c; raw_error = raw }

-- An expression `lead gap mark (\d+) close`, under the flag `i`.
pub record Pattern : Type 0 where
  pub lead : Text
  pub in_gap : ℕ → Bool
  pub gap_min : ℕ
  pub mark : Text
  pub close : Text

abbrev no_gap : ℕ → Bool
no_gap c = false

abbrev colon_or_space : ℕ → Bool
colon_or_space c = c == b':' || is_space c

-- `patterns`
abbrev pub patterns : List Pattern
patterns =
    record {
      lead = text "ContractError(";
      in_gap = no_gap;
      gap_min = 0;
      mark = [];
      close = text ")";
    }
    ∷ record {
      lead = text "Contract,";
      in_gap = is_space;
      gap_min = 0;
      mark = text "#";
      close = [];
    }
    ∷ record {
      lead = text "contract_error";
      in_gap = colon_or_space;
      gap_min = 1;
      mark = [];
      close = [];
    }
    ∷ record {
      lead = text "Error(Contract,";
      in_gap = is_space;
      gap_min = 0;
      mark = [];
      close = text ")";
    }
    ∷ []

-- What follows a literal, at the head of a text.
strip : Text → Text → Option Text
strip [] t = some t
strip (p ∷ ps) [] = none
strip (p ∷ ps) (c ∷ t) = if lower p == lower c then strip ps t else none

-- The rest after a run of a class, which must have `least` characters at least.
skip_gap : (ℕ → Bool) → ℕ → Text → Option Text
skip_gap p least [] = if least == 0 then some [] else none
skip_gap p least (c ∷ t) =
    if p c then skip_gap p (least - 1) t else (if least == 0 then some (c ∷ t) else none)

-- `(\d+)` with `parseInt(…, 10)` of it: the value so far, and whether a digit was seen.
take_number : Bool → ℕ → Text → Option (ℕ × Text)
take_number seen n [] = if seen then some (n, []) else none
take_number seen n (c ∷ t) =
    if is_digit c
    then take_number true (n * 10 + (c - b'0')) t
    else (if seen then some (n, c ∷ t) else none)

infixl 5 ◌>>=◌
abbrev ◌>>=◌ {ℓ κ} : {A : Type ℓ} {B : Type κ} → Option A → (A → Option B) → Option B
none >>= f = none
some a >>= f = f a

-- The number that a pattern captures at the head of a text.
match_here : Pattern → Text → Option ℕ
unfolding strip skip_gap take_number
match_here p t = do
  after_lead ← strip p.lead t
  after_gap ← skip_gap p.in_gap p.gap_min after_lead
  after_mark ← strip p.mark after_gap
  found ← take_number false 0 after_mark
  after_close ← strip p.close found.1
  some found.0

-- `message.match(pattern)`: the leftmost match.
unfoldable pub match_first : Pattern → Text → Option ℕ
unfolding match_here
match_first p [] = match_here p []
match_first p (c ∷ t) =
    let rest = match_first p t in elim (match_here p (c ∷ t)) [ some n ↦ some n | none ↦ rest ]

-- `Object.values(ErrorCode).includes(code)`, with the code that has the number.
find_code : ℕ → List ErrorCode → Option ErrorCode
unfolding number
find_code n [] = none
find_code n (c ∷ cs) = if number c == n then some c else find_code n cs

unfoldable pub code_of : ℕ → Option ErrorCode
unfolding find_code
code_of n = find_code n all_codes

parse_from : List Pattern → Text → Option SwiftRemitError
unfolding match_first code_of swift_remit_error
parse_from [] message = none
parse_from (p ∷ ps) message =
    let rest = parse_from ps message in
    elim (match_first p message) [
      | none ↦ rest
      | some n ↦ elim (code_of n) [ some c ↦ some (swift_remit_error c message) | none ↦ rest ]
    ]

-- `parseContractError`, on the message of the error.
unfoldable pub parse_contract_error : Text → Option SwiftRemitError
unfolding parse_from
parse_contract_error = parse_from patterns
