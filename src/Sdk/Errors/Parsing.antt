-- ===== src/Sdk/Errors/Parsing.antt =====
-- What `parseContractError` finds in the texts in which the RPC layer reports a contract error.
use mathlib.Core.Path.{subst}
use swift_remit.Prelude.{
  ℕ, ◌≡◌, refl, sym, ap, ◌∙◌, ◌⊎◌, inl, inr, some, List, [], ◌∷◌, ◌++◌, ◌==◌, ==_iff, arith,
  Bool-cases, Option-cases,
}
use swift_remit.Prelude.Dict.{Text}
use swift_remit.Prelude.Strings.{text, decimal}
use swift_remit.Sdk.Codes.{ErrorCode, number, already_initialized, all_codes}
use swift_remit.Sdk.Errors.{
  SwiftRemitError, swift_remit_error, Pattern, patterns, match_first, find_code, code_of,
  parse_from, parse_contract_error,
}

-- The code with a code's number is that code: no two codes share a number.
pub code_of-number : (c : ErrorCode) → code_of (number c) ≡ some c
unfolding code_of number
code_of-number already_initialized = refl
code_of-number _ = refl

find_code_sound :
    (n : ℕ) (cs : List ErrorCode) {c : ErrorCode} → find_code n cs ≡ some c → number c ≡ n
unfolding find_code
find_code_sound n [] h = cc
find_code_sound n (d ∷ cs) h = elim (Bool-cases (number d == n)) [
  | inl e ↦ ground (arith, ==_iff (number d) n)
  | inr e ↦ find_code_sound n cs (rw e at h)
]

-- A number stands for a code exactly when it is the number of that code.
pub code_of_sound : (n : ℕ) {c : ErrorCode} → code_of n ≡ some c → number c ≡ n
unfolding code_of
code_of_sound n h = find_code_sound n all_codes h

-- "HostError: Value(Status(ContractError(4)))"
abbrev pub host_error : ErrorCode → Text
host_error c = text "HostError: Value(Status(ContractError(" ++ decimal (number c) ++ text ")))"

-- "Simulation failed: Error(Contract, #4)"
abbrev pub simulation_error : ErrorCode → Text
simulation_error c = text "Simulation failed: Error(Contract, #" ++ decimal (number c) ++ text ")"

pub parse-host_error :
    (c : ErrorCode)
    → parse_contract_error (host_error c) ≡ some (swift_remit_error c (host_error c))
unfolding parse_contract_error number decimal
parse-host_error already_initialized = refl
parse-host_error _ = refl

pub parse-simulation_error :
    (c : ErrorCode)
    → parse_contract_error (simulation_error c) ≡ some (swift_remit_error c (simulation_error c))
unfolding parse_contract_error number decimal
parse-simulation_error already_initialized = refl
parse-simulation_error _ = refl

-- Both forms of text in which the SDK reports a contract error are read back: the parser returns
-- the error of that very code, with its message and the text as its raw error.
pub parse_reported :
    (c : ErrorCode)
    → (parse_contract_error (host_error c) ≡ some (swift_remit_error c (host_error c)))
      × (parse_contract_error (simulation_error c)
          ≡ some (swift_remit_error c (simulation_error c)))
parse_reported c = (parse-host_error c, parse-simulation_error c)

-- What a parsed error says: one of the patterns captured its number.
abbrev pub Reported : List Pattern → Text → SwiftRemitError → Type 0
Reported [] t e = ⊥
Reported (p ∷ ps) t e = (match_first p t ≡ some (number e.code)) ⊎ Reported ps t e

some_inj : {a b : SwiftRemitError} → some a ≡ some b → a ≡ b
some_inj h = cc

-- The case in which the pattern's number is the number of a code.
captured :
    (p : Pattern) (ps : List Pattern) (t : Text) (n : ℕ) (c : ErrorCode) {e : SwiftRemitError}
    → match_first p t ≡ some n
    → code_of n ≡ some c
    → some (swift_remit_error c t) ≡ some e
    → Reported (p ∷ ps) t e × (e ≡ swift_remit_error e.code t)
unfolding swift_remit_error
captured p ps t n c found known h =
    subst (λ e. Reported (p ∷ ps) t e × (e ≡ swift_remit_error e.code t)) (some_inj h)
      (inl (found ∙ ap some (sym (code_of_sound n known))), refl)

parse_from_sound :
    (ps : List Pattern) (t : Text) {e : SwiftRemitError}
    → parse_from ps t ≡ some e
    → Reported ps t e × (e ≡ swift_remit_error e.code t)
unfolding parse_from
parse_from_sound [] t h = cc
parse_from_sound (p ∷ ps) t h = elim (Option-cases (match_first p t)) [
  | inl miss ↦ let r = parse_from_sound ps t (rw (miss, parse_from) at h) in (inr r.0, r.1)
  | inr (n, found) ↦ elim (Option-cases (code_of n)) [
    | inl unknown ↦
        let r = parse_from_sound ps t (rw (found, unknown, parse_from) at h) in (inr r.0, r.1)
    | inr (c, known) ↦ captured p ps t n c found known (rw (found, known, parse_from) at h)
  ]
]

-- The parser makes nothing up: the error that it returns carries a number that one of the four
-- patterns captured, the message of that code, and the whole text as its raw error.
pub parse_contract_error_sound :
    (t : Text) {e : SwiftRemitError}
    → parse_contract_error t ≡ some e
    → Reported patterns t e × (e ≡ swift_remit_error e.code t)
unfolding parse_contract_error
parse_contract_error_sound t h = parse_from_sound patterns t h
