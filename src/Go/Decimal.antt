-- ===== src/Go/Decimal.antt =====
-- Decimal numbers of strconv: AppendUint, Itoa of a number that is not negative, and ParseUint in
-- base 10 with 32 bits, whose value is 0 after a syntax error and 2 ^ 32 - 1 after a range error.
pub mod Laws
use fedbox.Prelude.{
  ℕ, zero, suc, ◌+◌, ◌-◌, ◌*◌, ◌/◌, ◌%◌, ◌^◌, ◌≡◌, refl, ◌||◌, List, [], ◌∷◌, Text, codes, ltb,
  nat_beq, if◌then◌else◌,
}

-- The last digit of `n` before `out`, after the digits before it; the fuel bounds their number.
emit : ℕ → ℕ → Text → Text
emit zero n out = out
emit (suc fuel) n out =
    let now = (b'0' + n % 10) ∷ out in
    let more = emit fuel (n / 10) now in if nat_beq (n / 10) 0 then now else more

-- A number has at most as many digits as its value and one.
unfoldable pub append_uint : ℕ → Text
unfolding emit
append_uint n = emit (suc n) n []

pub data Parsed : Type 0 where
  parsed : ℕ → Parsed
  syntax_error : Parsed
  range_error : Parsed

abbrev pub max_uint32 : ℕ
max_uint32 = 2 ^ 32 - 1

scan : Text → ℕ → Parsed
scan [] n = parsed n
scan (c ∷ s) n =
    let rest = scan s (n * 10 + (c - b'0')) in
    if ltb c b'0' || ltb b'9' c
    then syntax_error
    else if ltb max_uint32 (n * 10 + (c - b'0'))
    then range_error
    else rest

unfoldable pub parse_uint32 : Text → Parsed
unfolding scan
parse_uint32 [] = syntax_error
parse_uint32 (c ∷ s) = scan (c ∷ s) 0

-- The number that ParseUint returns beside its error
abbrev pub value : Parsed → ℕ
value (parsed n) = n
value syntax_error = 0
value range_error = max_uint32

tests :
    (append_uint 0 ≡ codes "0")
    × (append_uint 40500 ≡ codes "40500")
    × (parse_uint32 (codes "4294967295") ≡ parsed 4294967295)
    × (parse_uint32 (codes "4294967296") ≡ range_error)
    × (parse_uint32 (codes "-1") ≡ syntax_error)
unfolding append_uint parse_uint32
tests = (refl, refl, refl, refl, refl)
