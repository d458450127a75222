-- ===== src/Go/Decimal/Laws.antt =====
-- Reading what was printed, and the range of what is read.
use fedbox.Prelude.{
  ℕ, zero, suc, ◌+◌, ◌-◌, ◌*◌, ◌/◌, ◌%◌, ◌≤◌, ◌<◌, ◌≡◌, refl, ◌≢◌, [], ◌∷◌, arith, Text,
}
use fedbox.Go.Decimal.{emit, append_uint, parsed, max_uint32, scan, parse_uint32, value}

scan_last :
    (n : ℕ) (out : Text) → n ≤ max_uint32 → scan ((b'0' + n % 10) ∷ out) (n / 10) ≡ scan out n
unfolding scan
scan_last n out h = ground arith

scan-emit :
    (fuel n : ℕ) (out : Text) → n < fuel → n ≤ max_uint32 → scan (emit fuel n out) 0 ≡ scan out n
unfolding emit
scan-emit zero n out h fits = absurd (omega arith)
scan-emit (suc fuel) n out h fits =
    ground (arith, scan_last n out fits, scan-emit fuel (n / 10) ((b'0' + n % 10) ∷ out))

emit-ne-nil : (fuel n c : ℕ) (out : Text) → emit fuel n (c ∷ out) ≢ []
unfolding emit
emit-ne-nil zero n c out = ground arith
emit-ne-nil (suc fuel) n c out = ground (arith, emit-ne-nil fuel (n / 10) (b'0' + n % 10) (c ∷ out))

pub append_uint-ne-nil : (n : ℕ) → append_uint n ≢ []
unfolding append_uint emit
append_uint-ne-nil n = ground (arith, emit-ne-nil n (n / 10) (b'0' + n % 10) [])

parse_uint32-scan : (s : Text) → s ≢ [] → parse_uint32 s ≡ scan s 0
unfolding parse_uint32
parse_uint32-scan [] h = absurd (h refl)
parse_uint32-scan (c ∷ s) h = refl

pub parse_uint32-append_uint : (n : ℕ) → n ≤ max_uint32 → parse_uint32 (append_uint n) ≡ parsed n
unfolding append_uint scan
parse_uint32-append_uint n fits =
    ground (arith, parse_uint32-scan (append_uint n) (append_uint-ne-nil n), scan-emit (suc n) n [])

value-scan-le : (s : Text) (n : ℕ) → n ≤ max_uint32 → value (scan s n) ≤ max_uint32
unfolding scan
value-scan-le [] n h = h
value-scan-le (c ∷ s) n h = ground (arith, value-scan-le s (n * 10 + (c - b'0')))

pub value-parse_uint32-le : (s : Text) → value (parse_uint32 s) ≤ max_uint32
unfolding parse_uint32
value-parse_uint32-le [] = omega arith
value-parse_uint32-le (c ∷ s) = value-scan-le (c ∷ s) 0 (omega arith)
