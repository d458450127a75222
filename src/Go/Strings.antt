-- ===== src/Go/Strings.antt =====
-- The functions of the packages strings and sort that the program calls.
-- Case folding is that of ASCII: a byte outside A-Z and a-z stays as it is.
pub mod Laws
use fedbox.Prelude.{
  ℕ, zero, suc, ◌+◌, ◌-◌, ◌≡◌, refl, Bool, true, false, ◌&&◌, ◌||◌, List, [], ◌∷◌, ◌++◌, arith,
  Text, codes, nat_beq, leb, length, if◌then◌else◌,
}

abbrev to_lower_byte : ℕ → ℕ
to_lower_byte c = if leb b'A' c && leb c b'Z' then c + 32 else c

abbrev to_upper_byte : ℕ → ℕ
to_upper_byte c = if leb b'a' c && leb c b'z' then c - 32 else c

-- strings.ToLower
unfoldable pub to_lower : Text → Text
to_lower [] = []
to_lower (c ∷ s) = to_lower_byte c ∷ to_lower s

-- strings.ToUpper
unfoldable pub to_upper : Text → Text
to_upper [] = []
to_upper (c ∷ s) = to_upper_byte c ∷ to_upper s

-- strings.HasPrefix, its arguments in Go's order
unfoldable pub has_prefix : Text → Text → Bool
has_prefix s [] = true
has_prefix [] (d ∷ p) = false
has_prefix (c ∷ s) (d ∷ p) = nat_beq c d && has_prefix s p

-- strings.Contains
unfoldable pub str_contains : Text → Text → Bool
unfolding has_prefix
str_contains [] sub = has_prefix [] sub
str_contains (c ∷ s) sub = has_prefix (c ∷ s) sub || str_contains s sub

abbrev pub push_head : ℕ → List Text → List Text
push_head c [] = (c ∷ []) ∷ []
push_head c (p ∷ ps) = (c ∷ p) ∷ ps

-- strings.Split at a separator of one byte
unfoldable pub split : Text → ℕ → List Text
split [] sep = [] ∷ []
split (c ∷ s) sep = let rest = split s sep in if nat_beq c sep then [] ∷ rest else push_head c rest

-- strings.Join
unfoldable pub join : List Text → Text → Text
join [] sep = []
join (p ∷ []) sep = p
join (p ∷ q ∷ ps) sep = p ++ (sep ++ join (q ∷ ps) sep)

-- strings.TrimLeft with a cut set of one byte
unfoldable pub trim_left : Text → ℕ → Text
trim_left [] c = []
trim_left (d ∷ s) c = let rest = trim_left s c in if nat_beq d c then rest else d ∷ s

-- The rest of a replacement, with the bytes of a match that are still to be skipped.
replace_from : ℕ → Text → Text → Text → Text
replace_from skip [] old new = []
replace_from (suc skip) (c ∷ s) old new = replace_from skip s old new
replace_from zero (c ∷ s) old new =
    let here = new ++ replace_from (length old - 1) s old new in
    let past = c ∷ replace_from 0 s old new in if has_prefix (c ∷ s) old then here else past

-- strings.ReplaceAll of a text that is not empty
unfoldable pub replace_all : Text → Text → Text → Text
unfolding replace_from has_prefix
replace_all s old new = replace_from 0 s old new

drop_bytes : ℕ → Text → Text
drop_bytes zero s = s
drop_bytes (suc n) [] = []
drop_bytes (suc n) (c ∷ s) = drop_bytes n s

-- strings.Replace with a count of 1
unfoldable pub replace_first : Text → Text → Text → Text
unfolding has_prefix drop_bytes
replace_first [] old new = []
replace_first (c ∷ s) old new =
    let rest = replace_first s old new in
    if has_prefix (c ∷ s) old then new ++ drop_bytes (length old) (c ∷ s) else c ∷ rest

-- to_lower twice is to_lower once
to_lower_idem : (s : Text) → to_lower (to_lower s) ≡ to_lower s
unfolding to_lower
to_lower_idem [] = refl
to_lower_idem (c ∷ s) = ground (arith, to_lower_idem s)

tests :
    (to_lower (codes "ProxyURL") ≡ codes "proxyurl")
    × (str_contains (codes "preprod") (codes "prod") ≡ true)
    × (split (codes "/a//b") b'/' ≡ [] ∷ codes "a" ∷ [] ∷ codes "b" ∷ [])
    × (replace_all (codes "a%env%-%env%") (codes "%env%") (codes "qa") ≡ codes "aqa-qa")
    × (replace_first (codes "http://http://x") (codes "http://") [] ≡ codes "http://x")
unfolding to_lower str_contains split replace_all replace_first
tests = (refl, refl, refl, refl, refl)
