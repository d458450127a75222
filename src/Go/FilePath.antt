-- ===== src/Go/FilePath.antt =====
-- The functions of the packages path and path/filepath that the program calls, on Unix paths.
pub mod Laws
use fedbox.Prelude.{
  ◌≡◌, refl, Bool, false, ◌||◌, List, [], ◌∷◌, ◌++◌, reverse, Text, codes, ◌==◌, text_eq, nat_eq,
  if◌then◌else◌,
}
use fedbox.Go.Strings.{split, join}

-- filepath.IsAbs
abbrev pub is_abs : Text → Bool
is_abs [] = false
is_abs (c ∷ s) = c == b'/'

-- A step of Clean over the path's elements, on a stack with the last element at its head.
resolve_parent : Bool → List Text → List Text
resolve_parent rooted [] = if rooted then [] else codes ".." ∷ []
resolve_parent rooted (top ∷ stack) = if top == codes ".." then codes ".." ∷ top ∷ stack else stack

resolve : Bool → List Text → Text → List Text
unfolding resolve_parent
resolve rooted stack part =
    if part == [] || part == codes "."
    then stack
    else if part == codes ".."
    then resolve_parent rooted stack
    else part ∷ stack

resolve_all : Bool → List Text → List Text → List Text
resolve_all rooted stack [] = stack
resolve_all rooted stack (part ∷ parts) = resolve_all rooted (resolve rooted stack part) parts

or_dot : Text → Text
or_dot [] = codes "."
or_dot (c ∷ s) = c ∷ s

-- path.Clean and filepath.Clean
unfoldable pub clean : Text → Text
unfolding resolve_all resolve or_dot split join
clean p =
    let rooted = is_abs p in
    let path = join (reverse (resolve_all rooted [] (split p b'/'))) (codes "/") in
    if rooted then b'/' ∷ path else or_dot path

non_empty : List Text → List Text
non_empty [] = []
non_empty ([] ∷ ps) = non_empty ps
non_empty ((c ∷ p) ∷ ps) = (c ∷ p) ∷ non_empty ps

last_or : Text → List Text → Text
last_or d [] = d
last_or d (p ∷ ps) = last_or p ps

-- filepath.Base: the last element, "." for no path and "/" for slashes alone
unfoldable pub base : Text → Text
unfolding split non_empty last_or
base [] = codes "."
base (c ∷ s) = last_or (codes "/") (non_empty (split (c ∷ s) b'/'))

-- filepath.Join of two elements
unfoldable pub join_path : Text → Text → Text
unfolding clean
join_path [] [] = []
join_path [] (c ∷ s) = clean (c ∷ s)
join_path (c ∷ s) [] = clean (c ∷ s)
join_path (c ∷ s) (d ∷ t) = clean ((c ∷ s) ++ (b'/' ∷ d ∷ t))

tests :
    (clean (codes "/a/../../b//./c/") ≡ codes "/b/c")
    × (clean (codes "../a/../..") ≡ codes "../..")
    × (clean [] ≡ codes ".")
    × (clean (codes "/") ≡ codes "/")
    × (base (codes "https://example.com/proxyUrl/") ≡ codes "proxyUrl")
    × (base (codes "//") ≡ codes "/")
    × (join_path (codes "/var/run") (codes "fedbox.pid") ≡ codes "/var/run/fedbox.pid")
unfolding clean base join_path
tests = (refl, refl, refl, refl, refl, refl, refl)
