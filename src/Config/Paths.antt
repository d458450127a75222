-- ===== src/Config/Paths.antt =====
-- The paths that are derived from options: `normalizeConfigPath`, the runtime paths and the
-- instance's name.
pub mod Laws
use fedbox.Prelude.{
  ℕ, zero, suc, ◌≡◌, refl, Bool, true, false, List, [], ◌∷◌, ◌++◌, reverse, Text, codes, ◌==◌,
  text_eq, nat_eq, ltb, leb, length, if◌then◌else◌,
}
use fedbox.Go.Strings.{to_lower, split, join, replace_all, replace_first}
use fedbox.Go.FilePath.{is_abs, clean, join_path}
use fedbox.Go.Url.{path_escape}
use fedbox.Config.Options.{Options, Environ, System}

expand_home : Text → Text → Text
expand_home home [] = []
expand_home home (c ∷ p) = if c == b'~' then (if home == [] then c ∷ p else home ++ p) else c ∷ p

absolute : Text → Text → Text
unfolding join_path
absolute cwd p = if is_abs p then p else join_path cwd p

unfoldable pub normalize_config_path : System → Text → Options → Text
unfolding expand_home absolute replace_all path_escape clean
normalize_config_path sys [] o = []
normalize_config_path sys (c ∷ p) o =
    let path = absolute sys.cwd (expand_home sys.home (c ∷ p)) in
    let with_env = replace_all path (codes "%env%") o.env in
    let with_storage = replace_all with_env (codes "%storage%") o.storage in
    clean (replace_all with_storage (codes "%host%") (path_escape o.hostname))

unfoldable runtime_path : Environ → Text
runtime_path getenv =
    let dir = getenv (codes "XDG_RUNTIME_DIR") in if dir == [] then codes "/var/run" else dir

-- `sort.Slice` of at most twelve elements is an insertion sort: each element is swapped with the
-- one before it while `less` of their two indices holds. The elements before the inserted one
-- are held last first; `less` sees only the indices `j` and `j - 1`.
sift : (ℕ → ℕ → Bool) → ℕ → Text → List Text → List Text
sift less zero p before = p ∷ before
sift less (suc j) p [] = p ∷ []
sift less (suc j) p (q ∷ before) =
    let deeper = q ∷ sift less j p before in if less (suc j) j then deeper else p ∷ q ∷ before

insertion_sort : (ℕ → ℕ → Bool) → ℕ → List Text → List Text → List Text
unfolding sift
insertion_sort less j before [] = before
insertion_sort less j before (p ∷ ps) = insertion_sort less (suc j) (sift less j p before) ps

unfoldable pub sort_slice : System → (ℕ → ℕ → Bool) → List Text → List Text
unfolding insertion_sort
sort_slice sys less ps =
    if leb (length ps) 12 then reverse (insertion_sort less 0 [] ps) else sys.pdq_sort less ps

abbrev pub bare_host : Text → Text
bare_host host = replace_first (replace_first host (codes "https://") []) (codes "http://") []

unfoldable pub reverse_dns_name : System → Text → Text
unfolding replace_first split sort_slice join
reverse_dns_name sys host =
    join (sort_slice sys (λ i j. ltb j i) (split (bare_host host) b'.')) (codes ".")

unfoldable path_instance_name : System → Options → Text
unfolding reverse_dns_name to_lower
path_instance_name sys o =
    let name = if o.hostname == [] then codes "fedbox" else reverse_dns_name sys o.hostname in
    to_lower (if o.app_name == [] then name else name ++ (codes "." ++ o.app_name))

unfoldable pub internal_socket_path : System → Environ → Options → Text
unfolding path_instance_name runtime_path join_path
internal_socket_path sys getenv o =
    join_path (runtime_path getenv) (path_instance_name sys o ++ codes ".sock")

unfoldable pub pid_path : System → Environ → Options → Text
unfolding path_instance_name runtime_path join_path to_lower
pid_path sys getenv o =
    join_path (runtime_path getenv) (to_lower (path_instance_name sys o) ++ codes ".pid")
