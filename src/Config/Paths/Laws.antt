-- ===== src/Config/Paths/Laws.antt =====
-- The order of the labels in the instance's name.
use fedbox.Prelude.{
  ℕ, suc, ◌≤◌, ◌≡◌, refl, sym, ap, ◌∙◌, List, [], ◌∷◌, ◌++◌, reverse, Text, codes, ltb, length,
  length-append, arith,
}
use mathlib.Core.List.{append_assoc, append-nil}
use fedbox.Go.Strings.{split, join}
use fedbox.Config.Options.{System}
use fedbox.Config.Paths.{sift, insertion_sort, sort_slice, bare_host, reverse_dns_name}

sift-append : (ps : List Text) (p : Text) → sift (λ i j. ltb j i) (length ps) p ps ≡ ps ++ (p ∷ [])
unfolding sift
sift-append [] p = refl
sift-append (q ∷ ps) p = ground (arith, sift-append ps p)

insertion_sort-append :
    (j : ℕ) (before ps : List Text)
    → j ≡ length before
    → insertion_sort (λ i j. ltb j i) j before ps ≡ before ++ ps
unfolding insertion_sort
insertion_sort-append j before [] e = sym (append-nil before)
insertion_sort-append j before (p ∷ ps) e =
    rw (e, sift-append before p)
      (insertion_sort-append (suc (length before)) (before ++ (p ∷ [])) ps
          (omega (arith, length-append before (p ∷ [])))
        ∙ append_assoc before (p ∷ []) ps)

sort_slice-reverse :
    (sys : System) (ps : List Text)
    → length ps ≤ 12
    → sort_slice sys (λ i j. ltb j i) ps ≡ reverse ps
unfolding sort_slice
sort_slice-reverse sys ps h = ground (arith, insertion_sort-append 0 [] ps refl)

-- Of a host with at most twelve labels the name has the same labels in the opposite order, after a
-- leading scheme is removed.
reverse_dns_name-reverse :
    (sys : System) (host : Text)
    → length (split (bare_host host) b'.') ≤ 12
    → reverse_dns_name sys host ≡ join (reverse (split (bare_host host) b'.')) (codes ".")
unfolding reverse_dns_name
reverse_dns_name-reverse sys host h = ap (λ ps. join ps (codes ".")) (sort_slice-reverse sys _ h)
