-- ===== src/Tests/Start.antt =====
-- Lines that are typed.
use fedbox.Prelude.{◌≡◌, refl, [], codes}
use fedbox.Start.Stdin.{line, line_panic, load_from_stdin}

typed :
    (load_from_stdin (codes "alice\nbob\n") ≡ line (codes "alice"))
    × (load_from_stdin (codes "alice") ≡ line (codes "alic"))
    × (load_from_stdin [] ≡ line_panic)
unfolding load_from_stdin
typed = (refl, refl, refl)
