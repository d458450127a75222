-- ===== src/Tests/Access.antt =====
-- The theorems on access, at two accounts.
use fedbox.Prelude.{◌≡◌, refl, ◌↔◌, ◌⊎◌, true, false, none, some, List, [], ◌∷◌, codes}
use fedbox.Access.{ssh_auth_pw, ssh_auth_public_key}
use fedbox.Access.Laws.{
  KeyAccess, PasswordAccess, ssh_auth_pw-PasswordAccess, ssh_auth_public_key-KeyAccess,
}
use fedbox.Tests.World.{Doc, nothing, note, vocab, Account, accounts}

abbrev people : List Account
people =
    record { name = codes "https://x.org/actors/1"; key = 7; password = codes "secret" }
    ∷ record { name = codes "https://x.org/actors/2"; key = 8; password = codes "hidden" }
    ∷ []

abbrev second : Doc
second = note (codes "https://x.org/actors/2") (codes "Person" ∷ []) [] []

ssh_auth_pw-PasswordAccess_example :
    ((ssh_auth_pw vocab accounts none (codes "https://x.org/actors/2") (codes "hidden") people
        ≡ (some second, true))
      ↔ PasswordAccess vocab accounts
          (codes "https://x.org/actors/2")
          (codes "hidden")
          people
          second)
    × ((ssh_auth_pw vocab accounts none (codes "https://x.org/actors/2") (codes "hidden") people
          ≡ (none, false))
        ⊎ ((ssh_auth_pw vocab accounts none
              (codes "https://x.org/actors/2")
              (codes "hidden")
              people).1
            ≡ true))
ssh_auth_pw-PasswordAccess_example =
    ssh_auth_pw-PasswordAccess vocab accounts none (codes "https://x.org/actors/2") (codes "hidden")
      people second

ssh_auth_public_key-KeyAccess_example :
    (ssh_auth_public_key vocab accounts none nothing
        (codes "https://x.org/actors/2")
        (some 8)
        people
      ≡ (none, false))
    ⊎ ((actor : Doc) × (ssh_auth_public_key vocab accounts none nothing
            (codes "https://x.org/actors/2")
            (some 8)
            people
          ≡ (some actor, true))
        × KeyAccess vocab accounts nothing (codes "https://x.org/actors/2") (some 8) people actor)
ssh_auth_public_key-KeyAccess_example =
    ssh_auth_public_key-KeyAccess vocab accounts none nothing (codes "https://x.org/actors/2")
      (some 8) people

-- The key of the account lets its actor in.
let_in :
    ssh_auth_public_key vocab accounts none nothing (codes "https://x.org/actors/2") (some 8) people
    ≡ (some second, true)
unfolding ssh_auth_public_key
let_in = refl
