-- ===== src/Env.antt =====
-- internal/env/env.go: the environment types and their tests.
pub mod Laws
use fedbox.Prelude.{
  ℕ, ◌≡◌, refl, Bool, true, false, ◌==◌, text_eq, List, [], ◌∷◌, Text, codes, any, if◌then◌else◌,
}
use fedbox.Go.Strings.{to_lower, str_contains}

-- `Type` is a string.
abbrev pub EnvType : Type 0
EnvType = Text

abbrev pub dev : EnvType
dev = codes "dev"

abbrev pub prod : EnvType
prod = codes "prod"

abbrev pub qa : EnvType
qa = codes "qa"

abbrev pub test : EnvType
test = codes "test"

abbrev pub types : List EnvType
types = prod ∷ qa ∷ dev ∷ test ∷ []

-- The loop of `ValidType`
valid_among : EnvType → List EnvType → Bool
unfolding to_lower
valid_among typ [] = false
valid_among typ (t ∷ ts) =
    let rest = valid_among typ ts in if to_lower typ == to_lower t then true else rest

unfoldable pub valid_type : EnvType → Bool
unfolding valid_among
valid_type typ = valid_among typ types

unfoldable pub valid_type_or_dev : EnvType → EnvType
unfolding valid_type
valid_type_or_dev typ = if valid_type typ then typ else dev

unfoldable pub is_prod : EnvType → Bool
unfolding str_contains
is_prod e = str_contains e prod

unfoldable pub is_qa : EnvType → Bool
unfolding str_contains
is_qa e = str_contains e qa

unfoldable pub is_test : EnvType → Bool
unfolding str_contains
is_test e = str_contains e test

unfoldable pub is_dev : EnvType → Bool
unfolding str_contains
is_dev e = str_contains e dev
