-- ===== src/Control/Types.antt =====
-- The type arguments of commands: `loadPubTypes` of base.go, and `types` and `names` of filters.go.
use fedbox.Prelude.{
  ◌≡◌, refl, ap, arith, Bool, List, [], ◌∷◌, ◌++◌, map, Text, ◌==◌, text_eq, if◌then◌else◌,
}
use fedbox.Go.Strings.{to_lower}
use fedbox.Vocab.{Vocab}

-- The checks of the package filters
pub data TypeCheck : Type 0 where
  has_type : List Text → TypeCheck
  name_is : Text → TypeCheck

module _ (V : Vocab) where
  record PubTypes : Type 0 where
    pub objects : List Text
    pub actors : List Text
    pub activities : List Text

  abbrev collected : Bool → List Text → Text → List Text
  collected matches old t = if matches then old ++ (t ∷ []) else old

  abbrev or_all : Text → Text → List Text → List Text → List Text
  or_all t name every old = if to_lower t == to_lower name then every else old

  -- A round of the loop; a generic type brings in all the types of its kind.
  pub_type : PubTypes → Text → PubTypes
  unfolding to_lower
  pub_type p t = record {
    objects =
        or_all t V.object_type V.object_types
          (collected (V.matches V.object_types (t ∷ [])) p.objects t);
    actors =
        or_all t V.actor_type V.actor_types
          (collected (V.matches V.actor_types (t ∷ [])) p.actors t);
    activities =
        or_all t V.activity_type V.activity_types
          (collected (V.matches V.activity_types (t ∷ [])) p.activities t);
  }

  pub_types_from : PubTypes → List Text → PubTypes
  unfolding pub_type
  pub_types_from p [] = p
  pub_types_from p (t ∷ ts) = pub_types_from (pub_type p t) ts

  abbrev all_of : PubTypes → List Text
  all_of p = p.objects ++ (p.actors ++ p.activities)

  unfoldable pub load_pub_types : List Text → List Text
  unfolding pub_types_from
  load_pub_types [] =
      all_of
        (record { objects = V.object_types; actors = V.actor_types; activities = V.activity_types })
  load_pub_types (t ∷ ts) =
      all_of (pub_types_from (record { objects = []; actors = []; activities = [] }) (t ∷ ts))

-- The loop of `types`: appending nothing leaves the list of valid types as it is.
valid_types : (Text → Bool) → List Text → List Text → List Text
valid_types known valid [] = valid
valid_types known valid (t ∷ ts) = valid_types known (if known t then valid ++ [] else valid) ts

unfoldable pub types : (Text → Bool) → List Text → TypeCheck
unfolding valid_types
types known incoming = has_type (valid_types known [] incoming)

unfoldable pub names : List Text → List TypeCheck
names incoming = map name_is incoming

valid_types-nil : (known : Text → Bool) (ts : List Text) → valid_types known [] ts ≡ []
unfolding valid_types
valid_types-nil known [] = refl
valid_types-nil known (t ∷ ts) = ground (arith, valid_types-nil known ts)

-- Whatever types are asked for, the check is the one for no types at all.
types-nil : (known : Text → Bool) (incoming : List Text) → types known incoming ≡ has_type []
unfolding types
types-nil known incoming = ap has_type (valid_types-nil known incoming)
