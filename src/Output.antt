-- ===== src/Output.antt =====
-- output.go: items as they are printed, in text or in JSON.
pub mod Laws
use fedbox.Prelude.{
  Bool, not, ◌||◌, Option, none, some, List, [], ◌∷◌, ◌++◌, reverse, Text, codes, ◌==◌, text_eq,
  nat_eq, contains, if◌then◌else◌,
}
use fedbox.Fault.{Fault, Result, ok, err, failed}

-- Texts by their language; `none` stands for `NilLangRef`. A map of Go has no order: this is the
-- order in which it is gone through.
abbrev Natural : Type 0
Natural = List (Option Text × Text)

-- What is printed of every object; `published` is the formatted time, and `converts` says whether
-- the functions `OnActivity`, `OnActor` and `OnObject` find a value of the type that they expect.
pub record Object : Type 0 where
  pub type_name : Text
  pub id : Text
  pub published : Text
  pub name : Natural
  pub summary : Natural
  pub content : Natural
  pub converts : Bool

mutual
  -- What `OutItem` reads of an item: a collection's members, an IRI, or an object with the names, the
  -- actor and the object that it has where it is an actor or an activity
  pub data View : Type 0 where
    collection : Views → View
    iri : Text → View
    object : Object → Natural → Part → Part → View

  pub data Views : Type 0 where
    no_views : Views
    and_then : View → Views → Views

  -- A property that may be nil
  pub data Part : Type 0 where
    absent : Part
    present : View → Part

spaces : Text
spaces = codes "\n\r\t "

trim_start : Text → Text
unfolding spaces
trim_start [] = []
trim_start (c ∷ s) = let rest = trim_start s in if contains spaces c then rest else c ∷ s

-- `Trim` with those four characters
trim : Text → Text
unfolding trim_start
trim s = reverse (trim_start (reverse (trim_start s)))

-- A label with its value: a text with a language is printed without it, too.
out_text_of : Text → Option Text × Text → Text
unfolding trim
out_text_of label (none, s) = codes "\n\t" ++ (label ++ (codes ": " ++ trim s))
out_text_of label (some ref, s) =
    codes "\n\t"
    ++ (label
        ++ (codes "["
            ++ (ref
                ++ (codes "]: "
                    ++ (trim s ++ (codes "\n\t" ++ (label ++ (codes ": " ++ trim s))))))))

out_natural : Text → Natural → Text
unfolding out_text_of
out_natural label [] = []
out_natural label (s ∷ ss) = out_text_of label s ++ out_natural label ss

out_object : Object → Text
unfolding out_natural
out_object o =
    codes "["
    ++ (o.type_name
        ++ (codes "] "
            ++ (o.id
                ++ (codes " // "
                    ++ (o.published
                        ++ (out_natural (codes "Name") o.name
                            ++ (out_natural (codes "Summary") o.summary
                                ++ out_natural (codes "Content") o.content)))))))

out_actor : Object → Natural → Text
unfolding out_object
out_actor o names = out_object o ++ out_natural (codes "PreferredUsername") names

converted : Object → Text → Text × Option Fault
converted o t = if o.converts then (t, none) else ([], some failed)

-- The types that are activities, intransitive ones among them, and those that are actors
module _ (is_activity_type is_actor_type : Text → Bool) where
  unfoldable mutual
    unfolding out_actor out_object converted

    -- `OutItem`: what it writes, and its error; the errors of members, actors and objects are
    -- dropped.
    pub out_item : View → Text × Option Fault
    out_item (collection vs) = (out_members vs, none)
    out_item (iri i) = (i, none)
    out_item (object o names actor obj) =
        let activity =
          out_object o
          ++ (out_part (codes "\n\tActor: ") actor ++ out_part (codes "\n\tObject: ") obj) in
        converted o (
          if is_activity_type o.type_name
          then activity
          else if is_actor_type o.type_name
          then out_actor o names
          else out_object o)

    pub out_members : Views → Text
    out_members no_views = []
    out_members (and_then v vs) = (out_item v).0 ++ (codes "\n" ++ out_members vs)

    out_part : Text → Part → Text
    out_part label absent = []
    out_part label (present v) = label ++ (out_item v).0

  -- `OutText`, which prints nothing after an error
  out_text : View → Text × Option Fault
  unfolding out_item
  out_text v = elim (out_item v).1 [ none ↦ ((out_item v).0, none) | some e ↦ ([], some e) ]

  -- `OutJSON`, with the encoding of the package activitypub
  out_json : Result Text → Text × Option Fault
  out_json (ok enc) = (enc, none)
  out_json (err e) = ([], some e)

  unfoldable pub print_item : (View → Result Text) → View → Text → Text × Option Fault
  unfolding out_text out_json
  print_item marshal v out_type =
      if out_type == codes "json" then out_json (marshal v) else out_text v
