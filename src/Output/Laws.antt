-- ===== src/Output/Laws.antt =====
-- What a list that is printed as text looks like.
use fedbox.Prelude.{
  ◌≡◌, refl, ap, ◌∙◌, Bool, false, none, List, [], ◌∷◌, ◌++◌, Text, codes, ◌==◌, text_eq,
}
use fedbox.Fault.{Result}
use fedbox.Go.Strings.{split}
use fedbox.Go.Strings.Laws.{Lacks, split-append}
use fedbox.Output.{View, collection, Views, no_views, and_then, out_item, out_members, print_item}

module _ (is_activity_type is_actor_type : Text → Bool) where
  -- Each of some items is printed on one line.
  abbrev OneLine : Views → Type 0
  OneLine no_views = Unit
  OneLine (and_then v vs) = Lacks b'\n' (out_item is_activity_type is_actor_type v).0 × OneLine vs

  abbrev pub texts_of : Views → List Text
  texts_of no_views = []
  texts_of (and_then v vs) = (out_item is_activity_type is_actor_type v).0 ∷ texts_of vs

  lines_of_members :
      (vs : Views)
      → OneLine vs
      → split (out_members is_activity_type is_actor_type vs) b'\n' ≡ texts_of vs ++ ([] ∷ [])
  unfolding out_members split
  lines_of_members no_views h = refl
  lines_of_members (and_then v vs) h =
      split-append b'\n' (out_item is_activity_type is_actor_type v).0
        (out_members is_activity_type is_actor_type vs) refl h.0
      ∙ ap (λ ls. (out_item is_activity_type is_actor_type v).0 ∷ ls) (lines_of_members vs h.1)

  -- A list whose members are each printed on one line is printed as text without an error, also
  -- where a member cannot be printed, and its lines are what is printed of the members, in order,
  -- and an empty one.
  pub print_item_lines :
      (marshal : View → Result Text) (vs : Views) (out_type : Text)
      → (out_type == codes "json") ≡ false
      → OneLine vs
      → let r = print_item is_activity_type is_actor_type marshal (collection vs) out_type in
        (r.1 ≡ none) × (split r.0 b'\n' ≡ texts_of vs ++ ([] ∷ []))
  unfolding print_item out_item
  print_item_lines marshal vs out_type text h = rw text (refl, lines_of_members vs h)
