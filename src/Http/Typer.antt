-- ===== src/Http/Typer.antt =====
-- `pathTyper.Type`: the collection that a request's path names.
pub mod Laws
use fedbox.Prelude.{
  Bool, true, false, not, List, [], ◌∷◌, reverse, Text, codes, ◌==◌, text_eq, contains,
  if◌then◌else◌,
}
use fedbox.Go.Strings.{to_lower, split, trim_left}
use fedbox.Go.FilePath.{clean}
use fedbox.Vocab.{Vocab, CollectionPath}

module _ (V : Vocab) where
  -- The loop over the elements, which are given from the last one to the first
  last_valid : List Text → CollectionPath
  last_valid [] = V.unknown
  last_valid (e ∷ es) =
      let piece = to_lower e in
      let before = last_valid es in if contains V.valid_collections piece then piece else before

  unfoldable pub path_type : Text → CollectionPath
  unfolding last_valid to_lower split trim_left clean
  path_type [] = V.unknown
  path_type (c ∷ s) =
      if clean (c ∷ s) == (c ∷ s)
      then last_valid (reverse (split (trim_left (c ∷ s) b'/') b'/'))
      else V.unknown
