-- ===== src/Command/Import.antt =====
-- `ImportCmd.Run` of cmd-activitypub.go.
use fedbox.Prelude.{
  ℕ, ◌≡◌, refl, sym, ◌∙◌, ap, Bool, true, false, not, ◌||◌, ◌&&◌, List, [], ◌∷◌, ◌++◌, Text, ◌==◌,
  text_eq, arith, if◌then◌else◌,
}
use fedbox.Go.Strings.{replace_all}
use fedbox.Fault.{Result, ok, err}
use fedbox.Vocab.{Vocab}
use fedbox.Control.Store.{Store}

-- The options `--base`, and the base URL of the configuration
pub record Bases : Type 0 where
  pub to_replace : Text
  pub base_url : Text

module _ (V : Vocab) (S : Store V) where
  unfoldable pub rebased : Bases → Text → Text
  unfolding replace_all
  rebased b buf = if b.to_replace == [] then buf else replace_all buf b.to_replace b.base_url

  -- The items of a decoded file
  items_of : V.Item → List V.Item
  items_of ob = if V.is_item_collection ob then V.as_items ob else ob ∷ []

  -- A round of the loop over the files. Its result replaces the items that were read so far.
  read_file : Bases → List V.Item → Result Text → List V.Item
  unfolding items_of rebased
  read_file b col (err e) = col
  read_file b col (ok []) = col
  read_file b col (ok (c ∷ buf)) = elim (V.unmarshal (rebased b (c ∷ buf))) [
    | err e ↦ col
    | ok ob ↦ items_of ob
  ]

  read_files : Bases → List V.Item → List (Result Text) → List V.Item
  unfolding read_file
  read_files b col [] = col
  read_files b col (f ∷ fs) = read_files b (read_file b col f) fs

  is_activity_type : V.Item → Bool
  is_activity_type it =
      V.matches V.activity_types (V.types it) || V.matches V.intransitive_types (V.types it)

  -- An activity without an actor, and the error of one that cannot be processed, are only logged.
  process_all : List V.Item → S.State → S.State
  unfolding is_activity_type
  process_all [] s = s
  process_all (it ∷ its) s = process_all its (
      if not (is_activity_type it) || V.is_nil (V.actor_of it)
      then s
      else (S.process_item s it (V.to_actor (V.actor_of it))
          (V.link (V.of V.outbox (V.actor_of it)))).0)

  -- An item that comes with an error of `Load` is nil.
  abbrev is_missing : Result V.Item → Bool
  is_missing (err e) = true
  is_missing (ok it) = V.is_nil it

  save_all : List V.Item → S.State → S.State
  unfolding is_activity_type
  save_all [] s = s
  save_all (it ∷ its) s = save_all its (
      if not (is_activity_type it) && is_missing (S.load s (V.link it) [])
      then (S.save s it).0
      else s)

  unfoldable pub import_files : Bases → List (Result Text) → S.State → S.State
  unfolding read_files process_all save_all
  import_files b files s = let col = read_files b [] files in save_all col (process_all col s)

  read_files-append :
      (b : Bases) (col : List V.Item) (fs gs : List (Result Text))
      → read_files b col (fs ++ gs) ≡ read_files b (read_files b col fs) gs
  unfolding read_files
  read_files-append b col [] gs = refl
  read_files-append b col (f ∷ fs) gs = read_files-append b (read_file b col f) fs gs

  read_files_last :
      (b : Bases) (col : List V.Item) (c : ℕ) (buf : Text) (ob : V.Item)
      → V.unmarshal (rebased b (c ∷ buf)) ≡ ok ob
      → V.is_item_collection ob ≡ false
      → read_files b col (ok (c ∷ buf) ∷ []) ≡ ob ∷ []
  unfolding read_files
  read_files_last b col c buf ob decoded one = ground arith

  -- Of several files only the last one is imported, if it holds items: the files before it have no
  -- effect on the storage.
  pub import_files_last :
      (b : Bases) (before : List (Result Text)) (c : ℕ) (buf : Text) (ob : V.Item) (s : S.State)
      → V.unmarshal (rebased b (c ∷ buf)) ≡ ok ob
      → V.is_item_collection ob ≡ false
      → import_files b (before ++ (ok (c ∷ buf) ∷ [])) s ≡ import_files b (ok (c ∷ buf) ∷ []) s
  unfolding import_files
  import_files_last b before c buf ob s decoded one =
      ap (λ col. save_all col (process_all col s))
        (read_files-append b [] before (ok (c ∷ buf) ∷ [])
          ∙ read_files_last b (read_files b [] before) c buf ob decoded one
          ∙ sym (read_files_last b [] c buf ob decoded one))
