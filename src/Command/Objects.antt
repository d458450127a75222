-- ===== src/Command/Objects.antt =====
-- cmd-activitypub.go: the commands that delete, move, copy and index objects.
use fedbox.Prelude.{ℕ, Bool, Option, none, some, List, Text}
use fedbox.Fault.{Fault, failed}
use fedbox.Vocab.{Vocab, Iri}
use fedbox.Control.Store.{Store}
use fedbox.Control.Deletion.{delete_objects}
use fedbox.Control.Objects.{Outcome, move_objects, copy_objects}

module _ (V : Vocab) (S : Store V) where
  -- `DeleteCmd.Run`
  unfoldable delete_cmd :
      (Text → Bool) → V.Item → Text → List Text → List Iri → S.State → S.State × Option Fault
  unfolding delete_objects
  delete_cmd is_url self reason in_reply_to iris s =
      delete_objects V S is_url self reason in_reply_to iris s

  -- `MoveCmd.Run`, with fuel for the lists of items
  unfoldable move_cmd : ℕ → Iri → List Iri → S.State → Outcome V S
  unfolding move_objects
  move_cmd fuel to iris s = move_objects V S fuel to iris s

  -- `CopyCmd.Run`
  unfoldable copy_cmd : ℕ → Iri → List Iri → S.State → Outcome V S
  unfolding copy_objects
  copy_cmd fuel to iris s = copy_objects V S fuel to iris s

  -- `IndexCmd.Run`, with `Reindex` where the storage has it
  unfoldable index_cmd :
      Option (S.State → S.State × Option Fault) → S.State → S.State × Option Fault
  index_cmd none s = (s, some failed)
  index_cmd (some reindex) s = reindex s
