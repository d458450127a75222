-- ===== src/Control/Store.antt =====
-- The storage that the commands work on, of the package storage-all, with the processor of client
-- activities of the package processing.
use fedbox.Prelude.{Bool, Option, List, Text}
use fedbox.Fault.{Fault, Result}
use fedbox.Vocab.{Vocab, Iri}

-- The activities that the program builds for its own clients: an activity of some type on an
-- object, or the deletion of several.
pub record Draft : Type 0 where
  pub type_name : Text
  pub to : List Iri
  pub bto : List Iri
  pub cc : List Iri
  pub bcc : List Iri
  pub in_reply_to : List Iri
  pub content : Text
  pub objects : List Iri

pub record Store (V : Vocab) : Type 1 where
  pub State : Type 0
  pub Check : Type 0
  pub load : State → Iri → List Check → Result V.Item
  pub save : State → V.Item → State × Result V.Item
  pub delete : State → Iri → State × Option Fault
  -- whether the storage is a `processing.CollectionStore`, and its `AddTo`
  pub is_collection_store : Bool
  pub add_to : State → Iri → V.Item → State × Option Fault
  pub remove_client : State → Iri → State × Option Fault
  -- `ProcessClientActivity` of the processor that `Saver` makes, for an actor and its outbox
  pub process_client : State → Draft → V.Item → Iri → State × Option Fault
  -- the same for an activity that is an item already
  pub process_item : State → V.Item → V.Item → Iri → State × Option Fault
  -- `errors.IsConflict` and `errors.IsNotFound`
  pub is_conflict : Fault → Bool
  pub is_not_found : Fault → Bool
