-- ===== src/Control/Backing.antt =====
-- The storage of storage-all with all that the commands on services and clients ask of it, over the
-- metadata that keys are saved in.
use fedbox.Prelude.{ℕ, Bool, Option, List, Text}
use fedbox.Fault.{Fault, Result}
use fedbox.Vocab.{Vocab, Iri}
use fedbox.Keys.{MetadataStore}
use fedbox.Control.Store.{Draft, Store}

-- `osin.DefaultClient`
pub record OAuthClient : Type 0 where
  pub id : Text
  pub secret : Text
  pub redirect_uri : Text
  pub user_data : Text

-- `osin.AuthorizeData` and `osin.AccessData`, without their times
pub record Authorization (Client : Type 0) : Type 0 where
  pub client : Client
  pub code : Text
  pub expires_in : ℕ
  pub redirect_uri : Text
  pub state : Text

pub record Access (Client : Type 0) : Type 0 where
  pub client : Client
  pub authorization : Authorization Client
  pub access_token : Text
  pub refresh_token : Text
  pub expires_in : ℕ
  pub scope : Text
  pub redirect_uri : Text
  pub user_data : Iri

pub record Backing (V : Vocab) (M : MetadataStore V) : Type 1 where
  pub Check : Type 0
  pub load : M.State → Iri → List Check → Result V.Item
  pub save : M.State → V.Item → M.State × Result V.Item
  pub delete : M.State → Iri → M.State × Option Fault
  pub is_collection_store : Bool
  pub add_to : M.State → Iri → V.Item → M.State × Option Fault
  pub remove_client : M.State → Iri → M.State × Option Fault
  pub process_client : M.State → Draft → V.Item → Iri → M.State × Option Fault
  pub process_item : M.State → V.Item → V.Item → Iri → M.State × Option Fault
  pub is_conflict : Fault → Bool
  pub is_not_found : Fault → Bool
  pub open_storage : M.State → M.State × Option Fault
  pub close_storage : M.State → M.State
  pub is_open : M.State → Bool
  pub password_set : M.State → Iri → Text → M.State × Option Fault
  -- a client as it is loaded, and its `GetRedirectUri`
  pub Client : Type 0
  pub redirect_of : Client → Text
  pub get_client : M.State → Text → Result Client
  pub save_client : M.State → OAuthClient → M.State × Option Fault
  pub save_authorize : M.State → Authorization Client → M.State × Option Fault
  pub save_access : M.State → Access Client → M.State × Option Fault

-- The storage as the other commands see it
abbrev pub store_of : (V : Vocab) (M : MetadataStore V) → Backing V M → Store V
store_of V M B = record {
  State = M.State;
  Check = B.Check;
  load = B.load;
  save = B.save;
  delete = B.delete;
  is_collection_store = B.is_collection_store;
  add_to = B.add_to;
  remove_client = B.remove_client;
  process_client = B.process_client;
  process_item = B.process_item;
  is_conflict = B.is_conflict;
  is_not_found = B.is_not_found;
}
