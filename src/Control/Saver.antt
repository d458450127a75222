-- ===== src/Control/Saver.antt =====
-- `ActorClient` and `Saver` of base.go: how the client and the processor are set up.
pub mod Laws
use fedbox.Prelude.{
  ℕ, ◌*◌, Bool, not, ◌&&◌, Option, none, some, List, [], ◌∷◌, ◌++◌, Text, codes, ◌==◌, text_eq,
  if◌then◌else◌,
}
use fedbox.Go.FilePath.{join_path}
use fedbox.Env.{is_dev, is_prod}
use fedbox.Vocab.{Vocab, Iri}
use fedbox.Config.Options.{Options}
use fedbox.Control.Signer.{Signing, client_signer}

-- The storage of the package cache: in memory, up to a size, or below a directory
pub data CacheStorage : Type 0 where
  mem : ℕ → CacheStorage
  fs : Text → CacheStorage

-- The options of the package client; the HTTP client has a storage of responses, and a path to
-- dump the requests to where it is debugged.
pub data ClientOption (V : Vocab) (S : Signing V) : Type 0 where
  with_http_client : CacheStorage → Option Text → ClientOption V S
  with_user_agent : Text → ClientOption V S
  skip_tls_validation : Bool → ClientOption V S
  with_authorization_fn : V.Item → S.PrivateKey → ClientOption V S
  with_client_logger : ClientOption V S

-- The options of the package processing
pub data ProcessingOption (V : Vocab) (S : Signing V) : Type 0 where
  with_logger with_storage : ProcessingOption V S
  with_iri : Iri → Iri → ProcessingOption V S
  -- `GenerateID` at a base
  with_id_generator : Iri → ProcessingOption V S
  -- a count below 0
  without_dissemination : ProcessingOption V S
  with_client : List (ClientOption V S) → ProcessingOption V S

abbrev mb : ℕ
mb = 1024 * 1024 * 1024

abbrev internal_iri : Iri
internal_iri = codes "https://fedbox/"

abbrev project_url : Iri
project_url = codes "https://github.com/go-ap/fedbox"

-- `os.UserCacheDir`, which may fail, `os.TempDir`, and the id of the anonymous actor
pub record Places : Type 0 where
  pub user_cache_dir : Option Text
  pub temp_dir : Text
  pub anonymous_id : Iri

module _ (V : Vocab) (S : Signing V) (P : Places) where
  cache_path : Text
  cache_path = elim P.user_cache_dir [ some path ↦ path | none ↦ P.temp_dir ]

  cache_storage : Options → CacheStorage
  unfolding is_dev cache_path
  cache_storage conf = if is_dev conf.env then mem mb else fs (join_path cache_path conf.app_name)

  user_agent : Options → Text
  user_agent conf =
      conf.base_url ++ (codes "@" ++ (conf.version ++ (codes " (+" ++ (project_url ++ codes ")"))))

  authorization_of : Option (V.Item × S.PrivateKey) → List (ClientOption V S)
  authorization_of none = []
  authorization_of (some (act, key)) = with_authorization_fn act key ∷ []

  -- `ActorClient`, for the debug mode, the service and its key
  unfoldable pub actor_client :
      Options → Bool → V.Item → Option S.PrivateKey → V.Item → S.State → List (ClientOption V S)
  unfolding cache_storage user_agent is_prod authorization_of client_signer
  actor_client conf debug_mode service key actor s =
      with_http_client (cache_storage conf) (if debug_mode then some conf.storage_path else none)
      ∷ with_user_agent (user_agent conf)
      ∷ skip_tls_validation (not (is_prod conf.env))
      ∷ (authorization_of (client_signer V S service key actor s) ++ (with_client_logger ∷ []))

  -- The options that depend on the id of the service
  local_options : Iri → List (ProcessingOption V S)
  local_options base =
      if not (base == []) && not (S.equal base P.anonymous_id)
      then with_iri base internal_iri ∷ with_id_generator base ∷ []
      else []

  -- A missing actor is the service.
  abbrev pub saver_actor : V.Item → V.Item → V.Item
  saver_actor service actor = if V.is_nil actor then service else actor

  -- `Saver`
  unfoldable pub saver :
      Options
      → Bool
      → V.Item
      → Option S.PrivateKey
      → V.Item
      → Bool
      → S.State
      → List (ProcessingOption V S)
  unfolding local_options actor_client
  saver conf debug_mode service key actor only_local_saves s =
      with_logger
      ∷ with_storage
      ∷ (local_options (V.link service)
          ++ ((if only_local_saves then without_dissemination ∷ [] else [])
              ++ (with_client
                    (actor_client conf debug_mode service key (saver_actor service actor) s)
                  ∷ [])))
