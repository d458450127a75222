-- ===== src/Lib.antt =====
-- FedBOX is a server of ActivityPub objects, with commands that work on its storage. This library
-- models its own logic in Go: the configuration, the handlers of requests, the life of the server
-- under signals, access by SSH, keys and tokens, and the commands that change objects.
--
-- Prelude holds shared names, and Go the functions of Go's standard library that the code uses: on
-- texts, slash-separated paths, URLs and decimal numbers. A Go string is a list of bytes.
-- Env models internal/env/env.go.
-- Config models internal/config/config.go: Config.Options the record Options, prefKey and Getval;
--   Config.Paths normalizeConfigPath and the paths of an instance; Config.Storage BaseStoragePath and
--   StorageInitFns; Config.Load LoadFromEnv, findConfigs, Load and validateOptions; Config.Pid
--   WritePid and ReadPid; Config.Listen the addresses. The environment is a function from names to
--   values, and Config.Load.ConfigFiles is the file system with the package godotenv.
-- Vocab is the package go-ap/activitypub as the program uses it, with what is documented of it;
--   Fault names the errors, without their messages.
-- Http models the functions of handlers.go on a single request, Http.Typer the collection that a
--   path names, Http.Favicon the handler of favicon.go, and Middleware models middleware.go.
-- Handlers models the handlers of handlers.go: Handlers.Collection HandleCollection, Handlers.Item
--   HandleItem, Handlers.Activity HandleActivity, Handlers.Proxy ProxyURL. A handler is a function
--   from a request and the server's state to the next state and a reply, and Handlers.Services is
--   what they call: the storage, the cache, the verifiers and the processor.
-- Lifecycle models Pause, Stop, reload and the signal handlers of Run in app.go; a signal is a step
--   of the server's state, and what is sent to the channel exit ends Run. Lifecycle.New models New, and
--   Lifecycle.Serve Serve.Run of cmd-serve.go up to Run.
-- Routes models the table of routes.go as data, and Output the printing of output.go, on a tree of
--   what is read of an item.
-- Control models functions of base.go and filters.go on a storage (Control.Store):
--   Control.Objects MoveObjects and CopyObjects, Control.Deletion DeleteObjects and DeleteClient,
--   Control.Types the types of commands, Control.Addition AddActor, AddObject and GenerateID with
--   LoadActor and wrapInActivity of activitypub/activitypub.go and activitypub/activitieswrap.go;
--   Control.Repair models cmd-fix-storage-collections.go.
-- Keys models activitypub/keys.go, over a storage of metadata (Keys.MetadataStore) and the packages of
--   keys (Keys.Crypto); Search models activitypub/search.go, Ids activitypub/generator.go,
--   Ids.Stable activitypub/generator-stable-ids.go, and Ids.Self the services of
--   activitypub/activitypub.go.
-- HttpSig models httpsig.go.
-- Control.Backing is the storage with all that the commands on services and clients ask of it. Over
--   it, Control.Clients models AddClient and GenAuthToken of base.go, Control.Service CreateService,
--   Control.Bootstrap Bootstrap with the storage's part of cmd-bootstrap.go, and
--   Control.Credentials getPwAndKey, BootstrapCmd, and the bootstrap of Serve.Run in cmd-serve.go.
--   Control.Signer models LoadLocalActorWithKey, and whom ActorClient signs for, and Control.Saver
--   the options that ActorClient and Saver give to other packages.
-- Start models InitControl, setup, LoadServiceActor and loadPwFromStdin of control.go, Start.Stdin
--   loadFromStdin, and Start.Http initHttpServer of app.go.
-- Access models the authentication of ssh.go: pwCheck, publicKeyCheck and their handlers;
--   Access.Enrolment puts it together with Keys. Access.Server models initSSHServer, and
--   Access.Session runSSHCommand and MainTui.
-- Command models Run of run.go (Command.Run), cmd-maintenance.go and SendSignalToServer of base.go
--   (Command.Signals), and of cmd-activitypub.go DeleteCmd, MoveCmd, CopyCmd and IndexCmd
--   (Command.Objects), ImportCmd (Command.Import), AddActorCmd and AddCmd
--   (Command.Add) and ListCmd, InfoCmd and ExportCmd with List of base.go (Command.Listing);
--   cmd-accounts.go (Command.Accounts) and cmd-oauth.go (Command.OAuth).
-- Tests has small concrete versions of all parameters (Tests.World), and the theorems at them.
--
-- The parts meet as in the program: a reload of the server loads the configuration, its paths are
-- those that stopping removes, its modes decide what the middleware answers, and a command is run
-- between two signals to the server. A server that New has made handles the signals that a command
-- sends to the process of its pid file, and a session of SSH runs the reset of the storage on the
-- storage of the server. Generating keys for accounts, creating a service and adding a
-- client all save keys by AddKeyToItem; a client is an actor that AddActor adds first.
--
-- Bounds and fuel. Ports and process numbers are read as unsigned numbers of 32 bits, as
-- strconv.ParseUint does. operateOnObjects follows lists of items within lists, and takes fuel for
-- their depth: one unit is enough for objects that are no lists, and Control.Objects.Depth says how
-- much is enough for lists. sort.Slice is insertion sort up to twelve elements and a parameter
-- beyond. All other functions recur on their lists.
--
-- Simplified: letters are folded as ASCII; signals are handled one after the other, also after one
-- that stops the server; the cache holds values and no pointers; an actor is loaded as a single
-- item; os.RemoveAll is applied to plain files; times, log output and the messages of errors are left
-- out.
--
-- Not modelled: parsing the command line, the terminal program of ssh-tui.go, waiting for a signal,
-- choosing one of several routes that fit, changing the image of the favicon, embedded files, and
-- the containers of the integration tests. These call other packages for what they do. Keys, tokens
-- and passwords that are drawn at random are parameters.
pub mod Prelude
pub mod Go
pub mod Env
pub mod Config
pub mod Fault
pub mod Vocab
pub mod Http
pub mod Handlers
pub mod Middleware
pub mod Lifecycle
pub mod Control
pub mod Command
pub mod Keys
pub mod Routes
pub mod Output
pub mod Search
pub mod Ids
pub mod HttpSig
pub mod Access
pub mod Start
pub mod Tests
