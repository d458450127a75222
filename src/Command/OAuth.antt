-- ===== src/Command/OAuth.antt =====
-- cmd-oauth.go: the commands on clients and tokens, with `ListClients` of base.go.
use fedbox.Prelude.{
  ℕ, suc, Option, none, some, List, [], ◌∷◌, ◌++◌, Text, codes, ◌==◌, text_eq, if◌then◌else◌,
}
use fedbox.Go.Strings.{replace_all}
use fedbox.Go.Decimal.{append_uint}
use fedbox.Fault.{Fault, Result, ok, err, failed}
use fedbox.Vocab.{Vocab, Iri}
use fedbox.Keys.{Crypto, MetadataStore}
use fedbox.Start.{load_pw_from_stdin}
use fedbox.Control.Backing.{Backing, store_of}
use fedbox.Control.Addition.{Adding}
use fedbox.Control.Clients.{ClientServices, Token, no_token, add_client, gen_auth_token}

-- `GetId` and `GetRedirectUri` of a client
pub record Listed : Type 0 where
  pub id : Text
  pub redirect_uri : Text

client_lines : ℕ → List Listed → Text
unfolding replace_all append_uint
client_lines n [] = []
client_lines n (c ∷ cs) =
    append_uint n
    ++ (codes " "
        ++ (c.id
            ++ (codes " - "
                ++ (replace_all c.redirect_uri (codes "\n") (codes " :: ")
                    ++ (codes "\n" ++ client_lines (suc n) cs)))))

-- `LsClient.Run`, with what it prints
unfoldable pub ls_client : Result (List Listed) → Result Text
unfolding client_lines
ls_client (err e) = err e
ls_client (ok clients) = ok (client_lines 0 clients)

-- `DelClient.Run`, with the ids it prints as deleted, for what `DeleteClient` does; it never fails.
unfoldable pub del_clients {ℓ} :
    {State : Type ℓ}
    → (Iri → State → State × Option Fault)
    → List Iri
    → List Iri
    → State
    → State × List Iri
del_clients delete [] deleted s = (s, deleted)
del_clients delete (id ∷ ids) deleted s =
    let (s', e) = delete id s in
    if id == [] then del_clients delete ids deleted s else elim e [
      | some _ ↦ del_clients delete ids deleted s'
      | none ↦ del_clients delete ids (deleted ++ (id ∷ [])) s'
    ]

module _ (C : Crypto) (V : Vocab) (M : MetadataStore V) (B : Backing V M) (W : ClientServices V)
    (A : Adding V (store_of V M B)) where
  -- The id is printed if there is no error.
  printed_id : M.State × Iri × Option Fault → M.State × Result Iri
  printed_id (s, id, none) = (s, ok id)
  printed_id (s, id, some e) = (s, err e)

  with_typed : Text → V.Item → List Text → Result Text → M.State → M.State × Result Iri
  unfolding add_client printed_id
  with_typed base_url self uris (err e) s = (s, err e)
  with_typed base_url self uris (ok pw) s =
      printed_id (add_client C V M B W A base_url self (some pw) uris none s)

  -- `AddClient.Run`, for the two passwords that are typed
  unfoldable pub add_client_cmd :
      Text → V.Item → List Text → Text → Text → M.State → M.State × Result Iri
  unfolding load_pw_from_stdin with_typed
  add_client_cmd base_url self [] pw1 pw2 s = (s, err failed)
  add_client_cmd base_url self (uri ∷ uris) pw1 pw2 s =
      with_typed base_url self (uri ∷ uris) (load_pw_from_stdin pw1 pw2) s

  -- `AddToken.Run`, for the link of the service. It is the id of the client that is tested, once
  -- more, and not the actor's identifier.
  unfoldable pub add_token : Iri → Text → Text → M.State → M.State × Token
  unfolding gen_auth_token
  add_token service_link client actor s =
      let id = if client == [] then service_link else client in
      if id == [] then (s, no_token failed) else gen_auth_token C V M B W A id actor s
