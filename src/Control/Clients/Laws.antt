-- ===== src/Control/Clients/Laws.antt =====
-- The clients that are saved.
use fedbox.Prelude.{
  ℕ, ◌≡◌, refl, sym, ap, ◌∙◌, ◌≢◌, ◌⊎◌, inl, inr, true, false, codes, contains, any, Option, none,
  some, List, [], ◌∷◌, ◌++◌, map, Text, ◌==◌, text_eq, arith, Bool-cases, Option-cases,
  text_beq_iff, nat_eq, All,
}
use mathlib.Core.Path.{subst}
use mathlib.Core.List.{append_assoc, append-nil}
use fedbox.Go.Strings.{join, split}
use fedbox.Go.Strings.Laws.{Lacks, contains-Lacks, split-join}
use fedbox.Go.FilePath.{clean}
use fedbox.Fault.{Fault, failed}
use fedbox.Vocab.{Vocab, Iri}
use fedbox.Keys.{Crypto, MetadataStore}
use fedbox.Control.Backing.{Backing, store_of}
use fedbox.Control.Addition.{Adding, Added, added, refused, panicked, add_actor}
use fedbox.Control.Clients.{
  ClientServices, Redirects, redirect_round, redirects_from, redirects, secret_of, id_result,
  save_new_client, after_actor, add_client,
}

module _ (C : Crypto) (V : Vocab) (M : MetadataStore V) (B : Backing V M) (W : ClientServices V)
    (A : Adding V (store_of V M B)) where
  -- A redirect URI with its path cleaned; what is no URI stays as it is.
  unfoldable pub normalised : Text → Text
  normalised uri = elim (W.parse_request_uri uri) [
    | none ↦ uri
    | some u ↦ W.to_text (W.with_path u (clean (W.path u)))
  ]

  redirect_round-uris :
      (r : Redirects) (uri : Text)
      → (redirect_round C V M B W A r uri).uris ≡ r.uris ++ (normalised uri ∷ [])
  unfolding redirect_round normalised clean
  redirect_round-uris r uri = elim (Option-cases (W.parse_request_uri uri)) [
    | inl bad ↦ rw (bad, redirect_round, normalised)
    | inr (u, good) ↦ rw (good, redirect_round, normalised)
  ]

  redirects_from-uris :
      (r : Redirects) (uris : List Text)
      → (redirects_from C V M B W A r uris).uris ≡ r.uris ++ map normalised uris
  unfolding redirects_from
  redirects_from-uris r [] = sym (append-nil r.uris)
  redirects_from-uris r (uri ∷ uris) =
      redirects_from-uris (redirect_round C V M B W A r uri) uris
      ∙ ap (λ us. us ++ map normalised uris) (redirect_round-uris r uri)
      ∙ append_assoc r.uris (normalised uri ∷ []) (map normalised uris)

  redirects-uris : (uris : List Text) → (redirects C V M B W A uris).uris ≡ map normalised uris
  unfolding redirects
  redirects-uris uris = redirects_from-uris _ uris

  -- The secret of a client: its password, or nothing
  unfoldable pub password_or_nothing : Option Text → Text
  password_or_nothing none = []
  password_or_nothing (some pw) = pw

  -- What `AddClient` leaves for redirect URIs: either no id and an error, or an id and what saving
  -- the client with this id gave, whose redirect URIs are found again where none has a line end.
  unfoldable pub AddedClient :
      Option Text → List Text → Option Text → M.State × Iri × Option Fault → Type 0
  AddedClient pw uris user (s, id, e) =
      ((id ≡ []) × (why : Fault) × (e ≡ some why))
      ⊎ ((id ≢ [])
          × (before : M.State) × (B.save_client before (record {
            id = id;
            secret = password_or_nothing pw;
            redirect_uri = join uris (codes "\n");
            user_data = W.marshal user;
          })
              ≡ (s, e))
          × ((any (λ uri. contains uri b'\n') uris ≡ true)
              ⊎ (split (join uris (codes "\n")) b'\n' ≡ uris)))

  secret_of-password_or_nothing :
      (pw : Option Text) → secret_of C V M B W A pw ≡ password_or_nothing pw
  unfolding password_or_nothing
  secret_of-password_or_nothing none = refl
  secret_of-password_or_nothing (some pw) = refl

  any-All-Lacks :
      (sep : ℕ) (uris : List Text)
      → any (λ uri. contains uri sep) uris ≡ false
      → All (Lacks sep) uris
  any-All-Lacks sep [] h = tt
  any-All-Lacks sep (uri ∷ uris) h =
      (contains-Lacks sep uri (ground arith), any-All-Lacks sep uris (ground arith))

  split_again :
      (uri : Text) (uris : List Text)
      → (any (λ uri. contains uri b'\n') (uri ∷ uris) ≡ true)
        ⊎ (split (join (uri ∷ uris) (codes "\n")) b'\n' ≡ uri ∷ uris)
  split_again uri uris = elim (Bool-cases (any (λ uri. contains uri b'\n') (uri ∷ uris))) [
    | inl here ↦ inl here
    | inr lacks ↦ inr (split-join b'\n' uri uris refl (any-All-Lacks b'\n' (uri ∷ uris) lacks))
  ]

  save_new_client-AddedClient :
      (pw : Option Text) (uri : Text) (uris : List Text) (user : Option Text) (p : M.State × V.Item)
      → AddedClient pw (uri ∷ uris) user (save_new_client C V M B W A pw (uri ∷ uris) user p)
  unfolding save_new_client id_result AddedClient
  save_new_client-AddedClient pw uri uris user (t, app) = elim (Bool-cases (M.actor_id app == [])) [
    | inl empty ↦ rw (empty, save_new_client) (inl (refl, failed, refl))
    | inr full ↦
        rw (full, save_new_client, secret_of-password_or_nothing pw)
          (inr (
            λ is. (let yes = (text_beq_iff (M.actor_id app) []).1 is in ground arith),
            t,
            refl,
            split_again uri uris,
          ))
  ]

  after_actor-AddedClient :
      (pw : Option Text) (uri : Text) (uris : List Text) (user : Option Text)
      (p : M.State × Added V)
      → AddedClient pw (uri ∷ uris) user (after_actor C V M B W A pw (uri ∷ uris) user p)
  unfolding after_actor AddedClient
  after_actor-AddedClient pw uri uris user (t, refused e) = inl (refl, e, refl)
  after_actor-AddedClient pw uri uris user (t, panicked) = inl (refl, failed, refl)
  after_actor-AddedClient pw uri uris user (t, added app) =
      save_new_client-AddedClient pw uri uris user _

  -- For one or more redirect URIs, `AddClient` gives either an error and no id, or an id, and then
  -- what it did last was to save a client with this id, with the password as its secret, or none,
  -- and with the redirect URIs, of which those that can be parsed have their paths cleaned, joined by
  -- line ends; the error beside the id is that of saving the client. Splitting at line ends gives the
  -- redirect URIs again unless one of them has a line end.
  pub add_client-AddedClient :
      (base_url : Text) (self : V.Item) (pw : Option Text) (uri : Text) (uris : List Text)
      (user : Option Text) (s : M.State)
      → AddedClient pw
          (map normalised (uri ∷ uris))
          user
          (add_client C V M B W A base_url self pw (uri ∷ uris) user s)
  unfolding add_client
  add_client-AddedClient base_url self pw uri uris user s =
      let r = redirects C V M B W A (uri ∷ uris) in
      let p = add_actor V (store_of V M B) A base_url (W.application r.name r.urls) self s in
      subst
        (λ us.
          AddedClient pw (map normalised (uri ∷ uris)) user (after_actor C V M B W A pw us user p))
        (sym (redirects-uris (uri ∷ uris)))
        (after_actor-AddedClient pw (normalised uri) (map normalised uris) user p)
