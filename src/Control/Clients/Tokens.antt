-- ===== src/Control/Clients/Tokens.antt =====
-- The tokens that are saved for clients and actors.
use fedbox.Prelude.{
  ◌≡◌, refl, ap, ◌∙◌, ◌≢◌, ◌⊎◌, inl, inr, false, codes, Option, none, some, [], Text, ◌==◌, text_eq,
  arith, Bool-cases, Option-cases, text_beq_iff, nat_eq,
}
use mathlib.Core.Path.{subst}
use fedbox.Go.FilePath.{base}
use fedbox.Fault.{Fault, Result, ok, err, Result-cases}
use fedbox.Vocab.{Vocab, Iri}
use fedbox.Keys.{Crypto, MetadataStore}
use fedbox.Control.Backing.{Access, Backing, store_of}
use fedbox.Control.Addition.{Adding}
use fedbox.Control.Clients.{
  ClientServices, token, client_name, actor_iri, found_actor, authorization, access, token_result,
  then_save_access, issue, gen_auth_token,
}

module _ (C : Crypto) (V : Vocab) (M : MetadataStore V) (B : Backing V M) (W : ClientServices V)
    (A : Adding V (store_of V M B)) where
  found_actor-some :
      (m : Result V.Item) (act : V.Item)
      → found_actor C V M B W A m ≡ ok (some act)
      → (it : V.Item) × (m ≡ ok it) × (V.is_nil it ≡ false) × (W.last_actor it ≡ ok (some act))
  unfolding found_actor
  found_actor-some (err e) act h = ground arith
  found_actor-some (ok it) act h = elim (Bool-cases (V.is_nil it)) [
    | inl nil ↦ ground arith
    | inr there ↦ (it, refl, there, ground arith)
  ]

  token_result-token :
      (tok given : Text) (p : M.State × Option Fault) (s : M.State)
      → token_result C V M B W A given p ≡ (s, token tok)
      → (given ≡ tok) × (p ≡ (s, none))
  unfolding token_result
  token_result-token tok given (t, none) s h = ground arith
  token_result-token tok given (t, some e) s h = ground arith

  then_save_access-token :
      (ad : Access B.Client) (tok : Text) (p : M.State × Option Fault) (s : M.State)
      → then_save_access C V M B W A ad p ≡ (s, token tok)
      → (between : M.State) × (p ≡ (between, none))
        × (ad.access_token ≡ tok)
        × (B.save_access between ad ≡ (s, none))
  unfolding then_save_access
  then_save_access-token ad tok (t, some e) s h = ground arith
  then_save_access-token ad tok (t, none) s h =
      let it = token_result-token tok ad.access_token (B.save_access t ad) s h in
      (t, refl, it.0, it.1)

  -- What is saved with a token
  pub record Saved (cl : B.Client) (act : V.Item) (tok : Text) (s s' : M.State) : Type 0 where
    pub code : Text
    pub refresh : Text
    pub between : M.State
    pub generated : W.authorize_token ≡ ok code
    pub drawn : W.access_tokens ≡ ok (tok, refresh)
    pub authorized :
        B.save_authorize s (record {
          client = cl;
          code = code;
          expires_in = 86400;
          redirect_uri = B.redirect_of cl;
          state = codes "state";
        })
        ≡ (between, none)
    pub accessed :
        B.save_access between (record {
          client = cl;
          authorization = record {
            client = cl;
            code = code;
            expires_in = 86400;
            redirect_uri = B.redirect_of cl;
            state = codes "state";
          };
          access_token = tok;
          refresh_token = refresh;
          expires_in = 86400;
          scope = codes "scope";
          redirect_uri = B.redirect_of cl;
          user_data = V.link act;
        })
        ≡ (s', none)

  issue-Saved :
      (cl : B.Client) (actor : Option V.Item) (tok : Text) (s s' : M.State)
      → issue C V M B W A cl actor s ≡ (s', token tok)
      → (act : V.Item) × (actor ≡ some act) × Saved cl act tok s s'
  unfolding issue authorization access
  issue-Saved cl none tok s s' h = elim (Result-cases W.authorize_token) [
    | inl (e, bad) ↦ ground arith
    | inr (code, good) ↦ ground arith
  ]
  issue-Saved cl (some act) tok s s' h = elim (Result-cases W.authorize_token) [
    | inl (e, bad) ↦ ground arith
    | inr (code, good) ↦ elim (Result-cases W.access_tokens) [
      | inl (e, bad) ↦ ground arith
      | inr ((given, refresh), drawn) ↦
          let it =
            then_save_access-token (access C V M B W A cl code given refresh (V.link act)) tok
              (B.save_authorize s (authorization C V M B W A cl code)) s' (ground arith) in
          let (between, authorized, same, accessed) = it in
          (
            act,
            refl,
            record {
              code = code;
              refresh = refresh;
              between = between;
              generated = good;
              drawn = drawn ∙ ap (λ t. ok (t, refresh)) same;
              authorized = authorized;
              accessed =
                  subst
                    (λ t.
                      B.save_access between (access C V M B W A cl code t refresh (V.link act))
                      ≡ (s', none))
                    same accessed;
            },
          )
    ]
  ]

  -- The name of a client in the storage: the last segment of its id's path, or the id itself where
  -- it is no URL or that segment is a dot
  unfoldable pub NamesClient : Text → Text → Type 0
  NamesClient id name =
      ((W.iri_url id ≡ none) × (name ≡ id))
      ⊎ ((u : W.Url) × (W.iri_url id ≡ some u)
          × (((base (W.path u) ≡ codes ".") × (name ≡ id))
              ⊎ ((base (W.path u) ≢ codes ".") × (name ≡ base (W.path u)))))

  -- The IRI of an actor: its identifier where that is a URL, or a search by name
  unfoldable pub NamesActor : Text → Iri → Type 0
  NamesActor identifier i =
      (W.parsed identifier ≡ some i)
      ⊎ ((W.parsed identifier ≡ none) × (i ≡ W.search_by_name identifier))

  client_name-NamesClient : (id : Text) → NamesClient id (client_name C V M B W A id)
  unfolding client_name NamesClient base
  client_name-NamesClient id = elim (Option-cases (W.iri_url id)) [
    | inl no_url ↦ rw (no_url, client_name) (inl (refl, refl))
    | inr (u, is) ↦ elim (Bool-cases (base (W.path u) == codes ".")) [
      | inl dot ↦
          rw (is, dot, client_name)
            (inr (u, refl, inl ((text_beq_iff (base (W.path u)) (codes ".")).0 dot, refl)))
      | inr other ↦
          rw (is, other, client_name)
            (inr (
              u,
              refl,
              inr (
                λ same.
                    (let yes = (text_beq_iff (base (W.path u)) (codes ".")).1 same in ground arith),
                refl,
              ),
            ))
    ]
  ]

  actor_iri-NamesActor :
      (identifier : Text) → NamesActor identifier (actor_iri C V M B W A identifier)
  unfolding actor_iri NamesActor
  actor_iri-NamesActor identifier = elim (Option-cases (W.parsed identifier)) [
    | inl name ↦ rw (name, actor_iri) (inr (refl, refl))
    | inr (i, is) ↦ rw (is, actor_iri) (inl refl)
  ]

  -- What a token rests on
  pub record Issued (id identifier tok : Text) (s s' : M.State) : Type 0 where
    pub name : Text
    pub named : NamesClient id name
    pub iri : Iri
    pub identified : NamesActor identifier iri
    pub client : B.Client
    pub found : V.Item
    pub actor : V.Item
    pub known : B.get_client s name ≡ ok client
    pub loaded : B.load s iri [] ≡ ok found
    pub present : V.is_nil found ≡ false
    pub is_actor : W.last_actor found ≡ ok (some actor)
    pub saved : Saved client actor tok s s'

  -- `GenAuthToken` gives a token only if the client, under the last segment of its id's path, or its
  -- id where that is no URL or that segment is a dot, as it is of an empty path, and the actor, under
  -- its identifier if that is a URL and otherwise by a search by name, are found, and then the
  -- authorization and the access data with this token, with that client's redirect URI and the link
  -- of that actor, were saved last.
  pub gen_auth_token-Issued :
      (id identifier tok : Text) (s s' : M.State)
      → gen_auth_token C V M B W A id identifier s ≡ (s', token tok)
      → Issued id identifier tok s s'
  unfolding gen_auth_token
  gen_auth_token-Issued id identifier tok s s' h =
      elim (Result-cases (B.get_client s (client_name C V M B W A id))) [
        | inl (e, bad) ↦ ground arith
        | inr (cl, known) ↦
            let m = found_actor C V M B W A (B.load s (actor_iri C V M B W A identifier) []) in
            elim (Result-cases m) [
              | inl (e, bad) ↦ ground arith
              | inr (actor, got) ↦
                  let (act, is, saved) = issue-Saved cl actor tok s s' (ground arith) in
                  let it = found_actor-some _ act (got ∙ ap ok is) in
                  let (found, loaded, present, is_actor) = it in
                  record {
                    name = client_name C V M B W A id;
                    named = client_name-NamesClient id;
                    iri = actor_iri C V M B W A identifier;
                    identified = actor_iri-NamesActor identifier;
                    client = cl;
                    found = found;
                    actor = act;
                    known = known;
                    loaded = loaded;
                    present = present;
                    is_actor = is_actor;
                    saved = saved;
                  }
            ]
      ]
