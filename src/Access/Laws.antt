-- ===== src/Access/Laws.antt =====
-- Whom the two ways of authentication let in.
use fedbox.Prelude.{
  ◌≡◌, refl, ◌∙◌, ap, ◌⊎◌, inl, inr, ◌↔◌, Bool, true, false, Option, none, some, Text, arith,
  Bool-cases, Option-cases,
}
use mathlib.Core.Path.{subst}
use fedbox.Fault.{Fault, Result, ok, err, ◌>>=◌, Result-cases}
use fedbox.Vocab.{Vocab, Iri}
use fedbox.Access.{
  Accounts, ActorKey, rsa, ecdsa, ed25519, other_key, Context, pw_check, known_actor, published_key,
  session_key, compare_keys, public_key_check, admit, ssh_auth_pw, ssh_auth_public_key,
}

module _ (V : Vocab) (A : Accounts V) where
  -- A private key whose public key is equal to another key
  unfoldable pub Holds : ActorKey A.PublicKey → A.PublicKey → Type 0
  Holds (rsa key) k = A.equal_keys key k ≡ true
  Holds (ecdsa key) k = A.equal_keys key k ≡ true
  Holds (ed25519 none) k = ⊥
  Holds (ed25519 (some key)) k = A.equal_keys key k ≡ true
  Holds other_key k = ⊥

  -- What access by a public key rests on
  pub record KeyAccess (service : V.Item) (user : Iri) (key : Option A.PublicKey) (s : A.State)
      (actor : V.Item) : Type 0 where
    pub known : V.Item
    pub origin :
        (A.load s user ≡ ok known)
        ⊎ ((e : Fault) × (A.load s user ≡ err e)
            × (known ≡ service)
            × (A.equals (V.link service) user ≡ true))
    pub is_actor : A.to_actor known ≡ ok actor
    pub stored : ActorKey A.PublicKey
    pub loaded : A.load_key s user ≡ ok stored
    pub sent : A.PublicKey
    offered : key ≡ some sent
    pub held : Holds stored sent

  compare_keys-Holds :
      (actor who : V.Item) (stored : ActorKey A.PublicKey) (k : A.PublicKey)
      → compare_keys V A actor stored k ≡ ok (who, true)
      → Holds stored k
  unfolding compare_keys Holds
  compare_keys-Holds actor who (rsa key) k h = ground arith
  compare_keys-Holds actor who (ecdsa key) k h = ground arith
  compare_keys-Holds actor who (ed25519 none) k h = ground arith
  compare_keys-Holds actor who (ed25519 (some key)) k h = ground arith
  compare_keys-Holds actor who other_key k h = ground arith

  compare_keys_actor :
      (actor who : V.Item) (stored : ActorKey A.PublicKey) (k : A.PublicKey) (fits : Bool)
      → compare_keys V A actor stored k ≡ ok (who, fits)
      → actor ≡ who
  unfolding compare_keys
  compare_keys_actor actor who (rsa key) k fits h = ground arith
  compare_keys_actor actor who (ecdsa key) k fits h = ground arith
  compare_keys_actor actor who (ed25519 none) k fits h = ground arith
  compare_keys_actor actor who (ed25519 (some key)) k fits h = ground arith
  compare_keys_actor actor who other_key k fits h = ground arith

  known_actor_origin :
      (service : V.Item) (user : Iri) (s : A.State) (it : V.Item)
      → known_actor V A service user s ≡ ok it
      → (A.load s user ≡ ok it)
        ⊎ ((e : Fault) × (A.load s user ≡ err e)
            × (it ≡ service)
            × (A.equals (V.link service) user ≡ true))
  unfolding known_actor
  known_actor_origin service user s it h = elim (Result-cases (A.load s user)) [
    | inl (e, bad) ↦ elim (Bool-cases (A.equals (V.link service) user)) [
      | inl same ↦ inr (e, bad, ground arith, same)
      | inr other ↦ ground arith
    ]
    | inr (found, good) ↦ inl (ground arith)
  ]

  session_key-some :
      (key : Option A.PublicKey) (k : A.PublicKey) → session_key V A key ≡ ok k → key ≡ some k
  unfolding session_key
  session_key-some none k h = ground arith
  session_key-some (some key) k h = ground arith

  -- A step that succeeded in a chain of steps
  chained {ℓ κ} :
      {X : Type ℓ} {Y : Type κ} (m : Result X) (f : X → Result Y) (y : Y)
      → (m >>= f) ≡ ok y
      → (x : X) × (m ≡ ok x) × (f x ≡ ok y)
  chained (ok x) f y h = (x, refl, h)
  chained (err e) f y h = ground arith

  public_key_check-KeyAccess :
      (service : V.Item) (user : Iri) (key : Option A.PublicKey) (s : A.State) (actor : V.Item)
      → public_key_check V A service user key s ≡ ok (actor, true)
      → KeyAccess service user key s actor
  unfolding public_key_check
  public_key_check-KeyAccess service user key s actor h =
      let (known, k, h1) = chained (known_actor V A service user s) _ _ h in
      let (stored, l, h2) = chained (A.load_key s user) _ _ h1 in
      let (who, a, h3) = chained (A.to_actor known) _ _ h2 in
      let (published, p, h4) = chained (published_key V A who) _ _ h3 in
      let (sent, o, h5) = chained (session_key V A key) _ _ h4 in
      record {
        known = known;
        origin = known_actor_origin service user s known k;
        is_actor = a ∙ ap ok (compare_keys_actor who actor stored sent true h5);
        stored = stored;
        loaded = l;
        sent = sent;
        offered = session_key-some key sent o;
        held = compare_keys-Holds who actor stored sent h5;
      }

  -- A public key either lets nobody in and leaves the context of the session alone, or it is the
  -- public key of the private key that is stored for the user, and the context gets the actor that
  -- is stored under the name of the user, or the service if loading that fails and the name is the
  -- service's.
  pub ssh_auth_public_key-KeyAccess :
      (ctx : Context V A) (service : V.Item) (user : Iri) (key : Option A.PublicKey) (s : A.State)
      → (ssh_auth_public_key V A ctx service user key s ≡ (ctx, false))
        ⊎ ((actor : V.Item) × (ssh_auth_public_key V A ctx service user key s ≡ (some actor, true))
            × KeyAccess service user key s actor)
  unfolding ssh_auth_public_key admit
  ssh_auth_public_key-KeyAccess ctx service user key s =
      elim (Result-cases (public_key_check V A service user key s)) [
        | inl (e, bad) ↦ inl (ground arith)
        | inr ((actor, true), good) ↦ inr (
          actor,
          ap (admit V A ctx) good,
          public_key_check-KeyAccess service user key s actor good,
        )
        | inr ((actor, false), good) ↦ inl (ap (admit V A ctx) good)
      ]

  -- What access by a password rests on
  pub record PasswordAccess (user : Iri) (pw : Text) (s : A.State) (actor : V.Item) : Type 0 where
    pub known : V.Item
    pub loaded : A.load s user ≡ ok known
    pub is_actor : A.to_actor known ≡ ok actor
    pub passed : A.password_check s (V.link actor) pw ≡ none

  pw_check-PasswordAccess :
      (user : Iri) (pw : Text) (s : A.State) (actor : V.Item)
      → pw_check V A user pw s ≡ ok (actor, true)
      → PasswordAccess user pw s actor
  unfolding pw_check
  pw_check-PasswordAccess user pw s actor h =
      let (known, l, h1) = chained (A.load s user) _ _ h in
      let (who, a, h2) = chained (A.to_actor known) _ _ h1 in
      elim (Option-cases (A.password_check s (V.link who) pw)) [
        | inl fine ↦
            let same : who ≡ actor = ground arith in
            record {
              known = known;
              loaded = l;
              is_actor = a ∙ ap ok same;
              passed = subst (λ x. A.password_check s (V.link x) pw ≡ none) same fine;
            }
        | inr (e, bad) ↦ ground arith
      ]

  admit-true :
      (ctx : Context V A) (m : Result (V.Item × Bool)) (actor : V.Item)
      → admit V A ctx m ≡ (some actor, true)
      → m ≡ ok (actor, true)
  unfolding admit
  admit-true ctx (err e) actor h = ground arith
  admit-true ctx (ok (who, true)) actor h = ground arith
  admit-true ctx (ok (who, false)) actor h = ground arith

  admit_cases :
      (ctx : Context V A) (m : Result (V.Item × Bool))
      → (admit V A ctx m ≡ (ctx, false)) ⊎ ((admit V A ctx m).1 ≡ true)
  unfolding admit
  admit_cases ctx (err e) = inl refl
  admit_cases ctx (ok (who, true)) = inr refl
  admit_cases ctx (ok (who, false)) = inl refl

  -- A password lets an actor in, and puts it into the context of the session, exactly when it is
  -- the actor that is stored under the name of the user and passes the check of its password; and
  -- where nobody is let in, the context is left alone.
  pub ssh_auth_pw-PasswordAccess :
      (ctx : Context V A) (user : Iri) (pw : Text) (s : A.State) (actor : V.Item)
      → ((ssh_auth_pw V A ctx user pw s ≡ (some actor, true)) ↔ PasswordAccess user pw s actor)
        × ((ssh_auth_pw V A ctx user pw s ≡ (ctx, false))
            ⊎ ((ssh_auth_pw V A ctx user pw s).1 ≡ true))
  unfolding ssh_auth_pw pw_check admit
  ssh_auth_pw-PasswordAccess ctx user pw s actor = (
    (
      λ h.
          pw_check-PasswordAccess user pw s actor (admit-true ctx (pw_check V A user pw s) actor h),
      λ p. rw (p.loaded, p.is_actor, p.passed) refl,
    ),
    admit_cases ctx (pw_check V A user pw s),
  )
