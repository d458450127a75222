-- ===== src/HttpSig.antt =====
-- httpsig.go: the signature of a request to another server.
pub mod Laws
use fedbox.Prelude.{
  Bool, true, false, Option, none, some, List, [], ◌∷◌, ◌++◌, Text, codes, ◌==◌, text_eq,
  if◌then◌else◌,
}
use fedbox.Fault.{Fault, Result, ok, err, failed}
use fedbox.Vocab.{Iri}

-- The types of private keys that `newSigner` tells apart
pub data SigKey (K : Type 0) : Type 0 where
  rsa_key ecdsa_key ed25519_key : K → SigKey K
  unknown_key : SigKey K

-- The package httpsig: `NewSigner` for an algorithm, with the one it chose, and `SignRequest` for a
-- key, its id and a request; and what is called of the package net/url
pub record Signatures : Type 1 where
  pub Key : Type 0
  pub Signer : Type 0
  pub Request : Type 0
  pub new_signer : Text → List Text → Option (Text × Signer)
  pub sign : Signer → SigKey Key → Text → Request → Request × Option Fault
  -- names of algorithms, and of the request's target as a header
  pub rsa_sha256 : Text
  pub rsa_sha512 : Text
  pub ecdsa_sha256 : Text
  pub ecdsa_sha512 : Text
  pub ed25519 : Text
  pub request_target : Text
  pub method : Request → Text
  pub path : Iri → Text
  -- the IRI with a path in place of its own and the fragment of the key
  pub with_path : Iri → Text → Text → Text

module _ (H : Signatures) where
  abbrev headers_to_sign : List Text
  headers_to_sign = H.request_target ∷ codes "Host" ∷ codes "Date" ∷ []

  algorithms : SigKey H.Key → List Text
  algorithms (rsa_key k) = H.rsa_sha256 ∷ H.rsa_sha512 ∷ []
  algorithms (ecdsa_key k) = H.ecdsa_sha512 ∷ H.ecdsa_sha256 ∷ []
  algorithms (ed25519_key k) = H.ed25519 ∷ []
  algorithms unknown_key = []

  -- The map of signers; an algorithm stands once.
  put_signer : Text → H.Signer → List (Text × H.Signer) → List (Text × H.Signer)
  put_signer alg sig [] = (alg, sig) ∷ []
  put_signer alg sig ((alg', sig') ∷ sigs) =
      let rest = put_signer alg sig sigs in
      if alg' == alg then (alg, sig) ∷ sigs else (alg', sig') ∷ rest

  new_signers : List Text → List (Text × H.Signer) → List Text → List (Text × H.Signer)
  unfolding put_signer
  new_signers headers sigs [] = sigs
  new_signers headers sigs (alg ∷ algs) = elim (H.new_signer alg headers) [
    | none ↦ new_signers headers sigs algs
    | some (alg', sig) ↦ new_signers headers (put_signer alg' sig sigs) algs
  ]

  -- `newSigner`
  unfoldable signer_for : SigKey H.Key → List Text → List (Text × H.Signer)
  unfolding algorithms new_signers
  signer_for key headers = new_signers headers [] (algorithms key)

  -- `SignRequest`, in some order of the map: the first signer without an error
  unfoldable pub sign_request :
      List (Text × H.Signer) → SigKey H.Key → Text → H.Request → H.Request × Option Fault
  sign_request [] key id r = (r, some failed)
  sign_request ((alg, sig) ∷ sigs) key id r =
      let (r', e) = H.sign sig key id r in
      let rest = sign_request sigs key id r' in elim e [ none ↦ (r', none) | some _ ↦ rest ]

  headers_for : H.Request → List Text
  headers_for r =
      if H.method r == codes "POST"
      then headers_to_sign ++ (codes "Digest" ∷ [])
      else headers_to_sign

  -- An actor at the root of a host gets a path.
  key_id : Iri → Text
  key_id actor =
      H.with_path actor (if H.path actor == [] then codes "/" else H.path actor) (codes "main-key")

  -- `s2sSignFn`, for the key that was loaded and some order of the signers
  unfoldable s2s_sign_fn :
      (List (Text × H.Signer) → List (Text × H.Signer))
      → Iri
      → Result (SigKey H.Key)
      → H.Request
      → H.Request × Option Fault
  unfolding signer_for sign_request headers_for key_id
  s2s_sign_fn order actor (err e) r = (r, some e)
  s2s_sign_fn order actor (ok key) r =
      sign_request (order (signer_for key (headers_for r))) key (key_id actor) r
