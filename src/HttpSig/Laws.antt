-- ===== src/HttpSig/Laws.antt =====
-- When a request is signed.
use fedbox.Prelude.{
  ◌≡◌, ap, ◌∙◌, ◌↔◌, inl, inr, none, some, List, [], ◌∷◌, Text, arith, Option-cases,
}
use fedbox.Fault.{Fault}
use fedbox.HttpSig.{Signatures, SigKey, sign_request}

module _ (H : Signatures) (key : SigKey H.Key) (id : Text) where
  -- Some signer of a list signs the request, as the signers before it left it, and those all fail.
  data SignedBy : List (Text × H.Signer) → H.Request → H.Request → Type 0 where
    by_first :
        {alg : Text} {sig : H.Signer} {sigs : List (Text × H.Signer)} {r r' : H.Request}
        → H.sign sig key id r ≡ (r', none)
        → SignedBy ((alg, sig) ∷ sigs) r r'
    by_later :
        {alg : Text} {sig : H.Signer} {sigs : List (Text × H.Signer)} {r left r' : H.Request}
        {e : Fault}
        → H.sign sig key id r ≡ (left, some e)
        → SignedBy sigs left r'
        → SignedBy ((alg, sig) ∷ sigs) r r'

  SignedBy-sign_request :
      (sigs : List (Text × H.Signer)) (r r' : H.Request)
      → SignedBy sigs r r'
      → sign_request H sigs key id r ≡ (r', none)
  unfolding sign_request
  SignedBy-sign_request _ r r' (by_first h) = rw (h, sign_request) (ap (λ p. (p.0, none)) h)
  SignedBy-sign_request _ r r' (by_later {sigs = sigs} {left = left} h later) =
      rw (h, sign_request)
        (ap (λ p. sign_request H sigs key id p.0) h ∙ SignedBy-sign_request sigs left r' later)

  sign_request-SignedBy :
      (sigs : List (Text × H.Signer)) (r r' : H.Request)
      → sign_request H sigs key id r ≡ (r', none)
      → SignedBy sigs r r'
  unfolding sign_request
  sign_request-SignedBy [] r r' h = ground arith
  sign_request-SignedBy ((alg, sig) ∷ sigs) r r' h = elim (Option-cases (H.sign sig key id r).1) [
    | inl fine ↦ by_first (ground arith)
    | inr (e, refused) ↦
        by_later {left = (H.sign sig key id r).0} {e = e} (ground arith)
          (sign_request-SignedBy sigs (H.sign sig key id r).0 r' (ground arith))
  ]

  -- A request is signed without an error exactly when some signer signs it and those before it
  -- fail.
  sign_request_iff :
      (sigs : List (Text × H.Signer)) (r r' : H.Request)
      → (sign_request H sigs key id r ≡ (r', none)) ↔ SignedBy sigs r r'
  sign_request_iff sigs r r' = (sign_request-SignedBy sigs r r', SignedBy-sign_request sigs r r')
