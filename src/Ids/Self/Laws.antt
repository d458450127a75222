-- ===== src/Ids/Self/Laws.antt =====
-- The endpoint of the proxy is the one that requests are tested for.
use fedbox.Prelude.{◌≡◌, refl, ap, ◌∙◌, true, ◌∷◌, ◌++◌, Text, codes, text_eq}
use fedbox.Go.FilePath.Laws.{base_append}
use fedbox.Http.{is_proxy_url}
use fedbox.Vocab.{Iri}
use fedbox.Ids.Self.{Urls, self, self_iri}

-- What is documented of `AddPath`: the path follows a slash.
abbrev AddsPath : Urls → Type 0
AddsPath U = (i : Iri) (p : Text) → (q : Text) × (U.add_path i p ≡ q ++ (b'/' ∷ p))

proxy_path : (q : Text) → is_proxy_url (q ++ (b'/' ∷ codes "proxyUrl")) ≡ true
unfolding is_proxy_url
proxy_path q = rw (base_append q (codes "roxyUrl") b'p' refl) refl

-- If adding a path to an IRI puts it behind a slash, then the endpoint of the proxy that `Self` gives
-- a service is an IRI that `IsProxyURL` accepts, whatever the base URL.
is_proxy_url-self :
    (U : Urls) (base : Iri) (name : Text)
    → AddsPath U
    → is_proxy_url (self U base name).proxy_url_endpoint ≡ true
unfolding self
is_proxy_url-self U base name adds =
    let (q, is) = adds (self_iri U base) (codes "proxyUrl") in ap is_proxy_url is ∙ proxy_path q
