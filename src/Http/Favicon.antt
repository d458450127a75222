-- ===== src/Http/Favicon.antt =====
-- The handler of favicon.go, for an icon that could be encoded.
use fedbox.Prelude.{
  ℕ, ◌≡◌, Bool, true, false, not, ◌&&◌, ◌||◌, Option, none, some, List, [], Text, codes, contains,
  ◌==◌, text_eq, leb, arith, if◌then◌else◌,
}

-- What the handler reads of a request: its method, If-None-Match if it is set, and If-Modified-Since
record IconRequest : Type 0 where
  pub method : Text
  pub none_match : Option (List Text)
  pub modified_since : Text

-- The icon with its tag; a time is a number of seconds, and none is the zero time.
record Icon : Type 0 where
  pub raw : Text
  pub e_tag : Text
  pub updated_at : Option ℕ

record IconReply : Type 0 where
  pub status : ℕ
  pub last_modified : Option ℕ
  pub body : Text

-- The seconds of a time after the zero time
abbrev seconds : Option ℕ → ℕ
seconds none = 0
seconds (some t) = t

request_matches_last_modified : (Text → Option ℕ) → IconRequest → Option ℕ → Bool
request_matches_last_modified parse r updated = elim (parse r.modified_since) [
  | none ↦ false
  | some since ↦ leb (seconds updated) since
]

request_matches_e_tag : IconRequest → Text → Bool
request_matches_e_tag r tag = elim r.none_match [ none ↦ false | some tags ↦ contains tags tag ]

-- For `time.Parse` in the format of RFC 1123
unfoldable serve_icon : (Text → Option ℕ) → Icon → IconRequest → IconReply
unfolding request_matches_last_modified request_matches_e_tag
serve_icon parse icon r =
    let has_item =
      request_matches_e_tag r icon.e_tag || request_matches_last_modified parse r icon.updated_at in
    record {
      status = if has_item then 304 else 200;
      last_modified = icon.updated_at;
      body = if r.method == codes "GET" && not has_item then icon.raw else [];
    }

-- The client that sends the tag of the icon gets no body, whatever the method.
serve_icon-unmodified :
    (parse : Text → Option ℕ) (icon : Icon) (r : IconRequest)
    → request_matches_e_tag r icon.e_tag ≡ true
    → ((serve_icon parse icon r).status ≡ 304) × ((serve_icon parse icon r).body ≡ [])
unfolding serve_icon
serve_icon-unmodified parse icon r h = ground arith
