-- ===== src/Auth/ReturnUrl.antt =====
-- safeReturnURL of internal/auth/session_manager.go. Parsing and printing URLs is net/url's.
use service_backend.Prelude.{
  String, Bool, false, not, ◌&&◌, ◌||◌, ◌==◌, Option, none, some, List, [], ◌∷◌, if◌then◌else◌,
  trim_space,
}
use service_backend.Auth.{AuthConfig}

-- what the code asks of a parsed URL; `text` is what it prints as
pub record Url : Type 0 where
  pub text : String
  pub scheme : String
  pub host : String
  pub has_user : Bool
  pub is_absolute : Bool

pub record Urls : Type 0 where
  pub parse : String → Option Url
  pub resolve_reference : Url → Url → Url
  pub equal_fold : String → String → Bool

module _ (urls : Urls) where
  -- sameURLOrigin
  abbrev pub same_origin : Url → Url → Bool
  same_origin left right =
      urls.equal_fold left.scheme right.scheme && urls.equal_fold left.host right.host

  abbrev allows : Url → Option Url → Bool
  allows requested none = false
  allows requested (some allowed) = same_origin requested allowed

  -- the loop over the allowed origins
  unfoldable pub some_origin_allows : List String → Url → Bool
  some_origin_allows [] requested = false
  some_origin_allows (origin ∷ origins) requested =
      allows requested (urls.parse origin) || some_origin_allows origins requested

  -- from the reading of the candidate on
  abbrev pub chosen : AuthConfig → Url → Url → String
  chosen cfg fallback requested =
      if requested.has_user
      then fallback.text
      else if same_origin requested fallback
      then requested.text
      else if some_origin_allows cfg.allowed_return_origins requested
      then requested.text
      else fallback.text

  abbrev pub absolute : Url → Url → Url
  absolute fallback requested =
      if not requested.is_absolute then urls.resolve_reference fallback requested else requested

  abbrev pub of_candidate : AuthConfig → Url → Option Url → String
  of_candidate cfg fallback none = fallback.text
  of_candidate cfg fallback (some requested) =
      if requested.text == ""
      then fallback.text
      else chosen cfg fallback (absolute fallback requested)

  abbrev pub with_fallback : AuthConfig → String → Option Url → String
  with_fallback cfg candidate none = cfg.return_url
  with_fallback cfg candidate (some fallback) =
      of_candidate cfg fallback (urls.parse (trim_space candidate))

  -- safeReturnURL
  unfoldable pub safe_return_url : AuthConfig → String → String
  unfolding some_origin_allows
  safe_return_url cfg candidate = with_fallback cfg candidate (urls.parse cfg.return_url)
