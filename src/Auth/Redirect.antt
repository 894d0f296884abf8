-- ===== src/Auth/Redirect.antt =====
-- Where safeReturnURL of internal/auth/session_manager.go can send a browser.
use service_backend.Prelude.{
  String, ◌≡◌, ◌⊎◌, refl, Bool, true, false, ◌==◌, Option, none, some, Bool-cases, Option-cases,
  inl, inr, List, [], ◌∷◌, In, arith, trim_space, if◌then◌else◌,
}
use service_backend.Auth.{AuthConfig}
use service_backend.Auth.ReturnUrl.{
  Url, Urls, same_origin, some_origin_allows, chosen, absolute, of_candidate, with_fallback,
  safe_return_url,
}

-- two URLs with the same scheme and the same host
pub record IsSameOrigin (urls : Urls) (u v : Url) : Type 0 where
  pub scheme : urls.equal_fold u.scheme v.scheme ≡ true
  pub host : urls.equal_fold u.host v.host ≡ true

-- an allowed origin that a URL has
pub record Allowed (urls : Urls) (origins : List String) (u : Url) : Type 0 where
  pub origin : String
  pub listed : In origin origins
  pub parsed : Url
  pub parses : urls.parse origin ≡ some parsed
  pub same : IsSameOrigin urls u parsed

-- the URL that the candidate parses as, or the one that it refers to
pub record IsTarget (urls : Urls) (fallback : Url) (candidate : String) (url : Url) : Type 0 where
  pub requested : Url
  pub parses : urls.parse (trim_space candidate) ≡ some requested
  pub is_target :
      ((requested.is_absolute ≡ true) × (url ≡ requested))
      ⊎ ((requested.is_absolute ≡ false) × (url ≡ urls.resolve_reference fallback requested))

-- a URL that a login may come back to
pub record Trusted (urls : Urls) (cfg : AuthConfig) (fallback : Url) (candidate text : String)
    : Type 0 where
  pub url : Url
  pub asked : IsTarget urls fallback candidate url
  pub prints : text ≡ url.text
  pub no_user : url.has_user ≡ false
  pub origin : IsSameOrigin urls url fallback ⊎ Allowed urls cfg.allowed_return_origins url

-- the configured URL, or a trusted one
abbrev pub IsSafe : Urls → AuthConfig → String → String → Type 0
IsSafe urls cfg candidate text =
    (text ≡ cfg.return_url)
    ⊎ ((fallback : Url) × (urls.parse cfg.return_url ≡ some fallback)
        × ((text ≡ fallback.text) ⊎ Trusted urls cfg fallback candidate text))

module _ (urls : Urls) where
  same_origin-IsSameOrigin : (u v : Url) → same_origin urls u v ≡ true → IsSameOrigin urls u v
  same_origin-IsSameOrigin u v h = record { scheme = ground (arith, h); host = ground (arith, h) }

  absolute-IsTarget :
      (fallback requested : Url) (candidate : String)
      → urls.parse (trim_space candidate) ≡ some requested
      → IsTarget urls fallback candidate (absolute urls fallback requested)
  absolute-IsTarget fallback requested candidate parses = record {
    requested = requested;
    parses = parses;
    is_target = elim (Bool-cases requested.is_absolute) [
      | inl whole ↦ inl (whole, simp whole)
      | inr relative ↦ inr (relative, simp relative)
    ];
  }

  deeper : {o : String} {os : List String} {u : Url} → Allowed urls os u → Allowed urls (o ∷ os) u
  deeper a = record {
    origin = a.origin;
    listed = inr a.listed;
    parsed = a.parsed;
    parses = a.parses;
    same = a.same;
  }

  some_origin_allows-Allowed :
      (origins : List String) (u : Url)
      → some_origin_allows urls origins u ≡ true
      → Allowed urls origins u
  unfolding some_origin_allows
  some_origin_allows-Allowed [] u h = cc
  some_origin_allows-Allowed (o ∷ os) u h = elim (Option-cases (urls.parse o)) [
    | inl e ↦ deeper (some_origin_allows-Allowed os u (rw (e, some_origin_allows) at h))
    | inr (p, e) ↦ elim (Bool-cases (same_origin urls u p)) [
      | inl same ↦ record {
        origin = o;
        listed = inl refl;
        parsed = p;
        parses = e;
        same = same_origin-IsSameOrigin u p same;
      }
      | inr other ↦
          deeper (some_origin_allows-Allowed os u (rw (e, other, some_origin_allows) at h))
    ]
  ]

  chosen-Trusted :
      (cfg : AuthConfig) (fallback u : Url) (candidate : String)
      → IsTarget urls fallback candidate u
      → (chosen urls cfg fallback u ≡ fallback.text)
        ⊎ Trusted urls cfg fallback candidate (chosen urls cfg fallback u)
  chosen-Trusted cfg fallback u candidate asked = elim (Bool-cases u.has_user) [
    | inl user ↦ inl (rw user)
    | inr no_user ↦ elim (Bool-cases (same_origin urls u fallback)) [
      | inl same ↦ inr (record {
        url = u;
        asked = asked;
        prints = simp (no_user, same);
        no_user = no_user;
        origin = inl (same_origin-IsSameOrigin u fallback same);
      })
      | inr other ↦ elim (Bool-cases (some_origin_allows urls cfg.allowed_return_origins u)) [
        | inl allowed ↦ inr (record {
          url = u;
          asked = asked;
          prints = simp (no_user, other, allowed);
          no_user = no_user;
          origin = inr (some_origin_allows-Allowed cfg.allowed_return_origins u allowed);
        })
        | inr refused ↦ inl (simp (no_user, other, refused))
      ]
    ]
  ]

  of_candidate-Trusted :
      (cfg : AuthConfig) (fallback : Url) (text : String) (o : Option Url)
      → urls.parse (trim_space text) ≡ o
      → (of_candidate urls cfg fallback o ≡ fallback.text)
        ⊎ Trusted urls cfg fallback text (of_candidate urls cfg fallback o)
  of_candidate-Trusted cfg fallback text none e = inl refl
  of_candidate-Trusted cfg fallback text (some u) e = candidate (u.text == "")
    where
      candidate :
          (b : Bool)
          → ((if b then fallback.text else chosen urls cfg fallback (absolute urls fallback u))
              ≡ fallback.text)
            ⊎ Trusted urls cfg fallback text
                (if b then fallback.text else chosen urls cfg fallback (absolute urls fallback u))
      candidate true = inl refl
      candidate false =
          chosen-Trusted cfg fallback (absolute urls fallback u) text
            (absolute-IsTarget fallback u text e)

  with_fallback-IsSafe :
      (cfg : AuthConfig) (candidate : String) (o : Option Url)
      → urls.parse cfg.return_url ≡ o
      → IsSafe urls cfg candidate (with_fallback urls cfg candidate o)
  with_fallback-IsSafe cfg candidate none e = inl refl
  with_fallback-IsSafe cfg candidate (some fallback) e = inr (
    fallback,
    e,
    of_candidate-Trusted cfg fallback candidate (urls.parse (trim_space candidate)) refl,
  )

-- Whatever URL a login asks to come back to, the one chosen is the configured one, or what it prints
-- as when it parses, or what the requested URL prints as, when that parses: a relative one is resolved
-- against the configured one, and the result has no user info, and the scheme and host of the
-- configured one or of an entry of the allowed origins.
pub no_open_redirect :
    (urls : Urls) (cfg : AuthConfig) (candidate : String)
    → IsSafe urls cfg candidate (safe_return_url urls cfg candidate)
unfolding safe_return_url
no_open_redirect urls cfg candidate =
    with_fallback-IsSafe urls cfg candidate (urls.parse cfg.return_url) refl
