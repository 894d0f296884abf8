-- ===== src/Auth/SamePerson.antt =====
-- That a refresh in internal/auth/session_manager.go keeps the identity of a session.
use service_backend.Prelude.{
  ℕ, String, ◌≡◌, sym, ap, Bool, true, false, not, ◌||◌, ◌==◌, Option, arith, eq_iff, if◌then◌else◌,
}
use service_backend.Errors.{Result, ok, >>=-inv, refuse_if-inv, ok-injective}
use service_backend.Policy.{Policy, external}
use service_backend.Auth.{Claims, SessionRow, Times, World}
use service_backend.Auth.Access.{
  with_external_access, map_external_access, narrowed, claims_token, decrypt_optional,
  encrypt_optional,
}
use service_backend.Auth.Renewal.{Renewal, renewal, same_identity, or_fault, kept_token}

-- two claims of one identity
abbrev SameIdentity : Claims → Claims → Type 0
SameIdentity c d = (d.provider_id ≡ c.provider_id) × (d.subject ≡ c.subject) × (d.issuer ≡ c.issuer)

same_claims : (c d : Claims) → c ≡ d → SameIdentity c d
same_claims c d same = (
  ap (λ (x : Claims). x.provider_id) (sym same),
  ap (λ (x : Claims). x.subject) (sym same),
  ap (λ (x : Claims). x.issuer) (sym same),
)

either_way :
    {C : Type 0} (test : Bool) (c : Claims) (m : Result Claims) {d : Claims}
    → (if test then ok c else m) ≡ ok d
    → (c ≡ d → C)
    → (m ≡ ok d → C)
    → C
either_way true c m h yes_case no_case = yes_case (ok-injective h)
either_way false c m h yes_case no_case = no_case h

with_external_access-same :
    (w : World) (policy : Option Policy) (now : ℕ) (c : Claims) (token : String) (d : Claims)
    → with_external_access w policy now c token ≡ ok d
    → SameIdentity c d
unfolding with_external_access
with_external_access-same w policy now c token d h =
    either_way (not (external policy)) c _ h (λ same. same_claims c d same)
      λ h0. >>=-inv (w.resolve_token token) _ h0 λ access _ h1.
        refuse_if-inv
          (not (access.provider_id == c.provider_id)
            || not (access.issuer == c.issuer)
            || not (access.subject == c.subject))
          _ _ h1
          λ _ h2.
            >>=-inv (map_external_access w policy now access) _ h2
              λ snapshot _ h3. same_claims (narrowed c access snapshot) d (ok-injective h3)

-- a renewal is for the identity of the session
pub renewal-same :
    (w : World) (policy : Option Policy) (t : Times) (row : SessionRow) (n : Renewal)
    → renewal w policy t row ≡ ok n
    → (n.claims.provider_id ≡ row.provider_id)
      × (n.claims.subject ≡ row.subject)
      × (n.claims.issuer ≡ row.issuer)
unfolding renewal
renewal-same w policy t row n h =
    >>=-inv
      (or_fault "configurator session has expired" (decrypt_optional w row.refresh_token_encrypted))
      _ h
      λ old _ h1. refuse_if-inv (old == "") _ _ h1 λ _ h2.
        >>=-inv w.current_adapter _ h2 λ adapter _ h3.
          >>=-inv (adapter.refresh old) _ h3 λ tokens _ h4.
            >>=-inv (w.resolve_token (claims_token tokens)) _ h4 λ claims _ h5.
              refuse_if-inv (not (same_identity claims row)) _ _ h5 λ own h6.
                >>=-inv (with_external_access w policy t.mapping claims tokens.access_token) _ h6
                  λ identity got h7.
                    >>=-inv (encrypt_optional w (kept_token tokens.refresh_token old)) _ h7
                      λ encrypted _ h8.
                        let made = ap (λ (x : Renewal). x.claims) (ok-injective h8) in
                        let (p, q, r) =
                          with_external_access-same w policy t.mapping claims tokens.access_token
                            identity got in
                        (
                          ground (
                            arith,
                            eq_iff claims.provider_id row.provider_id,
                            p,
                            ap (λ (x : Claims). x.provider_id) made,
                          ),
                          ground (
                            arith,
                            eq_iff claims.subject row.subject,
                            q,
                            ap (λ (x : Claims). x.subject) made,
                          ),
                          ground (
                            arith,
                            eq_iff claims.issuer row.issuer,
                            r,
                            ap (λ (x : Claims). x.issuer) made,
                          ),
                        )
