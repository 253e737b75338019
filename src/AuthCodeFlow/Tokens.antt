-- ===== src/AuthCodeFlow/Tokens.antt =====
-- The tokens that the exchange of an authorization code returns: internal/github/authcode_flow.go.
use scafctl_plugin_auth_gith.Prelude.{
  String, ◌==◌, Bool, true, false, ◌≡◌, refl, subst, if◌then◌else◌,
}
use scafctl_plugin_auth_gith.Effect.{ok, err}
use scafctl_plugin_auth_gith.Effect.Yields.{Yields-lift, Yields-bind}
use scafctl_plugin_auth_gith.Types.{TokenResponse, TokenBody}
use scafctl_plugin_auth_gith.World.{World}
use scafctl_plugin_auth_gith.Handler.{Handler}
use scafctl_plugin_auth_gith.AuthCodeFlow.{exchanged, exchange_auth_code}

abbrev pub FullResponse : TokenResponse → Type 0
FullResponse resp = resp.access_token == "" ≡ false

kept_token : (x y : TokenResponse) → ok x ≡ ok y → x ≡ y
kept_token x y e = cc

full_or_error :
    (b c : Bool) (e f : String) (x y : TokenResponse)
    → x.access_token == "" ≡ b
    → (if b then (if c then err e else err f) else ok x) ≡ ok y
    → FullResponse y
full_or_error true true e f x y h q = cc
full_or_error true false e f x y h q = cc
full_or_error false c e f x y h q = subst FullResponse (kept_token x y q) h

exchanged-full :
    (body : TokenBody) (resp : TokenResponse) → exchanged body ≡ ok resp → FullResponse resp
unfolding exchanged
exchanged-full body resp e =
    full_or_error (body.token.access_token == "") (body.failure.error == "") _ _ body.token resp
      refl e

module _ ⦃W : World⦄ where
  -- Where the exchange of an authorization code returns a response, its access token is not empty,
  -- whatever the server answers.
  pub exchange_auth_code-full :
      (p : Handler W) (auth_code redirect_uri code_verifier : String) (s : W.State)
      (resp : TokenResponse)
      → (exchange_auth_code p auth_code redirect_uri code_verifier s).0 ≡ ok resp
      → FullResponse resp
  unfolding exchange_auth_code
  exchange_auth_code-full p auth_code redirect_uri code_verifier s resp e =
      (Yields-bind {Q = FullResponse} _ _
          λ answer. Yields-bind _ _ λ body. Yields-lift (exchanged body) (exchanged-full body)).from
        s resp e
