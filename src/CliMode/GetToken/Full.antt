-- ===== src/CliMode/GetToken/Full.antt =====
-- The tokens that a request for one returns: GetToken of internal/github/cli_mode.go.
use mathlib.Core.Option.{some-injective}
use scafctl_plugin_auth_gith.Prelude.{
  String, ◌==◌, Bool, true, false, Option, none, some, ◌≡◌, refl, sym, subst, if◌then◌else◌,
}
use scafctl_plugin_auth_gith.Effect.{Result, ok, err, panic, Exec, pure}
use scafctl_plugin_auth_gith.Effect.Yields.{
  Yields, Yields-pure, Yields-fail, Yields-if, Yields-bind, Yields-bind_of_result,
}
use scafctl_plugin_auth_gith.Types.{Token, TokenRequest, TokenReply, TokenMetadata, TokenResponse}
use scafctl_plugin_auth_gith.World.{World}
use scafctl_plugin_auth_gith.Handler.{Handler, Context}
use scafctl_plugin_auth_gith.Token.Mint.{mint_token, refresh_access_token, accept_refresh, minted}
use scafctl_plugin_auth_gith.Pat.{get_pat_token, pat_reply, validated_pat, reply_of, cached_token}
use scafctl_plugin_auth_gith.CliMode.GetToken.{
  get_token, oauth_token, fresh_token, stored_or_minted, reply_and_cache, stored_token,
  stored_access,
}

abbrev pub FullToken : Token → Type 0
FullToken token = token.access_token == "" ≡ false

abbrev pub FullReply : TokenReply → Type 0
FullReply reply = reply.access_token == "" ≡ false

module _ ⦃W : World⦄ (p : Handler W) (ctx : Context W) where
  accept-full :
      (refresh_token : String) (resp : TokenResponse) (metadata : Result TokenMetadata)
      → Yields FullToken (accept_refresh p ctx refresh_token resp metadata)
  unfolding accept_refresh
  accept-full refresh_token resp metadata =
      Yields-if (resp.access_token == "") _ _ (λ empty. Yields-fail _)
        (λ full.
          Yields-bind _ _
            λ x. Yields-bind _ _ λ expires_at. Yields-pure (minted resp metadata expires_at) full)

  mint-full : Yields FullToken (mint_token p ctx)
  unfolding mint_token refresh_access_token
  mint-full = Yields-bind _ _ λ refresh_token. Yields-bind _ _ λ metadata.
      Yields-if (metadata.client_id == "") _ _ (λ missing. Yields-fail _)
        (λ given.
          Yields-bind _ _ λ m.
            Yields-bind _ _ λ resp. Yields-bind _ _ λ parsed. accept-full refresh_token parsed m)

  reply-full : (token : Token) → FullToken token → Yields FullReply (reply_and_cache p ctx token)
  unfolding reply_and_cache
  reply-full token full = Yields-bind _ _ λ x. Yields-pure (reply_of token) full

  unless_empty :
      (b : Bool) (x t : String)
      → x == "" ≡ b
      → (if b then none else some x) ≡ some t
      → t == "" ≡ false
  unless_empty true x t h e = cc
  unless_empty false x t h e = subst (λ y. y == "" ≡ false) (some-injective x t e) h

  stored_access-full : (r : Result String) (t : String) → stored_access r ≡ some t → t == "" ≡ false
  stored_access-full (ok x) t e = unless_empty (x == "") x t refl e
  stored_access-full (err x) t e = cc
  stored_access-full (panic x) t e = cc

  stored-full :
      (o : Option String)
      → ((t : String) → o ≡ some t → t == "" ≡ false)
      → Yields FullReply (stored_or_minted p ctx o)
  unfolding stored_or_minted
  stored-full none h =
      Yields-bind_of_result _ _ λ s token e. reply-full token (mint-full.from s token e)
  stored-full (some t) h =
      Yields-bind _ _ λ expires_at. reply-full (stored_token t expires_at) (h t refl)

  fresh-full : Yields FullReply (fresh_token p ctx none)
  unfolding fresh_token
  fresh-full =
      Yields-bind _ _ λ loaded. stored-full (stored_access loaded) (stored_access-full loaded)

  module _ (req : TokenRequest) (forced : req.force_refresh ≡ true) where
    nothing_cached :
        (b : Bool) (m : Exec W.State (Option Token)) (s : W.State) (o : Option Token)
        → b ≡ true
        → ((if b then pure none else m) s).0 ≡ ok o
        → o ≡ none
    unfolding pure
    nothing_cached true m s o h e = cc
    nothing_cached false m s o h e = cc

    forced_misses :
        (client : Option W.HostClient) (key profile : String) (s : W.State) (o : Option Token)
        → (cached_token client key profile req s).0 ≡ ok o
        → o ≡ none
    unfolding cached_token
    forced_misses client key profile s o e = nothing_cached req.force_refresh _ s o forced e

    pat_reply-full :
        (token : String) (o : Option Token)
        → o ≡ none
        → token == "" ≡ false
        → Yields FullReply (pat_reply p ctx token o)
    unfolding pat_reply validated_pat
    pat_reply-full token none h full =
        Yields-bind _ _ λ claims. Yields-bind _ _ λ now. Yields-bind _ _ λ x. Yields-pure _ full
    pat_reply-full token (some t) h full = absurd (some_none h)
      where
        some_none : ¬ (some t ≡ none)
        some_none e = cc

    pat-full : Yields FullReply (get_pat_token p ctx req)
    unfolding get_pat_token
    pat-full = Yields-bind _ _ λ token.
        Yields-if (token == "") _ _ (λ empty. Yields-fail _)
          (λ full.
            Yields-bind_of_result _ _
              λ s o e. pat_reply-full token o (forced_misses _ _ _ s o e) full)

    oauth-full : Yields FullReply (oauth_token p ctx req)
    unfolding oauth_token
    oauth-full = Yields-bind_of_result _ _ λ s o e.
        subst (λ c. Yields FullReply (fresh_token p ctx c)) (sym (forced_misses _ _ _ s o e))
          fresh-full

    -- A token request that forces a refresh never returns an empty access token, whether the token
    -- comes from the environment, from the host's secrets or from the server.
    pub get_token-full :
        (s : W.State) (reply : TokenReply) → (get_token p ctx req s).0 ≡ ok reply → FullReply reply
    unfolding get_token
    get_token-full s reply e =
        (Yields-bind {Q = FullReply} _ _ λ x.
            Yields-bind _ _ λ has_pat. Yields-if has_pat _ _ (λ h. pat-full) (λ h. oauth-full)).from
          s reply e
