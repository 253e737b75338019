-- ===== src/AuthCodeFlow/Closing.antt =====
-- The callback server of an authorization code login: authCodeLogin of
-- internal/github/authcode_flow.go.
use scafctl_plugin_auth_gith.Prelude.{String, ◌≡◌}
use scafctl_plugin_auth_gith.Effect.{
  Result, ok, err, panic, Exec, wrapped, finally, continue, ◌>>=◌, ◌or_wrap◌,
}
use scafctl_plugin_auth_gith.Effect.Keeps.{Keeps}
use scafctl_plugin_auth_gith.Types.{LoginRequest, LoginResponse}
use scafctl_plugin_auth_gith.World.{World}
use scafctl_plugin_auth_gith.Handler.{Handler, Context}
use scafctl_plugin_auth_gith.AuthCodeFlow.{auth_code_login, with_callback_server}

-- `IsClosed` says that no callback server is open. Closing achieves it, generating a verifier does
-- not change it, and a start that does not return opens no server.
pub record Closes (W : World) (IsClosed : W.State → Type 0) : Type 0 where
  pub generate : Keeps IsClosed W.generate_code_verifier
  pub not_started :
      (state : String) (s : W.State)
      → ((uri : String) → ¬ ((W.start_callback_server state s).0 ≡ ok uri))
      → IsClosed s
      → IsClosed (W.start_callback_server state s).1
  pub close : (s : W.State) → IsClosed (W.close_callback_server s).1

module _ ⦃W : World⦄ {IsClosed : W.State → Type 0} (C : Closes W IsClosed) (p : Handler W)
    (ctx : Context W) (req : LoginRequest) where
  abbrev serve : String → String → String → Exec W.State LoginResponse
  serve verifier state uri =
      finally (with_callback_server p ctx req verifier state uri) W.close_callback_server

  -- From the attempt to start the server.
  started :
      (verifier state : String) (r : Result String) (t : W.State)
      → (((uri : String) → ¬ (r ≡ ok uri)) → IsClosed t)
      → IsClosed
          (continue
            (wrapped "github: callback_server: starting callback server" r)
            (serve verifier state)
            t).1
  unfolding wrapped finally
  started verifier state (ok uri) t closed =
      C.close (with_callback_server p ctx req verifier state uri t).1
  started verifier state (err e) t closed = closed (λ uri h. no h)
    where
      no : {a b : String} → ¬ (err a ≡ ok b)
      no h = cc
  started verifier state (panic e) t closed = closed (λ uri h. no h)
    where
      no : {a b : String} → ¬ (panic a ≡ ok b)
      no h = cc

  abbrev start : String → String → Exec W.State LoginResponse
  start verifier state =
      (W.start_callback_server state or_wrap "github: callback_server: starting callback server")
      >>= serve verifier state

  start-closed :
      (verifier state : String) (s : W.State) → IsClosed s → IsClosed (start verifier state s).1
  unfolding ◌>>=◌ ◌or_wrap◌
  start-closed verifier state s h =
      started verifier state (W.start_callback_server state s).0 _
        (λ refused. C.not_started state s refused h)

  generated :
      (context : String) (r : Result String) (t : W.State)
      (rest : String → Exec W.State LoginResponse)
      → IsClosed t
      → ((verifier : String) → IsClosed (rest verifier t).1)
      → IsClosed (continue (wrapped context r) rest t).1
  unfolding wrapped
  generated context (ok verifier) t rest h next = next verifier
  generated context (err e) t rest h next = h
  generated context (panic e) t rest h next = h

  -- If closing the callback server closes it and a start that fails opens none, then after an
  -- authorization code login no callback server is open if none was before, whatever the login
  -- returns, and at whichever step it fails or panics.
  pub auth_code_login-closes : (s : W.State) → IsClosed s → IsClosed (auth_code_login p ctx req s).1
  unfolding auth_code_login ◌>>=◌ ◌or_wrap◌
  auth_code_login-closes s h =
      let first = C.generate.at s h in
      generated _ (W.generate_code_verifier s).0 _ _ first λ verifier.
        let second = C.generate.at _ first in
        generated _ (W.generate_code_verifier (W.generate_code_verifier s).1).0 _ _ second
          λ state. start-closed verifier state _ second
