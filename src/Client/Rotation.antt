-- ===== src/Client/Rotation.antt =====
-- The refresh of tokens in client/client.go: what a second caller with the same refused token gets.
use line_go.Common.{
  suc, sym, String, Bool, true, false, not, ◌&&◌, ◌≡◌, refl, ap, ◌∙◌, if◌then◌else◌,
}
use line_go.Client.{
  Client, Env, Act, done, failed, crashed, ◌>>=◌, and_then, pure, throw, get, modify, wrapping,
  moment, own, no_refresh_token,
}
use line_go.Client.Replies.{Tokens, with_tokens, set_talk}
use line_go.Client.Requests.{save_session, store_tokens, refresh, refresh_access_token}
use line_go.Client.Does.{>>=-done}
use package.text.Mathlib.Text.{◌==◌ as str_eq}

pub done_inj : {A : Type 0} {x y : A} → done x ≡ done y → x ≡ y
done_inj {x} h = ap (λ r. elim r [ done a ↦ a | failed e ↦ x | crashed p ↦ x ]) h

module _ {M : Type 0} (env : Env M) where
  store_tokens-session :
      (tokens : Tokens) (c : Client M) {token : String}
      → (store_tokens env tokens c).1 ≡ done token
      → (store_tokens env tokens c).0.session.access_token ≡ token
  unfolding store_tokens with_tokens save_session moment wrapping ◌>>=◌ and_then modify pure
  store_tokens-session tokens c {token} h =
      let c₁ = record c {
        tick = suc c.tick;
        session = with_tokens (env.at c.tick).now tokens c.session;
        services = set_talk tokens.access c.services;
      } in
      let (u, saved, whole) =
        >>=-done (wrapping (save_session env)) (λ u. pure {M = M} tokens.access) c₁ h in
      let same : tokens.access ≡ token = done_inj (sym (ap (λ r. r.1) whole) ∙ h) in
      ap (λ r. r.0.session.access_token) whole ∙ same

  refreshed-session :
      (refused : String) (c : Client M) {token : String}
      → (refresh_access_token env refused false c).1 ≡ done token
      → (refresh_access_token env refused false c).0.session.access_token ≡ token
  unfolding refresh_access_token ◌>>=◌ and_then get pure throw
  refreshed-session refused c {token} h =
      go (not (str_eq refused "") && not (str_eq c.session.access_token refused))
        (str_eq c.session.refresh_token "") h
    where
      act : Bool → Bool → Act M String
      act newer missing =
          if newer
          then pure c.session.access_token
          else if missing
          then throw (own no_refresh_token)
          else do
            tokens ← wrapping (refresh env c.session.refresh_token c.session.access_token)
            store_tokens env tokens

      go :
          (newer missing : Bool)
          → (act newer missing c).1 ≡ done token
          → (act newer missing c).0.session.access_token ≡ token
      go true missing h = done_inj h
      go false true h = cc
      go false false h =
          let (tokens, got, whole) =
            >>=-done (wrapping (refresh env c.session.refresh_token c.session.access_token))
              (store_tokens env) c h in
          ap (λ r. r.0.session.access_token) whole
          ∙ store_tokens-session tokens _ (sym (ap (λ r. r.1) whole) ∙ h)

  -- Where a refresh for a refused token returned another token: a second refresh for the same refused
  -- token, as of a caller that used it at the same time, returns that token and does nothing else, so
  -- it posts nothing and saves nothing.
  pub refresh_access_token-once :
      (refused token : String) (c : Client M)
      → str_eq refused "" ≡ false
      → (refresh_access_token env refused false c).1 ≡ done token
      → str_eq token refused ≡ false
      → refresh_access_token env refused false (refresh_access_token env refused false c).0
        ≡ ((refresh_access_token env refused false c).0, done token)
  refresh_access_token-once refused token c some_token h other =
      at_once (refresh_access_token env refused false c).0 (refreshed-session refused c h)
    where
      at_once :
          (c' : Client M)
          → c'.session.access_token ≡ token
          → refresh_access_token env refused false c' ≡ (c', done token)
      at_once c' e =
          unfold refresh_access_token ◌>>=◌ and_then get pure in rw (some_token, e, other) refl
