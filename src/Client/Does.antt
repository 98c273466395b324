-- ===== src/Client/Does.antt =====
-- What a method of the client leaves: how its actions are put together.
use line_go.Common.{◌≡◌, refl}
use line_go.Client.{
  Result, Client, Act, done, failed, crashed, and_then, ◌>>=◌, wrapped_result, wrapping,
}

wrapped_result-done : {A : Type 0} (r : Result A) {a : A} → wrapped_result r ≡ done a → r ≡ done a
unfolding wrapped_result
wrapped_result-done (done x) h = h
wrapped_result-done (failed e) h = cc
wrapped_result-done (crashed p) h = cc

module _ {M : Type 0} where
  and_then-done :
      {A B : Type 0} (f : A → Act M B) (r : Client M × Result A) {b : B}
      → (and_then f r).1 ≡ done b
      → (a : A) × (r.1 ≡ done a) × (and_then f r ≡ f a r.0)
  unfolding and_then
  and_then-done f (c, done a) h = (a, refl, refl)
  and_then-done f (c, failed e) h = cc
  and_then-done f (c, crashed p) h = cc

  -- An action that is done, step by step.
  pub >>=-done :
      {A B : Type 0} (m : Act M A) (f : A → Act M B) (c : Client M) {b : B}
      → ((m >>= f) c).1 ≡ done b
      → (a : A) × ((m c).1 ≡ done a) × ((m >>= f) c ≡ f a (m c).0)
  unfolding ◌>>=◌
  >>=-done m f c h = and_then-done f (m c) h

  pub wrapping-done :
      {A : Type 0} (m : Act M A) (c : Client M) {a : A}
      → (wrapping m c).1 ≡ done a
      → (m c).1 ≡ done a
  unfolding wrapping
  wrapping-done m c h = wrapped_result-done (m c).1 h
