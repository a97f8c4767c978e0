-- ===== src/Client/Proxy/SingleSignOn.antt =====
-- The callback of the single sign-on of client-app/proxy.go.
use oblireach.Base.{false, ◌||◌, Option, none, some, List, [], ◌∷◌, Bytes, is_empty, ◌≡◌, refl}
use oblireach.Client.Proxy.{
  Cookie, Proxy, save, set_cookies, capture, send, Response, complete_sso, callback_with,
  handle_sso_callback, missing_parameter,
}

capture_sso :
    (cs : List Cookie) (p : Proxy) → ((capture cs p).sso ≡ p.sso) × ((capture cs p).sent ≡ p.sent)
unfolding capture set_cookies save
capture_sso [] p = (refl, refl)
capture_sso (c ∷ cs) p = (refl, refl)

complete_sso_rest :
    (a : Option Response) (p : Proxy)
    → ((complete_sso a p).0.sso ≡ p.sso) × ((complete_sso a p).0.sent ≡ p.sent)
unfolding complete_sso
complete_sso_rest none p = (refl, refl)
complete_sso_rest (some r) p = capture_sso r.cookies p

callback_idle :
    (o : Option Bytes) (code state : Bytes) (a : Option Response) (p : Proxy)
    → o ≡ none
    → callback_with o code state a p ≡ (p, missing_parameter)
unfolding callback_with
callback_idle none code state a p h = refl
callback_idle (some id) code state a p h = cc

callback_pending :
    (o : Option Bytes) (code state id : Bytes) (a : Option Response) (p : Proxy)
    → o ≡ some id
    → (is_empty code || is_empty state) ≡ false
    → (callback_with o code state a p).0.sso ≡ none
unfolding callback_with send
callback_pending none code state id a p h given = cc
callback_pending (some id') code state id a p h given = rw given ((complete_sso_rest a _).0)

-- A callback with a code and a state uses the pending sign-on up, whatever the server answers: a
-- second callback is refused, changes nothing, and sends nothing to the server.
pub callback_once :
    (code state code' state' id : Bytes) (a b : Option Response) (p : Proxy)
    → p.sso ≡ some id
    → (is_empty code || is_empty state) ≡ false
    → handle_sso_callback code' state' b (handle_sso_callback code state a p).0
      ≡ ((handle_sso_callback code state a p).0, missing_parameter)
unfolding handle_sso_callback
callback_once code state code' state' id a b p h given =
    callback_idle _ code' state' b _ (callback_pending p.sso code state id a p h given)
