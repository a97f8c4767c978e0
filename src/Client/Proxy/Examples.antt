-- ===== src/Client/Proxy/Examples.antt =====
-- The client's proxy at concrete inputs.
use oblireach.Base.{
  negsuc, delete, strip_prefix, ◌≡◌, refl, Bool, true, false, none, some, List, [], ◌∷◌, Bytes,
  codes, text_eq, is_empty, pos,
}
use oblireach.Client.Proxy.{
  apply_cookies, set_cookie, get_favorites, proxied_path, Proxy, Response, handle_sso_callback,
  missing_parameter, Request, logout, proxied, sso_callback, handle_all, handle, handle_proxy,
  start_sso_flow, send, capture, set_cookies, save, written, callback_with, complete_sso,
  handle_logout, clear,
}
use oblireach.Client.Proxy.SingleSignOn.{callback_once}

abbrev answer : Response
answer = record {
  status = 200;
  cookies = record { name = codes "sid"; value = codes "1"; max_age = pos 0 } ∷ [];
  request_id = some (codes "r1");
}

abbrev first : Proxy
first = record {
  server_url = codes "https://a";
  username = codes "u";
  cookies = [];
  writable = true;
  session_file = none;
  config_file = none;
  favorites = none;
  sso = none;
  sent = [];
}

abbrev requests : List Request
requests =
    proxied (codes "/proxy/api/auth/sso-desktop-init") true (some answer)
    ∷ sso_callback (codes "c") (codes "s") (some answer)
    ∷ logout
    ∷ []

abbrev accept : Bytes → Bool
accept url = true

-- A sign-on whose files cannot be written leaves its cookies in memory only.
unwritten : (handle_all accept requests (record first { writable = false })).session_file ≡ none
unfolding handle_all handle handle_proxy proxied_path strip_prefix start_sso_flow send capture
    set_cookies save written handle_sso_callback callback_with complete_sso handle_logout clear
    is_empty text_eq
unwritten = refl

abbrev pending : Proxy
pending = record first { sso = some (codes "r1") }

callback_once_example :
    handle_sso_callback
      (codes "c2")
      (codes "s2")
      none
      (handle_sso_callback (codes "c") (codes "s") (some answer) pending).0
    ≡ ((handle_sso_callback (codes "c") (codes "s") (some answer) pending).0, missing_parameter)
unfolding is_empty
callback_once_example =
    callback_once (codes "c") (codes "s") (codes "c2") (codes "s2") (codes "r1") (some answer) none
      pending refl refl

-- A cookie with a negative age is deleted.
deleted :
    apply_cookies
      (record { name = codes "sid"; value = []; max_age = negsuc 0 } ∷ [])
      ((codes "sid", codes "1") ∷ [])
    ≡ []
unfolding apply_cookies set_cookie delete text_eq
deleted = refl

no_favorites : get_favorites first ≡ codes "[]"
unfolding get_favorites
no_favorites = refl

stripped : proxied_path (codes "/proxy/api/x") ≡ codes "/api/x"
unfolding proxied_path strip_prefix
stripped = refl
