-- ===== src/Client/Proxy.antt =====
-- The local proxy of client-app/proxy.go: the cookies of the session, the configuration and the
-- single sign-on flow, one request at a time: the lock of the cookies, and a save that falls between
-- two requests, are not modelled. The session file holds the cookies' table, and the answers of the
-- server and of the browser are decoded outside the model.
pub mod Persistence
pub mod SingleSignOn
mod Examples
use oblireach.Base.{
  ℕ, Bool, true, false, ◌||◌, ◌&&◌, not, Option, none, some, List, [], ◌∷◌, ◌++◌, Bytes, codes,
  text_eq, is_empty, trim_right, strip_prefix, Table, store, delete, length, ltb, ◌==◌,
  if◌then◌else◌, ℤ, pos, negsuc,
}

pub record Cookie : Type 0 where
  pub name : Bytes
  pub value : Bytes
  pub max_age : ℤ

-- A request that the proxy sends to the server: its path and the cookies that were injected.
pub record Sent : Type 0 where
  pub server : Bytes
  pub path : Bytes
  pub injected : Table Bytes

pub record Proxy : Type 0 where
  pub server_url : Bytes
  pub username : Bytes
  pub cookies : Table Bytes
  -- Whether MkdirAll and WriteFile succeed; the code ignores their errors.
  pub writable : Bool
  -- session.json, when it was written.
  pub session_file : Option (Table Bytes)
  -- config.json, when it was written.
  pub config_file : Option (Bytes × Bytes)
  pub favorites : Option Bytes
  -- The request ID of a pending sign-on.
  pub sso : Option Bytes
  pub sent : List Sent

-- A file behind `_ = os.WriteFile(...)`: one that cannot be written stays what it was.
pub written : {A : Type 0} → Bool → A → Option A → Option A
written writable new old = if writable then some new else old

pub save : Proxy → Proxy
save p = record p { session_file = written p.writable p.cookies p.session_file }

-- One cookie of a response: a negative age deletes it.
pub set_cookie : Table Bytes → Cookie → Table Bytes
set_cookie cookies c = elim c.max_age [
  | pos n ↦ store c.name c.value cookies
  | negsuc n ↦ delete c.name cookies
]

pub apply_cookies : List Cookie → Table Bytes → Table Bytes
apply_cookies [] cookies = cookies
apply_cookies (c ∷ cs) cookies = apply_cookies cs (set_cookie cookies c)

pub set_cookies : List Cookie → Proxy → Proxy
set_cookies cs p = save (record p { cookies = apply_cookies cs p.cookies })

-- `if cookies := resp.Cookies(); len(cookies) > 0`
pub capture : List Cookie → Proxy → Proxy
capture [] p = p
capture (c ∷ cs) p = set_cookies (c ∷ cs) p

pub clear : Proxy → Proxy
clear p = save (record p { cookies = [] })

pub send : Bytes → Proxy → Proxy
send path p = record p {
  sent = p.sent ++ (record { server = p.server_url; path = path; injected = p.cookies } ∷ []);
}

-- loadSession: a file that is missing or malformed leaves no cookies.
pub load_session : Bool → Bytes → Bytes → Option (Table Bytes) → Proxy
load_session writable server_url username file = record {
  server_url = server_url;
  username = username;
  cookies = elim file [ none ↦ [] | some t ↦ t ];
  writable = writable;
  session_file = file;
  config_file = none;
  favorites = none;
  sso = none;
  sent = [];
}

-- handleConfig: a new server drops the session.
pub post_server : Bytes → Proxy → Proxy × Bool
post_server url p =
    if not (is_empty url) && not (text_eq url p.server_url)
    then (clear (record p { server_url = trim_right b'/' url }), true)
    else (p, false)

pub post_username : Bytes → Proxy × Bool → Proxy × Bool
post_username name r = if is_empty name then r else (record r.0 { username = name }, true)

pub handle_config : Option (Bytes × Bytes) → Proxy → Proxy
handle_config none p = p
handle_config (some (url, name)) p =
    let r = post_username name (post_server url p) in
    if r.1
    then record r.0 {
      config_file = written r.0.writable (r.0.server_url, r.0.username) r.0.config_file;
    }
    else r.0

-- handleLogout: the server's answer is not looked at.
pub handle_logout : Proxy → Proxy
handle_logout p = clear (if is_empty p.server_url then p else send (codes "/api/auth/logout") p)

-- handleFavorites
pub post_favorites : Bytes → Proxy → Proxy
post_favorites bytes p = record p { favorites = written p.writable bytes p.favorites }

pub get_favorites : Proxy → Bytes
get_favorites p = elim p.favorites [ none ↦ codes "[]" | some bytes ↦ bytes ]

-- What the server answers: its status, its cookies, and a request ID when the body is a success.
pub record Response : Type 0 where
  pub status : ℕ
  pub cookies : List Cookie
  pub request_id : Option Bytes

-- startSsoFlow, with the status that the browser gets.
pub start_sso_flow : Option Response → Proxy → Proxy × ℕ
start_sso_flow answer p =
    let asked = send (codes "/api/auth/sso-desktop-init") p in
    elim answer [
      | none ↦ (asked, 502)
      | some r ↦
          let captured = capture r.cookies asked in
          (
            elim r.request_id [ none ↦ captured | some id ↦ record captured { sso = some id } ],
            r.status,
          )
    ]

pub data CallbackPage : Type 0 where
  missing_parameter sign_on_failed signed_in : CallbackPage

complete_sso : Option Response → Proxy → Proxy × CallbackPage
complete_sso none p = (p, sign_on_failed)
complete_sso (some r) p =
    (capture r.cookies p, if r.status == 200 then signed_in else sign_on_failed)

callback_with : Option Bytes → Bytes → Bytes → Option Response → Proxy → Proxy × CallbackPage
callback_with none code state answer p = (p, missing_parameter)
callback_with (some id) code state answer p =
    if is_empty code || is_empty state
    then (p, missing_parameter)
    else complete_sso answer
        (send (codes "/api/auth/sso-desktop-complete") (record p { sso = none }))

-- handleSsoCallback: the pending sign-on is used up before the server is asked.
pub handle_sso_callback : Bytes → Bytes → Option Response → Proxy → Proxy × CallbackPage
handle_sso_callback code state answer p = callback_with p.sso code state answer p

-- strings.TrimPrefix(r.URL.Path, "/proxy")
pub proxied_path : Bytes → Bytes
proxied_path path = elim (strip_prefix (codes "/proxy") path) [ none ↦ path | some rest ↦ rest ]

-- handleProxy: `valid_url` is url.Parse on the server's URL; a response's cookies are captured.
pub handle_proxy : (Bytes → Bool) → Bytes → Bool → Option Response → Proxy → Proxy × ℕ
handle_proxy valid_url path is_post answer p =
    if is_empty p.server_url
    then (p, 503)
    else if not (valid_url p.server_url)
    then (p, 500)
    else if text_eq (proxied_path path) (codes "/api/auth/sso-desktop-init") && is_post
    then start_sso_flow answer p
    else elim answer [
      | none ↦ (send (proxied_path path) p, 502)
      | some r ↦ (capture r.cookies (send (proxied_path path) p), r.status)
    ]

pub data Request : Type 0 where
  config : Option (Bytes × Bytes) → Request
  logout : Request
  favorites_posted : Bytes → Request
  sso_callback : Bytes → Bytes → Option Response → Request
  proxied : Bytes → Bool → Option Response → Request

module _ (valid_url : Bytes → Bool) where
  pub handle : Request → Proxy → Proxy
  handle (config body) p = handle_config body p
  handle logout p = handle_logout p
  handle (favorites_posted bytes) p = post_favorites bytes p
  handle (sso_callback code state answer) p = (handle_sso_callback code state answer p).0
  handle (proxied path is_post answer) p = (handle_proxy valid_url path is_post answer p).0

  pub handle_all : List Request → Proxy → Proxy
  handle_all [] p = p
  handle_all (r ∷ rs) p = handle_all rs (handle r p)
