-- ===== src/Client/Proxy/Persistence.antt =====
-- The configuration of client-app/proxy.go, as handleConfig posts it.
use oblireach.Base.{
  if◌then◌else◌, ◌||◌, ◌&&◌, some, [], Bytes, text_eq, is_empty, trim_right, ◌≡◌, true, refl,
  Bool-cases, inl, inr,
}
use oblireach.Client.Proxy.{Proxy, handle_config, post_server, post_username, clear, save, written}

-- What a posted configuration does: a URL that is empty or the current one keeps the server and its
-- session; any other one becomes the server without its trailing slashes, and the session is dropped
-- in memory and on disk. A name that is not empty replaces the user's. The configuration is written
-- when one of the two changed, with the values that hold then. The files are those of a directory
-- that can be written.
pub handle_config_cases :
    (url name : Bytes) (p : Proxy)
    → p.writable ≡ true
    → let same = is_empty url || text_eq url p.server_url in
      let q = handle_config (some (url, name)) p in
      (q.server_url ≡ (if same then p.server_url else trim_right b'/' url))
      × ((q.cookies ≡ (if same then p.cookies else []))
          × ((q.session_file ≡ (if same then p.session_file else some []))
              × ((q.username ≡ (if is_empty name then p.username else name))
                  × (q.config_file ≡ (
                      if same && is_empty name
                      then p.config_file
                      else some (q.server_url, q.username))))))
unfolding handle_config post_server post_username clear save written
handle_config_cases url name p ok = elim (Bool-cases (is_empty url)) [
  | inl missing ↦ elim (Bool-cases (is_empty name)) [
    | inl unnamed ↦ simp (ok, missing, unnamed) (refl, (refl, (refl, (refl, refl))))
    | inr named ↦ simp (ok, missing, named) (refl, (refl, (refl, (refl, refl))))
  ]
  | inr given ↦ elim (Bool-cases (text_eq url p.server_url)) [
    | inl current ↦ elim (Bool-cases (is_empty name)) [
      | inl unnamed ↦ simp (ok, given, current, unnamed) (refl, (refl, (refl, (refl, refl))))
      | inr named ↦ simp (ok, given, current, named) (refl, (refl, (refl, (refl, refl))))
    ]
    | inr other ↦ elim (Bool-cases (is_empty name)) [
      | inl unnamed ↦ simp (ok, given, other, unnamed) (refl, (refl, (refl, (refl, refl))))
      | inr named ↦ simp (ok, given, other, named) (refl, (refl, (refl, (refl, refl))))
    ]
  ]
]
