-- ===== src/Agent/WebSocket/Address.antt =====
-- The address that parseWsURL makes of a server URL.
use oblireach.Base.{
  ◌≡◌, refl, false, some, arith, [], ◌∷◌, ◌++◌, Bytes, codes, strip_prefix, has_byte, if◌then◌else◌,
}
use oblireach.Agent.WebSocket.{Scheme, wss, ws, cut_slash, default_port, split_url, parse_ws_url}

-- The four prefixes, and the scheme of each.
pub data Prefix : Type 0 where
  wss_prefix ws_prefix https_prefix http_prefix : Prefix

abbrev pub text_of : Prefix → Bytes
text_of wss_prefix = codes "wss://"
text_of ws_prefix = codes "ws://"
text_of https_prefix = codes "https://"
text_of http_prefix = codes "http://"

abbrev pub scheme_of : Prefix → Scheme
scheme_of wss_prefix = wss
scheme_of ws_prefix = ws
scheme_of https_prefix = wss
scheme_of http_prefix = ws

abbrev pub port_of : Scheme → Bytes
port_of wss = codes ":443"
port_of ws = codes ":80"

cut_slash-append :
    (host p : Bytes)
    → has_byte b'/' host ≡ false
    → cut_slash (host ++ (b'/' ∷ p)) ≡ (host, some (b'/' ∷ p))
unfolding cut_slash has_byte
cut_slash-append [] p h = refl
cut_slash-append (c ∷ host) p h = ground (arith, cut_slash-append host p)

parse_prefix :
    (k : Prefix) (raw : Bytes)
    → parse_ws_url (text_of k ++ raw) ≡ some (split_url (scheme_of k) raw)
unfolding parse_ws_url strip_prefix
parse_prefix wss_prefix raw = refl
parse_prefix ws_prefix raw = refl
parse_prefix https_prefix raw = refl
parse_prefix http_prefix raw = refl

default_port_lem : (s : Scheme) → default_port s ≡ port_of s
unfolding default_port
default_port_lem wss = refl
default_port_lem ws = refl

-- A URL of one of the four schemes is cut at the first slash behind it; a host without a port gets
-- the scheme's port, and one with a port keeps it.
pub parse_ws_url_parts :
    (k : Prefix) (host p : Bytes)
    → has_byte b'/' host ≡ false
    → parse_ws_url (text_of k ++ (host ++ (b'/' ∷ p)))
      ≡ some (record {
        scheme = scheme_of k;
        host = if has_byte b':' host then host else host ++ port_of (scheme_of k);
        path = b'/' ∷ p;
      })
unfolding split_url
parse_ws_url_parts k host p h =
    rw (
      parse_prefix k (host ++ (b'/' ∷ p)),
      cut_slash-append host p h,
      default_port_lem (scheme_of k),
    )
