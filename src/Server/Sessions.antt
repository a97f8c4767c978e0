-- ===== src/Server/Sessions.antt =====
-- The session store and the registration of peers: server/session.go.
-- A pointer to an entry or to a peer is its number on the heap of `Server.Relay`; `entries` of the
-- store maps a session token to such a number.
pub mod Laws
mod Examples
use oblireach.Base.{
  ℕ, suc, Bool, true, false, ◌&&◌, Option, none, some, List, [], ◌∷◌, ◌++◌, Bytes, Table, load,
  store, delete, length, ltb, leb, if◌then◌else◌, ℤ, pos, negsuc,
}

pub data Role : Type 0 where
  viewer agent : Role

abbrev pub opposite : Role → Role
opposite viewer = agent
opposite agent = viewer

-- `pair_ch` is a channel with room for one value.
pub record SessionEntry : Type 0 where
  pub token : Bytes
  pub created_at : ℕ
  pub viewer_peer : Option ℕ
  pub agent_peer : Option ℕ
  pub pair_ch : List ℕ

abbrev pub slot : Role → SessionEntry → Option ℕ
slot viewer e = e.viewer_peer
slot agent e = e.agent_peer

abbrev pub occupy : Role → ℕ → SessionEntry → SessionEntry
occupy viewer p e = record e { viewer_peer = some p }
occupy agent p e = record e { agent_peer = some p }

pub record SessionStore : Type 0 where
  pub sessions : Table ℕ
  pub max : ℤ

unfoldable pub new_session_store : ℤ → SessionStore
new_session_store max = record { sessions = []; max = max }

unfoldable pub count : SessionStore → ℕ
count s = length s.sessions

-- `s.max > 0 && len(s.sessions) >= s.max`
unfoldable pub is_full : ℤ → ℕ → Bool
is_full (pos m) n = ltb 0 m && leb m n
is_full (negsuc m) n = false

unfoldable pub new_entry : Bytes → ℕ → SessionEntry
new_entry token now = record {
  token = token;
  created_at = now;
  viewer_peer = none;
  agent_peer = none;
  pair_ch = [];
}

-- What getOrCreate answers: an entry that is there, a new one at the number `fresh`, or nil.
pub data Found : Type 0 where
  existing : ℕ → Found
  created : ℕ → Found
  full : Found

unfoldable pub get_or_create : Bytes → ℕ → SessionStore → Found × SessionStore
unfolding is_full count
get_or_create token fresh s = elim (load token s.sessions) [
  | some e ↦ (existing e, s)
  | none ↦
      if is_full s.max (count s)
      then (full, s)
      else (created fresh, record s { sessions = store token fresh s.sessions })
]

unfoldable pub remove : Bytes → SessionStore → SessionStore
remove token s = record s { sessions = delete token s.sessions }

-- What register answers. `paired d` is a channel from which the partner `d` can be read at once,
-- `first` is the entry's own channel; `blocked` is no answer: the send on `pair_ch` would wait.
pub data Registration : Type 0 where
  taken : Registration
  paired : ℕ → Registration
  first : Registration
  blocked : Registration

-- A send on the channel of the entry.
notify : ℕ → ℕ → SessionEntry → List ℕ → Registration × SessionEntry
notify p partner e [] = (paired partner, record e { pair_ch = p ∷ [] })
notify p partner e (q ∷ r) = (blocked, e)

join_partner : ℕ → SessionEntry → Option ℕ → Registration × SessionEntry
unfolding notify
join_partner p e none = (first, e)
join_partner p e (some partner) = notify p partner e e.pair_ch

unfoldable pub register : Role → ℕ → SessionEntry → Registration × SessionEntry
unfolding join_partner
register role p e = elim (slot role e) [
  | some q ↦ (taken, e)
  | none ↦ join_partner p (occupy role p e) (slot (opposite role) e)
]
