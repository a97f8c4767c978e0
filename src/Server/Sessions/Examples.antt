-- ===== src/Server/Sessions/Examples.antt =====
-- The session store at concrete inputs.
use oblireach.Base.{◌≡◌, refl, [], ◌∷◌, codes, load, text_eq, pos}
use oblireach.Server.Sessions.{SessionStore, full, get_or_create}

-- A store with room for one session, which it has.
abbrev busy : SessionStore
busy = record { sessions = (codes "t", 0) ∷ []; max = pos 1 }

refused : get_or_create (codes "u") 1 busy ≡ (full, busy)
unfolding get_or_create load text_eq
refused = refl
