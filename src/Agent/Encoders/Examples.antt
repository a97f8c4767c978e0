-- ===== src/Agent/Encoders/Examples.antt =====
-- The encoders at concrete inputs.
use oblireach.Base.{◌≡◌, refl, true, codes, text_eq}
use oblireach.Agent.Encoders.{
  Encoders, opened, succeeds, start, tear_down, select, switch_codec, release, with_vp9,
}
use oblireach.Agent.Encoders.Laws.{switch_codec-Inv}
use oblireach.Agent.Encoders.Flags.{Inv, start-Inv}

abbrev first : Encoders
first = start opened true

abbrev with_vp9_on : Encoders
with_vp9_on = switch_codec (codes "vp9") opened first

vp9_Inv : Inv with_vp9_on
vp9_Inv = switch_codec-Inv (codes "vp9") opened first (start-Inv opened true)

leaked : (release with_vp9_on).vp9 ≡ true
unfolding release switch_codec select tear_down with_vp9 start succeeds text_eq
leaked = refl
