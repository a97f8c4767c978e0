-- ===== src/Agent/Encoders/Flags.antt =====
-- The invariant of the encoders' flags, and what sets one flag from none.
use oblireach.Base.{ℕ, ◌+◌, ◌≤◌, ◌≡◌, refl, Bool, true, false, if◌then◌else◌, arith}
use oblireach.Agent.Encoders.{
  Encoders, Attempt, succeeds, start, tear_down, with_openh264, with_vp9, with_h265, with_av1,
  with_jpeg,
}

abbrev pub one_if : Bool → ℕ
one_if true = 1
one_if false = 0

-- The number of flags that are set.
abbrev pub flags : Encoders → ℕ
flags e =
    one_if e.use_openh264
    + (one_if e.use_vp9 + (one_if e.use_h265 + (one_if e.use_av1 + one_if e.use_jpeg)))

-- Each flag says whether its library is open, one flag at most is set, and WMF is open only when no
-- flag is.
pub record Inv (e : Encoders) : Type 0 where
  pub openh264_held : e.held.openh264 ≡ e.use_openh264
  pub vp9_held : e.held.vp9 ≡ e.use_vp9
  pub h265_held : e.held.h265 ≡ e.use_h265
  pub av1_held : e.held.av1 ≡ e.use_av1
  pub one_flag : flags e ≤ 1
  pub wmf_alone : e.held.wmf ≡ true → flags e ≡ 0

-- No flag is set and no encoder is open.
pub record Clear (e : Encoders) : Type 0 where
  pub no_openh264 : (e.use_openh264 ≡ false) × (e.held.openh264 ≡ false)
  pub no_vp9 : (e.use_vp9 ≡ false) × (e.held.vp9 ≡ false)
  pub no_h265 : (e.use_h265 ≡ false) × (e.held.h265 ≡ false)
  pub no_av1 : (e.use_av1 ≡ false) × (e.held.av1 ≡ false)
  pub no_jpeg : e.use_jpeg ≡ false
  pub no_wmf : e.held.wmf ≡ false

pub start_Inv :
    (h w : Bool)
    → Inv (record {
      use_openh264 = h;
      use_vp9 = false;
      use_h265 = false;
      use_av1 = false;
      use_jpeg = false;
      held = record {
        capture = true;
        openh264 = h;
        wmf = if h then false else w;
        vp9 = false;
        h265 = false;
        av1 = false;
      };
    })
start_Inv true w = record {
  openh264_held = refl;
  vp9_held = refl;
  h265_held = refl;
  av1_held = refl;
  one_flag = omega arith;
  wmf_alone = λ h. cc;
}
start_Inv false w = record {
  openh264_held = refl;
  vp9_held = refl;
  h265_held = refl;
  av1_held = refl;
  one_flag = omega arith;
  wmf_alone = λ h. refl;
}

pub start-Inv : (a : Attempt) (w : Bool) → Inv (start a w)
unfolding start
start-Inv a w = start_Inv (succeeds a) w

pub tear_down-Clear :
    (k : Bool) (e : Encoders) → Inv e → (k ≡ true → e.held.wmf ≡ false) → Clear (tear_down k e)
unfolding tear_down
tear_down-Clear k e i h = record {
  no_openh264 = (refl, ground (arith, i.openh264_held));
  no_vp9 = (refl, ground (arith, i.vp9_held));
  no_h265 = (refl, ground (arith, i.h265_held));
  no_av1 = (refl, ground (arith, i.av1_held));
  no_jpeg = refl;
  no_wmf = ground (arith, h);
}

pub with_openh264-Inv : (e : Encoders) → Clear e → Inv (with_openh264 e)
unfolding with_openh264
with_openh264-Inv e c = record {
  openh264_held = refl;
  vp9_held = cc;
  h265_held = cc;
  av1_held = cc;
  one_flag = ground arith;
  wmf_alone = λ h. cc;
}

pub with_vp9-Inv : (e : Encoders) → Clear e → Inv (with_vp9 e)
unfolding with_vp9
with_vp9-Inv e c = record {
  openh264_held = cc;
  vp9_held = refl;
  h265_held = cc;
  av1_held = cc;
  one_flag = ground arith;
  wmf_alone = λ h. cc;
}

pub with_h265-Inv : (e : Encoders) → Clear e → Inv (with_h265 e)
unfolding with_h265
with_h265-Inv e c = record {
  openh264_held = cc;
  vp9_held = cc;
  h265_held = refl;
  av1_held = cc;
  one_flag = ground arith;
  wmf_alone = λ h. cc;
}

pub with_av1-Inv : (e : Encoders) → Clear e → Inv (with_av1 e)
unfolding with_av1
with_av1-Inv e c = record {
  openh264_held = cc;
  vp9_held = cc;
  h265_held = cc;
  av1_held = refl;
  one_flag = ground arith;
  wmf_alone = λ h. cc;
}

pub with_jpeg-Inv : (e : Encoders) → Clear e → Inv (with_jpeg e)
unfolding with_jpeg
with_jpeg-Inv e c = record {
  openh264_held = cc;
  vp9_held = cc;
  h265_held = cc;
  av1_held = cc;
  one_flag = ground arith;
  wmf_alone = λ h. cc;
}

pub Clear-Inv : (e : Encoders) → Clear e → Inv e
Clear-Inv e c = record {
  openh264_held = cc;
  vp9_held = cc;
  h265_held = cc;
  av1_held = cc;
  one_flag = ground arith;
  wmf_alone = λ h. cc;
}
