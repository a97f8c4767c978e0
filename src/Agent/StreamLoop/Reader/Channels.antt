-- ===== src/Agent/StreamLoop/Reader/Channels.antt =====
-- The four channels of the reader against the text frames that were read (agent/stream.go).
use oblireach.Base.{
  ℕ, ◌≡◌, refl, ap, sym, ◌∙◌, Bool, Option, none, some, List, [], ◌∷◌, ◌++◌, Bytes, ℤ,
}
use mathlib.Core.List.{append-nil}
use oblireach.Agent.StreamLoop.Reader.{
  input_cap, request_cap, Peek, Control, set_recording, set_codec, set_monitor, set_input_block,
  clipboard_set, clipboard_get, for_input, control_of, Reader, fresh, set_clipboard, Queue, offer,
  on_control,
}
use oblireach.Agent.StreamLoop.Reader.Queues.{Fits, empty-Fits, offer-Fits}

unfoldable pub keep : {A : Type 0} → Option A → List A → List A
keep none xs = xs
keep (some y) xs = y ∷ xs

unfoldable pub collect : {A : Type 0} → (Bytes → Option A) → List Bytes → List A
collect f [] = []
collect f (x ∷ xs) = keep (f x) (collect f xs)

keep-append : {A : Type 0} (o : Option A) (xs ys : List A) → keep o xs ++ ys ≡ keep o (xs ++ ys)
unfolding keep
keep-append none xs ys = refl
keep-append (some y) xs ys = refl

module _ {A : Type 0} (f : Bytes → Option A) where
  collect-append :
      (xs : List Bytes) (x : Bytes) → collect f (xs ++ (x ∷ [])) ≡ collect f xs ++ keep (f x) []
  unfolding collect
  collect-append [] x = refl
  collect-append (y ∷ xs) x =
      ap (keep (f y)) (collect-append xs x) ∙ sym (keep-append (f y) (collect f xs) (keep (f x) []))

  -- A frame that is not for the channel, and one that is.
  skipped-Fits :
      (cap : ℕ) (ts : List Bytes) (x : Bytes) (q : Queue A)
      → f x ≡ none
      → Fits cap (collect f ts) q
      → Fits cap (collect f (ts ++ (x ∷ []))) q
  unfolding keep
  skipped-Fits cap ts x q e fits = rw (collect-append ts x, e, append-nil (collect f ts)) fits

  offered-Fits :
      (cap : ℕ) (ts : List Bytes) (x : Bytes) (y : A) (q : Queue A)
      → f x ≡ some y
      → Fits cap (collect f ts) q
      → Fits cap (collect f (ts ++ (x ∷ []))) (offer cap y q)
  unfolding keep
  offered-Fits cap ts x y q e fits =
      rw (collect-append ts x, e) (offer-Fits cap (collect f ts) y q fits)

-- Which text frames are for which channel.
unfoldable pub input_in : Bytes → Control → Option Bytes
input_in payload (set_recording b) = none
input_in payload (set_codec c) = none
input_in payload (set_monitor i) = none
input_in payload (set_input_block b) = none
input_in payload clipboard_set = none
input_in payload clipboard_get = none
input_in payload for_input = some payload

unfoldable pub codec_in : Control → Option Bytes
codec_in (set_recording b) = none
codec_in (set_codec c) = some c
codec_in (set_monitor i) = none
codec_in (set_input_block b) = none
codec_in clipboard_set = none
codec_in clipboard_get = none
codec_in for_input = none

unfoldable pub monitor_in : Control → Option ℤ
monitor_in (set_recording b) = none
monitor_in (set_codec c) = none
monitor_in (set_monitor i) = some i
monitor_in (set_input_block b) = none
monitor_in clipboard_set = none
monitor_in clipboard_get = none
monitor_in for_input = none

unfoldable pub block_in : Control → Option Bool
block_in (set_recording b) = none
block_in (set_codec c) = none
block_in (set_monitor i) = none
block_in (set_input_block b) = some b
block_in clipboard_set = none
block_in clipboard_get = none
block_in for_input = none

module _ (peek : Bytes → Option Peek) where
  unfoldable pub inputs : Bytes → Option Bytes
  inputs p = input_in p (control_of (peek p))

  unfoldable pub codecs : Bytes → Option Bytes
  codecs p = codec_in (control_of (peek p))

  unfoldable pub monitors : Bytes → Option ℤ
  monitors p = monitor_in (control_of (peek p))

  unfoldable pub blocks : Bytes → Option Bool
  blocks p = block_in (control_of (peek p))

  -- Each channel against the frames that were read.
  pub record Kept (ts : List Bytes) (s : Reader) : Type 0 where
    pub input : Fits input_cap (collect inputs ts) s.input
    pub codec : Fits request_cap (collect codecs ts) s.codec
    pub monitor : Fits request_cap (collect monitors ts) s.monitor
    pub block : Fits request_cap (collect blocks ts) s.block

  pub fresh-Kept : Kept [] fresh
  unfolding fresh collect
  fresh-Kept = record {
    input = empty-Fits input_cap;
    codec = empty-Fits request_cap;
    monitor = empty-Fits request_cap;
    block = empty-Fits request_cap;
  }

  -- The channels alone matter.
  pub same_Kept :
      (ts : List Bytes) (s t : Reader)
      → t.input ≡ s.input
      → t.codec ≡ s.codec
      → t.monitor ≡ s.monitor
      → t.block ≡ s.block
      → Kept ts s
      → Kept ts t
  same_Kept ts s t i c m b k = record {
    input = rw i k.input;
    codec = rw c k.codec;
    monitor = rw m k.monitor;
    block = rw b k.block;
  }

  pub clipboard_set-Kept :
      (t : Option Bytes) (ts : List Bytes) (s : Reader) → Kept ts s → Kept ts (set_clipboard t s)
  unfolding set_clipboard
  clipboard_set-Kept none ts s k = k
  clipboard_set-Kept (some t) ts s k = same_Kept ts s _ refl refl refl refl k

  -- A frame that is for none of them.
  unseen-Kept :
      (ts : List Bytes) (x : Bytes) (s : Reader)
      → inputs x ≡ none
      → codecs x ≡ none
      → monitors x ≡ none
      → blocks x ≡ none
      → Kept ts s
      → Kept (ts ++ (x ∷ [])) s
  unseen-Kept ts x s i c m b k = record {
    input = skipped-Fits inputs input_cap ts x s.input i k.input;
    codec = skipped-Fits codecs request_cap ts x s.codec c k.codec;
    monitor = skipped-Fits monitors request_cap ts x s.monitor m k.monitor;
    block = skipped-Fits blocks request_cap ts x s.block b k.block;
  }

  -- A text frame, by what it is.
  pub on_control-Kept :
      (clip_text : Bytes → Option Bytes) (ts : List Bytes) (x : Bytes) (c : Control) (s : Reader)
      → control_of (peek x) ≡ c
      → Kept ts s
      → Kept (ts ++ (x ∷ [])) (on_control peek clip_text x c s)
  unfolding on_control inputs codecs monitors blocks input_in codec_in monitor_in block_in
  on_control-Kept clip_text ts x (set_recording v) s e k =
      same_Kept (ts ++ (x ∷ [])) s _ refl refl refl refl
        (unseen-Kept ts x s (ap (input_in x) e) (ap codec_in e) (ap monitor_in e) (ap block_in e) k)
  on_control-Kept clip_text ts x (set_codec v) s e k = record {
    input = skipped-Fits inputs input_cap ts x s.input (ap (input_in x) e) k.input;
    codec = offered-Fits codecs request_cap ts x v s.codec (ap codec_in e) k.codec;
    monitor = skipped-Fits monitors request_cap ts x s.monitor (ap monitor_in e) k.monitor;
    block = skipped-Fits blocks request_cap ts x s.block (ap block_in e) k.block;
  }
  on_control-Kept clip_text ts x (set_monitor v) s e k = record {
    input = skipped-Fits inputs input_cap ts x s.input (ap (input_in x) e) k.input;
    codec = skipped-Fits codecs request_cap ts x s.codec (ap codec_in e) k.codec;
    monitor = offered-Fits monitors request_cap ts x v s.monitor (ap monitor_in e) k.monitor;
    block = skipped-Fits blocks request_cap ts x s.block (ap block_in e) k.block;
  }
  on_control-Kept clip_text ts x (set_input_block v) s e k = record {
    input = skipped-Fits inputs input_cap ts x s.input (ap (input_in x) e) k.input;
    codec = skipped-Fits codecs request_cap ts x s.codec (ap codec_in e) k.codec;
    monitor = skipped-Fits monitors request_cap ts x s.monitor (ap monitor_in e) k.monitor;
    block = offered-Fits blocks request_cap ts x v s.block (ap block_in e) k.block;
  }
  on_control-Kept clip_text ts x clipboard_set s e k =
      clipboard_set-Kept (clip_text x) _ s
        (unseen-Kept ts x s (ap (input_in x) e) (ap codec_in e) (ap monitor_in e) (ap block_in e) k)
  on_control-Kept clip_text ts x clipboard_get s e k =
      same_Kept (ts ++ (x ∷ [])) s _ refl refl refl refl
        (unseen-Kept ts x s (ap (input_in x) e) (ap codec_in e) (ap monitor_in e) (ap block_in e) k)
  on_control-Kept clip_text ts x for_input s e k = record {
    input = offered-Fits inputs input_cap ts x x s.input (ap (input_in x) e) k.input;
    codec = skipped-Fits codecs request_cap ts x s.codec (ap codec_in e) k.codec;
    monitor = skipped-Fits monitors request_cap ts x s.monitor (ap monitor_in e) k.monitor;
    block = skipped-Fits blocks request_cap ts x s.block (ap block_in e) k.block;
  }
