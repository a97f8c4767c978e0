-- ===== src/Agent/StreamLoop/Reader/InOrder.antt =====
-- What the capture loop of agent/stream.go gets from the reader, in which order, and how much waits.
use oblireach.Base.{
  ℕ, ◌≡◌, refl, ap, sym, ◌∙◌, inl, inr, Bool, true, false, Option, List, [], ◌∷◌, ◌++◌, Bytes, ◌==◌,
  if◌then◌else◌, Result, ok, err, Bool-cases, arith,
}
use mathlib.Core.Path.{subst}
use mathlib.Core.List.{append_assoc, append-nil}
use oblireach.Agent.WebSocket.{ReadError}
use oblireach.Agent.StreamLoop.Reader.{
  input_cap, request_cap, Peek, Control, set_recording, set_codec, set_monitor, set_input_block,
  clipboard_set, clipboard_get, for_input, control_of, Reader, fresh, set_clipboard, Event, receive,
  received, copied, take_input, take_codec, take_monitor, take_block, on_control, on_frame, step,
  run,
}
use oblireach.Agent.StreamLoop.Reader.Queues.{receive-Fits}
use oblireach.Agent.StreamLoop.Reader.Channels.{Kept, fresh-Kept, same_Kept, on_control-Kept}

-- The text frames that are read, up to the first close frame or error.
unfoldable pub texts : List Event → List Bytes
texts [] = []
texts (received (err e) ∷ es) = []
texts (received (ok (opcode, payload)) ∷ es) =
    let rest = texts es in
    if opcode == 0x8 then [] else if opcode == 0x1 then payload ∷ rest else rest
texts (copied t ∷ es) = texts es
texts (take_input ∷ es) = texts es
texts (take_codec ∷ es) = texts es
texts (take_monitor ∷ es) = texts es
texts (take_block ∷ es) = texts es

module _ (peek : Bytes → Option Peek) (clip_text : Bytes → Option Bytes) where
  on_control_running :
      (x : Bytes) (c : Control) (s : Reader) → (on_control peek clip_text x c s).running ≡ s.running
  unfolding on_control set_clipboard
  on_control_running x (set_recording v) s = refl
  on_control_running x (set_codec v) s = refl
  on_control_running x (set_monitor v) s = refl
  on_control_running x (set_input_block v) s = refl
  on_control_running x clipboard_set s = ground arith
  on_control_running x clipboard_get s = refl
  on_control_running x for_input s = refl

  -- The loop takes from one of the channels.
  take_input-Kept :
      (ts : List Bytes) (s : Reader)
      → Kept peek ts s
      → Kept peek ts (record s { input = receive s.input })
  take_input-Kept ts s k = record {
    input = receive-Fits input_cap _ s.input k.input;
    codec = k.codec;
    monitor = k.monitor;
    block = k.block;
  }

  take_codec-Kept :
      (ts : List Bytes) (s : Reader)
      → Kept peek ts s
      → Kept peek ts (record s { codec = receive s.codec })
  take_codec-Kept ts s k = record {
    input = k.input;
    codec = receive-Fits request_cap _ s.codec k.codec;
    monitor = k.monitor;
    block = k.block;
  }

  take_monitor-Kept :
      (ts : List Bytes) (s : Reader)
      → Kept peek ts s
      → Kept peek ts (record s { monitor = receive s.monitor })
  take_monitor-Kept ts s k = record {
    input = k.input;
    codec = k.codec;
    monitor = receive-Fits request_cap _ s.monitor k.monitor;
    block = k.block;
  }

  take_block-Kept :
      (ts : List Bytes) (s : Reader)
      → Kept peek ts s
      → Kept peek ts (record s { block = receive s.block })
  take_block-Kept ts s k = record {
    input = k.input;
    codec = k.codec;
    monitor = k.monitor;
    block = receive-Fits request_cap _ s.block k.block;
  }

  step_received :
      (a : Result ReadError (ℕ × Bytes)) (b : Bool) (s : Reader)
      → s.running ≡ b
      → step peek clip_text (received a) s ≡ (if b then on_frame peek clip_text a s else s)
  unfolding step
  step_received a b s r = ap (λ c. if c then on_frame peek clip_text a s else s) r

  -- After the reader has returned, the loop may still take what waits.
  stopped-Kept :
      (es : List Event) (ts : List Bytes) (s : Reader)
      → s.running ≡ false
      → Kept peek ts s
      → Kept peek ts (run peek clip_text es s)
  unfolding run step
  stopped-Kept [] ts s r k = k
  stopped-Kept (received a ∷ es) ts s r k =
      subst (λ t. Kept peek ts (run peek clip_text es t)) (sym (step_received a false s r))
        (stopped-Kept es ts s r k)
  stopped-Kept (copied t ∷ es) ts s r k =
      stopped-Kept es ts _ r (same_Kept peek ts s _ refl refl refl refl k)
  stopped-Kept (take_input ∷ es) ts s r k = stopped-Kept es ts _ r (take_input-Kept ts s k)
  stopped-Kept (take_codec ∷ es) ts s r k = stopped-Kept es ts _ r (take_codec-Kept ts s k)
  stopped-Kept (take_monitor ∷ es) ts s r k = stopped-Kept es ts _ r (take_monitor-Kept ts s k)
  stopped-Kept (take_block ∷ es) ts s r k = stopped-Kept es ts _ r (take_block-Kept ts s k)

  running-Kept :
      (es : List Event) (ts : List Bytes) (s : Reader)
      → s.running ≡ true
      → Kept peek ts s
      → Kept peek (ts ++ texts es) (run peek clip_text es s)
  unfolding run step on_frame texts
  running-Kept [] ts s r k = rw (append-nil ts) k
  running-Kept (received (err e) ∷ es) ts s r k =
      subst (λ t. Kept peek (ts ++ []) (run peek clip_text es t))
        (sym (step_received (err e) true s r))
        (rw (append-nil ts)
          (stopped-Kept es ts _ refl (same_Kept peek ts s _ refl refl refl refl k)))
  running-Kept (received (ok (opcode, x)) ∷ es) ts s r k =
      subst
        (λ t. Kept peek (ts ++ texts (received (ok (opcode, x)) ∷ es)) (run peek clip_text es t))
        (sym (step_received (ok (opcode, x)) true s r))
        (elim (Bool-cases (opcode == 0x8)) [
          | inl closes ↦
              rw (closes, append-nil ts)
                (stopped-Kept es ts _ refl (same_Kept peek ts s _ refl refl refl refl k))
          | inr other ↦ elim (Bool-cases (opcode == 0x1)) [
            | inl is_text ↦
                let no_ping : (opcode == 0x9) ≡ false = ground arith in
                let s' = on_control peek clip_text x (control_of (peek x)) s in
                rw (other, is_text, no_ping)
                  (subst (λ l. Kept peek l (run peek clip_text es s'))
                    (append_assoc ts (x ∷ []) (texts es))
                    (running-Kept es (ts ++ (x ∷ [])) s'
                      (on_control_running x (control_of (peek x)) s ∙ r)
                      (on_control-Kept peek clip_text ts x (control_of (peek x)) s refl k)))
            | inr no_text ↦ elim (Bool-cases (opcode == 0x9)) [
              | inl ping ↦
                  rw (other, no_text, ping)
                    (running-Kept es ts _ r (same_Kept peek ts s _ refl refl refl refl k))
              | inr unknown ↦ rw (other, no_text, unknown) (running-Kept es ts s r k)
            ]
          ]
        ])
  running-Kept (copied t ∷ es) ts s r k =
      running-Kept es ts _ r (same_Kept peek ts s _ refl refl refl refl k)
  running-Kept (take_input ∷ es) ts s r k = running-Kept es ts _ r (take_input-Kept ts s k)
  running-Kept (take_codec ∷ es) ts s r k = running-Kept es ts _ r (take_codec-Kept ts s k)
  running-Kept (take_monitor ∷ es) ts s r k = running-Kept es ts _ r (take_monitor-Kept ts s k)
  running-Kept (take_block ∷ es) ts s r k = running-Kept es ts _ r (take_block-Kept ts s k)

  -- Whatever the browser sends, in whatever order the loop takes from the channels: each channel
  -- holds no more than its capacity, what the loop has taken from it and what waits are frames for
  -- it that were read before the reader's end, in the order in which they were sent, and as long as
  -- no more of them came than the channel holds none is dropped.
  pub run-fresh-Kept : (es : List Event) → Kept peek (texts es) (run peek clip_text es fresh)
  unfolding fresh
  run-fresh-Kept es = running-Kept es [] fresh refl (fresh-Kept peek)
