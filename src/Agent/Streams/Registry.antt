-- ===== src/Agent/Streams/Registry.antt =====
-- What the map of active streams says of the streams that run.
use oblireach.Base.{
  ℕ, ◌<◌, ◌≡◌, ◌≢◌, refl, ap, ◌∙◌, Bool, true, false, ◌&&◌, ◌||◌, not, none, some, List, [], ◌∷◌,
  Bytes, load, load-store, load-delete, text_eq, text_eq_iff, text_eq_refl, ℤ, Bool-cases,
  Option-cases, inl, inr, ◌⊎◌, arith,
}
use oblireach.Agent.Streams.{
  Streams, no_streams, cross_session, Platform, target_session, with_display, route_of,
  start_stream, stop, stop_entry, stop_stream, Event, started, stop_asked, ended, step, run,
}

-- The map's entry of a token is a stream of that token that runs, and numbers from `next` on are free.
pub record Inv (s : Streams) : Type 0 where
  pub listed :
      (t : Bytes) (n : ℕ)
      → load t s.active ≡ some n
      → ((s.sessions n).token ≡ t) × ((s.sessions n).stopped ≡ false)
  pub taken : (n : ℕ) → (s.sessions n).stopped ≡ false → n < s.next

no_streams-Inv : Inv no_streams
unfolding no_streams load
no_streams-Inv = record { listed = λ t n e. cc; taken = λ n e. cc }

start_stream-Inv : (t : Bytes) (c : Bool) (s : Streams) → Inv s → Inv (start_stream t c s)
unfolding start_stream
start_stream-Inv t false s i = i
start_stream-Inv t true s i = record {
  listed = λ u n e.
      ground (arith, load-store t u s.next s.active, text_eq_iff t u, i.listed u n, i.taken n);
  taken = λ n e. ground (arith, i.taken n);
}

stop-Inv : (n : ℕ) (s : Streams) → Inv s → Inv (stop n s)
unfolding stop
stop-Inv n s i = elim (Bool-cases (s.sessions n).stopped) [
  | inl done ↦ simp done i
  | inr runs ↦ simp runs (record {
    listed = λ u m e. ground (
      arith,
      load-delete (s.sessions n).token u s.active,
      text_eq_iff (s.sessions n).token u,
      i.listed u m,
    );
    taken = λ m e. ground (arith, i.taken m);
  })
]

stop_stream-Inv : (t : Bytes) (s : Streams) → Inv s → Inv (stop_stream t s)
unfolding stop_stream stop_entry
stop_stream-Inv t s i = elim (Option-cases (load t s.active)) [
  | inl none_active ↦ simp none_active i
  | inr (n, found) ↦ simp found (stop-Inv n s i)
]

step-Inv : (e : Event) (s : Streams) → Inv s → Inv (step e s)
unfolding step
step-Inv (started t c) s i = start_stream-Inv t c s i
step-Inv (stop_asked t) s i = stop_stream-Inv t s i
step-Inv (ended n) s i = stop-Inv n s i

-- The tokens of the streams that were started, and whether no token was started twice.
abbrev pub has_text : Bytes → List Bytes → Bool
has_text t [] = false
has_text t (u ∷ l) = text_eq u t || has_text t l

abbrev pub distinct : List Bytes → List Event → Bool
distinct seen [] = true
distinct seen (started t true ∷ es) = not (has_text t seen) && distinct (t ∷ seen) es
distinct seen (started t false ∷ es) = distinct seen es
distinct seen (stop_asked t ∷ es) = distinct seen es
distinct seen (ended n ∷ es) = distinct seen es

-- Every stream that runs is the map's entry of its token, which was seen.
record Found (seen : List Bytes) (s : Streams) : Type 0 where
  entry : (n : ℕ) → (s.sessions n).stopped ≡ false → load (s.sessions n).token s.active ≡ some n
  seen_token : (n : ℕ) → (s.sessions n).stopped ≡ false → has_text (s.sessions n).token seen ≡ true

start_stream-Found :
    (seen : List Bytes) (t : Bytes) (s : Streams)
    → has_text t seen ≡ false
    → Inv s
    → Found seen s
    → Found (t ∷ seen) (start_stream t true s)
unfolding start_stream
start_stream-Found seen t s new i f = record {
  entry = λ n e. ground (
    arith,
    load-store t (s.sessions n).token s.next s.active,
    load-store t t s.next s.active,
    text_eq_refl t,
    text_eq_iff t (s.sessions n).token,
    f.entry n,
    f.seen_token n,
  );
  seen_token = λ n e. ground (arith, text_eq_refl t, f.seen_token n);
}

stop-Found : (seen : List Bytes) (n : ℕ) (s : Streams) → Found seen s → Found seen (stop n s)
unfolding stop
stop-Found seen n s f = elim (Bool-cases (s.sessions n).stopped) [
  | inl done ↦ simp done f
  | inr runs ↦ simp runs (record {
    entry = λ m e. ground (
      arith,
      load-delete (s.sessions n).token (s.sessions m).token s.active,
      text_eq_iff (s.sessions n).token (s.sessions m).token,
      f.entry m,
      f.entry n,
    );
    seen_token = λ m e. ground (arith, f.seen_token m);
  })
]

stop_stream-Found :
    (seen : List Bytes) (t : Bytes) (s : Streams) → Found seen s → Found seen (stop_stream t s)
unfolding stop_stream stop_entry
stop_stream-Found seen t s f = elim (Option-cases (load t s.active)) [
  | inl none_active ↦ simp none_active f
  | inr (n, found) ↦ simp found (stop-Found seen n s f)
]

not_started :
    (seen : List Bytes) (t : Bytes) (s : Streams)
    → Found seen s
    → Found seen (start_stream t false s)
unfolding start_stream
not_started seen t s f = f

no_streams-Found : Found [] no_streams
unfolding no_streams
no_streams-Found = record { entry = λ n e. cc; seen_token = λ n e. cc }

run-Found :
    (seen : List Bytes) (es : List Event) (s : Streams)
    → distinct seen es ≡ true
    → Inv s
    → Found seen s
    → (n : ℕ) → ((run es s).sessions n).stopped ≡ false
    → load ((run es s).sessions n).token (run es s).active ≡ some n
unfolding run step
run-Found seen [] s d i f = f.entry
run-Found seen (started t true ∷ es) s d i f =
    run-Found (t ∷ seen) es _ (ground arith) (start_stream-Inv t true s i)
      (start_stream-Found seen t s (ground arith) i f)
run-Found seen (started t false ∷ es) s d i f =
    run-Found seen es _ d (start_stream-Inv t false s i) (not_started seen t s f)
run-Found seen (stop_asked t ∷ es) s d i f =
    run-Found seen es _ d (stop_stream-Inv t s i) (stop_stream-Found seen t s f)
run-Found seen (ended n ∷ es) s d i f =
    run-Found seen es _ d (stop-Inv n s i) (stop-Found seen n s f)

stop_stream_found :
    (t : Bytes) (n : ℕ) (s : Streams)
    → load t s.active ≡ some n
    → ((stop_stream t s).sessions n).stopped ≡ true
unfolding stop_stream stop_entry stop
stop_stream_found t n s found = elim (Bool-cases (s.sessions n).stopped) [
  | inl done ↦ simp (found, done) refl
  | inr runs ↦ simp (found, runs) (ground arith)
]

-- When no token is started twice, a request to stop the token of any stream that runs stops it.
pub stop_stream_reaches :
    (es : List Event) (n : ℕ)
    → distinct [] es ≡ true
    → ((run es no_streams).sessions n).stopped ≡ false
    → ((stop_stream ((run es no_streams).sessions n).token (run es no_streams)).sessions n).stopped
      ≡ true
stop_stream_reaches es n d r =
    stop_stream_found _ n (run es no_streams)
      (run-Found [] es no_streams d no_streams-Inv no_streams-Found n r)

stop_stream_absent : (t : Bytes) (s : Streams) → load t s.active ≡ none → stop_stream t s ≡ s
unfolding stop_stream stop_entry
stop_stream_absent t s h = simp h refl

stop_removes :
    (a : ℕ) (s : Streams)
    → (s.sessions a).stopped ≡ false
    → load (s.sessions a).token (stop a s).active ≡ none
unfolding stop
stop_removes a s h = simp h (
    load-delete (s.sessions a).token (s.sessions a).token s.active
    ∙ ground (arith, text_eq_refl (s.sessions a).token))

stop_other :
    (a b : ℕ) (s : Streams) → a ≢ b → ((stop a s).sessions b).stopped ≡ (s.sessions b).stopped
unfolding stop
stop_other a b s ne = elim (Bool-cases (s.sessions a).stopped) [
  | inl done ↦ simp done refl
  | inr runs ↦ simp runs (ground arith)
]

-- When two streams of one token run and the first of them ends, a request to stop the token changes
-- nothing: the other one runs on.
pub stop_stream_orphan :
    (a b : ℕ) (s : Streams)
    → a ≢ b
    → (s.sessions a).stopped ≡ false
    → (s.sessions b).stopped ≡ false
    → (s.sessions b).token ≡ (s.sessions a).token
    → (stop_stream (s.sessions b).token (stop a s) ≡ stop a s)
      × (((stop a s).sessions b).stopped ≡ false)
stop_stream_orphan a b s ne ra rb same =
    let gone = stop_removes a s ra in
    (
      stop_stream_absent _ (stop a s) (ap (λ t. load t (stop a s).active) same ∙ gone),
      stop_other a b s ne ∙ rb,
    )

-- On Windows the service, which is in session 0, never captures by itself: the helper goes to the
-- session that was asked for, or that was picked, and for session 0 to the console's if there is one.
pub route_of_service :
    (id : ℤ) (o : Platform)
    → o.is_windows ≡ true
    → o.current_session ≡ 0
    → (n : ℕ) × ((route_of id o ≡ cross_session n)
        × ((n ≡ target_session id o) ⊎ ((target_session id o ≡ 0) × (n ≡ o.console_session))))
unfolding route_of with_display
route_of_service id o w c = (with_display (target_session id o) o, (ground arith, ground arith))
