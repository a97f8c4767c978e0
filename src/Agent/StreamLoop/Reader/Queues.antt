-- ===== src/Agent/StreamLoop/Reader/Queues.antt =====
-- A channel that drops what does not fit (agent/stream.go, the reader of StreamSession.run).
use oblireach.Base.{
  ℕ, ◌≤◌, ◌<◌, ◌≡◌, refl, ap, sym, ◌∙◌, inl, inr, List, [], ◌∷◌, ◌++◌, length, length-append, ltb,
  Bool-cases, arith,
}
use mathlib.Core.List.{append_assoc, Sublist, sublist-append_left}
use mathlib.Core.List.Sublist
use oblireach.Agent.StreamLoop.Reader.{Queue, empty, offer, receive, take_from}

module _ {A : Type 0} (cap : ℕ) where
  -- No more waits than the channel holds, what was taken and waits was offered in that order, and
  -- nothing is dropped of what would fit if none were ever taken.
  pub record Fits (offered : List A) (q : Queue A) : Type 0 where
    pub bounded : length q.waiting ≤ cap
    pub in_order : Sublist (q.taken ++ q.waiting) offered
    pub lossless : length offered ≤ cap → q.taken ++ q.waiting ≡ offered

  pub empty-Fits : Fits [] empty
  unfolding empty
  empty-Fits = record { bounded = omega arith; in_order = Sublist.refl []; lossless = λ h. refl }

  offer_accepted :
      (offered : List A) (x : A) (q : Queue A)
      → length q.waiting < cap
      → Fits offered q
      → Fits (offered ++ (x ∷ [])) (record q { waiting = q.waiting ++ (x ∷ []) })
  offer_accepted offered x q room f = record {
    bounded = omega (arith, length-append q.waiting (x ∷ []));
    in_order =
        rw (sym (append_assoc q.taken q.waiting (x ∷ [])))
          (Sublist.append f.in_order (Sublist.refl (x ∷ [])));
    lossless = λ h.
        let small : length offered ≤ cap = omega (arith, length-append offered (x ∷ [])) in
        sym (append_assoc q.taken q.waiting (x ∷ [])) ∙ ap (λ l. l ++ (x ∷ [])) (f.lossless small);
  }

  offer_dropped :
      (offered : List A) (x : A) (q : Queue A)
      → cap ≤ length q.waiting
      → Fits offered q
      → Fits (offered ++ (x ∷ [])) q
  offer_dropped offered x q full f = record {
    bounded = f.bounded;
    in_order = Sublist.trans f.in_order (sublist-append_left offered (x ∷ []));
    lossless = λ h.
        let small : length offered ≤ cap = omega (arith, length-append offered (x ∷ [])) in
        absurd (
          omega (
            arith,
            length-append offered (x ∷ []),
            ap length (f.lossless small),
            length-append q.taken q.waiting,
          ));
  }

  pub offer-Fits :
      (offered : List A) (x : A) (q : Queue A)
      → Fits offered q
      → Fits (offered ++ (x ∷ [])) (offer cap x q)
  unfolding offer
  offer-Fits offered x q f = elim (Bool-cases (ltb (length q.waiting) cap)) [
    | inl room ↦ rw room (offer_accepted offered x q (ground arith) f)
    | inr full ↦ rw full (offer_dropped offered x q (ground arith) f)
  ]

  take_from-Fits :
      (offered : List A) (waiting : List A) (q : Queue A)
      → q.waiting ≡ waiting
      → Fits offered q
      → Fits offered (take_from waiting q)
  unfolding take_from
  take_from-Fits offered [] q e f = f
  take_from-Fits offered (x ∷ xs) q e f =
      let same : (q.taken ++ (x ∷ [])) ++ xs ≡ q.taken ++ q.waiting =
        append_assoc q.taken (x ∷ []) xs ∙ ap (λ l. q.taken ++ l) (sym e) in
      record {
        bounded = omega (arith, f.bounded, ap length e);
        in_order = rw same f.in_order;
        lossless = λ h. same ∙ f.lossless h;
      }

  pub receive-Fits : (offered : List A) (q : Queue A) → Fits offered q → Fits offered (receive q)
  unfolding receive
  receive-Fits offered q f = take_from-Fits offered q.waiting q refl f
