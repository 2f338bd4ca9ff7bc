-- ===== src/Proxy/Queue/Laws.antt =====
-- The channel is bounded, first in first out, and loses no connection.
use gost_plugin.Common.{
  Bool-cases, List, [], ap, append-nil, append_assoc, arith, inl, inr, length, length-append, ltb,
  refl, ◌++◌, ◌+◌, ◌<◌, ◌∙◌, ◌∷◌, ◌≡◌, ◌≤◌, ◌⊎◌,
}
use gost_plugin.Proxy.Queue.{Queue, accept_conn, capacity, empty, offer}

-- What the program does with the channel, in any order.
pub data Op {ℓ} (C : Type ℓ) : Type ℓ where
  offers : C → Op C
  takes : Op C

-- `zs` is made of `xs` and `ys`, each in its order.
pub data Interleaves {ℓ} {C : Type ℓ} : List C → List C → List C → Type ℓ where
  end : Interleaves [] [] []
  left : {c : C} {xs ys zs : List C} → Interleaves xs ys zs → Interleaves (c ∷ xs) ys (c ∷ zs)
  right : {c : C} {xs ys zs : List C} → Interleaves xs ys zs → Interleaves xs (c ∷ ys) (c ∷ zs)

module _ {ℓ} {C : Type ℓ} where
  Interleaves-left :
      (c : C) {xs ys zs : List C}
      → Interleaves xs ys zs
      → Interleaves (xs ++ c ∷ []) ys (zs ++ c ∷ [])
  Interleaves-left c end = left end
  Interleaves-left c (left t) = left (Interleaves-left c t)
  Interleaves-left c (right t) = right (Interleaves-left c t)

  Interleaves-right :
      (c : C) {xs ys zs : List C}
      → Interleaves xs ys zs
      → Interleaves xs (ys ++ c ∷ []) (zs ++ c ∷ [])
  Interleaves-right c end = right end
  Interleaves-right c (left t) = left (Interleaves-right c t)
  Interleaves-right c (right t) = right (Interleaves-right c t)

  unfoldable pub apply : Queue C → Op C → Queue C
  apply q (offers c) = offer q c
  apply q takes = accept_conn q

  unfoldable pub run : Queue C → List (Op C) → Queue C
  unfolding apply
  run q [] = q
  run q (o ∷ os) = run (apply q o) os

  -- The connections that were offered, in order.
  abbrev pub offered : List (Op C) → List C
  offered [] = []
  offered (offers c ∷ os) = c ∷ offered os
  offered (takes ∷ os) = offered os

  -- Those that were sent, in the order of sending.
  abbrev pub sent : Queue C → List C
  sent q = q.taken ++ q.waiting

  pub accept_conn-cases :
      (q : Queue C)
      → ((q.waiting ≡ []) × (accept_conn q ≡ q))
        ⊎ ((c : C) × (cs : List C) × (q.waiting ≡ c ∷ cs)
            × (accept_conn q ≡ record q { waiting = cs; taken = q.taken ++ c ∷ [] }))
  unfolding accept_conn
  accept_conn-cases q = split q.waiting refl
    where
      split :
          (xs : List C)
          → q.waiting ≡ xs
          → ((q.waiting ≡ []) × (accept_conn q ≡ q))
            ⊎ ((c : C) × (cs : List C) × (q.waiting ≡ c ∷ cs)
                × (accept_conn q ≡ record q { waiting = cs; taken = q.taken ++ c ∷ [] }))
      split [] e = inl (e, ground arith)
      split (c ∷ cs) e = inr (c, cs, e, ground arith)

  -- Receiving moves the oldest connection and keeps the order.
  pub sent-accept_conn : (q : Queue C) → sent (accept_conn q) ≡ sent q
  sent-accept_conn q = elim (accept_conn-cases q) [
    | inl (e, f) ↦ rw f refl
    | inr (c, cs, e, f) ↦ simp (f, e, append_assoc)
  ]

  pub closed-accept_conn : (q : Queue C) → (accept_conn q).closed ≡ q.closed
  unfolding accept_conn
  closed-accept_conn q = ground arith

  waiting-accept_conn : (q : Queue C) → length (accept_conn q).waiting ≤ length q.waiting
  unfolding accept_conn
  waiting-accept_conn q = ground arith

  -- The buffer never holds more than its capacity.
  pub waiting-apply :
      (q : Queue C) (o : Op C) → length q.waiting ≤ capacity → length (apply q o).waiting ≤ capacity
  unfolding apply offer
  waiting-apply q (offers c) h = ground (arith, length-append q.waiting (c ∷ []))
  waiting-apply q takes h = omega (arith, waiting-accept_conn q)

  pub offer-Interleaves :
      (q : Queue C) (c : C) (zs : List C)
      → Interleaves (sent q) q.closed zs
      → Interleaves (sent (offer q c)) (offer q c).closed (zs ++ c ∷ [])
  unfolding offer
  offer-Interleaves q c zs t = elim (Bool-cases (ltb (length q.waiting) capacity)) [
    | inl room ↦ rw (room, ← append_assoc q.taken q.waiting (c ∷ [])) (Interleaves-left c t)
    | inr full ↦ rw full (Interleaves-right c t)
  ]

  pub accept_conn-Interleaves :
      (q : Queue C) (zs : List C)
      → Interleaves (sent q) q.closed zs
      → Interleaves (sent (accept_conn q)) (accept_conn q).closed zs
  accept_conn-Interleaves q zs t = rw (sent-accept_conn q, closed-accept_conn q) t

  run-Interleaves :
      (q : Queue C) (os : List (Op C)) (zs : List C)
      → Interleaves (sent q) q.closed zs
      → Interleaves (sent (run q os)) (run q os).closed (zs ++ offered os)
  unfolding run
  run-Interleaves q [] zs t = rw append-nil t
  run-Interleaves q (offers c ∷ os) zs t =
      rw (append_assoc zs (c ∷ []) (offered os)) at
        (run-Interleaves (offer q c) os (zs ++ c ∷ []) (offer-Interleaves q c zs t))
  run-Interleaves q (takes ∷ os) zs t =
      run-Interleaves (accept_conn q) os zs (accept_conn-Interleaves q zs t)

  run-waiting :
      (q : Queue C) (os : List (Op C))
      → length q.waiting ≤ capacity
      → length (run q os).waiting ≤ capacity
  unfolding run
  run-waiting q [] h = h
  run-waiting q (o ∷ os) h = run-waiting (apply q o) os (waiting-apply q o h)

  pub offer-room :
      (q : Queue C) (c : C)
      → length q.waiting < capacity
      → offer q c ≡ record q { waiting = q.waiting ++ c ∷ [] }
  unfolding offer
  offer-room q c h = ground arith

  run-closed :
      (q : Queue C) (os : List (Op C))
      → length q.waiting + length (offered os) ≤ capacity
      → (run q os).closed ≡ q.closed
  unfolding run
  run-closed q [] h = refl
  run-closed q (offers c ∷ os) h =
      ap (λ r. (run r os).closed) (offer-room q c (omega arith))
      ∙ run-closed (record q { waiting = q.waiting ++ c ∷ [] }) os
          (omega (arith, length-append q.waiting (c ∷ [])))
  run-closed q (takes ∷ os) h =
      run-closed (accept_conn q) os (omega (arith, waiting-accept_conn q)) ∙ closed-accept_conn q

  -- After any sequence of sends and receives on a new channel: the buffer is within its capacity;
  -- the connections offered are those sent and those closed, each in the order of the offers; and
  -- none is closed while at most 1024 have been offered.
  pub run-empty :
      (os : List (Op C))
      → (length (run empty os).waiting ≤ capacity)
        × Interleaves (sent (run empty os)) (run empty os).closed (offered os)
        × (length (offered os) ≤ capacity → (run empty os).closed ≡ [])
  run-empty os = (
    run-waiting empty os (omega arith),
    run-Interleaves empty os [] end,
    λ h. run-closed empty os (omega arith),
  )
