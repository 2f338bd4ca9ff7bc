-- ===== src/Handler/System/Settling.antt =====
-- The handler comes to rest: when nothing more arrives and the calls of foreign code return.
use gost_plugin.Common.{
  List, [], ap, arith, inl, inr, length, suc, sym, true, zero, ℕ, ◌*◌, ◌++◌, ◌+◌, ◌<◌, ◌∙◌, ◌∷◌,
  ◌≡◌, ◌≤◌,
}
use gost_plugin.Handler.System.{
  Move, Reachable, Relays, System, accepts, here, later, moves, relays_on, steps,
}
use gost_plugin.Handler.System.Progress.{AllOver, Reachable-Moves}
use gost_plugin.Proxy.Queue.{Queue, accept_conn}
use gost_plugin.Proxy.Queue.Laws.{accept_conn-cases}
use gost_plugin.Handler.Relay as Relaying

-- The steps that a goroutine can still make, at most.
abbrev pending : Relaying.Phase → ℕ
pending Relaying.dialing = 4
pending Relaying.copying = 1
pending Relaying.over = 0

abbrev weight : Relaying.Relay → ℕ
weight r = pending r.phase + r.running

Step-weight : {r s : Relaying.Relay} → Relaying.Step r s → weight s < weight r
Step-weight (Relaying.dial_fails r e) = omega (arith, ap pending e)
Step-weight (Relaying.dial_works r e) = omega (arith, ap pending e)
Step-weight (Relaying.copy_ends r n result e room) = omega (arith, e)
Step-weight (Relaying.result_received r result rest e e2) = omega (arith, ap pending e)

module _ {C : Type 0} where
  abbrev weights : List (C × Relaying.Relay) → ℕ
  weights [] = 0
  weights ((c, r) ∷ rs) = weight r + weights rs

  -- A bound on what is left to do: five moves for a connection that waits.
  abbrev pub measure : System C → ℕ
  measure s = 5 * length s.queue.waiting + weights s.relays

  weights-append :
      (rs : List (C × Relaying.Relay)) (c : C) (r : Relaying.Relay)
      → weights (rs ++ (c, r) ∷ []) ≡ weights rs + weight r
  weights-append [] c r = omega arith
  weights-append ((d, q) ∷ rs) c r = omega (arith, weights-append rs c r)

  Relays-weights : {rs ss : List (C × Relaying.Relay)} → Relays rs ss → weights ss < weights rs
  Relays-weights (here step) = omega (arith, Step-weight step)
  Relays-weights (later {x = (c, r)} h) = omega (arith, Relays-weights h)

  waiting-accept_conn :
      (q : Queue C) (c : C) (cs : List C)
      → q.waiting ≡ c ∷ cs
      → suc (length (accept_conn q).waiting) ≡ length q.waiting
  waiting-accept_conn q c cs e = elim (accept_conn-cases q) [
    | inl (f, same) ↦ absurd (cc)
    | inr (d, ds, f, taken) ↦ ap (λ r. suc (length r.waiting)) taken ∙ sym (ap length f)
  ]

  Move-measure : {s s' : System C} → Move s s' → measure s' < measure s
  Move-measure (accepts s c cs on e) =
      omega (arith, waiting-accept_conn s.queue c cs e, weights-append s.relays c Relaying.accepted)
  Move-measure (relays_on s rs step) = omega (arith, Relays-weights step)

  Move-accepting : {s s' : System C} → Move s s' → s.accepting ≡ true → s'.accepting ≡ true
  Move-accepting (accepts s c cs on e) h = h
  Move-accepting (relays_on s rs step) h = h

  -- So many moves, one after the other.
  pub data Moves : ℕ → System C → System C → Type 0 where
    rests : {s : System C} → Moves 0 s s
    then : {n : ℕ} {s t u : System C} → Move s t → Moves n t u → Moves (suc n) s u

  Moves-measure : {n : ℕ} {s t : System C} → Moves n s t → n + measure t ≤ measure s
  Moves-measure rests = omega arith
  Moves-measure (then m ms) = omega (arith, Move-measure m, Moves-measure ms)

  abbrev pub Settled : System C → Type 0
  Settled s = (s.queue.waiting ≡ []) × AllOver s.relays

  abbrev Settling : System C → Type 0
  Settling s = (n : ℕ) × (t : System C) × Moves n s t × Settled t

  settles :
      (fuel : ℕ) (s : System C) → Reachable s → s.accepting ≡ true → measure s ≤ fuel → Settling s
  settles zero s h on enough = elim (Reachable-Moves s h on) [
    | inl done ↦ (0, s, rests, done)
    | inr (t, m) ↦ absurd (omega (arith, Move-measure m))
  ]
  settles (suc fuel) s h on enough = elim (Reachable-Moves s h on) [
    | inl done ↦ (0, s, rests, done)
    | inr (t, m) ↦
        let (n, u, ms, done) =
          settles fuel t (steps h (moves m)) (Move-accepting m on)
            (omega (arith, Move-measure m)) in
        (suc n, u, then m ms, done)
  ]

  -- From every state in which the loop has not returned: if nothing more arrives, the handler makes
  -- at most `measure` moves, however its goroutines are interleaved, and there are moves to a state
  -- in which the channel is empty and every goroutine is over.
  pub Reachable-Settles :
      (s : System C)
      → Reachable s
      → s.accepting ≡ true
      → ((n : ℕ) (t : System C) → Moves n s t → n ≤ measure s)
        × ((n : ℕ) × (t : System C) × Moves n s t × Settled t)
  Reachable-Settles s h on =
      (λ n t ms. omega (arith, Moves-measure ms), settles (measure s) s h on (omega arith))
