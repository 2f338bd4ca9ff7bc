-- ===== src/Handler/System/Laws.antt =====
-- Every connection of the listener waits, is relayed or was closed.
use gost_plugin.Common.{
  All, All-append, List, [], ap, arith, inl, inr, length, refl, subst, sym, ◌++◌, ◌∙◌, ◌∷◌, ◌≡◌,
  ◌≤◌,
}
use gost_plugin.Handler.System.{
  Move, Reachable, Relays, Step, System, accept_fails, accepts, arrives, here, later, moves,
  relays_on, starts, steps,
}
use gost_plugin.Proxy.Queue.{Queue, accept_conn, capacity, offer}
use gost_plugin.Proxy.Queue.Laws.{
  Interleaves, accept_conn-Interleaves, accept_conn-cases, apply, end, offer-Interleaves, offers,
  sent, takes, waiting-apply,
}
use gost_plugin.Handler.Relay as Relaying

module _ {C : Type 0} where
  -- The connections that are relayed or were, in the order in which they were accepted.
  abbrev pub relayed : List (C × Relaying.Relay) → List C
  relayed [] = []
  relayed ((c, r) ∷ rs) = c ∷ relayed rs

  abbrev relay_of : List (C × Relaying.Relay) → List Relaying.Relay
  relay_of [] = []
  relay_of ((c, r) ∷ rs) = r ∷ relay_of rs

  abbrev pub RelaysReachable : List (C × Relaying.Relay) → Type 0
  RelaysReachable rs = All Relaying.Reachable (relay_of rs)

  relayed-append :
      (rs : List (C × Relaying.Relay)) (c : C) (r : Relaying.Relay)
      → relayed (rs ++ (c, r) ∷ []) ≡ relayed rs ++ c ∷ []
  relayed-append [] c r = refl
  relayed-append ((d, q) ∷ rs) c r = ap (λ x. d ∷ x) (relayed-append rs c r)

  relay_of-append :
      (rs : List (C × Relaying.Relay)) (c : C) (r : Relaying.Relay)
      → relay_of (rs ++ (c, r) ∷ []) ≡ relay_of rs ++ r ∷ []
  relay_of-append [] c r = refl
  relay_of-append ((d, q) ∷ rs) c r = ap (λ x. q ∷ x) (relay_of-append rs c r)

  Relays-relayed : {rs ss : List (C × Relaying.Relay)} → Relays rs ss → relayed ss ≡ relayed rs
  Relays-relayed (here step) = refl
  Relays-relayed (later {x = (c, r)} h) = ap (λ x. c ∷ x) (Relays-relayed h)

  Relays-Reachable :
      {rs ss : List (C × Relaying.Relay)} → Relays rs ss → RelaysReachable rs → RelaysReachable ss
  Relays-Reachable (here step) (reachable, rest) = (Relaying.steps reachable step, rest)
  Relays-Reachable (later {x = (c, r)} h) (reachable, rest) = (reachable, Relays-Reachable h rest)

  -- The goroutines are those of the connections received, and the channel is as in `run-empty`.
  pub record IsSound (s : System C) : Type 0 where
    pub received : relayed s.relays ≡ s.queue.taken
    pub bounded : length s.queue.waiting ≤ capacity
    pub nothing_lost : Interleaves (sent s.queue) s.queue.closed s.arrived
    pub relays_sound : RelaysReachable s.relays

  taken-accept_conn :
      (q : Queue C) (c : C) (cs : List C)
      → q.waiting ≡ c ∷ cs
      → (accept_conn q).taken ≡ q.taken ++ c ∷ []
  taken-accept_conn q c cs e = elim (accept_conn-cases q) [
    | inl (f, same) ↦ absurd (cc)
    | inr (d, ds, f, taken) ↦ ap (λ r. r.taken) taken ∙ ap (λ x. q.taken ++ x ∷ []) (cc)
  ]

  taken-offer : (q : Queue C) (c : C) → (offer q c).taken ≡ q.taken
  unfolding offer
  taken-offer q c = ground arith

  Move-IsSound : {s s' : System C} → Move s s' → IsSound s → IsSound s'
  unfolding apply
  Move-IsSound (accepts s c cs on e) h = record {
    received =
        relayed-append s.relays c Relaying.accepted
        ∙ ap (λ x. x ++ c ∷ []) h.received
        ∙ sym (taken-accept_conn s.queue c cs e);
    bounded = waiting-apply s.queue takes h.bounded;
    nothing_lost = accept_conn-Interleaves s.queue s.arrived h.nothing_lost;
    relays_sound =
        subst (λ rs. All Relaying.Reachable rs) (sym (relay_of-append s.relays c Relaying.accepted))
          (All-append Relaying.Reachable (relay_of s.relays) (Relaying.accepted ∷ []) h.relays_sound
            (Relaying.starts, tt));
  }
  Move-IsSound (relays_on s rs step) h = record {
    received = Relays-relayed step ∙ h.received;
    bounded = h.bounded;
    nothing_lost = h.nothing_lost;
    relays_sound = Relays-Reachable step h.relays_sound;
  }

  Step-IsSound : {s s' : System C} → Step s s' → IsSound s → IsSound s'
  unfolding apply
  Step-IsSound (moves m) h = Move-IsSound m h
  Step-IsSound (arrives s c) h = record {
    received = h.received ∙ sym (taken-offer s.queue c);
    bounded = waiting-apply s.queue (offers c) h.bounded;
    nothing_lost = offer-Interleaves s.queue c s.arrived h.nothing_lost;
    relays_sound = h.relays_sound;
  }
  Step-IsSound (accept_fails s ctx_done on) h = record {
    received = h.received;
    bounded = h.bounded;
    nothing_lost = h.nothing_lost;
    relays_sound = h.relays_sound;
  }

  pub Reachable-IsSound : {s : System C} → Reachable s → IsSound s
  Reachable-IsSound starts = record {
    received = refl;
    bounded = omega arith;
    nothing_lost = end;
    relays_sound = tt;
  }
  Reachable-IsSound (steps h step) = Step-IsSound step (Reachable-IsSound h)
