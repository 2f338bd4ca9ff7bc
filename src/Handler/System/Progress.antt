-- ===== src/Handler/System/Progress.antt =====
-- What the handler guarantees of every connection, and that it is never stuck.
use gost_plugin.Common.{
  List, [], inl, inr, length, refl, subst, sym, true, ◌++◌, ◌∷◌, ◌≡◌, ◌≤◌, ◌⊎◌,
}
use gost_plugin.Handler.Relay.Laws.{ClosesEnds, Reachable-ClosesEnds, Reachable-steps}
use gost_plugin.Handler.System.{Move, Reachable, Relays, System, accepts, here, later, relays_on}
use gost_plugin.Handler.System.Laws.{IsSound, Reachable-IsSound, RelaysReachable, relayed}
use gost_plugin.Proxy.Queue.{capacity}
use gost_plugin.Proxy.Queue.Laws.{Interleaves}
use gost_plugin.Handler.Relay as Relaying

module _ {C : Type 0} where
  abbrev pub EndsClosed : List (C × Relaying.Relay) → Type 0
  EndsClosed [] = Unit {0}
  EndsClosed ((c, r) ∷ rs) = ClosesEnds r.phase r × EndsClosed rs

  RelaysReachable-EndsClosed : (rs : List (C × Relaying.Relay)) → RelaysReachable rs → EndsClosed rs
  RelaysReachable-EndsClosed [] h = tt
  RelaysReachable-EndsClosed ((c, r) ∷ rs) (reachable, rest) =
      (Reachable-ClosesEnds r reachable, RelaysReachable-EndsClosed rs rest)

  -- In every state of the handler: the channel is within its capacity; the connections that the
  -- listener accepted from the network are those relayed, then those in the channel, and those
  -- closed for want of room, each in the order of their arrival; and no goroutine has closed an end
  -- before it is over, and each that is over has closed its inbound end once, and its outbound end
  -- once exactly if `DialConn` gave one.
  pub Reachable-Accounted :
      (s : System C)
      → Reachable s
      → (length s.queue.waiting ≤ capacity)
        × Interleaves (relayed s.relays ++ s.queue.waiting) s.queue.closed s.arrived
        × EndsClosed s.relays
  Reachable-Accounted s h =
      let sound : IsSound s = Reachable-IsSound h in
      (
        sound.bounded,
        subst (λ xs. Interleaves (xs ++ s.queue.waiting) s.queue.closed s.arrived)
            (sym sound.received) sound.nothing_lost,
        RelaysReachable-EndsClosed s.relays sound.relays_sound,
      )

  abbrev pub AllOver : List (C × Relaying.Relay) → Type 0
  AllOver [] = Unit {0}
  AllOver ((c, r) ∷ rs) = (r.phase ≡ Relaying.over) × AllOver rs

  abbrev CanRelay : List (C × Relaying.Relay) → Type 0
  CanRelay rs = (ss : List (C × Relaying.Relay)) × Relays rs ss

  relays_move : (rs : List (C × Relaying.Relay)) → RelaysReachable rs → AllOver rs ⊎ CanRelay rs
  relays_move [] h = inl tt
  relays_move ((c, r) ∷ rs) (reachable, rest) = elim (Reachable-steps r reachable) [
    | inr (s, step) ↦ inr ((c, s) ∷ rs, here step)
    | inl done ↦ elim (relays_move rs rest) [
      | inl all_over ↦ inl (done, all_over)
      | inr (ss, step) ↦ inr ((c, r) ∷ ss, later step)
    ]
  ]

  queue_moves :
      (s : System C) (xs : List C)
      → s.accepting ≡ true
      → s.queue.waiting ≡ xs
      → (s.queue.waiting ≡ []) ⊎ ((s' : System C) × Move s s')
  queue_moves s [] on e = inl e
  queue_moves s (c ∷ cs) on e = inr (_, accepts s c cs on e)

  -- While the loop has not returned, the handler can move by itself unless nothing is left to do: the
  -- channel is empty and every goroutine is over.
  pub Reachable-Moves :
      (s : System C)
      → Reachable s
      → s.accepting ≡ true
      → ((s.queue.waiting ≡ []) × AllOver s.relays) ⊎ ((s' : System C) × Move s s')
  Reachable-Moves s h on = elim (relays_move s.relays (Reachable-IsSound h).relays_sound) [
    | inr (rs, step) ↦ inr (_, relays_on s rs step)
    | inl done ↦ elim (queue_moves s s.queue.waiting on refl) [
      | inl e ↦ inl (e, done)
      | inr m ↦ inr m
    ]
  ]
