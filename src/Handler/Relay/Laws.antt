-- ===== src/Handler/Relay/Laws.antt =====
-- The ends that the relaying goroutine closes, and the channel of the copies.
use gost_plugin.Common.{
  Bytes, List, Option, [], ap, arith, inl, inr, length, length-append, none, refl, subst, suc, zero,
  ℕ, ◌++◌, ◌+◌, ◌<◌, ◌∷◌, ◌≡◌, ◌≤◌, ◌⊎◌,
}
use gost_plugin.Handler.Relay.{
  Phase, Reachable, Relay, Step, copy_ends, copying, dial_fails, dial_works, dialing, over,
  result_received, starts, steps,
}

-- By phase: what runs, what is in the channel and what was closed.
abbrev IsSound : Phase → Relay → Type 0
IsSound dialing r =
    (r.running ≡ 0)
    × (length r.err_chan ≡ 0)
    × (r.closed_inbound ≡ 0)
    × (r.closed_outbound ≡ 0)
    × (r.dialled ≡ 0)
IsSound copying r =
    (r.running + length r.err_chan ≡ 2)
    × (r.closed_inbound ≡ 0)
    × (r.closed_outbound ≡ 0)
    × (r.dialled ≡ 1)
IsSound over r =
    (r.closed_inbound ≡ 1)
    × (r.running + length r.err_chan ≤ 1)
    × (r.dialled ≡ r.running + length r.err_chan)
    × (r.closed_outbound ≡ r.dialled)

at_phase : (r : Relay) (p : Phase) → r.phase ≡ p → IsSound r.phase r → IsSound p r
at_phase r p e h = subst (λ x. IsSound x r) e h

after_copy :
    (p : Phase) (r : Relay) (n : ℕ) (result : Option Bytes)
    → r.running ≡ suc n
    → IsSound p r
    → IsSound p (record r { running = n; err_chan = r.err_chan ++ result ∷ [] })
after_copy dialing r n result e h = omega (arith, length-append r.err_chan (result ∷ []))
after_copy copying r n result e (h, a, b, d) =
    (omega (arith, length-append r.err_chan (result ∷ [])), a, b, d)
after_copy over r n result e (a, h, b, d) = (
  a,
  omega (arith, length-append r.err_chan (result ∷ [])),
  omega (arith, length-append r.err_chan (result ∷ [])),
  d,
)

after_result :
    (r : Relay) (result : Option Bytes) (rest : List (Option Bytes))
    → r.err_chan ≡ result ∷ rest
    → IsSound copying r
    → IsSound over (record r {
      phase = over;
      err_chan = rest;
      closed_inbound = r.closed_inbound + 1;
      closed_outbound = r.closed_outbound + 1;
    })
after_result r result rest e (h, a, b, d) =
    let len : length r.err_chan ≡ suc (length rest) = ap length e in
    (omega arith, omega arith, omega arith, omega arith)

Step-IsSound : {r s : Relay} → Step r s → IsSound r.phase r → IsSound s.phase s
Step-IsSound (dial_fails r e) h = over_sound (at_phase r dialing e h)
  where
    over_sound :
        IsSound dialing r
        → IsSound over (record r { phase = over; closed_inbound = r.closed_inbound + 1 })
    over_sound (a, b, c, d, e) = (omega arith, omega arith, omega arith, omega arith)
Step-IsSound (dial_works r e) h = copying_sound (at_phase r dialing e h)
  where
    copying_sound :
        IsSound dialing r
        → IsSound copying (record r { phase = copying; dialled = r.dialled + 1; running = 2 })
    copying_sound (a, b, c, d, e) = (omega arith, c, d, omega arith)
Step-IsSound (copy_ends r n result e room) h = after_copy r.phase r n result e h
Step-IsSound (result_received r result rest e e2) h =
    after_result r result rest e2 (at_phase r copying e h)

Reachable-IsSound : {r : Relay} → Reachable r → IsSound r.phase r
Reachable-IsSound starts = (refl, refl, refl, refl, refl)
Reachable-IsSound (steps h s) = Step-IsSound s (Reachable-IsSound h)

-- What the goroutine guarantees: while it dials there is no outbound end, while it copies there is one,
-- and neither end is closed; once it is over the inbound end was closed once, and the outbound end
-- once if `DialConn` gave one.
abbrev pub ClosesEnds : Phase → Relay → Type 0
ClosesEnds over r = (r.closed_inbound ≡ 1) × (r.closed_outbound ≡ r.dialled) × (r.dialled ≤ 1)
ClosesEnds copying r = (r.closed_inbound ≡ 0) × (r.closed_outbound ≡ 0) × (r.dialled ≡ 1)
ClosesEnds dialing r = (r.closed_inbound ≡ 0) × (r.closed_outbound ≡ 0) × (r.dialled ≡ 0)

closes : (p : Phase) (r : Relay) → IsSound p r → ClosesEnds p r
closes dialing r (a, b, c, d, e) = (c, d, e)
closes copying r (a, c, d, e) = (c, d, e)
closes over r (a, b, c, d) = (a, d, omega arith)

-- In every state that the goroutine reaches: no end is closed before it is over, and when it is over
-- the inbound end was closed once, and the outbound end once exactly if `DialConn` gave one.
pub Reachable-ClosesEnds : (r : Relay) → Reachable r → ClosesEnds r.phase r
Reachable-ClosesEnds r h = closes r.phase r (Reachable-IsSound h)

has_room : (p : Phase) (r : Relay) (n : ℕ) → IsSound p r → r.running ≡ suc n → length r.err_chan < 2
has_room dialing r n h e = omega arith
has_room copying r n h e = omega arith
has_room over r n h e = omega arith

-- A copy that ends never waits to send its result: while one runs, also when the goroutine is over
-- and nothing receives any more, the channel has room.
pub copies-never_block :
    (r : Relay) (n : ℕ) → Reachable r → r.running ≡ suc n → length r.err_chan < 2
copies-never_block r n h e = has_room r.phase r n (Reachable-IsSound h) e

abbrev pub CanStep : Relay → Type 0
CanStep r = (s : Relay) × Step r s

copying_steps :
    (r : Relay) (result : List (Option Bytes)) (n : ℕ)
    → r.phase ≡ copying
    → r.err_chan ≡ result
    → r.running ≡ n
    → n + length result ≡ 2
    → CanStep r
copying_steps r (x ∷ rest) n e ec er h = (_, result_received r x rest e ec)
copying_steps r [] (suc n) e ec er h =
    let len : length r.err_chan ≡ 0 = ap length ec in (_, copy_ends r n none er (omega arith))
copying_steps r [] zero e ec er h = absurd (omega arith)

phase_steps : (p : Phase) (r : Relay) → r.phase ≡ p → IsSound p r → (p ≡ over) ⊎ CanStep r
phase_steps dialing r e h = inr (_, dial_fails r e)
phase_steps copying r e (h, a, b, d) = inr (copying_steps r r.err_chan r.running e refl refl h)
phase_steps over r e h = inl refl

-- The goroutine is never stuck: until it is over, some step is possible.
pub Reachable-steps : (r : Relay) → Reachable r → (r.phase ≡ over) ⊎ CanStep r
Reachable-steps r h = phase_steps r.phase r refl (Reachable-IsSound h)
