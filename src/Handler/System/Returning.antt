-- ===== src/Handler/System/Returning.antt =====
-- The handlers of HTTP/2 requests and of gRPC streams, which wait for their connections to be closed by
-- the handler.
use gost_plugin.Common.{
  Bool, List, Option, [], ap, arith, if◌then◌else◌, refl, some, suc, sym, true, zero, ℕ, ◌+◌, ◌==◌,
  ◌↔◌, ◌∙◌, ◌∷◌, ◌≡◌, ◌≤◌,
}
use gost_plugin.Handler.Relay.Closing.{close_times}
use gost_plugin.Handler.Relay.Laws.{ClosesEnds}
use gost_plugin.Handler.System.{Reachable, System}
use gost_plugin.Handler.System.Closing.{
  closes_of, closes_of-count, count, count-Interleaves, count-append, deferred,
}
use gost_plugin.Handler.System.Laws.{relayed}
use gost_plugin.Handler.System.Progress.{AllOver, EndsClosed, Reachable-Accounted}
use gost_plugin.Handler.System.Settling.{Settled}
use gost_plugin.Protocol.Address.{Address}
use gost_plugin.Protocol.Http.{close, new_http_connection}
use gost_plugin.Server.Upgrade.{tun_waited, waited}
use gost_plugin.Handler.Relay as Relaying
use gost_plugin.Protocol.Gun as Gun

abbrev is_over : Relaying.Phase → ℕ
is_over Relaying.over = 1
is_over _ = 0

-- The goroutines of a connection that are over.
abbrev pub ended : ℕ → List (ℕ × Relaying.Relay) → ℕ
ended c [] = 0
ended c ((d, r) ∷ rs) = (if d == c then is_over r.phase else 0) + ended c rs

closed_inbound-is_over :
    (p : Relaying.Phase) (r : Relaying.Relay) → ClosesEnds p r → r.closed_inbound ≡ is_over p
closed_inbound-is_over Relaying.dialing r (h, k, d) = h
closed_inbound-is_over Relaying.copying r (h, k, d) = h
closed_inbound-is_over Relaying.over r (h, k, d) = h

deferred-ended :
    (c : ℕ) (rs : List (ℕ × Relaying.Relay)) → EndsClosed rs → deferred c rs ≡ ended c rs
deferred-ended c [] h = refl
deferred-ended c ((d, r) ∷ rs) (ends, rest) =
    ground (arith, closed_inbound-is_over r.phase r ends, deferred-ended c rs rest)

ended-count :
    (c : ℕ) (rs : List (ℕ × Relaying.Relay)) → AllOver rs → ended c rs ≡ count c (relayed rs)
ended-count c [] h = refl
ended-count c ((d, r) ∷ rs) (e, rest) = ground (arith, ap is_over e, ended-count c rs rest)

-- The connection after so many calls of `Close`, and when the wait for it has ended.
abbrev pub Waits : {A : Type 0} → (A → Option A) → (A → Bool) → A → ℕ → Type 0
Waits {A = A} close_conn ended_wait conn n =
    (d : A) × (close_times close_conn n conn ≡ some d) × ((ended_wait d ≡ true) ↔ (n ≡ 1))

http-Waits :
    (n : ℕ) (local remote : Option Address)
    → n ≤ 1
    → Waits close waited (new_http_connection local remote) n
unfolding close_times close new_http_connection waited
http-Waits zero local remote h = (_, refl, ((λ e. absurd (cc)), (λ e. absurd (omega arith))))
http-Waits (suc zero) local remote h = (_, refl, ((λ e. refl), (λ e. refl)))
http-Waits (suc (suc n)) local remote h = absurd (omega arith)

gun-Waits :
    (n : ℕ) (remote local : Option Address)
    → n ≤ 1
    → Waits Gun.close tun_waited (Gun.new_gun_connection remote local) n
unfolding close_times Gun.close Gun.new_gun_connection tun_waited
gun-Waits zero remote local h = (_, refl, ((λ e. absurd (cc)), (λ e. absurd (omega arith))))
gun-Waits (suc zero) remote local h = (_, refl, ((λ e. refl), (λ e. refl)))
gun-Waits (suc (suc n)) remote local h = absurd (omega arith)

-- The calls of `Close` on a connection, by those who make them.
closes_of-ended :
    (s : System ℕ) (c : ℕ) → Reachable s → closes_of c s ≡ count c s.queue.closed + ended c s.relays
closes_of-ended s c h =
    let (bounded, inter, ends) = Reachable-Accounted s h in
    omega (arith, deferred-ended c s.relays ends)

closes_of-Settled :
    (s : System ℕ) (c : ℕ) → Reachable s → Settled s → closes_of c s ≡ count c s.arrived
closes_of-Settled s c h (empty_queue, over) =
    let (bounded, inter, ends) = Reachable-Accounted s h in
    omega (
      arith,
      count-Interleaves c inter,
      count-append c (relayed s.relays) s.queue.waiting,
      ap (count c) empty_queue,
      closes_of-ended s c h,
      ended-count c s.relays over,
    )

-- What holds of the handler that waits for a connection `c`, in a state of the system.
abbrev pub WaitsFor : {A : Type 0} → (A → Option A) → (A → Bool) → A → System ℕ → ℕ → Type 0
WaitsFor {A = A} close_conn ended_wait conn s c =
    (d : A) × (close_times close_conn (closes_of c s) conn ≡ some d)
    × ((ended_wait d ≡ true) ↔ (count c s.queue.closed + ended c s.relays ≡ 1))
    × (Settled s → ended_wait d ≡ true)

Waits-WaitsFor :
    {A : Type 0} (close_conn : A → Option A) (ended_wait : A → Bool) (conn : A) (s : System ℕ)
    (c : ℕ)
    → Reachable s
    → count c s.arrived ≡ 1
    → Waits close_conn ended_wait conn (closes_of c s)
    → WaitsFor close_conn ended_wait conn s c
Waits-WaitsFor close_conn ended_wait conn s c h once (d, e, iff) =
    let same = closes_of-ended s c h in
    (
      d,
      e,
      ((λ w. sym same ∙ iff.0 w), (λ n. iff.1 (same ∙ n))),
      (λ settled. iff.1 (closes_of-Settled s c h settled ∙ once)),
    )

-- The handler of a request of HTTP/2, or of a stream of gRPC, waits for its connection, which arrived
-- once. In every state, the connection has taken all the calls of `Close` without the panic of a second
-- one; the handler has returned exactly if the connection was closed for want of room in the channel or
-- its goroutine is over; and when the channel is empty and every goroutine is over, it has returned.
pub Reachable-WaitsFor :
    (s : System ℕ) (c : ℕ) (local remote : Option Address)
    → Reachable s
    → count c s.arrived ≡ 1
    → WaitsFor close waited (new_http_connection local remote) s c
      × WaitsFor Gun.close tun_waited (Gun.new_gun_connection remote local) s c
Reachable-WaitsFor s c local remote h once =
    let at_most : closes_of c s ≤ 1 = omega (arith, closes_of-count s c h) in
    (
      Waits-WaitsFor close waited (new_http_connection local remote) s c h once
          (http-Waits (closes_of c s) local remote at_most),
      Waits-WaitsFor Gun.close tun_waited (Gun.new_gun_connection remote local) s c h once
          (gun-Waits (closes_of c s) remote local at_most),
    )
