-- ===== src/Client/Quic/Packets.antt =====
-- The packet connections of the QUIC transporter, which it never closes.
use gost_plugin.Args.Addr.{Options, get_remote_addr}
use gost_plugin.Client.Quic.{
  Quic, Transporter, close_old, dial_conn, dialed, is_session_active, open_stream, session_closed,
  with_stream,
}
use gost_plugin.Client.Tls.{TlsConfig, quic_config}
use gost_plugin.Common.{
  All, Bool, Bytes, List, Option, [], arith, false, if◌then◌else◌, none, refl, some, true, ℕ, ◌+◌,
  ◌∷◌, ◌≡◌,
}
use gost_plugin.Foreign.{Outcome, failed, ok}
use gost_plugin.Proxy.Sockets.{Binding, no_addr, udp_binding}

-- `packets` counts the packet connections that are open: listening opens one, and, as package quic
-- documents for a connection that it is given, none of its calls closes one.
pub record Counts {W S T P : Type 0} (Q : Quic W S T P) (packets : W → ℕ) : Type 0 where
  pub listens :
      (b : Binding) (w : W)
      → (w' : W) × (p : P) × (Q.listen_packet b w ≡ (w', ok p)) × (packets w' ≡ packets w + 1)
  pub dial-packets :
      (p : P) (addr : Option Bytes) (config : TlsConfig) (w : W)
      → packets (Q.dial p addr config w).0 ≡ packets w
  pub open_stream-packets : (w : W) (s : S) → packets (Q.open_stream w s).0 ≡ packets w
  pub close_session-packets : (w : W) (s : S) → packets (Q.close_session w s) ≡ packets w

module _ {W S T P : Type 0} (Q : Quic W S T P) where
  -- A call counts unless the session was active.
  abbrev pub added : Bool → ℕ
  added active = if active then 0 else 1

  -- A call of `DialConn`, behind which the outside world goes on.
  abbrev pub next : (Bytes → Bool) → Options → Transporter W S → (W → W) → Transporter W S
  next parses_ip o t f =
      let u = (dial_conn Q parses_ip o t).0 in record { session = u.session; world = f u.world }

  unfoldable pub dial_often :
      (Bytes → Bool) → Options → Transporter W S → List (W → W) → Transporter W S
  unfolding dial_conn
  dial_often parses_ip o t [] = t
  dial_often parses_ip o t (f ∷ fs) = dial_often parses_ip o (next parses_ip o t f) fs

  -- The calls that find no active session.
  unfoldable pub redials : (Bytes → Bool) → Options → Transporter W S → List (W → W) → ℕ
  unfolding dial_conn is_session_active
  redials parses_ip o t [] = 0
  redials parses_ip o t (f ∷ fs) =
      added (is_session_active Q t.world t.session) + redials parses_ip o (next parses_ip o t f) fs

module _ {W S T P : Type 0} (Q : Quic W S T P) (packets : W → ℕ) (C : Counts Q packets) where
  open_stream-same : (w : W) (s : Option S) → packets (open_stream Q w s).0.world ≡ packets w
  unfolding open_stream
  open_stream-same w none = refl
  open_stream-same w (some s) = by_done (Q.is_done w s)
    where
      by_done :
          (b : Bool)
          → packets
              (if b
                then (record { session = some s; world = w }, failed (session_closed Q))
                else with_stream Q s (Q.open_stream w s)).0.world
            ≡ packets w
      by_done true = refl
      by_done false = C.open_stream-packets w s

  close_old-same : (w : W) (s : Option S) → packets (close_old Q w s) ≡ packets w
  close_old-same w none = refl
  close_old-same w (some s) = C.close_session-packets w s

  dialed-same :
      (old : Option S) (r : W × Outcome S) → packets (dialed Q old r).0.world ≡ packets r.0
  dialed-same old (w, failed err) = refl
  dialed-same old (w, ok s) = open_stream-same w (some s)

  -- A dial adds a packet connection unless the session was active, also if it fails.
  dial_conn-added :
      (parses_ip : Bytes → Bool) (o : Options) (t : Transporter W S) (active : Bool)
      → is_session_active Q t.world t.session ≡ active
      → packets (dial_conn Q parses_ip o t).0.world ≡ packets t.world + added Q active
  unfolding dial_conn
  dial_conn-added parses_ip o t true e =
      let h = open_stream-same t.world t.session in rw (e) (omega (arith, h))
  dial_conn-added parses_ip o t false e =
      let (w, p, listening, more) =
        C.listens (udp_binding no_addr) (close_old Q t.world t.session) in
      let config = quic_config parses_ip o in
      let addr = Q.resolve (get_remote_addr o) in
      let h = dialed-same t.session (Q.dial p addr config w) in
      let k = C.dial-packets p addr config w in
      let l = close_old-same t.world t.session in rw (e, listening) (omega (arith, h, k, l, more))

  abbrev pub Keeps : (W → W) → Type 0
  Keeps f = (w : W) → packets (f w) ≡ packets w

  -- Every call of `DialConn` that finds no active session leaves one more packet connection open, the
  -- calls that fail included; nothing of the transporter closes any of them.
  pub dial_often_lem :
      (parses_ip : Bytes → Bool) (o : Options) (t : Transporter W S) (fs : List (W → W))
      → All Keeps fs
      → packets (dial_often Q parses_ip o t fs).world ≡ packets t.world + redials Q parses_ip o t fs
  unfolding dial_often redials
  dial_often_lem parses_ip o t [] keeps = omega arith
  dial_often_lem parses_ip o t (f ∷ fs) (k, keeps) =
      let h = dial_conn-added parses_ip o t (is_session_active Q t.world t.session) refl in
      let kept = k (dial_conn Q parses_ip o t).0.world in
      let later = dial_often_lem parses_ip o (next Q parses_ip o t f) fs keeps in
      omega (arith, h, kept, later)
