-- ===== src/Client/Quic/Laws.antt =====
-- Which session a stream of the QUIC transporter is opened on.
use gost_plugin.Args.Addr.{Options}
use gost_plugin.Client.Quic.{
  Quic, Transporter, dial_conn, dialed, is_session_active, listened, open_stream, session_closed,
  with_stream,
}
use gost_plugin.Client.Tls.{TlsConfig}
use gost_plugin.Common.{
  Bool, Bytes, Option, ap, false, if◌then◌else◌, none, refl, some, sym, true, ◌∙◌, ◌≡◌,
}
use gost_plugin.Foreign.{Outcome, failed, ok}
use gost_plugin.Protocol.Quic.{InterConn, new_quic_conn}

module _ {W S T P : Type 0} (Q : Quic W S T P) where
  -- The connection is a stream opened on the transporter's session, in a world where that session was
  -- not done, with the addresses of that session.
  abbrev pub OpenedOn : Transporter W S → InterConn T → Type 0
  OpenedOn t conn =
      (s : S) × (w : W) × (stream : T) × (t.session ≡ some s)
      × (Q.is_done w s ≡ false)
      × (Q.open_stream w s ≡ (t.world, ok stream))
      × (conn ≡ new_quic_conn stream (Q.session_local s) (Q.session_remote s))

  with_stream-OpenedOn :
      (w : W) (s : S) (r : W × Outcome T) (t : Transporter W S) (conn : InterConn T)
      → Q.is_done w s ≡ false
      → Q.open_stream w s ≡ r
      → with_stream Q s r ≡ (t, ok conn)
      → OpenedOn t conn
  with_stream-OpenedOn w s (w1, failed err) t conn e opened h = absurd (cc)
  with_stream-OpenedOn w s (w1, ok stream) t conn e opened h = (
    s,
    w,
    stream,
    sym (ap (λ p. p.0.session) h),
    e,
    opened ∙ ap (λ p. (p.0.world, ok stream)) h,
    cc,
  )

  active-OpenedOn :
      (w : W) (s : S) (b : Bool) (t : Transporter W S) (conn : InterConn T)
      → Q.is_done w s ≡ b
      → (if b
          then (record { session = some s; world = w }, failed (session_closed Q))
          else with_stream Q s (Q.open_stream w s))
        ≡ (t, ok conn)
      → OpenedOn t conn
  active-OpenedOn w s true t conn e h = absurd (cc)
  active-OpenedOn w s false t conn e h = with_stream-OpenedOn w s _ t conn e refl h

  open_stream-OpenedOn :
      (w : W) (o : Option S) (t : Transporter W S) (conn : InterConn T)
      → open_stream Q w o ≡ (t, ok conn)
      → OpenedOn t conn
  unfolding open_stream
  open_stream-OpenedOn w none t conn h = absurd (cc)
  open_stream-OpenedOn w (some s) t conn h = active-OpenedOn w s (Q.is_done w s) t conn refl h

  dialed-OpenedOn :
      (old : Option S) (r : W × Outcome S) (t : Transporter W S) (conn : InterConn T)
      → dialed Q old r ≡ (t, ok conn)
      → OpenedOn t conn
  dialed-OpenedOn old (w, failed err) t conn h = absurd (cc)
  dialed-OpenedOn old (w, ok s) t conn h = open_stream-OpenedOn w (some s) t conn h

  listened-OpenedOn :
      (config : TlsConfig) (addr : Option Bytes) (old : Option S) (r : W × Outcome P)
      (t : Transporter W S) (conn : InterConn T)
      → listened Q config addr old r ≡ (t, ok conn)
      → OpenedOn t conn
  listened-OpenedOn config addr old (w, failed err) t conn h = absurd (cc)
  listened-OpenedOn config addr old (w, ok p) t conn h =
      dialed-OpenedOn old (Q.dial p addr config w) t conn h

  chosen-OpenedOn :
      (b : Bool) (t u : Transporter W S) (config : TlsConfig) (addr : Option Bytes)
      (r : W × Outcome P) (conn : InterConn T)
      → (if b then open_stream Q t.world t.session else listened Q config addr t.session r)
        ≡ (u, ok conn)
      → OpenedOn u conn
  chosen-OpenedOn true t u config addr r conn h = open_stream-OpenedOn t.world t.session u conn h
  chosen-OpenedOn false t u config addr r conn h =
      listened-OpenedOn config addr t.session r u conn h

  -- A connection that `DialConn` returns is a stream opened on the session that the transporter then
  -- holds, in a state where this session was not done, and has the addresses of that session.
  pub dial_conn-OpenedOn :
      (parses_ip : Bytes → Bool) (o : Options) (t u : Transporter W S) (conn : InterConn T)
      → dial_conn Q parses_ip o t ≡ (u, ok conn)
      → OpenedOn u conn
  unfolding dial_conn
  dial_conn-OpenedOn parses_ip o t u conn h =
      chosen-OpenedOn (is_session_active Q t.world t.session) t u _ _ _ conn h
