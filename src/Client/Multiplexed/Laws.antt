-- ===== src/Client/Multiplexed/Laws.antt =====
-- The connections that a multiplexing transporter opens.
use gost_plugin.Args.Addr.{Options}
use gost_plugin.Client.Dial.{Network, Secured, tcp_dial_conn, tls_dial_conn, tls_handshake}
use gost_plugin.Client.Multiplexed.{MuxWorld, in_world, mtls_dial_conn}
use gost_plugin.Client.Tls.{TlsConfig, TlsConn, build_client_tls_config, new_client_tls_conn}
use gost_plugin.Common.{
  All, Bool, Bytes, List, [], ap, length, length-append, none, refl, subst, suc, sym, ℕ, ◌++◌, ◌+◌,
  ◌<◌, ◌^◌, ◌∷◌, ◌≡◌, ◌≤◌,
}
use gost_plugin.Foreign.{Outcome, ok}
use gost_plugin.Mux.Pool.{Pool}
use gost_plugin.Mux.Sharing.{Connects, Steady, Succeeded, dial_each, dial_each_lem}
use gost_plugin.Mux.Smux.{Smux}
use gost_plugin.Mux.System.{MuxPool, new_mux_pool}
use gost_plugin.Proxy.Sockets.{dial_setup}

abbrev pub conns_opened : {N V : Type 0} → MuxWorld N V → ℕ
conns_opened w = length w.opened

module _ {N V C T : Type 0} (parses_ip : Bytes → Bool) (to_lower : Bytes → Bytes) (net : Network N)
    (S : Smux (MuxWorld N V) C (Secured N) T) (o : Options) where
  -- Calls of `DialConn` one after the other, with the random ids and the times, and their results.
  unfoldable pub mtls_dial_each :
      MuxPool (MuxWorld N V) C (Secured N)
      → List (ℕ × ℕ)
      → MuxPool (MuxWorld N V) C (Secured N) × List (Outcome T)
  unfolding mtls_dial_conn
  mtls_dial_each q [] = (q, [])
  mtls_dial_each q ((id, now) ∷ calls) =
      let r = mtls_dial_conn parses_ip to_lower net S o q id now in
      let rest = mtls_dial_each r.0 calls in (rest.0, r.1 ∷ rest.1)

  tls_dial : MuxWorld N V → MuxWorld N V × Outcome (Secured N)
  tls_dial = in_world (tls_dial_conn parses_ip to_lower net o)

  abbrev pooled :
      MuxPool (MuxWorld N V) C (Secured N) × List (Outcome T)
      → Pool (MuxWorld N V) C (Secured N) × List (Outcome T)
  pooled (q, rs) = (q.pool, rs)

  mtls_dial_each-dial_each :
      (q : MuxPool (MuxWorld N V) C (Secured N)) (calls : List (ℕ × ℕ))
      → pooled (mtls_dial_each q calls) ≡ dial_each S q.concurrency tls_dial q.pool calls
  unfolding mtls_dial_each mtls_dial_conn dial_each tls_dial
  mtls_dial_each-dial_each q [] = refl
  mtls_dial_each-dial_each q ((id, now) ∷ calls) =
      let r = mtls_dial_conn parses_ip to_lower net S o q id now in
      ap (λ x. (x.0, r.1 ∷ x.1)) (mtls_dial_each-dial_each r.0 calls)

  abbrev pub config : TlsConfig
  config = build_client_tls_config parses_ip o

  tls_dial-Connects :
      (n : N)
      → net.dial (dial_setup o) ≡ ok n
      → net.shake_hands n (new_client_tls_conn to_lower config o.fingerprint) ≡ none
      → Connects tls_dial conns_opened
  unfolding tls_dial tls_dial_conn tcp_dial_conn tls_handshake
  tls_dial-Connects n e h w =
      let c : TlsConn = new_client_tls_conn to_lower config o.fingerprint in
      (
        record { opened = w.opened ++ n ∷ []; rest = w.rest },
        (n, c),
        rw (e, h) refl,
        length-append w.opened (n ∷ []),
      )

  -- When the network connects and the handshake works, and smux does not fail and ends no session,
  -- the first calls of `DialConn` of a new MTLSTransporter, up to the limit of its options, all give a
  -- stream, on one TLS connection between them.
  pub mtls_dial_each_lem :
      (n : N) (w : MuxWorld N V) (id now : ℕ) (calls : List (ℕ × ℕ))
      → net.dial (dial_setup o) ≡ ok n
      → net.shake_hands n (new_client_tls_conn to_lower config o.fingerprint) ≡ none
      → Steady S conns_opened
      → o.mux < 2 ^ 63
      → suc (length calls) ≤ o.mux
      → let r = mtls_dial_each (new_mux_pool o w) ((id, now) ∷ calls) in
        (length r.0.pool.world.opened ≡ length w.opened + 1) × All Succeeded r.1
  unfolding new_mux_pool
  mtls_dial_each_lem n w id now calls e h steady small le =
      subst (λ r. (length r.0.world.opened ≡ length w.opened + 1) × All Succeeded r.1)
        (sym (mtls_dial_each-dial_each (new_mux_pool o w) ((id, now) ∷ calls)))
        (dial_each_lem S tls_dial conns_opened (tls_dial-Connects n e h) steady o.mux w id now calls
          small le)
