-- ===== src/Client/Dial/Laws.antt =====
-- What becomes of the connection under TLS.
use gost_plugin.Args.Addr.{Options}
use gost_plugin.Client.Dial.{
  Network, Secured, dialled, expect_h2, h2_dial_tls, next_proto_tls, shaken, tcp_dial_conn,
  tls_dial_conn, tls_handshake, unexpected_protocol,
}
use gost_plugin.Client.Tls.{TlsConfig, TlsConn, build_client_tls_config, new_client_tls_conn}
use gost_plugin.Common.{
  Bool, Bytes, List, Option, [], equal, false, if◌then◌else◌, none, refl, some, subst, true, ◌++◌,
  ◌∷◌, ◌≡◌,
}
use gost_plugin.Foreign.{Outcome, and_then, failed, ok}
use gost_plugin.Proxy.Sockets.{dial_setup}

-- `c` is the connection of TLS that is put on the one below, and `wants` tests the negotiated protocol.
module _ {N : Type 0} (net : Network N) (o : Options) (c : TlsConn) (wants : Bytes → Bool) where
  -- How a dial with TLS ends: the connection below could not be opened; or it was, and is open still,
  -- with TLS on it, or with an error and nothing that could close it.
  pub data Ends (opened : List N) : List N × Outcome (Secured N) → Type 0 where
    not_opened :
        (err : Bytes) → net.dial (dial_setup o) ≡ failed err → Ends opened (opened, failed err)
    secured :
        (n : N)
        → net.dial (dial_setup o) ≡ ok n
        → net.shake_hands n c ≡ none
        → wants (net.negotiated n c) ≡ true
        → Ends opened (opened ++ n ∷ [], ok (n, c))
    no_handshake :
        (n : N) (err : Bytes)
        → net.dial (dial_setup o) ≡ ok n
        → net.shake_hands n c ≡ some err
        → Ends opened (opened ++ n ∷ [], failed err)
    not_wanted :
        (n : N)
        → net.dial (dial_setup o) ≡ ok n
        → net.shake_hands n c ≡ none
        → wants (net.negotiated n c) ≡ false
        → Ends opened (opened ++ n ∷ [], failed (unexpected_protocol (net.negotiated n c)))

  abbrev judged : Secured N → Outcome (Secured N)
  judged s =
      if wants (net.negotiated s.0 s.1)
      then ok s
      else failed (unexpected_protocol (net.negotiated s.0 s.1))

  Ends-judged :
      (opened : List N) (n : N) (b : Bool)
      → net.dial (dial_setup o) ≡ ok n
      → net.shake_hands n c ≡ none
      → wants (net.negotiated n c) ≡ b
      → Ends opened (
        opened ++ n ∷ [],
        if b then ok (n, c) else failed (unexpected_protocol (net.negotiated n c)),
      )
  Ends-judged opened n true e h wanted = secured n e h wanted
  Ends-judged opened n false e h wanted = not_wanted n e h wanted

  Ends-shaken :
      (opened : List N) (n : N) (r : Option Bytes)
      → net.dial (dial_setup o) ≡ ok n
      → net.shake_hands n c ≡ r
      → Ends opened (and_then (opened ++ n ∷ [], shaken (n, c) r) λ s w. (w, judged s))
  Ends-shaken opened n none e h = Ends-judged opened n _ e h refl
  Ends-shaken opened n (some err) e h = no_handshake n err e h

  Ends-dialled :
      (opened : List N) (r : Outcome N)
      → net.dial (dial_setup o) ≡ r
      → Ends opened (
          and_then
            (dialled opened r)
            λ n w. and_then (w, shaken (n, c) (net.shake_hands n c)) λ s v. (v, judged s))
  Ends-dialled opened (ok n) e = Ends-shaken opened n (net.shake_hands n c) e refl
  Ends-dialled opened (failed err) e = not_opened err e

module _ {N : Type 0} (net : Network N) (o : Options) where
  -- Behind a handshake, a transporter of TLS takes every protocol.
  unwrapped :
      (c : TlsConn) (opened : List N) (r : Outcome N)
      → (and_then
          (dialled opened r)
          λ n w. and_then (w, shaken (n, c) (net.shake_hands n c)) λ s v. (v, ok s))
        ≡ (and_then (dialled opened r) λ n w. (w, shaken (n, c) (net.shake_hands n c)))
  unwrapped c opened (failed err) = refl
  unwrapped c opened (ok n) = unshaken (net.shake_hands n c)
    where
      unshaken :
          (r : Option Bytes)
          → and_then (opened ++ n ∷ [], shaken (n, c) r) (λ s v. (v, ok s))
            ≡ (opened ++ n ∷ [], shaken (n, c) r)
      unshaken none = refl
      unshaken (some err) = refl

  -- Each dial ends in one of these ways, with the connection of TLS that the fingerprint asks for;
  -- HTTP/2 wants the protocol "h2". A connection that was opened is never closed: after an error of
  -- the handshake, or an unexpected protocol, it stays open and nothing is returned that could close
  -- it.
  pub dial-Ends :
      (parses_ip : Bytes → Bool) (to_lower : Bytes → Bytes) (config : TlsConfig) (opened : List N)
      → Ends net o
          (new_client_tls_conn to_lower (build_client_tls_config parses_ip o) o.fingerprint)
          (λ p. true)
          opened
          (tls_dial_conn parses_ip to_lower net o opened)
        × Ends net o
            (new_client_tls_conn to_lower config o.fingerprint)
            (λ p. equal p next_proto_tls)
            opened
            (h2_dial_tls to_lower net o config opened)
  unfolding tls_dial_conn h2_dial_tls tcp_dial_conn tls_handshake expect_h2
  dial-Ends parses_ip to_lower config opened =
      let c : TlsConn =
        new_client_tls_conn to_lower (build_client_tls_config parses_ip o) o.fingerprint in
      (
        subst (λ x. Ends net o c (λ p. true) opened x)
            (unwrapped c opened (net.dial (dial_setup o)))
            (Ends-dialled net o c (λ p. true) opened (net.dial (dial_setup o)) refl),
        Ends-dialled net o _ (λ p. equal p next_proto_tls) opened (net.dial (dial_setup o)) refl,
      )
