-- ===== src/Server/Listeners/Errors.antt =====
-- The constructors whose certificate cannot be loaded.
use gost_plugin.Args.Addr.{Options, get_local_addr}
use gost_plugin.Common.{All, Bytes, List, [], ◌++◌, ◌∷◌, ◌≡◌}
use gost_plugin.Foreign.{Calls, failed, ok}
use gost_plugin.Proxy.Sockets.{Host, open_socket, pointer, tcp_binding}
use gost_plugin.Server.Certificate.{build_server_tls_config}
use gost_plugin.Server.Listeners.{
  Listener, new_gun_listener, new_h2_listener, new_mtls_listener, new_mws_listener,
  new_mwss_listener, new_quic_listener, new_tcp_listener, new_tls_listener, new_ws_listener,
  new_wss_listener, server_config,
}

module _ {L K : Type 0} (host : Host L K) where
  -- `create` fails with the error, and leaves the socket open.
  abbrev pub LeavesOpen : Options → L → Bytes → (Options → Calls (List L) (Listener L K)) → Type 0
  LeavesOpen o l err create = (w : List L) → create o w ≡ (w ++ l ∷ [], failed err)

  -- The constructors that put TLS on a TCP listener.
  abbrev pub on_tcp : List (Options → Calls (List L) (Listener L K))
  on_tcp =
      new_tls_listener host
      ∷ new_mtls_listener host
      ∷ new_wss_listener host
      ∷ new_mwss_listener host
      ∷ new_gun_listener host
      ∷ new_h2_listener host
      ∷ []

  -- When the certificate is missing or cannot be loaded, every constructor that puts TLS on a TCP
  -- listener returns the error with the socket it listens on left open; that of QUIC, which loads the
  -- certificate first, opens none.
  pub cert_error-LeavesOpen :
      (o : Options) (l : L) (err : Bytes)
      → host.listen (tcp_binding (pointer (host.resolve (get_local_addr o)))) ≡ ok l
      → build_server_tls_config host.load o ≡ failed err
      → All (LeavesOpen o l err) on_tcp
        × ((w : List L) → new_quic_listener host o w ≡ (w, failed err))
  unfolding new_tls_listener new_mtls_listener new_ws_listener new_wss_listener new_mws_listener
      new_mwss_listener new_gun_listener new_h2_listener new_quic_listener new_tcp_listener
      server_config open_socket
  cert_error-LeavesOpen o l err listens fails = (
    (
      (λ w. simp (listens, fails)),
      (
        (λ w. simp (listens, fails)),
        (
          (λ w. simp (listens, fails)),
          (
            (λ w. simp (listens, fails)),
            ((λ w. simp (listens, fails)), ((λ w. simp (listens, fails)), tt)),
          ),
        ),
      ),
    ),
    λ w. simp (fails),
  )
