-- ===== src/Tunnel/OverStreams.antt =====
-- Tunnels over HTTP/2 and over QUIC, from io.Copy at the client to io.Copy at the server. The bodies and
-- the streams are foreign code: that the one end holds what the other was given is a hypothesis.
use gost_plugin.Common.{All, Bytes, Option, refl, suc, ℕ, ◌++◌, ◌<◌, ◌≡◌}
use gost_plugin.Conn.{ReadResult, Readable, Writable, WriteResult}
use gost_plugin.Conn.Copy.{copy}
use gost_plugin.Conn.Copy.Laws.{Copies}
use gost_plugin.Protocol.Address.{Address}
use gost_plugin.Protocol.Base64.Laws.{IsByte}
use gost_plugin.Protocol.Http.{new_http_connection}
use gost_plugin.Protocol.Http.Methods.{Exchange, HttpPipe, http_conn}
use gost_plugin.Protocol.Http.Pipe.{Flushes, HttpOpen, http-Readable, http-Writable, http_given}
use gost_plugin.Protocol.Quic.{Stream, inter_conn, new_quic_conn}
use gost_plugin.Protocol.Quic.Pipe.{QuicOpen, quic-Readable, quic-Writable, quic_given}
use gost_plugin.Tunnel.Relayed.{relayed_lem}

-- A new connection on a state of the world.
abbrev pub http_end : {W : Type 0} → Option Address → Option Address → W → HttpPipe W
http_end local remote w = record { conn = new_http_connection local remote; world = w }

module _ {C F V W : Type 0} (read : ℕ → C → ReadResult C) (holds : C → Bytes)
    (ends : C → Option Bytes) (calls : C → ℕ) (write : Bytes → F → WriteResult F)
    (FarOpen : F → Type 0) (far_given : F → Bytes) (size : ℕ)
    (R : Readable read size holds ends calls) (T : Writable write FarOpen far_given)
    (Open : V → Type 0) (given : V → Bytes) (far_holds : W → Bytes) (far_ends : W → Option Bytes)
    (far_calls : W → ℕ) (far : V → W) where
  module _ (X : Exchange V) (Y : Exchange W) (L : Writable X.write_body Open given)
      (K : Flushes X Open given) (B : Readable Y.read_body size far_holds far_ends far_calls) where
    -- Two handlers with an exchange of HTTP/2 between them, whose body at the server holds what the
    -- pipe of the client was given, with a pipe that takes all: if the fuel of the first copy exceeds
    -- its calls of `Read`, what the pipe was given before and all the bytes of the source arrive, in
    -- order, and the second copy ends as the body does.
    pub h2_relayed :
        (local remote peer_local peer_remote : Option Address) (fuel : ℕ) (c : C) (v : V) (f : F)
        → ((x : V) → Open x → far_holds (far x) ≡ given x)
        → Open v
        → FarOpen f
        → All IsByte (given v)
        → All IsByte (holds c)
        → calls c < fuel
        → let r = copy read (http_conn X).write size fuel c (http_end local remote v) in
          let e = far r.dst.world in
          Copies FarOpen far_given (given v ++ holds c) (far_ends e) f (
            copy
              (http_conn Y).read
              write
              size
              (suc (far_calls e))
              (http_end peer_local peer_remote e)
              f)
    unfolding new_http_connection
    h2_relayed local remote peer_local peer_remote fuel c v f link o fo vb cb lt =
        relayed_lem read holds ends calls (http_conn X).write (HttpOpen X Open given L K)
          (http_given X Open given L K) (http_conn Y).read (λ p. far_holds p.world)
          (λ p. far_ends p.world) (λ p. far_calls p.world) write FarOpen far_given size R
          (http-Writable X Open given L K) (http-Readable Y size far_holds far_ends far_calls B) T
          (λ p. http_end peer_local peer_remote (far p.world)) fuel c (http_end local remote v) f
          (λ x h. link x.world h.1) (refl, o) fo vb cb lt

  module _ (X : Stream V) (Y : Stream W) (L : Writable X.write_stream Open given)
      (B : Readable Y.read_stream size far_holds far_ends far_calls) where
    -- The same for a stream of QUIC.
    pub quic_relayed :
        (local remote peer_local peer_remote : Address) (fuel : ℕ) (c : C) (v : V) (f : F)
        → ((x : V) → Open x → far_holds (far x) ≡ given x)
        → Open v
        → FarOpen f
        → All IsByte (given v)
        → All IsByte (holds c)
        → calls c < fuel
        → let r = copy read (inter_conn X).write size fuel c (new_quic_conn v local remote) in
          let e = far r.dst.stream in
          Copies FarOpen far_given (given v ++ holds c) (far_ends e) f (
            copy
              (inter_conn Y).read
              write
              size
              (suc (far_calls e))
              (new_quic_conn e peer_local peer_remote)
              f)
    unfolding new_quic_conn
    quic_relayed local remote peer_local peer_remote fuel c v f link o fo vb cb lt =
        relayed_lem read holds ends calls (inter_conn X).write (QuicOpen X Open given L)
          (quic_given X Open given L) (inter_conn Y).read (λ p. far_holds p.stream)
          (λ p. far_ends p.stream) (λ p. far_calls p.stream) write FarOpen far_given size R
          (quic-Writable X Open given L) (quic-Readable Y size far_holds far_ends far_calls B) T
          (λ p. new_quic_conn (far p.stream) peer_local peer_remote) fuel c
          (new_quic_conn v local remote) f (λ x h. link x.stream h) o fo vb cb lt
