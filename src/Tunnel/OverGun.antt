-- ===== src/Tunnel/OverGun.antt =====
-- A tunnel over gRPC, from io.Copy at the client to io.Copy at the server. Package grpc, which
-- delivers each hunk that is sent, is foreign code.
use gost_plugin.Common.{
  All, Bytes, List, Option, [], ap, concat, none, subst, suc, sym, ℕ, ◌++◌, ◌<◌, ◌≡◌,
}
use gost_plugin.Conn.{ReadResult, Readable, Sends, Writable, WriteResult}
use gost_plugin.Conn.Copy.{copy}
use gost_plugin.Conn.Copy.Laws.{Copies}
use gost_plugin.Protocol.Address.{Address}
use gost_plugin.Protocol.Base64.Laws.{IsByte}
use gost_plugin.Protocol.Gun.{new_gun_connection}
use gost_plugin.Protocol.Gun.Laws.{before_error-sends, first_error-sends, sends}
use gost_plugin.Protocol.Gun.Methods.{GunPipe, gun_conn}
use gost_plugin.Protocol.Gun.Pipe.{
  OnWorld, gun-Readable, gun-Writable, gun_calls, gun_ends, gun_given, gun_holds,
}
use gost_plugin.Tunnel.Relayed.{relayed_lem}

-- A new connection, and the one at the other end of it, which receives what was sent.
abbrev pub gun_near : {V : Type 0} → Option Address → V → GunPipe V
gun_near remote v = record { conn = new_gun_connection remote none; inbox = []; world = v }

abbrev pub gun_far :
    {V W : Type 0} → (V → List Bytes) → Option Address → Option Address → W → GunPipe V → GunPipe W
gun_far sent remote local w n = record {
  conn = new_gun_connection remote local;
  inbox = sends (sent n.world);
  world = w;
}

module _ {C F V W : Type 0} (read : ℕ → C → ReadResult C) (holds : C → Bytes)
    (ends : C → Option Bytes) (calls : C → ℕ) (write : Bytes → F → WriteResult F)
    (FarOpen : F → Type 0) (far_given : F → Bytes) (send : Bytes → V → V × Option Bytes)
    (answer : Bytes → W → W × Option Bytes) (Open : V → Type 0) (sent : V → List Bytes) (size : ℕ)
    (R : Readable read size holds ends calls) (T : Writable write FarOpen far_given)
    (L : Sends send Open sent) where
  -- Two handlers with a stream of gRPC between them: the client copies from a connection that holds
  -- bytes to its end of the stream, which can send and has sent nothing, and the server copies from
  -- its end to a connection that takes all. If the fuel of the first exceeds its calls of `Read`, all
  -- the bytes arrive, in order, and their number is counted; the second copy then waits for more.
  pub gun_relayed :
      (remote peer_remote peer_local : Option Address) (fuel : ℕ) (c : C) (v : V) (w : W) (f : F)
      → 0 < size
      → Open v
      → sent v ≡ []
      → FarOpen f
      → All IsByte (holds c)
      → calls c < fuel
      → let r = copy read (gun_conn send).write size fuel c (gun_near remote v) in
        let e = gun_far sent peer_remote peer_local w r.dst in
        Copies FarOpen far_given
          (holds c)
          none
          f
          (copy (gun_conn answer).read write size (suc (gun_calls e)) e f)
  unfolding new_gun_connection
  gun_relayed remote peer_remote peer_local fuel c v w f pos o empty fo bytes lt =
      let near = gun_near remote v in
      let r = copy read (gun_conn send).write size fuel c near in
      let e = gun_far sent peer_remote peer_local w r.dst in
      let none_given : gun_given send Open sent L near ≡ [] = ap concat empty in
      let h =
        relayed_lem read holds ends calls (gun_conn send).write (OnWorld Open)
          (gun_given send Open sent L) (gun_conn answer).read gun_holds gun_ends gun_calls write
          FarOpen far_given size R (gun-Writable send Open sent L) (gun-Readable answer size pos) T
          (gun_far sent peer_remote peer_local w) fuel c near f
          (λ x _. before_error-sends (sent x.world)) o fo
          (subst (λ x. All IsByte x) (sym none_given) tt) bytes lt in
      subst
        (λ x.
          Copies FarOpen far_given x none f
            (copy (gun_conn answer).read write size (suc (gun_calls e)) e f))
        (ap (λ x. x ++ holds c) none_given)
        (subst
          (λ x.
            Copies FarOpen far_given (gun_given send Open sent L near ++ holds c) x f
              (copy (gun_conn answer).read write size (suc (gun_calls e)) e f))
          (first_error-sends (sent r.dst.world)) h)
