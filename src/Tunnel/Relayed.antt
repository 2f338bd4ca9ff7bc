-- ===== src/Tunnel/Relayed.antt =====
-- A tunnel between two handlers: each copies from one connection to the other by `io.Copy`, as
-- handler.go does, and what the client's end of the tunnel takes is what the server's end holds.
use gost_plugin.Common.{
  All, All-append, Bytes, Option, arith, subst, suc, sym, ℕ, ◌++◌, ◌<◌, ◌∙◌, ◌≡◌,
}
use gost_plugin.Conn.{ReadResult, Readable, Writable, WriteResult}
use gost_plugin.Conn.Copy.{copy}
use gost_plugin.Conn.Copy.Laws.{Copies, copy_lem}
use gost_plugin.Protocol.Base64.Laws.{IsByte}

-- From a connection `C` that is read at one end to a connection `F` that is written at the other,
-- through a tunnel whose ends are `D` and `E`; `far` is what the server's end is for a client's end.
module _ {C D E F : Type 0} (read : ℕ → C → ReadResult C) (holds : C → Bytes)
    (ends : C → Option Bytes) (calls : C → ℕ) (near : Bytes → D → WriteResult D) (Open : D → Type 0)
    (given : D → Bytes) (far_read : ℕ → E → ReadResult E) (far_holds : E → Bytes)
    (far_ends : E → Option Bytes) (far_calls : E → ℕ) (write : Bytes → F → WriteResult F)
    (FarOpen : F → Type 0) (far_given : F → Bytes) (size : ℕ)
    (R : Readable read size holds ends calls) (N : Writable near Open given)
    (S : Readable far_read size far_holds far_ends far_calls)
    (W : Writable write FarOpen far_given) where
  -- Both copies, one after the other: the server's end holds what the client's copy gave to its own.
  pub relayed_lem :
      (far : D → E) (fuel : ℕ) (c : C) (d : D) (f : F)
      → ((x : D) → Open x → far_holds (far x) ≡ given x)
      → Open d
      → FarOpen f
      → All IsByte (given d)
      → All IsByte (holds c)
      → calls c < fuel
      → let r = copy read near size fuel c d in
        Copies FarOpen far_given
          (given d ++ holds c)
          (far_ends (far r.dst))
          f
          (copy far_read write size (suc (far_calls (far r.dst))) (far r.dst) f)
  relayed_lem far fuel c d f link o fo db cb lt =
      let r = copy read near size fuel c d in
      let (n, g, e, o') =
        copy_lem read near Open given N size holds ends calls R fuel c d o cb lt in
      let same : far_holds (far r.dst) ≡ given d ++ holds c = link r.dst o' ∙ g in
      subst
        (λ x.
          Copies FarOpen far_given x (far_ends (far r.dst)) f
            (copy far_read write size (suc (far_calls (far r.dst))) (far r.dst) f))
        same
        (copy_lem far_read write FarOpen far_given W size far_holds far_ends far_calls S
          (suc (far_calls (far r.dst))) (far r.dst) f fo
          (subst (λ x. All IsByte x) (sym same) (All-append IsByte (given d) (holds c) db cb))
          (omega arith))
