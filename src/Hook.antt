-- ===== src/Hook.antt =====
-- `ControlOnConnSetup` of hook/vpn_android.go: the socket is passed to the VPN, over another socket,
-- before it is used.
pub mod Laws
pub mod FastOpen
use gost_plugin.Args.Number.{format_uint}
use gost_plugin.Common.{
  Bool, Bytes, List, Option, [], codes, if◌then◌else◌, none, some, ℕ, ◌++◌, ◌==◌, ◌∷◌,
}
use gost_plugin.Foreign.{Outcome, failed, ok}

-- The system calls, on the sockets of the path "protect_path".
pub record VpnCalls (S : Type 0) : Type 0 where
  pub socket : Outcome S
  pub connect : S → Option Bytes
  pub read : S → Outcome ℕ

-- `sent` is what `ancil_send_fd` was called with, whose result is dropped; all lists oldest first.
pub record VpnState (S : Type 0) : Type 0 where
  pub opened : List S
  pub closed : List S
  pub sent : List (S × ℕ)
  pub log : List Bytes

module _ {S : Type 0} (sys : VpnCalls S) (fd : ℕ) where
  -- `log.Errorln(err); return err`
  abbrev pub logs : Bytes → VpnState S → VpnState S × Option Bytes
  logs err w = (record w { log = w.log ++ err ∷ [] }, some err)

  abbrev pub not_protected : Bytes
  not_protected = codes "Failed to protect fd: " ++ format_uint fd

  abbrev pub replied : Outcome ℕ → VpnState S → VpnState S × Option Bytes
  replied (failed err) w = logs err w
  replied (ok n) w = (w, if n == 1 then none else some not_protected)

  abbrev pub connected : S → Option Bytes → VpnState S → VpnState S × Option Bytes
  connected s (some err) w = logs err w
  connected s none w = replied (sys.read s) (record w { sent = w.sent ++ (s, fd) ∷ [] })

  -- `defer syscall.Close(socket)`
  abbrev pub closing : S → VpnState S × Option Bytes → VpnState S × Option Bytes
  closing s r = (record r.0 { closed = r.0.closed ++ s ∷ [] }, r.1)

  abbrev pub opened_socket : Outcome S → VpnState S → VpnState S × Option Bytes
  opened_socket (failed err) w = logs err w
  opened_socket (ok s) w =
      closing s (connected s (sys.connect s) (record w { opened = w.opened ++ s ∷ [] }))

  unfoldable pub control_on_conn_setup : Bool → VpnState S → VpnState S × Option Bytes
  unfolding format_uint
  control_on_conn_setup vpn w = if vpn then opened_socket sys.socket w else (w, none)
