-- ===== src/Hook/FastOpen.antt =====
-- hook/fastopen_linux.go and hook/fastopen_windows.go: the controllers of TCP fast open, and what each
-- build registers.
use gost_plugin.Common.{
  Bool, Bytes, List, Option, [], ap, codes, false, if◌then◌else◌, none, refl, some, true, ℕ, ◌∙◌,
  ◌∷◌, ◌≡◌,
}
use gost_plugin.Registry.{Controller, apply_controllers}
use gost_plugin.Registry.Laws.{apply_controllers-register_all, changed, errors, register_all}

-- The arguments of `setsockopt` behind the socket.
pub record SockOpt : Type 0 where
  pub level : Bytes
  pub option : ℕ
  pub value : ℕ

-- The constants of Linux, for incoming and for outgoing connections, and that of Windows.
abbrev pub tcp_fastopen : ℕ
tcp_fastopen = 23

abbrev pub tcp_fastopen_connect : ℕ
tcp_fastopen_connect = 30

abbrev pub tcp_fastopen_windows : ℕ
tcp_fastopen_windows = 15

abbrev pub switched_on : Bytes → ℕ → SockOpt
switched_on level option = record { level = level; option = option; value = 1 }

-- `setsockopt` is the call on the socket; `fast_open` is the option of the process.
module _ {W : Type 0} (setsockopt : SockOpt → Controller W) (fast_open : Bool) where
  abbrev pub if_fast_open : SockOpt → Controller W
  if_fast_open s w = if fast_open then setsockopt s w else (w, none)

  unfoldable pub set_outbound_tfo : Controller W
  set_outbound_tfo = if_fast_open (switched_on (codes "SOL_TCP") tcp_fastopen_connect)

  unfoldable pub set_inbound_tfo : Controller W
  set_inbound_tfo = if_fast_open (switched_on (codes "SOL_TCP") tcp_fastopen)

  unfoldable pub set_tfo : Controller W
  set_tfo = if_fast_open (switched_on (codes "IPPROTO_TCP") tcp_fastopen_windows)

  -- The controllers that the `init` functions of the builds register, for sockets that dial and for
  -- those that listen.
  abbrev pub linux_controllers : List (Option (Controller W)) × List (Option (Controller W))
  linux_controllers = (some set_outbound_tfo ∷ [], some set_inbound_tfo ∷ [])

  abbrev pub windows_controllers : List (Option (Controller W)) × List (Option (Controller W))
  windows_controllers = (some set_tfo ∷ [], some set_tfo ∷ [])

  -- A socket behind the controllers that were registered.
  abbrev pub controlled : List (Option (Controller W)) → W → W × List Bytes
  controlled cs w = apply_controllers (register_all [] cs) w

  -- One call of `setsockopt` if the option of the process is on, whose error is only logged, and nothing
  -- otherwise.
  abbrev pub Switches : List (Option (Controller W)) → SockOpt → Type 0
  Switches cs s =
      (w : W)
      → (fast_open ≡ true → controlled cs w ≡ ((setsockopt s w).0, errors (setsockopt s ∷ []) w))
        × (fast_open ≡ false → controlled cs w ≡ (w, []))

  one-Switches : (c : Controller W) (s : SockOpt) → c ≡ if_fast_open s → Switches (some c ∷ []) s
  one-Switches c s e w = (
    (λ on.
        apply_controllers-register_all (some c ∷ []) w
        ∙ ap (λ f. (changed (f ∷ []) w, errors (f ∷ []) w))
            (e ∙ ap (λ b w. if b then setsockopt s w else (w, none)) on)),
    (λ off.
        apply_controllers-register_all (some c ∷ []) w
        ∙ ap (λ f. (changed (f ∷ []) w, errors (f ∷ []) w))
            (e ∙ ap (λ b w. if b then setsockopt s w else (w, none)) off)),
  )

  -- On each build a socket gets its own option: that for outgoing connections when Linux dials, that
  -- for incoming ones when it listens, and the one of Windows for both.
  pub controllers-Switches :
      Switches linux_controllers.0 (switched_on (codes "SOL_TCP") tcp_fastopen_connect)
      × Switches linux_controllers.1 (switched_on (codes "SOL_TCP") tcp_fastopen)
      × Switches windows_controllers.0 (switched_on (codes "IPPROTO_TCP") tcp_fastopen_windows)
      × Switches windows_controllers.1 (switched_on (codes "IPPROTO_TCP") tcp_fastopen_windows)
  unfolding set_outbound_tfo set_inbound_tfo set_tfo
  controllers-Switches =
      (one-Switches _ _ refl, one-Switches _ _ refl, one-Switches _ _ refl, one-Switches _ _ refl)
