-- ===== src/Hook/Laws.antt =====
-- The hook closes what it opens, and succeeds exactly on the reply of the VPN.
use gost_plugin.Common.{
  Bytes, Option, [], ap, arith, if◌then◌else◌, none, refl, some, sym, true, ℕ, ◌++◌, ◌==◌, ◌↔◌, ◌∙◌,
  ◌∷◌, ◌≡◌,
}
use gost_plugin.Foreign.{Outcome, failed, ok}
use gost_plugin.Hook.{
  VpnCalls, VpnState, connected, control_on_conn_setup, not_protected, opened_socket, replied,
}

module _ {S : Type 0} (sys : VpnCalls S) (fd : ℕ) where
  -- A socket to the VPN that took the descriptor and answered with its one byte.
  abbrev pub Protects : Type 0
  Protects = (s : S) × (sys.socket ≡ ok s) × (sys.connect s ≡ none) × (sys.read s ≡ ok 1)

  -- How the calls on an open socket end: no socket is opened or closed, and the descriptor is sent
  -- once if the socket is connected.
  abbrev Ends : S → VpnState S → VpnState S × Option Bytes → Type 0
  Ends s w r =
      (r.0.opened ≡ w.opened)
      × (r.0.closed ≡ w.closed)
      × (sys.connect s ≡ none → r.0.sent ≡ w.sent ++ (s, fd) ∷ [])
      × ((r.1 ≡ none) ↔ ((sys.connect s ≡ none) × (sys.read s ≡ ok 1)))

  one_byte :
      (n : ℕ) (err : Bytes)
      → (◌≡◌ {A = Option Bytes} (if n == 1 then none else some err) none) ↔ (n ≡ 1)
  one_byte n err = ground arith

  replied-Ends :
      (s : S) (r : Outcome ℕ) (w : VpnState S)
      → sys.connect s ≡ none
      → sys.read s ≡ r
      → Ends s w (replied sys fd r (record w { sent = w.sent ++ (s, fd) ∷ [] }))
  replied-Ends s (failed err) w c e =
      (refl, refl, (λ h. refl), (λ h. absurd (cc), λ (a, b). absurd (cc)))
  replied-Ends s (ok n) w c e =
      let one = one_byte n (not_protected sys fd) in
      (refl, refl, (λ h. refl), (λ h. (c, e ∙ ap ok (one.0 h)), λ (a, b). one.1 (cc)))

  connected-Ends :
      (s : S) (r : Option Bytes) (w : VpnState S)
      → sys.connect s ≡ r
      → Ends s w (connected sys fd s r w)
  connected-Ends s none w c = replied-Ends s (sys.read s) w c refl
  connected-Ends s (some err) w c =
      (refl, refl, (λ h. absurd (cc)), (λ h. absurd (cc), λ (a, b). absurd (cc)))

  -- What the hook does with the option on.
  abbrev pub Guards : VpnState S → VpnState S × Option Bytes → Type 0
  Guards w r =
      (r.0.opened ≡ r.0.closed)
      × ((s : S) → sys.socket ≡ ok s → sys.connect s ≡ none → r.0.sent ≡ w.sent ++ (s, fd) ∷ [])
      × ((r.1 ≡ none) ↔ Protects)

  opened_socket-Guards :
      (o : Outcome S) (w : VpnState S)
      → sys.socket ≡ o
      → w.opened ≡ w.closed
      → Guards w (opened_socket sys fd o w)
  opened_socket-Guards (failed err) w e same =
      (same, (λ s f. absurd (cc)), (λ h. absurd (cc), λ (s, f, c, b). absurd (cc)))
  opened_socket-Guards (ok s) w e same =
      let w1 = record w { opened = w.opened ++ s ∷ [] } in
      let (opens, closes, sends, returns) = connected-Ends s (sys.connect s) w1 refl in
      (
        opens ∙ ap (λ xs. xs ++ s ∷ []) same ∙ ap (λ xs. xs ++ s ∷ []) (sym closes),
        (λ t f c.
            let one : s ≡ t = cc in
            sends (ap sys.connect one ∙ c) ∙ ap (λ x. w.sent ++ (x, fd) ∷ []) one),
        (
          λ h. let (c, b) = returns.0 h in (s, e, c, b),
          λ (t, f, c, b).
              let one : s ≡ t = cc in returns.1 (ap sys.connect one ∙ c, ap sys.read one ∙ b),
        ),
      )

  -- With the option on, and as many sockets closed as opened before: every socket to the VPN is closed
  -- again, on every path; the descriptor is sent once if the socket is connected; and the hook returns
  -- no error exactly if the VPN answers with one byte.
  pub control_on_conn_setup-Guards :
      (w : VpnState S) → w.opened ≡ w.closed → Guards w (control_on_conn_setup sys fd true w)
  unfolding control_on_conn_setup
  control_on_conn_setup-Guards w same = opened_socket-Guards sys.socket w refl same
