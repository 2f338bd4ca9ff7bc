-- ===== src/Handler/Ends.antt =====
-- `newHandler` of handler.go. The creators are foreign to it: functions of the outside world.
use gost_plugin.Args.Addr.{Options}
use gost_plugin.Common.{
  Bool, Bool-cases, Bytes, Option, codes, false, if◌then◌else◌, inl, inr, none, some, subst, true,
  ◌≡◌,
}
use gost_plugin.Foreign.{Calls, Outcome, and_then, and_then-ok, failed, ok}
use gost_plugin.Registry.{Creators, get_creator}

module _ (W L T : Type 0) where
  -- What `newHandler` uses: the two registries, and the constructors of package proxy.
  pub record Makers : Type 0 where
    pub listeners : Creators (Calls W L)
    pub transporters : Creators (Calls W T)
    pub new_tcp_listener : Calls W L
    pub new_tcp_transporter : Calls W T

module _ {W : Type 0} where
  -- `x, err = registry.Get…(mode); if err != nil { return nil, err }`
  abbrev found : {A : Type 0} → Option A → Bytes → W → W × Outcome A
  found none err w = (w, failed err)
  found (some a) err w = (w, ok a)

  found-ok :
      {A : Type 0} (o : Option A) (err : Bytes) (w w1 : W) (a : A)
      → found o err w ≡ (w1, ok a)
      → (o ≡ some a) × (w ≡ w1)
  found-ok none err w w1 a h = absurd (cc)
  found-ok (some b) err w w1 a h = (cc, cc)

module _ {W L T : Type 0} (mk : Makers W L T) where
  abbrev pub no_listener : Bytes
  no_listener = codes "Listener not found"

  abbrev pub no_transporter : Bytes
  no_transporter = codes "Transporter not found"

  abbrev server_ends : Bytes → W → W × Outcome (L × T)
  server_ends mode w =
      and_then (found (get_creator mk.listeners mode) no_listener w) λ new_listener w.
        and_then (new_listener w) λ listener w.
          and_then (mk.new_tcp_transporter w) λ transporter w. (w, ok (listener, transporter))

  abbrev client_ends : Bytes → W → W × Outcome (L × T)
  client_ends mode w =
      and_then (found (get_creator mk.transporters mode) no_transporter w) λ new_transporter w.
        and_then (new_transporter w) λ transporter w.
          and_then (mk.new_tcp_listener w) λ listener w. (w, ok (listener, transporter))

  unfoldable pub new_handler : Options → W → W × Outcome (L × T)
  unfolding get_creator
  new_handler o w = if o.server then server_ends o.mode w else client_ends o.mode w

  -- How a handler comes to be: in server mode the listener of the mode first, then a TCP transporter;
  -- in client mode the transporter of the mode first, then a TCP listener.
  pub data Built (o : Options) (w w2 : W) : L → T → Type 0 where
    on_server :
        {create : Calls W L} {w1 : W} {l : L} {t : T}
        → o.server ≡ true
        → get_creator mk.listeners o.mode ≡ some create
        → create w ≡ (w1, ok l)
        → mk.new_tcp_transporter w1 ≡ (w2, ok t)
        → Built o w w2 l t
    on_client :
        {create : Calls W T} {w1 : W} {l : L} {t : T}
        → o.server ≡ false
        → get_creator mk.transporters o.mode ≡ some create
        → create w ≡ (w1, ok t)
        → mk.new_tcp_listener w1 ≡ (w2, ok l)
        → Built o w w2 l t

  on_server_lem :
      (o : Options) (w w2 : W) (l : L) (t : T)
      → o.server ≡ true
      → server_ends o.mode w ≡ (w2, ok (l, t))
      → Built o w w2 l t
  on_server_lem o w w2 l t e h =
      let (v, create, e1, h1) = and_then-ok _ _ w2 (l, t) h in
      let (m, ew) = found-ok (get_creator mk.listeners o.mode) no_listener w v create e1 in
      let (v1, l1, e2, h2) = and_then-ok (create v) _ w2 (l, t) h1 in
      let (v2, t1, e3, h3) = and_then-ok (mk.new_tcp_transporter v1) _ w2 (l, t) h2 in
      on_server {create = create} {w1 = v1} e m (cc) (cc)

  on_client_lem :
      (o : Options) (w w2 : W) (l : L) (t : T)
      → o.server ≡ false
      → client_ends o.mode w ≡ (w2, ok (l, t))
      → Built o w w2 l t
  on_client_lem o w w2 l t e h =
      let (v, create, e1, h1) = and_then-ok _ _ w2 (l, t) h in
      let (m, ew) = found-ok (get_creator mk.transporters o.mode) no_transporter w v create e1 in
      let (v1, t1, e2, h2) = and_then-ok (create v) _ w2 (l, t) h1 in
      let (v2, l1, e3, h3) = and_then-ok (mk.new_tcp_listener v1) _ w2 (l, t) h2 in
      on_client {create = create} {w1 = v1} e m (cc) (cc)

  abbrev Chosen : Options → W → W → L → T → Bool → Type 0
  Chosen o w w2 l t b = (if b then server_ends o.mode w else client_ends o.mode w) ≡ (w2, ok (l, t))

  -- A handler is made only from the two ends of its mode, in this order: a server has the listener
  -- registered for the mode, then a TCP transporter; a client the transporter registered for the
  -- mode, then a TCP listener. A mode that is not registered makes none.
  pub new_handler-Built :
      (o : Options) (w w2 : W) (l : L) (t : T)
      → new_handler o w ≡ (w2, ok (l, t))
      → Built o w w2 l t
  unfolding new_handler
  new_handler-Built o w w2 l t h = elim (Bool-cases o.server) [
    | inl e ↦ on_server_lem o w w2 l t e (subst (λ b. Chosen o w w2 l t b) e h)
    | inr e ↦ on_client_lem o w w2 l t e (subst (λ b. Chosen o w w2 l t b) e h)
  ]

-- `Close` of the handler is that of its listener.
abbrev pub handler_close :
    {W L T : Type 0} → (L → W → W × Option Bytes) → L × T → W → W × Option Bytes
handler_close close (l, t) w = close l w
