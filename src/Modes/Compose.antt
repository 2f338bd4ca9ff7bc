-- ===== src/Modes/Compose.antt =====
-- A client and a server that were started with the same mode.
pub mod Each
use gost_plugin.Args.Addr.{Options, get_remote_addr}
use gost_plugin.Client.Transporters.{Transporter}
use gost_plugin.Common.{
  Bool, Bytes, List, Option, [], ap, equal, false, if◌then◌else◌, some, some-eq, subst, sym, true,
  ◌∷◌, ◌≡◌,
}
use gost_plugin.Foreign.{Calls, ok}
use gost_plugin.Modes.{given}
use gost_plugin.Modes.Agree.{End, Speaks, end_of}
use gost_plugin.Modes.Ends.{Makes}
use gost_plugin.Proxy.Sockets.{Host}
use gost_plugin.Registry.{get_creator}
use gost_plugin.Server.Listeners.{Listener}
use gost_plugin.Web.{Web, is_plain}
use gost_plugin.Client.Transporters as Client

-- Options of the two ends that name the same path and the same service; the path is plain, and the
-- address that the client dials can stand in a URL.
pub record Match (web : Web) (o p : Options) : Type 0 where
  pub path : o.path ≡ p.path
  pub service_name : o.service_name ≡ p.service_name
  pub plain : is_plain p.path ≡ true
  pub addressed : web.is_authority (get_remote_addr p) ≡ true

module _ {L K M : Type 0} (web : Web) (host : Host L K) (parses_ip : Bytes → Bool)
    (grpc_dial : Bytes → Option Bytes) where
  -- Whatever the two creators make speaks the same, for the same names.
  abbrev pub Agrees :
      (Options → Calls (List L) (Listener L K)) → (Options → Calls (List M) Transporter) → Type 0
  Agrees listen dial =
      (o p : Options) (w w' : List L) (v v' : List M) (l : Listener L K) (t : Transporter)
      → Match web o p
      → listen o w ≡ (w', ok l)
      → dial p v ≡ (v', ok t)
      → Speaks web parses_ip (end_of l) t

  -- The end of a listener is put in from what its constructor makes.
  pub agrees :
      (listen : Options → Calls (List L) (Listener L K))
      (dial : Options → Calls (List M) Transporter) (e : Options → End)
      (made : Options → Transporter)
      → ((o : Options) → Makes (listen o) (e o))
      → ((p : Options) (v v' : List M) (t : Transporter) → dial p v ≡ (v', ok t) → t ≡ made p)
      → ((o p : Options) → Match web o p → Speaks web parses_ip (e o) (made p))
      → Agrees listen dial
  agrees listen dial e made hl ht speaks o p w w' v v' l t same el et =
      subst (λ x. Speaks web parses_ip x t) (sym (hl o w w' l el))
        (subst (λ x. Speaks web parses_ip (e o) x) (sym (ht p v v' t et)) (speaks o p same))

  -- Rows of the two registries that pair up.
  abbrev pub Rows :
      List (Bytes × (Options → Calls (List L) (Listener L K)))
      → List (Bytes × (Options → Calls (List M) Transporter))
      → Type 0
  Rows [] [] = Unit {0}
  Rows [] (r ∷ rs) = ⊥
  Rows (r ∷ rs) [] = ⊥
  Rows ((n, a) ∷ rs) ((m, b) ∷ ss) = (n ≡ m) × Agrees a b × Rows rs ss

  abbrev pub Chosen :
      (Options → Options → Calls (List L) (Listener L K) → Calls (List M) Transporter → Type 0)
  Chosen o p create dial =
      (a : Options → Calls (List L) (Listener L K)) × (b : Options → Calls (List M) Transporter)
      × Agrees a b
      × (a o ≡ create)
      × (b p ≡ dial)

  pub Rows-Chosen :
      (rs : List (Bytes × (Options → Calls (List L) (Listener L K))))
      (ss : List (Bytes × (Options → Calls (List M) Transporter))) (o p : Options) (mode : Bytes)
      (create : Calls (List L) (Listener L K)) (dial : Calls (List M) Transporter)
      → Rows rs ss
      → get_creator (given o rs) mode ≡ some create
      → get_creator (given p ss) mode ≡ some dial
      → Chosen o p create dial
  unfolding get_creator
  Rows-Chosen [] ss o p mode create dial rows h k = absurd (cc)
  Rows-Chosen (r ∷ rs) [] o p mode create dial rows h k = absurd rows
  Rows-Chosen ((n, a) ∷ rs) ((m, b) ∷ ss) o p mode create dial (same, agree, rows) h k =
      go (equal n mode) (equal m mode) (ap (λ x. equal x mode) same) h k
        (Rows-Chosen rs ss o p mode create dial rows)
    where
      go :
          (x y : Bool)
          → x ≡ y
          → (if x then some (a o) else get_creator (given o rs) mode) ≡ some create
          → (if y then some (b p) else get_creator (given p ss) mode) ≡ some dial
          → (get_creator (given o rs) mode ≡ some create
              → get_creator (given p ss) mode ≡ some dial
              → Chosen o p create dial)
          → Chosen o p create dial
      go true true e h k later = (a, b, agree, some-eq h, some-eq k)
      go false false e h k later = later h k
      go true false e h k later = absurd (cc)
      go false true e h k later = absurd (cc)
