-- ===== src/Proxy/Accept/Sessions.antt =====
-- The connections for which `KeepMuxAccepting` starts `ServeMux`.
use gost_plugin.Common.{
  List, [], append-nil, append_assoc, arith, if◌then◌else◌, sym, ◌++◌, ◌∙◌, ◌∷◌, ◌≡◌,
}
use gost_plugin.Proxy.Accept.{Accepted, MuxLoop, conn, failed, keep_mux_accepting, stops}

module _ {ℓ} {C : Type ℓ} where
  -- The connections before the error that ends the loop.
  abbrev pub conns_before : List (Accepted C) → List C
  conns_before [] = []
  conns_before (conn c ∷ es) = c ∷ conns_before es
  conns_before (failed err done ∷ es) = if stops err done then [] else conns_before es

  -- They are those before the error that ends it, in order.
  pub keep_mux_accepting-served :
      (l : MuxLoop C) (es : List (Accepted C))
      → (keep_mux_accepting l es).served ≡ l.served ++ conns_before es
  unfolding keep_mux_accepting
  keep_mux_accepting-served l [] = sym (append-nil l.served)
  keep_mux_accepting-served l (conn c ∷ es) =
      keep_mux_accepting-served (record l { served = l.served ++ c ∷ [] }) es
      ∙ append_assoc l.served (c ∷ []) (conns_before es)
  keep_mux_accepting-served l (failed err done ∷ es) =
      ground (arith, keep_mux_accepting-served l es, append-nil l.served)
