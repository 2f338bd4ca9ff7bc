-- ===== src/Mux/Keys.antt =====
-- The map of the pool has one entry for a key, which is its session's id.
use gost_plugin.Common.{Option, [], arith, none, refl, some, ℕ, ◌∷◌, ◌≡◌, ◌≢◌}
use gost_plugin.Foreign.{Outcome, failed, ok}
use gost_plugin.Mux.Pool.{
  Pool, Session, Sessions, assign, choose, delete, dial_chosen, dial_mux, open_new_stream, opened,
  touch, with_client, with_conn,
}
use gost_plugin.Mux.Smux.{Smux}

module _ {C N : Type 0} where
  -- No entry has this key.
  abbrev pub Lacks : ℕ → Sessions C N → Type 0
  Lacks id [] = Unit {0}
  Lacks id ((k, s) ∷ m) = (k ≢ id) × Lacks id m

  abbrev pub Keyed : Sessions C N → Type 0
  Keyed [] = Unit {0}
  Keyed ((k, s) ∷ m) = (s.id ≡ k) × Lacks k m × Keyed m

  Lacks-delete : (m : Sessions C N) (k id : ℕ) → Lacks k m → Lacks k (delete m id)
  unfolding delete
  Lacks-delete [] k id h = tt
  Lacks-delete ((j, s) ∷ m) k id (n, h) = ground (arith, Lacks-delete m k id h)

  pub delete-Lacks : (m : Sessions C N) (id : ℕ) → Lacks id (delete m id)
  unfolding delete
  delete-Lacks [] id = tt
  delete-Lacks ((j, s) ∷ m) id = ground (arith, delete-Lacks m id)

  pub delete-Keyed : (m : Sessions C N) (id : ℕ) → Keyed m → Keyed (delete m id)
  unfolding delete
  delete-Keyed [] id v = tt
  delete-Keyed ((j, s) ∷ m) id (e, h, v) =
      ground (arith, delete-Keyed m id v, Lacks-delete m j id h)

  assign-Keyed : (m : Sessions C N) (s : Session C N) → Keyed m → Keyed (assign m s.id s)
  unfolding assign
  assign-Keyed m s v = (refl, delete-Lacks m s.id, delete-Keyed m s.id v)

  touch-Lacks : (m : Sessions C N) (k id now : ℕ) → Lacks k m → Lacks k (touch m id now)
  unfolding touch
  touch-Lacks [] k id now h = tt
  touch-Lacks ((j, s) ∷ m) k id now (n, h) = (n, touch-Lacks m k id now h)

  touch-Keyed : (m : Sessions C N) (id now : ℕ) → Keyed m → Keyed (touch m id now)
  unfolding touch
  touch-Keyed [] id now v = tt
  touch-Keyed ((j, s) ∷ m) id now (e, h, v) =
      (ground arith, touch-Lacks m j id now h, touch-Keyed m id now v)

module _ {W C N T : Type 0} (S : Smux W C N T) where
  choose-Keyed :
      (w : W) (c : ℕ) (entries m : Sessions C N) → Keyed m → Keyed (choose S w c entries m).0
  unfolding choose
  choose-Keyed w c [] m v = v
  choose-Keyed w c ((k, s) ∷ entries) m v = ground (
    arith,
    choose-Keyed w c entries m v,
    choose-Keyed w c entries (delete m s.id),
    delete-Keyed m s.id v,
  )

  opened-Keyed :
      (m : Sessions C N) (s : Session C N) (now : ℕ) (r : W × Outcome T)
      → Keyed m
      → Keyed (opened S m s now r).0.sessions
  opened-Keyed m s now (w, ok t) v = touch-Keyed m s.id now v
  opened-Keyed m s now (w, failed err) v = delete-Keyed _ s.id (touch-Keyed m s.id now v)

  dial_chosen-Keyed :
      (w : W) (id now : ℕ) (new_conn : W → W × Outcome N) (r : Sessions C N × Option (Session C N))
      → Keyed r.0
      → Keyed (dial_chosen S w id now new_conn r).0.sessions
  unfolding open_new_stream
  dial_chosen-Keyed w id now new_conn (m, some s) v = opened-Keyed m s now _ v
  dial_chosen-Keyed w id now new_conn (m, none) v = on_conn (new_conn w)
    where
      on_client : (n : N) (r : W × Outcome C) → Keyed (with_client S m id now n r).0.sessions
      on_client n (w, ok c) =
          let s : Session C N = record {
            id = id;
            client = c;
            underlay_conn = n;
            last_active_time = 0;
          } in
          opened-Keyed (assign m id s) s now (S.open_new_stream w c) (assign-Keyed m s v)
      on_client n (w, failed err) = v

      on_conn : (r : W × Outcome N) → Keyed (with_conn S m id now r).0.sessions
      on_conn (w, ok n) = on_client n (S.new_client w n)
      on_conn (w, failed err) = v

  -- `DialMux` keeps the map keyed by the ids of its sessions, with one entry for an id, whatever id
  -- the random numbers give and whatever fails.
  pub dial_mux-Keyed :
      (c : ℕ) (p : Pool W C N) (id now : ℕ) (new_conn : W → W × Outcome N)
      → Keyed p.sessions
      → Keyed (dial_mux S c p id now new_conn).0.sessions
  unfolding dial_mux
  dial_mux-Keyed c p id now new_conn v =
      dial_chosen-Keyed p.world id now new_conn (choose S p.world c p.sessions p.sessions)
        (choose-Keyed p.world c p.sessions p.sessions v)
