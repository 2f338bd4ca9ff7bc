-- ===== src/Mux/Within.antt =====
-- The limit on streams: no session of the pool gets more than the concurrency.
use gost_plugin.Common.{
  List, Option, [], arith, none, refl, some, subst, sym, ℕ, ◌<◌, ◌∷◌, ◌≡◌, ◌≤◌,
}
use gost_plugin.Foreign.{Outcome, failed, ok}
use gost_plugin.Mux.Limit.{choose_lem, chosen_usable, closed_before, delete_all}
use gost_plugin.Mux.Pool.{
  Pool, Session, Sessions, assign, delete, dial_chosen, dial_mux, open_new_stream, opened, touch,
  with_client, with_conn,
}
use gost_plugin.Mux.Smux.{Lawful, Smux}

module _ {W C N T : Type 0} (S : Smux W C N T) (concurrency : ℕ) where
  -- Every session has at most so many streams.
  abbrev pub Within : W → Sessions C N → Type 0
  Within w [] = Unit {0}
  Within w ((k, s) ∷ m) = (S.num_streams w s.client ≤ concurrency) × Within w m

  -- No client goes over the limit between two states of the world.
  abbrev Under : W → W → Type 0
  Under w w' = (d : C) → S.num_streams w d ≤ concurrency → S.num_streams w' d ≤ concurrency

  pub Within-Under : (w w' : W) (m : Sessions C N) → Under w w' → Within w m → Within w' m
  Within-Under w w' [] u v = tt
  Within-Under w w' ((k, s) ∷ m) u (h, v) = (u s.client h, Within-Under w w' m u v)

  pub delete-Within : (w : W) (m : Sessions C N) (id : ℕ) → Within w m → Within w (delete m id)
  unfolding delete
  delete-Within w [] id v = tt
  delete-Within w ((k, s) ∷ m) id (h, v) = ground (arith, delete-Within w m id v)

  touch-Within : (w : W) (m : Sessions C N) (id now : ℕ) → Within w m → Within w (touch m id now)
  unfolding touch
  touch-Within w [] id now v = tt
  touch-Within w ((k, s) ∷ m) id now (h, v) = (ground arith, touch-Within w m id now v)

  delete_all-Within :
      (w : W) (m : Sessions C N) (ids : List ℕ)
      → Within w m
      → Within w (delete_all S w concurrency m ids)
  delete_all-Within w m [] v = v
  delete_all-Within w m (id ∷ ids) v =
      delete_all-Within w (delete m id) ids (delete-Within w m id v)

module _ {W C N T : Type 0} (S : Smux W C N T) (law : Lawful S) (discrete : Discrete C)
    (concurrency : ℕ) where
  close-Under :
      (w : W) (n : N) (c : C) → Under S concurrency w (S.close_client (S.close_conn w n) c)
  close-Under w n c d h = elim (discrete c d) [
    | yes e ↦
        subst (λ x. S.num_streams (S.close_client (S.close_conn w n) c) x ≤ concurrency) e
          (omega (
            arith,
            law.close_client-le (S.close_conn w n) c,
            law.close_conn-num_streams w n c,
            subst (λ x. S.num_streams w x ≤ concurrency) (sym e) h,
          ))
    | no ne ↦ omega (
      arith,
      law.close_client-num_streams (S.close_conn w n) c d ne,
      law.close_conn-num_streams w n d,
    )
  ]

  new_client-Under :
      (w w' : W) (n : N) (o : Outcome C) → S.new_client w n ≡ (w', o) → Under S concurrency w w'
  new_client-Under w w' n o e d h =
      subst (λ r. S.num_streams r.0 d ≤ concurrency) e (omega (arith, law.new_client-le w n d))

  open-Under :
      (w : W) (c : C)
      → S.num_streams w c < concurrency
      → Under S concurrency w (S.open_new_stream w c).0
  open-Under w c room d h = elim (discrete c d) [
    | yes e ↦
        subst (λ x. S.num_streams (S.open_new_stream w c).0 x ≤ concurrency) e
          (omega (arith, law.open_new_stream-le w c))
    | no ne ↦ omega (arith, law.open_new_stream-others w c d ne)
  ]

  opened-Within :
      (m : Sessions C N) (s : Session C N) (now : ℕ) (r : W × Outcome T)
      → Within S concurrency r.0 m
      → let p = (opened S m s now r).0 in Within S concurrency p.world p.sessions
  opened-Within m s now (w, ok t) v = touch-Within S concurrency w m s.id now v
  opened-Within m s now (w, failed err) v =
      Within-Under S concurrency w _ _ (close-Under w s.underlay_conn s.client)
        (delete-Within S concurrency w _ s.id (touch-Within S concurrency w m s.id now v))

  open_new_stream-Within :
      (m : Sessions C N) (w : W) (s : Session C N) (now : ℕ)
      → S.num_streams w s.client < concurrency
      → Within S concurrency w m
      → let p = (open_new_stream S m w s now).0 in Within S concurrency p.world p.sessions
  unfolding open_new_stream
  open_new_stream-Within m w s now room v =
      opened-Within m s now (S.open_new_stream w s.client)
        (Within-Under S concurrency w _ m (open-Under w s.client room) v)

  with_client-Within :
      (m : Sessions C N) (w : W) (id now : ℕ) (n : N) (r : W × Outcome C)
      → 0 < concurrency
      → S.new_client w n ≡ r
      → Within S concurrency w m
      → let p = (with_client S m id now n r).0 in Within S concurrency p.world p.sessions
  unfolding assign
  with_client-Within m w id now n (w', failed err) pos e v =
      Within-Under S concurrency w w' m (new_client-Under w w' n _ e) v
  with_client-Within m w id now n (w', ok c) pos e v =
      open_new_stream-Within ((id, s) ∷ delete m id) w' s now
        (omega (arith, law.new_client-zero w w' n c e))
        (
          omega (arith, law.new_client-zero w w' n c e),
          delete-Within S concurrency w' m id
              (Within-Under S concurrency w w' m (new_client-Under w w' n _ e) v),
        )
    where
      s : Session C N
      s = record { id = id; client = c; underlay_conn = n; last_active_time = 0 }

  with_conn-Within :
      (m : Sessions C N) (w : W) (id now : ℕ) (r : W × Outcome N)
      → 0 < concurrency
      → Within S concurrency r.0 m
      → let p = (with_conn S m id now r).0 in Within S concurrency p.world p.sessions
  with_conn-Within m w id now (w', failed err) pos v = v
  with_conn-Within m w id now (w', ok n) pos v =
      with_client-Within m w' id now n (S.new_client w' n) pos refl v

  dial_chosen-Within :
      (w : W) (id now : ℕ) (new_conn : W → W × Outcome N) (m : Sessions C N)
      (o : Option (Session C N))
      → 0 < concurrency
      → ((w : W) → Under S concurrency w (new_conn w).0)
      → ((s : Session C N) → o ≡ some s → S.num_streams w s.client < concurrency)
      → Within S concurrency w m
      → let p = (dial_chosen S w id now new_conn (m, o)).0 in
        Within S concurrency p.world p.sessions
  dial_chosen-Within w id now new_conn m (some s) pos under room v =
      open_new_stream-Within m w s now (room s refl) v
  dial_chosen-Within w id now new_conn m none pos under room v =
      with_conn-Within m w id now (new_conn w) pos (Within-Under S concurrency w _ m (under w) v)

  -- With a limit above 0, `DialMux` takes no session of the pool above the limit, whichever session
  -- it chooses and whatever fails, if opening a connection does not push a session above it.
  pub dial_mux-Within :
      (p : Pool W C N) (id now : ℕ) (new_conn : W → W × Outcome N)
      → 0 < concurrency
      → ((w : W) (d : C)
          → S.num_streams w d ≤ concurrency
          → S.num_streams (new_conn w).0 d ≤ concurrency)
      → Within S concurrency p.world p.sessions
      → let q = (dial_mux S concurrency p id now new_conn).0 in
        Within S concurrency q.world q.sessions
  unfolding dial_mux
  dial_mux-Within p id now new_conn pos under v =
      subst
        (λ r.
          let q = (dial_chosen S p.world id now new_conn r).0 in
          Within S concurrency q.world q.sessions)
        (sym (choose_lem S p.world concurrency p.sessions p.sessions))
        (dial_chosen-Within p.world id now new_conn _ _ pos under
          (λ s e. (chosen_usable S p.world concurrency p.sessions s pos e).1)
          (delete_all-Within S concurrency p.world p.sessions
            (closed_before S p.world concurrency p.sessions) v))
