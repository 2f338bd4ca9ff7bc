-- ===== src/Mux/System/Laws.antt =====
-- The invariants of the pool over its life.
use gost_plugin.Args.Addr.{Options}
use gost_plugin.Common.{
  All, Bool, List, [], arith, false, if◌then◌else◌, refl, subst, suc, sym, true, zero, ℕ, ◌<◌, ◌∷◌,
  ◌≡◌, ◌≤◌,
}
use gost_plugin.Mux.Keys.{Keyed, Lacks, delete-Keyed, dial_mux-Keyed}
use gost_plugin.Mux.Pool.{
  Pool, Session, Sessions, clean, close_session, delete, dial_mux, is_stale, shut_down,
}
use gost_plugin.Mux.Smux.{Lawful, Smux}
use gost_plugin.Mux.System.{
  Event, MuxPool, cancelled, cancelled_pool, cleaned, dials, happens, lives, new_mux_pool, passes,
  swap_at, swaps, ticks,
}
use gost_plugin.Mux.Within.{Within, Within-Under, delete-Within, dial_mux-Within}

module _ {C N : Type 0} where
  swap_at-Lacks : (k n : ℕ) (m : Sessions C N) → Lacks k m → Lacks k (swap_at n m)
  swap_at-Lacks k n [] h = tt
  swap_at-Lacks k zero (x ∷ []) h = h
  swap_at-Lacks k zero ((i, s) ∷ (j, t) ∷ m) (a, (b, h)) = (b, (a, h))
  swap_at-Lacks k (suc n) ((i, s) ∷ m) (a, h) = (a, swap_at-Lacks k n m h)

  swap_at-Keyed : (n : ℕ) (m : Sessions C N) → Keyed m → Keyed (swap_at n m)
  swap_at-Keyed n [] h = tt
  swap_at-Keyed zero (x ∷ []) h = h
  swap_at-Keyed zero ((i, s) ∷ (j, t) ∷ m) (a, (ne, lacks), (b, lacks2, h)) =
      (b, ((λ e. ne (sym e)), lacks2), (a, lacks, h))
  swap_at-Keyed (suc n) ((i, s) ∷ m) (a, lacks, h) =
      (a, swap_at-Lacks i n m lacks, swap_at-Keyed n m h)

module _ {W C N T : Type 0} (S : Smux W C N T) (P : Pool W C N → Type 0) where
  -- Closing one session, and taking its key out of the map, keeps the property.
  abbrev Survives : Type 0
  Survives =
      (p : Pool W C N) (k : ℕ) (s : Session C N)
      → P p
      → P (record { sessions = delete p.sessions k; world = close_session S p.world s })

  clean-keeps :
      (timeout now : ℕ) (entries : Sessions C N) (p : Pool W C N)
      → Survives
      → P p
      → P (clean S timeout now entries p)
  unfolding clean
  clean-keeps timeout now [] p closes h = h
  clean-keeps timeout now ((k, s) ∷ entries) p closes h =
      clean-keeps timeout now entries _ closes (either (is_stale S p.world timeout now s))
    where
      either :
          (b : Bool)
          → P (
              if b
              then record { sessions = delete p.sessions k; world = close_session S p.world s }
              else p)
      either true = closes p k s h
      either false = h

  shut_down-keeps :
      (entries : Sessions C N) (p : Pool W C N) → Survives → P p → P (shut_down S entries p)
  unfolding shut_down
  shut_down-keeps [] p closes h = h
  shut_down-keeps ((k, s) ∷ entries) p closes h = shut_down-keeps entries _ closes (closes p k s h)

module _ {W C N T : Type 0} (S : Smux W C N T) (concurrency : ℕ) where
  -- One entry for an id, under the id of its session, and no session above the limit.
  abbrev pub IsSound : Pool W C N → Type 0
  IsSound p = Keyed p.sessions × Within S concurrency p.world p.sessions

  -- No client goes over the limit in a step of the world.
  abbrev pub KeepsLimit : (W → W) → Type 0
  KeepsLimit f =
      (w : W) (d : C) → S.num_streams w d ≤ concurrency → S.num_streams (f w) d ≤ concurrency

  -- What is relied on of an event: neither opening a connection nor the world adds streams above it.
  abbrev pub IsFair : Event W N → Type 0
  IsFair (dials id now new_conn) = KeepsLimit (λ w. (new_conn w).0)
  IsFair (ticks now) = Unit {0}
  IsFair cancelled = Unit {0}
  IsFair (passes f) = KeepsLimit f
  IsFair (swaps n) = Unit {0}

  abbrev Has : MuxPool W C N → Type 0
  Has q = (q.concurrency ≡ concurrency) × IsSound q.pool

module _ {W C N T : Type 0} (S : Smux W C N T) (law : Lawful S) (discrete : Discrete C)
    (concurrency : ℕ) where
  close_session-KeepsLimit : (s : Session C N) → KeepsLimit S concurrency (λ w. close_session S w s)
  close_session-KeepsLimit s w d h = elim (discrete s.client d) [
    | yes e ↦
        subst (λ x. S.num_streams (close_session S w s) x ≤ concurrency) e
          (omega (
            arith,
            law.close_conn-num_streams (S.close_client w s.client) s.underlay_conn s.client,
            law.close_client-le w s.client,
            subst (λ x. S.num_streams w x ≤ concurrency) (sym e) h,
          ))
    | no ne ↦ omega (
      arith,
      law.close_conn-num_streams (S.close_client w s.client) s.underlay_conn d,
      law.close_client-num_streams w s.client d ne,
    )
  ]

  IsSound-Survives : Survives S (IsSound S concurrency)
  IsSound-Survives p k s (keyed, within) = (
    delete-Keyed p.sessions k keyed,
    Within-Under S concurrency p.world _ _ (close_session-KeepsLimit s p.world)
        (delete-Within S concurrency p.world p.sessions k within),
  )

  swap_at-Within :
      (w : W) (n : ℕ) (m : Sessions C N)
      → Within S concurrency w m
      → Within S concurrency w (swap_at n m)
  swap_at-Within w n [] h = tt
  swap_at-Within w zero (x ∷ []) h = h
  swap_at-Within w zero ((i, s) ∷ (j, t) ∷ m) (a, (b, h)) = (b, (a, h))
  swap_at-Within w (suc n) ((i, s) ∷ m) (a, h) = (a, swap_at-Within w n m h)

  cleaned-IsSound :
      (q : MuxPool W C N) (now : ℕ) (b : Bool)
      → IsSound S concurrency q.pool
      → IsSound S concurrency (cleaned S q now b)
  cleaned-IsSound q now false h = h
  cleaned-IsSound q now true h =
      clean-keeps S (IsSound S concurrency) q.timeout now q.pool.sessions q.pool IsSound-Survives h

  cancelled_pool-IsSound :
      (q : MuxPool W C N) (b : Bool)
      → IsSound S concurrency q.pool
      → IsSound S concurrency (cancelled_pool S q b)
  cancelled_pool-IsSound q false h = h
  cancelled_pool-IsSound q true h =
      shut_down-keeps S (IsSound S concurrency) q.pool.sessions q.pool IsSound-Survives h

  happens-Has :
      (q : MuxPool W C N) (e : Event W N)
      → 0 < concurrency
      → IsFair S concurrency e
      → Has S concurrency q
      → Has S concurrency (happens S q e)
  unfolding happens
  happens-Has q (dials id now new_conn) pos fair (c, (keyed, within)) = (
    c,
    (
      dial_mux-Keyed S q.concurrency q.pool id now new_conn keyed,
      subst
          (λ limit.
            let r = (dial_mux S limit q.pool id now new_conn).0 in
            Within S concurrency r.world r.sessions)
          (sym c)
          (dial_mux-Within S law discrete concurrency q.pool id now new_conn pos fair within),
    ),
  )
  happens-Has q (ticks now) pos fair (c, h) = (c, cleaned-IsSound q now q.cleaning h)
  happens-Has q cancelled pos fair (c, h) = (c, cancelled_pool-IsSound q q.cleaning h)
  happens-Has q (passes f) pos fair (c, (keyed, within)) =
      (c, (keyed, Within-Under S concurrency q.pool.world _ _ (fair q.pool.world) within))
  happens-Has q (swaps n) pos fair (c, (keyed, within)) = (
    c,
    (swap_at-Keyed n q.pool.sessions keyed, swap_at-Within q.pool.world n q.pool.sessions within),
  )

  lives-Has :
      (q : MuxPool W C N) (es : List (Event W N))
      → 0 < concurrency
      → All (IsFair S concurrency) es
      → Has S concurrency q
      → Has S concurrency (lives S q es)
  unfolding lives
  lives-Has q [] pos fair h = h
  lives-Has q (e ∷ es) pos (f, fair) h =
      lives-Has (happens S q e) es pos fair (happens-Has q e pos f h)

-- The pool over its life, with a limit above 0: whatever calls of `DialMux`, rounds of `cleanLoop` and
-- ends of streams come, in whatever order the map is walked, if neither opening a connection nor the
-- world pushes a session above the limit, no session of the pool is above it, and the map has one
-- entry for an id, under the id of its session.
pub lives-IsSound :
    {W C N T : Type 0} (S : Smux W C N T) (law : Lawful S) (discrete : Discrete C) (o : Options)
    (w : W) (es : List (Event W N))
    → 0 < o.mux
    → All (IsFair S o.mux) es
    → IsSound S o.mux (lives S (new_mux_pool o w) es).pool
unfolding new_mux_pool
lives-IsSound S law discrete o w es pos fair =
    (lives-Has S law discrete o.mux (new_mux_pool o w) es pos fair (refl, (tt, tt))).1
