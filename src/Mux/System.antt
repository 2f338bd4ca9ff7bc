-- ===== src/Mux/System.antt =====
-- The pool of mux/mux.go over its life: `NewMuxPool`, and every interleaving of the calls of `DialMux`,
-- the rounds of `cleanLoop` and what smux does by itself. The mutex makes each call one event.
pub mod Laws
use gost_plugin.Args.Addr.{Options}
use gost_plugin.Common.{Bool, List, [], false, suc, true, zero, ℕ, ◌*◌, ◌^◌, ◌∷◌}
use gost_plugin.Foreign.{Outcome}
use gost_plugin.Mux.Pool.{Pool, clean, dial_mux, shut_down}
use gost_plugin.Mux.Smux.{Smux}

-- `cleaning` says that `cleanLoop` has not returned; times are in nanoseconds.
pub record MuxPool (W C N : Type 0) : Type 0 where
  pub pool : Pool W C N
  pub concurrency : ℕ
  pub timeout : ℕ
  pub cleaning : Bool

unfoldable pub new_mux_pool : {W C N : Type 0} → Options → W → MuxPool W C N
new_mux_pool o w = record {
  pool = record { sessions = []; world = w };
  concurrency = o.mux;
  timeout = 30 * 10 ^ 9;
  cleaning = true;
}

pub data Event (W N : Type 0) : Type 0 where
  -- `DialConn` of a multiplexing transporter: `DialMux` with the random id of a new session, the
  -- time, and the `DialConn` of the transporter below.
  dials : ℕ → ℕ → (W → W × Outcome N) → Event W N
  -- The timer of `cleanLoop`.
  ticks : ℕ → Event W N
  -- The context is done.
  cancelled : Event W N
  -- The world moves: a stream or a session ends.
  passes : (W → W) → Event W N
  -- The next iteration over the map finds two neighbours the other way round.
  swaps : ℕ → Event W N

abbrev pub swap_at {ℓ} : {A : Type ℓ} → ℕ → List A → List A
swap_at n [] = []
swap_at zero (x ∷ []) = x ∷ []
swap_at zero (x ∷ y ∷ zs) = y ∷ x ∷ zs
swap_at (suc n) (x ∷ xs) = x ∷ swap_at n xs

module _ {W C N T : Type 0} (S : Smux W C N T) where
  -- `<-time.After(checkDuration)`: the round, if the loop still runs.
  abbrev pub cleaned : MuxPool W C N → ℕ → Bool → Pool W C N
  cleaned q now false = q.pool
  cleaned q now true = clean S q.timeout now q.pool.sessions q.pool

  abbrev pub cancelled_pool : MuxPool W C N → Bool → Pool W C N
  cancelled_pool q false = q.pool
  cancelled_pool q true = shut_down S q.pool.sessions q.pool

  unfoldable pub happens : MuxPool W C N → Event W N → MuxPool W C N
  unfolding dial_mux clean shut_down
  happens q (dials id now new_conn) = record q {
    pool = (dial_mux S q.concurrency q.pool id now new_conn).0;
  }
  happens q (ticks now) = record q { pool = cleaned q now q.cleaning }
  happens q cancelled = record q { pool = cancelled_pool q q.cleaning; cleaning = false }
  happens q (passes f) = record q {
    pool = record { sessions = q.pool.sessions; world = f q.pool.world };
  }
  happens q (swaps n) = record q {
    pool = record { sessions = swap_at n q.pool.sessions; world = q.pool.world };
  }

  unfoldable pub lives : MuxPool W C N → List (Event W N) → MuxPool W C N
  unfolding happens
  lives q [] = q
  lives q (e ∷ es) = lives (happens q e) es
