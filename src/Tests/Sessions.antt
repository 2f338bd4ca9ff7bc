-- ===== src/Tests/Sessions.antt =====
-- The pool at concrete inputs, on sessions that count their streams.
use gost_plugin.Args.Addr.{Options}
use gost_plugin.Client.Dial.{Network, Secured}
use gost_plugin.Client.Multiplexed.{MuxWorld}
use gost_plugin.Client.Multiplexed.Laws.{conns_opened, mtls_dial_each, mtls_dial_each_lem}
use gost_plugin.Common.{
  All, List, [], ap, arith, false, if◌then◌else◌, length, none, refl, suc, sym, true, ℕ, ◌++◌, ◌==◌,
  ◌∙◌, ◌∷◌, ◌≡◌,
}
use gost_plugin.Foreign.{Outcome, ok}
use gost_plugin.Main.{flag_defaults}
use gost_plugin.Mux.Clean.{Apart, Selected, clean_lem, close_all, delete_keys, keys_of}
use gost_plugin.Mux.Limit.{PassedOver, Usable, choose-Splits, closed_ids, delete_all, first_of}
use gost_plugin.Mux.Pool.{Pool, Session, Sessions, choose, clean}
use gost_plugin.Mux.Sharing.{Steady, Succeeded}
use gost_plugin.Mux.Smux.{Lawful, Smux}
use gost_plugin.Mux.System.{Event, cancelled, dials, lives, new_mux_pool, passes, swaps, ticks}
use gost_plugin.Mux.System.Laws.{IsSound, lives-IsSound}
use native.Mathlib.Decide.{ℕ_discrete}

-- A world says how many streams a client has; clients and connections are numbers, and client 9 is
-- closed.
abbrev World : Type 0
World = ℕ → ℕ

abbrev update : World → ℕ → ℕ → World
update w c n d = if c == d then n else w d

abbrev counting : Smux World ℕ ℕ ℕ
counting = record {
  is_closed = λ w c. c == 9;
  num_streams = λ w c. w c;
  open_new_stream = λ w c. (update w c (suc (w c)), ok c);
  close_client = λ w c. update w c 0;
  close_conn = λ w n. w;
  new_client = λ w n. (update w n 0, ok n);
}

zeroed : (w : World) (n c : ℕ) → n ≡ c → update w n 0 c ≡ 0
zeroed w n c e = ground arith

counting-Lawful : Lawful counting
counting-Lawful = record {
  close_client-is_closed = λ w c d ne. refl;
  close_client-num_streams = λ w c d ne. ground arith;
  close_client-le = λ w c. ground arith;
  close_conn-is_closed = λ w n d. refl;
  close_conn-num_streams = λ w n d. refl;
  open_new_stream-others = λ w c d ne. ground arith;
  open_new_stream-le = λ w c. ground arith;
  new_client-le = λ w n d. ground arith;
  new_client-zero = new_zero;
}
  where
    new_zero :
        (w w' : World) (n c : ℕ)
        → ◌≡◌ {A = World × Outcome ℕ} (update w n 0, ok n) (w', ok c)
        → w' c ≡ 0
    new_zero w w' n c h =
        let same : ok n ≡ ok c = ap (λ r. r.1) h in sym (ap (λ r. r.0 c) h) ∙ zeroed w n c (cc)

abbrev session : ℕ → Session ℕ ℕ
session n = record { id = n; client = n; underlay_conn = n; last_active_time = 0 }

-- Session 9 is closed, session 1 is full, session 2 has room.
abbrev three_sessions : Pool World ℕ ℕ
three_sessions = record {
  sessions = (9, session 9) ∷ (1, session 1) ∷ (2, session 2) ∷ [];
  world = λ c. if c == 1 then 8 else 3;
}

abbrev new_conn : World → World × Outcome ℕ
new_conn w = (w, ok 5)

choose-Splits_example :
    let w = three_sessions.world in
    let m = three_sessions.sessions in
    (before : Sessions ℕ ℕ) × (after : Sessions ℕ ℕ) × (m ≡ before ++ after)
    × All (PassedOver counting w 8) before
    × Usable counting w 8 after
    × (choose counting w 8 m m
        ≡ (delete_all counting w 8 m (closed_ids counting w 8 before), first_of counting w 8 after))
choose-Splits_example =
    choose-Splits counting three_sessions.world 8 three_sessions.sessions three_sessions.sessions

three_sessions-Apart : Apart three_sessions.sessions
three_sessions-Apart =
    (((λ h. omega arith), ((λ h. omega arith), tt)), (((λ h. omega arith), tt), (tt, tt)))

-- Session 9 is closed; the others have streams.
clean_lem_example :
    (xs : Sessions ℕ ℕ) × Selected counting 30 100 three_sessions.world three_sessions.sessions xs
    × (clean counting 30 100 three_sessions.sessions three_sessions ≡ record {
      sessions = delete_keys three_sessions.sessions (keys_of xs);
      world = close_all counting three_sessions.world xs;
    })
clean_lem_example = clean_lem counting 30 100 counting-Lawful three_sessions three_sessions-Apart

abbrev pool_options : Options
pool_options = record flag_defaults { mux = 8 }

-- Two connections, a round of the loop, streams that end, and the end of the context.
abbrev pool_events : List (Event World ℕ)
pool_events =
    dials 1 0 new_conn
    ∷ dials 2 5 new_conn
    ∷ swaps 0
    ∷ passes (λ w c. 0)
    ∷ ticks 90
    ∷ cancelled
    ∷ []

lives-IsSound_example :
    let q = (lives counting (new_mux_pool pool_options (λ c. 0)) pool_events).pool in
    IsSound counting 8 q
lives-IsSound_example =
    lives-IsSound counting counting-Lawful ℕ_discrete pool_options (λ c. 0) pool_events
      (omega arith) ((λ w d h. h), ((λ w d h. h), (tt, ((λ w d h. omega arith), (tt, (tt, tt))))))

-- A pool over TLS connections of a network whose sockets are numbers; no session ends.
abbrev tls_network : Network ℕ
tls_network = record { dial = λ setup. ok 3; shake_hands = λ n c. none; negotiated = λ n c. [] }

abbrev over_tls : Smux (MuxWorld ℕ World) ℕ (Secured ℕ) ℕ
over_tls = record {
  is_closed = λ w c. false;
  num_streams = λ w c. w.rest c;
  open_new_stream =
      λ w c. (record { opened = w.opened; rest = update w.rest c (suc (w.rest c)) }, ok c);
  close_client = λ w c. w;
  close_conn = λ w n. w;
  new_client = λ w n. (record { opened = w.opened; rest = update w.rest n.0 0 }, ok n.0);
}

over_tls-Steady : Steady over_tls conns_opened
over_tls-Steady = record {
  starts_client = λ w n. (_, n.0, refl, refl, zeroed w.rest n.0 n.0 refl, refl);
  opens_stream = λ w c alive. (_, c, refl, refl, ground arith, refl);
}

mtls_dial_each_lem_example :
    let r =
      mtls_dial_each
        (λ s. true)
        (λ s. s)
        tls_network
        over_tls
        pool_options
        (new_mux_pool pool_options (record { opened = []; rest = λ c. 0 }))
        ((11, 0) ∷ (12, 5) ∷ (13, 9) ∷ []) in
    (length r.0.pool.world.opened ≡ 1) × All Succeeded r.1
mtls_dial_each_lem_example =
    mtls_dial_each_lem (λ s. true) (λ s. s) tls_network over_tls pool_options 3
      (record { opened = []; rest = λ c. 0 }) 11 0 ((12, 5) ∷ (13, 9) ∷ []) refl refl
      over_tls-Steady (omega arith) (omega arith)
