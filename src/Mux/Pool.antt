-- ===== src/Mux/Pool.antt =====
-- `MuxPool` of mux/mux.go. Its mutex makes each call of `DialMux` and each round of `cleanLoop` one
-- step, so they are functions of the pool and the outside world.
use gost_plugin.Common.{
  Bool, List, Option, [], if◌then◌else◌, ltb, none, some, ℕ, ◌&&◌, ◌+◌, ◌==◌, ◌^◌, ◌||◌, ◌∷◌,
}
use gost_plugin.Foreign.{Outcome, failed, ok}
use gost_plugin.Mux.Smux.{Smux}

-- `lastActiveTime` counts nanoseconds; 0 is the zero time.
pub record Session (C N : Type 0) : Type 0 where
  pub id : ℕ
  pub client : C
  pub underlay_conn : N
  pub last_active_time : ℕ

-- `map[muxID]*muxSession`; the order of the entries stands for Go's arbitrary order of iteration.
abbrev pub Sessions : Type 0 → Type 0 → Type 0
Sessions C N = List (ℕ × Session C N)

module _ {C N : Type 0} where
  unfoldable pub delete : Sessions C N → ℕ → Sessions C N
  delete [] id = []
  delete ((k, s) ∷ m) id = if k == id then delete m id else (k, s) ∷ delete m id

  -- `m[id] = s`
  unfoldable pub assign : Sessions C N → ℕ → Session C N → Sessions C N
  unfolding delete
  assign m id s = (id, s) ∷ delete m id

  -- `sess.lastActiveTime = now`, on the session that the map points to
  unfoldable pub touch : Sessions C N → ℕ → ℕ → Sessions C N
  touch [] id now = []
  touch ((k, s) ∷ m) id now =
      (k, if s.id == id then record s { last_active_time = now } else s) ∷ touch m id now

pub record Pool (W C N : Type 0) : Type 0 where
  pub sessions : Sessions C N
  pub world : W

-- `sess.client.NumStreams() < int(p.concurrency) || p.concurrency <= 0`: a concurrency of 2^63 or
-- more is negative as an `int`, and a `uint` is at most 0 if it is 0.
abbrev pub has_room : ℕ → ℕ → Bool
has_room concurrency streams =
    (ltb concurrency (2 ^ 63) && ltb streams concurrency) || concurrency == 0

module _ {W C N T : Type 0} (S : Smux W C N T) where
  open S use {is_closed, num_streams, close_client, close_conn, new_client}

  -- The first loop of `DialMux`: the entries that are left of the range, the map without the closed
  -- sessions that it met, and the session that it chose.
  unfoldable pub choose : W → ℕ → Sessions C N → Sessions C N → Sessions C N × Option (Session C N)
  choose w concurrency [] m = (m, none)
  choose w concurrency ((k, s) ∷ entries) m =
      let dropped = choose w concurrency entries (delete m s.id) in
      let skipped = choose w concurrency entries m in
      if is_closed w s.client
      then dropped
      else if has_room concurrency (num_streams w s.client)
      then (m, some s)
      else skipped

  -- `openNewStream`, behind the call of `OpenNewStream`.
  abbrev pub opened : Sessions C N → Session C N → ℕ → W × Outcome T → Pool W C N × Outcome T
  opened m s now (w, ok t) = (record { sessions = touch m s.id now; world = w }, ok t)
  opened m s now (w, failed err) = (
    record {
      sessions = delete (touch m s.id now) s.id;
      world = close_client (close_conn w s.underlay_conn) s.client;
    },
    failed err,
  )

  unfoldable pub open_new_stream : Sessions C N → W → Session C N → ℕ → Pool W C N × Outcome T
  unfolding touch delete
  open_new_stream m w s now = opened m s now (S.open_new_stream w s.client)

  -- `DialMux` behind `smux.Client`. A connection on which that fails stays open.
  abbrev pub with_client : Sessions C N → ℕ → ℕ → N → W × Outcome C → Pool W C N × Outcome T
  with_client m id now n (w, failed err) = (record { sessions = m; world = w }, failed err)
  with_client m id now n (w, ok c) =
      let s : Session C N = record {
        id = id;
        client = c;
        underlay_conn = n;
        last_active_time = 0;
      } in
      open_new_stream (assign m id s) w s now

  -- Behind `newConn`.
  abbrev pub with_conn : Sessions C N → ℕ → ℕ → W × Outcome N → Pool W C N × Outcome T
  with_conn m id now (w, failed err) = (record { sessions = m; world = w }, failed err)
  with_conn m id now (w, ok n) = with_client m id now n (new_client w n)

  -- Behind the loop: the session that was chosen, or a new one with the random `id`.
  abbrev pub dial_chosen :
      W → ℕ → ℕ → (W → W × Outcome N) → Sessions C N × Option (Session C N) → Pool W C N × Outcome T
  dial_chosen w id now new_conn (m, some s) = open_new_stream m w s now
  dial_chosen w id now new_conn (m, none) = with_conn m id now (new_conn w)

  unfoldable pub dial_mux : ℕ → Pool W C N → ℕ → ℕ → (W → W × Outcome N) → Pool W C N × Outcome T
  unfolding choose assign
  dial_mux concurrency p id now new_conn =
      dial_chosen p.world id now new_conn (choose p.world concurrency p.sessions p.sessions)

  abbrev pub close_session : W → Session C N → W
  close_session w s = close_conn (close_client w s.client) s.underlay_conn

  -- Whether `cleanLoop` closes a session: `time.Now().Sub(last) > p.timeout`.
  unfoldable pub is_stale : W → ℕ → ℕ → Session C N → Bool
  is_stale w timeout now s =
      is_closed w s.client
      || (num_streams w s.client == 0 && ltb (s.last_active_time + timeout) now)

  -- A round of `cleanLoop` at the timer, over the entries that are left of the range. It reads the
  -- clock for each session; one reading stands for all of them.
  unfoldable pub clean : ℕ → ℕ → Sessions C N → Pool W C N → Pool W C N
  unfolding is_stale delete
  clean timeout now [] p = p
  clean timeout now ((k, s) ∷ entries) p = clean timeout now entries (
      if is_stale p.world timeout now s
      then record { sessions = delete p.sessions k; world = close_session p.world s }
      else p)

  -- The round when the context is done.
  unfoldable pub shut_down : Sessions C N → Pool W C N → Pool W C N
  unfolding delete
  shut_down [] p = p
  shut_down ((k, s) ∷ entries) p =
      shut_down entries (record { sessions = delete p.sessions k; world = close_session p.world s })
