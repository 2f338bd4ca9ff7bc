-- ===== src/Mux/Sharing.antt =====
-- The streams of a pool share connections.
use gost_plugin.Common.{
  All, Bool, List, [], arith, false, if◌then◌else◌, length, refl, subst, suc, sym, true, ℕ, ◌+◌,
  ◌<◌, ◌==◌, ◌^◌, ◌∙◌, ◌∷◌, ◌≡◌, ◌≤◌,
}
use gost_plugin.Foreign.{Outcome, done, failed, ok}
use gost_plugin.Mux.Pool.{
  Pool, Session, assign, choose, delete, dial_mux, has_room, open_new_stream, opened, touch,
}
use gost_plugin.Mux.Smux.{Smux}

-- Calls of `DialMux` one after the other, with the random ids and the times, and what they return.
unfoldable pub dial_each :
    {W C N T : Type 0}
    → Smux W C N T
    → ℕ
    → (W → W × Outcome N)
    → Pool W C N
    → List (ℕ × ℕ)
    → Pool W C N × List (Outcome T)
unfolding dial_mux
dial_each S concurrency new_conn p [] = (p, [])
dial_each S concurrency new_conn p ((id, now) ∷ calls) =
    let r = dial_mux S concurrency p id now new_conn in
    let rest = dial_each S concurrency new_conn r.0 calls in (rest.0, r.1 ∷ rest.1)

-- A dial that works; `opens` counts the connections that were opened.
abbrev pub Connects : {W N : Type 0} → (W → W × Outcome N) → (W → ℕ) → Type 0
Connects {W} {N} new_conn opens =
    (w : W) → (w' : W) × (n : N) × (new_conn w ≡ (w', ok n)) × (opens w' ≡ opens w + 1)

-- Package smux, when nothing fails and no session ends.
pub record Steady {W C N T : Type 0} (S : Smux W C N T) (opens : W → ℕ) : Type 0 where
  pub starts_client :
      (w : W) (n : N)
      → (w' : W) × (c : C) × (S.new_client w n ≡ (w', ok c))
        × (S.is_closed w' c ≡ false)
        × (S.num_streams w' c ≡ 0)
        × (opens w' ≡ opens w)
  pub opens_stream :
      (w : W) (c : C)
      → S.is_closed w c ≡ false
      → (w' : W) × (t : T) × (S.open_new_stream w c ≡ (w', ok t))
        × (S.is_closed w' c ≡ false)
        × (S.num_streams w' c ≤ S.num_streams w c + 1)
        × (opens w' ≡ opens w)

abbrev pub Succeeded : {T : Type 0} → Outcome T → Type 0
Succeeded (ok t) = Unit {0}
Succeeded (failed err) = ⊥

module _ {W C N T : Type 0} (S : Smux W C N T) (new_conn : W → W × Outcome N) (opens : W → ℕ)
    (connects : Connects new_conn opens) (steady : Steady S opens) (concurrency : ℕ) where
  -- One session, with at most so many streams, and so many connections opened.
  abbrev Shares : ℕ → ℕ → Pool W C N → Type 0
  Shares j total p =
      (k : ℕ) × (s : Session C N) × (p.sessions ≡ (k, s) ∷ [])
      × (S.is_closed p.world s.client ≡ false)
      × (S.num_streams p.world s.client ≤ j)
      × (opens p.world ≡ total)

  abbrev Streamed : ℕ → ℕ → Pool W C N × Outcome T → Type 0
  Streamed j total r = Shares j total r.0 × Succeeded r.1

  touched : ℕ → Session C N → Bool → Session C N
  touched now s b = if b then record s { last_active_time = now } else s

  client-touched : (now : ℕ) (s : Session C N) (b : Bool) → (touched now s b).client ≡ s.client
  unfolding touched
  client-touched now s true = refl
  client-touched now s false = refl

  stream-Shares :
      (j total k : ℕ) (s : Session C N) (w : W) (now : ℕ)
      → S.is_closed w s.client ≡ false
      → S.num_streams w s.client ≤ j
      → opens w ≡ total
      → Streamed (suc j) total (open_new_stream S ((k, s) ∷ []) w s now)
  unfolding open_new_stream touch touched
  stream-Shares j total k s w now alive few total_opens =
      let (w', t, e, alive', more, same) = steady.opens_stream w s.client alive in
      let c = client-touched now s (s.id == s.id) in
      subst (λ r. Streamed (suc j) total (opened S ((k, s) ∷ []) s now r)) (sym e)
        (
          (
            k,
            touched now s (s.id == s.id),
            refl,
            subst (λ x. S.is_closed w' x ≡ false) (sym c) alive',
            subst (λ x. S.num_streams w' x ≤ suc j) (sym c) (omega arith),
            same ∙ total_opens,
          ),
          tt,
        )

  room :
      (streams : ℕ)
      → concurrency < 2 ^ 63
      → streams < concurrency
      → has_room concurrency streams ≡ true
  room streams small lt = ground arith

  -- A dial with a session that has room opens a stream on it, and no connection.
  shared-Streamed :
      (j total id now : ℕ) (p : Pool W C N)
      → concurrency < 2 ^ 63
      → j < concurrency
      → Shares j total p
      → Streamed (suc j) total (dial_mux S concurrency p id now new_conn)
  unfolding dial_mux choose
  shared-Streamed j total id now p small lt (k, s, e, alive, few, total_opens) =
      rw (e, alive, room (S.num_streams p.world s.client) small (omega arith))
        (stream-Shares j total k s p.world now alive few total_opens)

  -- The first dial opens a connection.
  first-Streamed :
      (id now : ℕ) (w : W)
      → Streamed 1
          (opens w + 1)
          (dial_mux S concurrency (record { sessions = []; world = w }) id now new_conn)
  unfolding dial_mux choose assign delete
  first-Streamed id now w =
      let (w1, n, e1, o1) = connects w in
      let (w2, c, e2, alive, few, o2) = steady.starts_client w1 n in
      rw (e1, e2)
        (stream-Shares 0 (opens w + 1) id
          (record { id = id; client = c; underlay_conn = n; last_active_time = 0 }) w2 now alive
          (omega arith) (o2 ∙ o1))

  abbrev Streams : ℕ → Pool W C N × List (Outcome T) → Type 0
  Streams total r = (opens r.0.world ≡ total) × All Succeeded r.1

  each-Streams :
      (j total : ℕ) (p : Pool W C N) (calls : List (ℕ × ℕ))
      → concurrency < 2 ^ 63
      → j + length calls ≤ concurrency
      → Shares j total p
      → Streams total (dial_each S concurrency new_conn p calls)
  unfolding dial_each
  each-Streams j total p [] small le (k, s, e, alive, few, total_opens) = (total_opens, tt)
  each-Streams j total p ((id, now) ∷ calls) small le h =
      let (shares, done) = shared-Streamed j total id now p small (omega arith) h in
      let (o, all) = each-Streams (suc j) total _ calls small (omega arith) shares in
      (o, (done, all))

  -- As long as nothing fails and no session ends, the first dials of a new pool, up to its limit, all
  -- give a stream, on one connection between them, which the first opens.
  pub dial_each_lem :
      (w : W) (id now : ℕ) (calls : List (ℕ × ℕ))
      → concurrency < 2 ^ 63
      → suc (length calls) ≤ concurrency
      → let r =
          dial_each S concurrency new_conn
            (record { sessions = []; world = w })
            ((id, now) ∷ calls) in
        (opens r.0.world ≡ opens w + 1) × All Succeeded r.1
  unfolding dial_each
  dial_each_lem w id now calls small le =
      let (shares, done) = first-Streamed id now w in
      let (o, all) = each-Streams 1 (opens w + 1) _ calls small (omega arith) shares in
      (o, (done, all))
