-- ===== src/Mux/Clean.antt =====
-- What the rounds of `cleanLoop` close and remove.
use gost_plugin.Common.{
  Bool, Bool-cases, List, [], ap, arith, false, if◌then◌else◌, inl, inr, refl, true, ℕ, ◌+◌, ◌<◌,
  ◌∙◌, ◌∷◌, ◌≡◌, ◌≢◌, ◌⊎◌,
}
use gost_plugin.Mux.Pool.{
  Pool, Session, Sessions, clean, close_session, delete, is_stale, shut_down,
}
use gost_plugin.Mux.Smux.{Lawful, Smux}

module _ {C N : Type 0} where
  abbrev DiffersFrom : Session C N → Sessions C N → Type 0
  DiffersFrom s [] = Unit {0}
  DiffersFrom s ((k, x) ∷ m) = (s.client ≢ x.client) × DiffersFrom s m

  -- No two sessions share a client.
  abbrev pub Apart : Sessions C N → Type 0
  Apart [] = Unit {0}
  Apart ((k, s) ∷ m) = DiffersFrom s m × Apart m

  abbrev pub delete_keys : Sessions C N → List ℕ → Sessions C N
  delete_keys m [] = m
  delete_keys m (k ∷ ks) = delete_keys (delete m k) ks

  abbrev pub keys_of : Sessions C N → List ℕ
  keys_of [] = []
  keys_of ((k, s) ∷ m) = k ∷ keys_of m

abbrev In : ℕ → List ℕ → Type 0
In k [] = ⊥
In k (j ∷ ks) = (k ≡ j) ⊎ In k ks

module _ {C N : Type 0} where
  -- Every key of the map is in the list.
  abbrev Covered : Sessions C N → List ℕ → Type 0
  Covered [] ks = Unit {0}
  Covered ((k, s) ∷ m) ks = In k ks × Covered m ks

  delete-Covered :
      (m : Sessions C N) (j : ℕ) (ks : List ℕ) → Covered m (j ∷ ks) → Covered (delete m j) ks
  unfolding delete
  delete-Covered [] j ks h = tt
  delete-Covered ((k, s) ∷ m) j ks (inl e, h) = ground (arith, e, delete-Covered m j ks h)
  delete-Covered ((k, s) ∷ m) j ks (inr i, h) = ground (arith, i, delete-Covered m j ks h)

  delete_keys-Covered : (m : Sessions C N) (ks : List ℕ) → Covered m ks → delete_keys m ks ≡ []
  delete_keys-Covered [] [] h = refl
  delete_keys-Covered ((k, s) ∷ m) [] (i, h) = absurd i
  delete_keys-Covered m (k ∷ ks) h = delete_keys-Covered (delete m k) ks (delete-Covered m k ks h)

  Covered-cons : (m : Sessions C N) (j : ℕ) (ks : List ℕ) → Covered m ks → Covered m (j ∷ ks)
  Covered-cons [] j ks h = tt
  Covered-cons ((k, s) ∷ m) j ks (i, h) = (inr i, Covered-cons m j ks h)

  Covered-keys_of : (m : Sessions C N) → Covered m (keys_of m)
  Covered-keys_of [] = tt
  Covered-keys_of ((k, s) ∷ m) = (inl refl, Covered-cons m k (keys_of m) (Covered-keys_of m))

module _ {W C N T : Type 0} (S : Smux W C N T) where
  abbrev pub close_all : W → Sessions C N → W
  close_all w [] = w
  close_all w ((k, s) ∷ m) = close_all (S.close_conn (S.close_client w s.client) s.underlay_conn) m

  -- The pool without the given entries, and with their sessions closed.
  abbrev pub without : Pool W C N → Sessions C N → Pool W C N
  without p m = record {
    sessions = delete_keys p.sessions (keys_of m);
    world = close_all p.world m;
  }

  shut_down-entries :
      (entries : Sessions C N) (p : Pool W C N) → shut_down S entries p ≡ without p entries
  unfolding shut_down
  shut_down-entries [] p = refl
  shut_down-entries ((k, s) ∷ entries) p = shut_down-entries entries _

  -- When the context is done, the loop closes every session with its connection, in the order of
  -- iteration, and leaves the map empty.
  pub shut_down_lem :
      (p : Pool W C N)
      → shut_down S p.sessions p ≡ record { sessions = []; world = close_all p.world p.sessions }
  shut_down_lem p =
      shut_down-entries p.sessions p
      ∙ ap (λ m. record { sessions = m; world = close_all p.world p.sessions })
          (delete_keys-Covered p.sessions (keys_of p.sessions) (Covered-keys_of p.sessions))

module _ {W C N T : Type 0} (S : Smux W C N T) (timeout now : ℕ) where
  -- The entries whose sessions are stale in one state of the world.
  abbrev pub stale_entries : W → Sessions C N → Sessions C N
  stale_entries w [] = []
  stale_entries w ((k, s) ∷ m) =
      if is_stale S w timeout now s then (k, s) ∷ stale_entries w m else stale_entries w m

  -- Two states of the world agree on which of these sessions are stale.
  abbrev Agree : W → W → Sessions C N → Type 0
  Agree w v [] = Unit {0}
  Agree w v ((k, s) ∷ m) = (is_stale S v timeout now s ≡ is_stale S w timeout now s) × Agree w v m

  Agree-self : (w : W) (m : Sessions C N) → Agree w w m
  Agree-self w [] = tt
  Agree-self w ((k, s) ∷ m) = (refl, Agree-self w m)

  is_stale-close :
      (law : Lawful S) (w : W) (s x : Session C N)
      → s.client ≢ x.client
      → is_stale S (close_session S w s) timeout now x ≡ is_stale S w timeout now x
  unfolding is_stale
  is_stale-close law w s x ne =
      let v : W = S.close_client w s.client in
      let closed : S.is_closed (close_session S w s) x.client ≡ S.is_closed w x.client =
        law.close_conn-is_closed v s.underlay_conn x.client
        ∙ law.close_client-is_closed w s.client x.client ne in
      let count : S.num_streams (close_session S w s) x.client ≡ S.num_streams w x.client =
        law.close_conn-num_streams v s.underlay_conn x.client
        ∙ law.close_client-num_streams w s.client x.client ne in
      rw (closed, count)

  Agree-close :
      (law : Lawful S) (w v : W) (s : Session C N) (m : Sessions C N)
      → DiffersFrom s m
      → Agree w v m
      → Agree w (close_session S v s) m
  Agree-close law w v s [] d a = tt
  Agree-close law w v s ((k, x) ∷ m) (ne, d) (e, a) =
      (is_stale-close law v s x ne ∙ e, Agree-close law w v s m d a)

  clean-Agree :
      (law : Lawful S) (w : W) (entries : Sessions C N) (p : Pool W C N)
      → Apart entries
      → Agree w p.world entries
      → clean S timeout now entries p ≡ without S p (stale_entries w entries)
  unfolding clean
  clean-Agree law w [] p ap_ a = refl
  clean-Agree law w ((k, s) ∷ entries) p (d, apart) (e, a) =
      ap (λ b. clean S timeout now entries (if b then closed else p)) e
      ∙ either (is_stale S w timeout now s)
          (clean-Agree law w entries closed apart (Agree-close law w p.world s entries d a))
          (clean-Agree law w entries p apart a)
    where
      closed : Pool W C N
      closed = record { sessions = delete p.sessions k; world = close_session S p.world s }

      either :
          (b : Bool)
          → clean S timeout now entries closed ≡ without S closed (stale_entries w entries)
          → clean S timeout now entries p ≡ without S p (stale_entries w entries)
          → clean S timeout now entries (if b then closed else p)
            ≡ without S p (if b then (k, s) ∷ stale_entries w entries else stale_entries w entries)
      either true h g = h
      either false h g = g

  -- A session that is closed, or has no streams and was last active more than the timeout ago.
  abbrev pub IsStale : W → Session C N → Type 0
  IsStale w s =
      (S.is_closed w s.client ≡ true)
      ⊎ ((S.num_streams w s.client ≡ 0) × (s.last_active_time + timeout < now))

  is_stale-true : (w : W) (s : Session C N) → is_stale S w timeout now s ≡ true → IsStale w s
  unfolding is_stale
  is_stale-true w s e = ground arith

  is_stale-false : (w : W) (s : Session C N) → is_stale S w timeout now s ≡ false → ¬ IsStale w s
  unfolding is_stale
  is_stale-false w s e h = ground arith

  -- The second list is that of the stale entries of the first.
  pub data Selected (w : W) : Sessions C N → Sessions C N → Type 0 where
    none_left : Selected w [] []
    stale :
        {k : ℕ} {s : Session C N} {m xs : Sessions C N}
        → IsStale w s
        → Selected w m xs
        → Selected w ((k, s) ∷ m) ((k, s) ∷ xs)
    fresh :
        {k : ℕ} {s : Session C N} {m xs : Sessions C N}
        → ¬ IsStale w s
        → Selected w m xs
        → Selected w ((k, s) ∷ m) xs

  stale_entries-Selected : (w : W) (m : Sessions C N) → Selected w m (stale_entries w m)
  stale_entries-Selected w [] = none_left
  stale_entries-Selected w ((k, s) ∷ m) = elim (Bool-cases (is_stale S w timeout now s)) [
    | inl e ↦ rw e (stale (is_stale-true w s e) (stale_entries-Selected w m))
    | inr e ↦ rw e (fresh (is_stale-false w s e) (stale_entries-Selected w m))
  ]

  -- A round of the loop over a pool whose sessions have clients of their own closes exactly the
  -- sessions that were stale when it began: those that are closed, and those without streams that were
  -- last active more than the timeout ago. It closes the client and then the connection of each, in the
  -- order of iteration, and takes exactly their keys out of the map.
  pub clean_lem :
      (law : Lawful S) (p : Pool W C N)
      → Apart p.sessions
      → (xs : Sessions C N) × Selected p.world p.sessions xs
        × (clean S timeout now p.sessions p ≡ record {
          sessions = delete_keys p.sessions (keys_of xs);
          world = close_all S p.world xs;
        })
  clean_lem law p apart = (
    stale_entries p.world p.sessions,
    stale_entries-Selected p.world p.sessions,
    clean-Agree law p.world p.sessions p apart (Agree-self p.world p.sessions),
  )
