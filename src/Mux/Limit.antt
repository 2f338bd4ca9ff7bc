-- ===== src/Mux/Limit.antt =====
-- Which session `DialMux` chooses.
use gost_plugin.Common.{
  All, Bool, Bool-cases, List, Option, [], ap, arith, false, if◌then◌else◌, inl, inr, none, not,
  refl, some, subst, true, ℕ, ◌&&◌, ◌++◌, ◌<◌, ◌^◌, ◌∙◌, ◌∷◌, ◌≡◌, ◌⊎◌,
}
use gost_plugin.Mux.Pool.{Session, Sessions, choose, delete, has_room}
use gost_plugin.Mux.Smux.{Smux}

module _ {W C N T : Type 0} (S : Smux W C N T) (w : W) (concurrency : ℕ) where
  abbrev usable : Session C N → Bool
  usable s = not (S.is_closed w s.client) && has_room concurrency (S.num_streams w s.client)

  -- The first session in the order of iteration that is open and has room.
  abbrev pub first_usable : Sessions C N → Option (Session C N)
  first_usable [] = none
  first_usable ((k, s) ∷ m) = if usable s then some s else first_usable m

  -- The ids of the closed sessions that come before it.
  abbrev pub closed_before : Sessions C N → List ℕ
  closed_before [] = []
  closed_before ((k, s) ∷ m) =
      if S.is_closed w s.client
      then s.id ∷ closed_before m
      else if has_room concurrency (S.num_streams w s.client)
      then []
      else closed_before m

  abbrev pub delete_all : Sessions C N → List ℕ → Sessions C N
  delete_all m [] = m
  delete_all m (id ∷ ids) = delete_all (delete m id) ids

  -- `DialMux` chooses the first session that is open and has room, and takes the closed sessions
  -- that it passes out of the map, and no others.
  pub choose_lem :
      (entries m : Sessions C N)
      → choose S w concurrency entries m
        ≡ (delete_all m (closed_before entries), first_usable entries)
  unfolding choose
  choose_lem [] m = refl
  choose_lem ((k, s) ∷ entries) m =
      ground (arith, choose_lem entries m, choose_lem entries (delete m s.id))

-- What the limit allows: a session with fewer streams than the limit, or any if the limit is 0; a limit
-- of 2^63 or more is negative where it is compared.
abbrev pub HasRoom : ℕ → ℕ → Type 0
HasRoom concurrency streams = ((concurrency < 2 ^ 63) × (streams < concurrency)) ⊎ (concurrency ≡ 0)

has_room-HasRoom :
    (concurrency streams : ℕ) → has_room concurrency streams ≡ true → HasRoom concurrency streams
has_room-HasRoom concurrency streams e = ground arith

has_room-Full :
    (concurrency streams : ℕ) → has_room concurrency streams ≡ false → ¬ HasRoom concurrency streams
has_room-Full concurrency streams e h = ground arith

module _ {W C N T : Type 0} (S : Smux W C N T) (w : W) (concurrency : ℕ) where
  -- A session that is closed, or has no room.
  abbrev pub PassedOver : ℕ × Session C N → Type 0
  PassedOver (k, s) =
      (S.is_closed w s.client ≡ true) ⊎ (¬ HasRoom concurrency (S.num_streams w s.client))

  -- The first session is open and has room, if there is one.
  abbrev pub Usable : Sessions C N → Type 0
  Usable [] = Unit {0}
  Usable ((k, s) ∷ m) =
      (S.is_closed w s.client ≡ false) × HasRoom concurrency (S.num_streams w s.client)

  abbrev pub first_of : Sessions C N → Option (Session C N)
  first_of [] = none
  first_of ((k, s) ∷ m) = some s

  abbrev pub closed_ids : Sessions C N → List ℕ
  closed_ids [] = []
  closed_ids ((k, s) ∷ m) = if S.is_closed w s.client then s.id ∷ closed_ids m else closed_ids m

  -- The entries split in front of the session that is chosen.
  abbrev pub Splits : Sessions C N → List ℕ × Option (Session C N) → Type 0
  Splits entries r =
      (before : Sessions C N) × (after : Sessions C N) × (entries ≡ before ++ after)
      × All PassedOver before
      × Usable after
      × (r ≡ (closed_ids before, first_of after))

  Splits-cons :
      (k : ℕ) (s : Session C N) (entries : Sessions C N) (r : List ℕ × Option (Session C N))
      → PassedOver (k, s)
      → Splits entries r
      → Splits ((k, s) ∷ entries) (if S.is_closed w s.client then s.id ∷ r.0 else r.0, r.1)
  Splits-cons k s entries r passed (before, after, e, over, usable_, same) = (
    (k, s) ∷ before,
    after,
    ap (λ m. (k, s) ∷ m) e,
    (passed, over),
    usable_,
    ap (λ x. (if S.is_closed w s.client then s.id ∷ x.0 else x.0, x.1)) same,
  )

  entries-Splits :
      (entries : Sessions C N)
      → Splits entries (closed_before S w concurrency entries, first_usable S w concurrency entries)
  entries-Splits [] = ([], [], refl, tt, tt, refl)
  entries-Splits ((k, s) ∷ entries) =
      let room = has_room concurrency (S.num_streams w s.client) in
      elim (Bool-cases (S.is_closed w s.client)) [
        | inl e ↦
            subst (Splits ((k, s) ∷ entries)) (rw e refl)
              (Splits-cons k s entries _ (inl e) (entries-Splits entries))
        | inr e ↦ elim (Bool-cases room) [
          | inl h ↦ (
            [],
            (k, s) ∷ entries,
            refl,
            tt,
            (e, has_room-HasRoom concurrency (S.num_streams w s.client) h),
            rw (e, h) refl,
          )
          | inr h ↦ subst (Splits ((k, s) ∷ entries)) (rw (e, h) refl) (
              Splits-cons k s entries _
                (inr (has_room-Full concurrency (S.num_streams w s.client) h))
                (entries-Splits entries))
        ]
      ]

  -- `DialMux` splits the entries, in the order of iteration: it passes over those that are closed or
  -- have as many streams as the limit allows, takes the closed ones of them out of the map and no
  -- others, and chooses the session behind them, which is open and has room, or none if none is left.
  pub choose-Splits :
      (entries m : Sessions C N)
      → (before : Sessions C N) × (after : Sessions C N) × (entries ≡ before ++ after)
        × All PassedOver before
        × Usable after
        × (choose S w concurrency entries m
            ≡ (delete_all S w concurrency m (closed_ids before), first_of after))
  choose-Splits entries m =
      let (before, after, e, over, usable_, same) = entries-Splits entries in
      (
        before,
        after,
        e,
        over,
        usable_,
        choose_lem S w concurrency entries m
            ∙ ap (λ r. (delete_all S w concurrency m r.0, r.1)) same,
      )

-- The session that is chosen is open and has fewer streams than the limit.
pub chosen_usable :
    {W C N T : Type 0} (S : Smux W C N T) (w : W) (concurrency : ℕ) (m : Sessions C N)
    (s : Session C N)
    → 0 < concurrency
    → first_usable S w concurrency m ≡ some s
    → (S.is_closed w s.client ≡ false) × (S.num_streams w s.client < concurrency)
chosen_usable S w concurrency [] s pos h = absurd (cc)
chosen_usable S w concurrency ((k, x) ∷ m) s pos h =
    ground (arith, chosen_usable S w concurrency m s pos)
