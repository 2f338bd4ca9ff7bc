-- ===== src/Proxy/Queue.antt =====
-- The channel `ConnChan` of gost/proxy/tcp.go, with the `select` that every listener sends by.
pub mod Laws
use gost_plugin.Common.{List, [], if◌then◌else◌, length, ltb, ℕ, ◌++◌, ◌∷◌}

-- `make(chan net.Conn, 1024)`
abbrev pub capacity : ℕ
capacity = 1024

module _ {ℓ} (C : Type ℓ) where
  -- `waiting` is the buffer, oldest first. `taken` are the connections that `AcceptConn` has returned
  -- and `closed` those that were closed instead of being sent, each in order.
  pub record Queue : Type ℓ where
    pub waiting : List C
    pub taken : List C
    pub closed : List C

module _ {ℓ} {C : Type ℓ} where
  abbrev pub empty : Queue C
  empty = record { waiting = []; taken = []; closed = [] }

  -- `select { case connChan <- conn: default: conn.Close() }`
  unfoldable pub offer : Queue C → C → Queue C
  offer q c =
      if ltb (length q.waiting) capacity
      then record q { waiting = q.waiting ++ c ∷ [] }
      else record q { closed = q.closed ++ c ∷ [] }

  take_from : Queue C → List C → Queue C
  take_from q [] = q
  take_from q (c ∷ cs) = record q { waiting = cs; taken = q.taken ++ c ∷ [] }

  -- `conn = <-l.ConnChan`; on an empty channel the receiver waits, and nothing changes.
  unfoldable pub accept_conn : Queue C → Queue C
  unfolding take_from
  accept_conn q = take_from q q.waiting
