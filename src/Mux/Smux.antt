-- ===== src/Mux/Smux.antt =====
-- mux/client.go: the interface `client`, with the other calls of foreign code that mux/mux.go makes.
use gost_plugin.Common.{Bool, ℕ, ◌+◌, ◌≡◌, ◌≢◌, ◌≤◌}
use gost_plugin.Foreign.{Outcome, ok}

-- smux sessions and the connections below them, as operations on a state `W` of the outside world:
-- clients `C`, connections `N`, streams `T`.
pub record Smux (W C N T : Type 0) : Type 0 where
  pub is_closed : W → C → Bool
  pub num_streams : W → C → ℕ
  pub open_new_stream : W → C → W × Outcome T
  pub close_client : W → C → W
  pub close_conn : W → N → W
  pub new_client : W → N → W × Outcome C

-- What mux/mux.go relies on: a call on one client does not touch the others, opening a stream adds
-- at most one, a new client has none, and nothing else adds streams.
pub record Lawful {W C N T : Type 0} (S : Smux W C N T) : Type 0 where
  pub close_client-is_closed :
      (w : W) (c d : C) → c ≢ d → S.is_closed (S.close_client w c) d ≡ S.is_closed w d
  pub close_client-num_streams :
      (w : W) (c d : C) → c ≢ d → S.num_streams (S.close_client w c) d ≡ S.num_streams w d
  pub close_client-le : (w : W) (c : C) → S.num_streams (S.close_client w c) c ≤ S.num_streams w c
  pub close_conn-is_closed :
      (w : W) (n : N) (d : C) → S.is_closed (S.close_conn w n) d ≡ S.is_closed w d
  pub close_conn-num_streams :
      (w : W) (n : N) (d : C) → S.num_streams (S.close_conn w n) d ≡ S.num_streams w d
  pub open_new_stream-others :
      (w : W) (c d : C) → c ≢ d → S.num_streams (S.open_new_stream w c).0 d ≡ S.num_streams w d
  pub open_new_stream-le :
      (w : W) (c : C) → S.num_streams (S.open_new_stream w c).0 c ≤ S.num_streams w c + 1
  pub new_client-le :
      (w : W) (n : N) (d : C) → S.num_streams (S.new_client w n).0 d ≤ S.num_streams w d
  pub new_client-zero :
      (w w' : W) (n : N) (c : C) → S.new_client w n ≡ (w', ok c) → S.num_streams w' c ≡ 0
