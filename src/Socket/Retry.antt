-- ===== src/Socket/Retry.antt =====
-- A connection that is lost while the client is not told to stop.
use Prim.Native.String.{String}
use vncc.Base.{◌≡◌, Bool, false}
use vncc.Socket.{Socket}

-- With no loop running and no thread about to start one, whether told to stop or not.
record IsAway (s : Socket) : Type 0 where
  pub quiet : s.live ≡ false
  pub alone : s.spawned ≡ 0
