-- ===== src/Agent/Session/Life.antt =====
-- The first end of a session is its end.
use clawdwallet.Base.{◌≡◌, Option, Error, arith}
use clawdwallet.Agent.Session.{Session, finish}

-- A second `finish` changes nothing.
finish-finish : (s : Session) (e f : Option Error) → finish (finish s e) f ≡ finish s e
unfolding finish
finish-finish s e f = ground arith
