-- ===== src/Payments/Calls.antt =====
-- The calls of both repositories, interleaved.
use nim_near.Prelude.{List, [], ◌∷◌}
use nim_near.Store.{Db}
use nim_near.Requests.Calls as Requests
use nim_near.Purchases.Calls as Purchases

pub data Call : Type 0 where
  on_request : Requests.Call → Call
  on_purchase : Purchases.Call → Call

unfoldable pub step : Call → Db → Db
step (on_request c) db = Requests.step c db
step (on_purchase c) db = Purchases.step c db

unfoldable pub run : List Call → Db → Db
run [] db = db
run (c ∷ cs) db = run cs (step c db)
