-- ===== src/RevOrder/Feed.antt =====
-- A sequence of events given to InOrder, as the loops of stream.go over sendToClient do.
use etre.Base.{Bool, true, false, Option, none, some, List, [], ◌∷◌, ◌++◌}
use etre.Etre.{CdcEvent, Outcome, returns, ◌>>=◌}
use etre.RevOrder.LruCache.{Lru}
use etre.RevOrder.{RevOrder, in_order}

-- The events that the caller syncs on a reply.
abbrev pub delivered : CdcEvent → Bool × Option (List CdcEvent) → List CdcEvent
delivered e (false, _) = []
delivered e (true, none) = e ∷ []
delivered e (true, some buf) = buf

module _ (L : Lru) where
  unfoldable pub feed : RevOrder L → List CdcEvent → Outcome (RevOrder L × List CdcEvent)
  feed r [] = returns (r, [])
  feed r (e ∷ es) = do
    (r', reply) ← in_order L r e
    (r'', ds) ← feed r' es
    returns (r'', delivered e reply ++ ds)
