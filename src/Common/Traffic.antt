-- ===== src/Common/Traffic.antt =====
-- A thread that makes calls of an `AtomicQueueOps` one after the other, and keeps what it has sent and
-- what it has received.
use atomic_queue_rs.Base.{Bool, true, false, Option, none, some, List, [], ◌∷◌}
use atomic_queue_rs.Program.{Program, ret, ◌>>=◌, ◌>>◌}
use atomic_queue_rs.Common.{AtomicQueueOps}

pub data Action (T : Type 0) : Type 0 where
  push : T → Action T
  try_push : T → Action T
  pop : Action T
  try_pop : Action T

module _ {T : Type 0} where
  -- The elements that the calls may send.
  abbrev pub AllSend : (T → Type 0) → List (Action T) → Type 0
  AllSend P [] = Unit
  AllSend P (push x ∷ cs) = P x × AllSend P cs
  AllSend P (try_push x ∷ cs) = P x × AllSend P cs
  AllSend P (pop ∷ cs) = AllSend P cs
  AllSend P (try_pop ∷ cs) = AllSend P cs

  -- The elements that the calls offer.
  abbrev pub sends : List (Action T) → List T
  sends [] = []
  sends (push x ∷ cs) = x ∷ sends cs
  sends (try_push x ∷ cs) = x ∷ sends cs
  sends (pop ∷ cs) = sends cs
  sends (try_pop ∷ cs) = sends cs

  abbrev pub and_sent : Bool → T → List T × List T → List T × List T
  and_sent true x r = (x ∷ r.0, r.1)
  and_sent false x r = r

  abbrev pub and_received : Option T → List T × List T → List T × List T
  and_received (some y) r = (r.0, y ∷ r.1)
  and_received none r = r

-- The elements sent (for `try_push`, those accepted) and the elements received, in their order.
module _ {M T : Type 0} (ops : AtomicQueueOps M T) where
  unfoldable pub perform : List (Action T) → Program M (List T × List T)
  perform [] = ret ([], [])
  perform (push x ∷ cs) = do ops.push x; r ← perform cs; ret (and_sent true x r)
  perform (try_push x ∷ cs) = do b ← ops.try_push x; r ← perform cs; ret (and_sent b x r)
  perform (pop ∷ cs) = do y ← ops.pop; r ← perform cs; ret (and_received (some y) r)
  perform (try_pop ∷ cs) = do o ← ops.try_pop; r ← perform cs; ret (and_received o r)
