-- ===== src/Limiter/Gate/Schedule.antt =====
-- Callers of the gate of internal/gateway/limiter.go, interleaved in any order. Each act is one
-- stretch under the mutex or one operation of the condition variable; `Signal` and `Broadcast` come
-- after the mutex is given up, so other acts may come between.
use yzapi.Base.{ℕ, ◌+◌, ◌-◌, ◌==◌, Bool, List, [], ◌∷◌, if◌then◌else◌}
use yzapi.Base.Int.{ℤ}
use yzapi.Limiter.Gate.{
  Gate, Place, admitted, refused, in_queue, new_gate, enter, poll, release, configure,
}

-- The gate, and how many callers hold a slot, run the loop of `acquire` or sleep in `Wait`, and
-- how many calls of `Signal` and `Broadcast` are still to come.
pub record System : Type 0 where
  pub gate : Gate
  pub holders : ℕ
  pub awake : ℕ
  pub asleep : ℕ
  pub signals : ℕ
  pub broadcasts : ℕ

pub data Act : Type 0 where
  arrives : Act
  polls : Bool → Act
  releases : Act
  configures : ℤ → ℤ → Act
  signals_one : Act
  broadcasts_all : Act
  -- the `AfterFunc` of some caller's timeout or context
  alarm : Act

abbrev pub init : ℤ → ℤ → System
init limit queue = record {
  gate = new_gate limit queue;
  holders = 0;
  awake = 0;
  asleep = 0;
  signals = 0;
  broadcasts = 0;
}

-- A caller that has queued up runs the loop of `acquire` next.
arrived : System → Gate × Place → System
arrived s (g, admitted) = record s { gate = g; holders = s.holders + 1 }
arrived s (g, refused e) = record s { gate = g }
arrived s (g, in_queue) = record s { gate = g; awake = s.awake + 1 }

polled : System → Gate × Place → System
polled s (g, admitted) = record s { gate = g; awake = s.awake - 1; holders = s.holders + 1 }
polled s (g, refused e) = record s { gate = g; awake = s.awake - 1 }
polled s (g, in_queue) = record s { gate = g; awake = s.awake - 1; asleep = s.asleep + 1 }

wake_one : System → System
wake_one s = if s.asleep == 0 then s else record s { asleep = s.asleep - 1; awake = s.awake + 1 }

wake_all : System → System
wake_all s = record s { asleep = 0; awake = s.awake + s.asleep }

-- An act that nobody is there to perform changes nothing.
unfoldable pub act : System → Act → System
unfolding arrived polled wake_one wake_all enter poll release configure
act s arrives = arrived s (enter s.gate)
act s (polls over) = if s.awake == 0 then s else polled s (poll over s.gate)
act s releases =
    if s.holders == 0
    then s
    else record s { gate = release s.gate; holders = s.holders - 1; signals = s.signals + 1 }
act s (configures limit queue) = record s {
  gate = configure s.gate limit queue;
  broadcasts = s.broadcasts + 1;
}
act s signals_one = if s.signals == 0 then s else wake_one (record s { signals = s.signals - 1 })
act s broadcasts_all =
    if s.broadcasts == 0 then s else wake_all (record s { broadcasts = s.broadcasts - 1 })
act s alarm = wake_all s

unfoldable pub run : System → List Act → System
run s [] = s
run s (a ∷ rest) = run (act s a) rest
