-- ===== src/Sweep/Runs.antt =====
-- The runs of the loop at one queue depth, driver/flow_control.c.
use dmaplane_master.Base.{ℕ, Bool, true, List, [], ◌∷◌, none, Errno}
use dmaplane_master.Region.Register.{completion, poll_error}
use dmaplane_master.Sweep.{SweepTurn}

-- Turns in which no call fails
abbrev pub served : List (ℕ × ℕ × Bool) → List SweepTurn
served [] = []
served ((l, d, r) ∷ xs) =
    record { send = λ i. none; poll = completion true; latency = l; drained = d; reposted = r }
    ∷ served xs

-- Turns in which every send is posted and every poll fails
abbrev pub broken : Errno → SweepTurn
broken e = record {
  send = λ i. none;
  poll = poll_error e;
  latency = 0;
  drained = 0;
  reposted = true;
}
