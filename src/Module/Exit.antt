-- ===== src/Module/Exit.antt =====
-- Unloading the module, `dmaplane_exit`, driver/main.c.
use dmaplane_master.Buffer.{empty_store}
use dmaplane_master.Region.World.{Whole, steps, fresh_world, World, Step}
use dmaplane_master.Rdma.Peer.{teardown}
use dmaplane_master.Region.Deregister.{sweep}
use dmaplane_master.Kernel.{Machine, get, Resource, Event, gets, puts}
use dmaplane_master.Device.{Device, max_channels}
use dmaplane_master.Buffer.History.{Op, run}
use dmaplane_master.Module.{stop_channels, Installed, System}
use dmaplane_master.Module.Unwind.{objects}
use dmaplane_master.Base.{map, reverse, ◌+◌, ◌≡◌, List}
use dmaplane_master.Buffer.Conserve.{held}
use dmaplane_master.Buffer.Handles.{WellFormed}
use dmaplane_master.Region.{max_mrs}
use dmaplane_master.Module.Freeing.{Freeing}

-- A system whose parts sequences of calls have led to
record Reached (x : Resource) (s : System) : Type 0 where
  world : Whole x (record { engine = s.engine; regions = s.regions })
  well_formed : WellFormed s.store
  balance : gets x s.buffer_events ≡ puts x s.buffer_events + held x s.store

abbrev pub Settled : Resource → List Event → Type 0
Settled x es = gets x es ≡ puts x es

abbrev taken_down : System → World
taken_down s = record {
  engine = teardown s.engine;
  regions = sweep s.engine.ctx max_mrs 0 s.regions;
}

abbrev stopped : System → System
stopped s = record s { device = stop_channels max_channels 0 s.device }

-- The device when the module goes, after sequences of calls on the regions and the context, and on the
-- buffers
abbrev pub before_exit : Installed → List Step → Machine → List Op → Device → System
before_exit m os machine ops d = record {
  device = d;
  store = (run machine ops empty_store).0;
  engine = (steps os fresh_world).engine;
  regions = (steps os fresh_world).regions;
  buffer_events = (run machine ops empty_store).1;
  log = map get (reverse (objects m));
}
