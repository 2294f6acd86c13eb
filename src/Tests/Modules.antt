-- ===== src/Tests/Modules.antt =====
-- A module that is loaded, used, and unloaded with one buffer left.
use dmaplane_master.Base.{true, none, some, [], ◌∷◌, List}
use dmaplane_master.Buffer.History.{Op, create}
use dmaplane_master.Rdma.{got}
use dmaplane_master.Module.{Installed, LoadAnswers, module_init}
use dmaplane_master.Module.Unwind.{LoadEnd, module_init_lem}
use dmaplane_master.Tests.Buffers.{request, answers}

abbrev kernel : LoadAnswers
kernel = record {
  dev = some 1000;
  pdev = some 1001;
  add = none;
  mask64 = none;
  mask32 = none;
  region = got 240;
  cdev = none;
  class = got 1002;
  node = got 1003;
}

module_init_lem_example : LoadEnd [] (module_init kernel [])
module_init_lem_example = module_init_lem kernel []

abbrev installed : Installed
installed = record { dev = 1000; pdev = 1001; devno = 240; class = 1002; node = 1003 }

abbrev ops : List Op
ops = create answers (some request) true ∷ []
