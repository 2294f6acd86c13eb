-- ===== src/Module.antt =====
-- Loading and unloading the module, driver/main.c, as it is built without CONFIG_DMAPLANE_GPU.
pub mod Unwind
pub mod Freeing
pub mod Exit
use dmaplane_master.Base.{
  ℕ, zero, suc, Bool, true, false, List, [], ◌∷◌, ◌++◌, Option, none, some, if◌then◌else◌, get_or,
  set, map, replicate, Errno, enomem,
}
use dmaplane_master.Kernel.{
  Resource, Event, get, put, heap, object, platform_device, platform_bus, device_numbers,
  char_device, device_class, device_node,
}
use dmaplane_master.Rdma.{Got, got, failed, Engine}
use dmaplane_master.Device.{Device, channel_destroy, max_channels}
use dmaplane_master.Buffer.{Store, zero_buffer, max_buffers}
use dmaplane_master.Buffer.Destroy.{destroy_buffer}
use dmaplane_master.Rdma.Peer.{teardown}
use dmaplane_master.Region.{MrEntry, Regions, max_mrs}
use dmaplane_master.Region.Deregister.{sweep}

-- The objects of a module that is loaded; the character device goes by its numbers.
pub record Installed : Type 0 where
  pub dev : ℕ
  pub pdev : ℕ
  pub devno : ℕ
  pub class : ℕ
  pub node : ℕ

pub data Loaded : Type 0 where
  loaded : Installed → Loaded
  not_loaded : Errno → Loaded

-- What the kernel answers while the module is loaded
pub record LoadAnswers : Type 0 where
  pub dev : Option ℕ
  pub pdev : Option ℕ
  pub add : Option Errno
  pub mask64 : Option Errno
  pub mask32 : Option Errno
  pub region : Got
  pub cdev : Option Errno
  pub class : Got
  pub node : Got

-- The labels; the latest event stands first. An unregistered platform device is also put.
unfoldable pub err_free_dev : Errno → (dev : ℕ) → List Event → Loaded × List Event
err_free_dev e dev log = (not_loaded e, put (heap dev) ∷ log)

unfoldable pub err_put_pdev : Errno → (dev pdev : ℕ) → List Event → Loaded × List Event
err_put_pdev e dev pdev log = err_free_dev e dev (put (object platform_device pdev) ∷ log)

unfoldable pub err_unreg_pdev : Errno → (dev pdev : ℕ) → List Event → Loaded × List Event
err_unreg_pdev e dev pdev log =
    err_free_dev e dev (put (object platform_device pdev) ∷ put (object platform_bus pdev) ∷ log)

unfoldable pub err_unreg_region : Errno → (dev pdev devno : ℕ) → List Event → Loaded × List Event
err_unreg_region e dev pdev n log = err_unreg_pdev e dev pdev (put (object device_numbers n) ∷ log)

unfoldable pub err_cdev_del : Errno → (dev pdev devno : ℕ) → List Event → Loaded × List Event
err_cdev_del e dev pdev n log = err_unreg_region e dev pdev n (put (object char_device n) ∷ log)

unfoldable pub err_class_destroy :
    Errno → (dev pdev devno class : ℕ) → List Event → Loaded × List Event
err_class_destroy e dev pdev n c log = err_cdev_del e dev pdev n (put (object device_class c) ∷ log)

-- Each step takes the answer of its own call.
unfoldable pub load_node : (dev pdev devno class : ℕ) → Got → List Event → Loaded × List Event
load_node dev pdev n c (failed e) log = err_class_destroy e dev pdev n c log
load_node dev pdev n c (got d) log = (
  loaded (record { dev = dev; pdev = pdev; devno = n; class = c; node = d }),
  get (object device_node d) ∷ log,
)

unfoldable pub load_class :
    LoadAnswers → (dev pdev devno : ℕ) → Got → List Event → Loaded × List Event
load_class a dev pdev n (failed e) log = err_cdev_del e dev pdev n log
load_class a dev pdev n (got c) log =
    load_node dev pdev n c a.node (get (object device_class c) ∷ log)

unfoldable pub load_cdev :
    LoadAnswers → (dev pdev devno : ℕ) → Option Errno → List Event → Loaded × List Event
load_cdev a dev pdev n (some e) log = err_unreg_region e dev pdev n log
load_cdev a dev pdev n none log = load_class a dev pdev n a.class (get (object char_device n) ∷ log)

unfoldable pub load_region : LoadAnswers → (dev pdev : ℕ) → Got → List Event → Loaded × List Event
load_region a dev pdev (failed e) log = err_unreg_pdev e dev pdev log
load_region a dev pdev (got n) log =
    load_cdev a dev pdev n a.cdev (get (object device_numbers n) ∷ log)

-- The mask of 64 bits, and of 32 where that fails
unfoldable pub load_mask32 :
    LoadAnswers → (dev pdev : ℕ) → Option Errno → List Event → Loaded × List Event
load_mask32 a dev pdev (some e) log = err_unreg_pdev e dev pdev log
load_mask32 a dev pdev none log = load_region a dev pdev a.region log

unfoldable pub load_mask64 :
    LoadAnswers → (dev pdev : ℕ) → Option Errno → List Event → Loaded × List Event
load_mask64 a dev pdev (some e) log = load_mask32 a dev pdev a.mask32 log
load_mask64 a dev pdev none log = load_region a dev pdev a.region log

unfoldable pub load_add :
    LoadAnswers → (dev pdev : ℕ) → Option Errno → List Event → Loaded × List Event
load_add a dev pdev (some e) log = err_put_pdev e dev pdev log
load_add a dev pdev none log =
    load_mask64 a dev pdev a.mask64 (get (object platform_bus pdev) ∷ log)

unfoldable pub load_pdev : LoadAnswers → (dev : ℕ) → Option ℕ → List Event → Loaded × List Event
load_pdev a dev none log = err_free_dev enomem dev log
load_pdev a dev (some p) log = load_add a dev p a.add (get (object platform_device p) ∷ log)

-- `dmaplane_init`
unfoldable pub load_dev : LoadAnswers → Option ℕ → List Event → Loaded × List Event
load_dev a none log = (not_loaded enomem, log)
load_dev a (some d) log = load_pdev a d a.pdev (get (heap d) ∷ log)

abbrev pub module_init : LoadAnswers → List Event → Loaded × List Event
module_init a log = load_dev a a.dev log

-- The device, with what has been obtained and given back for buffers in the order of the calls, and
-- for the module's own objects the latest first
pub record System : Type 0 where
  pub device : Device
  pub store : Store
  pub engine : Engine
  pub regions : Regions
  pub buffer_events : List Event
  pub log : List Event

-- The loop over the channels, with `n` left from slot `i` on
unfoldable pub stop_channels : (n i : ℕ) → Device → Device
stop_channels zero i d = d
stop_channels (suc n) i d = stop_channels n (suc i) (channel_destroy i d)

-- The regions, and the context, where it is up; then every slot is marked free.
abbrev pub forget_mr : MrEntry → MrEntry
forget_mr e = record e { in_use = false }

unfoldable pub exit_rdma : System → System
exit_rdma s =
    let t =
      if s.engine.ctx.initialized
      then record s { regions = sweep s.engine.ctx max_mrs 0 s.regions; engine = teardown s.engine }
      else s in
    record t { regions = record (t.regions) { mrs = map forget_mr t.regions.mrs } }

-- The loop over the buffers; what `dmabuf_rdma_destroy_buffer` answers is ignored.
unfoldable pub free_slot : (slot : ℕ) → System → System
free_slot slot s =
    let b = get_or s.store.buffers slot zero_buffer in
    let r = destroy_buffer s.store b.id in
    if b.in_use then record s { store = r.1; buffer_events = s.buffer_events ++ r.2 } else s

unfoldable pub free_buffers : (n slot : ℕ) → System → System
free_buffers zero slot s = s
free_buffers (suc n) slot s = free_buffers n (suc slot) (free_slot slot s)

unfoldable pub drop_chardev : Installed → System → System
drop_chardev m s = record s {
  log =
      put (object device_numbers m.devno)
      ∷ put (object char_device m.devno)
      ∷ put (object device_class m.class)
      ∷ put (object device_node m.node)
      ∷ s.log;
}

unfoldable pub drop_device : Installed → System → System
drop_device m s = record s {
  log =
      put (heap m.dev)
      ∷ put (object platform_device m.pdev)
      ∷ put (object platform_bus m.pdev)
      ∷ s.log;
}

-- `dmaplane_exit`
unfoldable pub module_exit : Installed → System → System
module_exit m s =
    let stopped = record s { device = stop_channels max_channels 0 s.device } in
    drop_device m (free_buffers max_buffers 0 (exit_rdma (drop_chardev m stopped)))
