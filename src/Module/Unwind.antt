-- ===== src/Module/Unwind.antt =====
-- How loading the module ends, `dmaplane_init`, driver/main.c.
use dmaplane_master.Base.{
  ℕ, ◌≡◌, ◌⊎◌, refl, inl, inr, List, [], ◌∷◌, ◌++◌, map, reverse, Option, none, some, Errno, enomem,
}
use dmaplane_master.Kernel.{
  Resource, Event, get, heap, object, platform_device, platform_bus, device_numbers, char_device,
  device_class, device_node,
}
use dmaplane_master.Rdma.{Got, got, failed}
use dmaplane_master.Rdma.Unwind.{unwinding}
use dmaplane_master.Module.{
  Installed, Loaded, loaded, not_loaded, LoadAnswers, err_free_dev, err_put_pdev, err_unreg_pdev,
  err_unreg_region, err_cdev_del, err_class_destroy, load_node, load_class, load_cdev, load_region,
  load_mask32, load_mask64, load_add, load_pdev, load_dev, module_init,
}

-- What a loaded module holds of its own, in the order in which it is obtained
abbrev pub objects : Installed → List Resource
objects m =
    heap m.dev
    ∷ object platform_device m.pdev
    ∷ object platform_bus m.pdev
    ∷ object device_numbers m.devno
    ∷ object char_device m.devno
    ∷ object device_class m.class
    ∷ object device_node m.node
    ∷ []

abbrev pub LoadEnd : List Event → Loaded × List Event → Type 0
LoadEnd log r =
    ((m : Installed) × (r.0 ≡ loaded m) × (r.1 ≡ map get (reverse (objects m)) ++ log))
    ⊎ ((e : Errno) × (rs : List Resource) × (r.0 ≡ not_loaded e) × (r.1 ≡ unwinding rs log))

-- The objects obtained so far
abbrev three : (dev pdev : ℕ) → List Resource
three dev p = heap dev ∷ object platform_device p ∷ object platform_bus p ∷ []

abbrev five : (dev pdev devno : ℕ) → List Resource
five dev p n = three dev p ++ (object device_numbers n ∷ object char_device n ∷ [])

module _ (a : LoadAnswers) (log : List Event) where
  load_node-End :
      (dev p n c : ℕ) (g : Got)
      → LoadEnd log (
          load_node dev p n c g
            (get (object device_class c) ∷ (map get (reverse (five dev p n)) ++ log)))
  unfolding load_node err_class_destroy err_cdev_del err_unreg_region err_unreg_pdev err_free_dev
  load_node-End dev p n c (failed e) =
      inr (e, five dev p n ++ (object device_class c ∷ []), refl, refl)
  load_node-End dev p n c (got d) = inl (_, refl, refl)

  load_class-End :
      (dev p n : ℕ) (g : Got)
      → LoadEnd log (load_class a dev p n g (map get (reverse (five dev p n)) ++ log))
  unfolding load_class err_cdev_del err_unreg_region err_unreg_pdev err_free_dev
  load_class-End dev p n (failed e) = inr (e, five dev p n, refl, refl)
  load_class-End dev p n (got c) = load_node-End dev p n c a.node

  load_cdev-End :
      (dev p n : ℕ) (o : Option Errno)
      → LoadEnd log (
          load_cdev a dev p n o
            (get (object device_numbers n) ∷ (map get (reverse (three dev p)) ++ log)))
  unfolding load_cdev err_unreg_region err_unreg_pdev err_free_dev
  load_cdev-End dev p n (some e) =
      inr (e, three dev p ++ (object device_numbers n ∷ []), refl, refl)
  load_cdev-End dev p n none = load_class-End dev p n a.class

  load_region-End :
      (dev p : ℕ) (g : Got)
      → LoadEnd log (load_region a dev p g (map get (reverse (three dev p)) ++ log))
  unfolding load_region err_unreg_pdev err_free_dev
  load_region-End dev p (failed e) = inr (e, three dev p, refl, refl)
  load_region-End dev p (got n) = load_cdev-End dev p n a.cdev

  load_mask32-End :
      (dev p : ℕ) (o : Option Errno)
      → LoadEnd log (load_mask32 a dev p o (map get (reverse (three dev p)) ++ log))
  unfolding load_mask32 err_unreg_pdev err_free_dev
  load_mask32-End dev p (some e) = inr (e, three dev p, refl, refl)
  load_mask32-End dev p none = load_region-End dev p a.region

  load_mask64-End :
      (dev p : ℕ) (o : Option Errno)
      → LoadEnd log (load_mask64 a dev p o (map get (reverse (three dev p)) ++ log))
  unfolding load_mask64
  load_mask64-End dev p (some e) = load_mask32-End dev p a.mask32
  load_mask64-End dev p none = load_region-End dev p a.region

  load_add-End :
      (dev p : ℕ) (o : Option Errno)
      → LoadEnd log (load_add a dev p o (get (object platform_device p) ∷ get (heap dev) ∷ log))
  unfolding load_add err_put_pdev err_free_dev
  load_add-End dev p (some e) = inr (e, heap dev ∷ object platform_device p ∷ [], refl, refl)
  load_add-End dev p none = load_mask64-End dev p a.mask64

  load_pdev-End : (dev : ℕ) (o : Option ℕ) → LoadEnd log (load_pdev a dev o (get (heap dev) ∷ log))
  unfolding load_pdev err_free_dev
  load_pdev-End dev none = inr (enomem, heap dev ∷ [], refl, refl)
  load_pdev-End dev (some p) = load_add-End dev p a.add

  load_dev-End : (o : Option ℕ) → LoadEnd log (load_dev a o log)
  unfolding load_dev
  load_dev-End none = inr (enomem, [], refl, refl)
  load_dev-End (some d) = load_pdev-End d a.pdev

  -- Loading the module is all or nothing: it succeeds and has obtained exactly the objects of a loaded
  -- module, in their order; or it fails, and what it had obtained until then has been given back in the
  -- reverse order. This is so whatever the kernel answers.
  pub module_init_lem : LoadEnd log (module_init a log)
  module_init_lem = load_dev-End a.dev
