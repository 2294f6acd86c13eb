-- ===== src/Export/Lifetime.antt =====
-- The end of a dma-buf, and any sequence of calls, driver/dmabuf_export.c.
use dmaplane_master.Base.{
  ℕ, ◌≡◌, ◌≢◌, refl, ◌∙◌, inl, inr, Bool, false, List, [], ◌∷◌, Option, none, some, get_elem?, set,
  get_elem?-set_ne, get_elem?-set_cases,
}
use dmaplane_master.Kernel.{Machine}
use dmaplane_master.Buffer.{Store}
use dmaplane_master.Buffer.Create.{Params, Answers}
use dmaplane_master.Buffer.Destroy.{ioctl_create_buffer, ioctl_destroy_buffer}
use dmaplane_master.Export.{
  DmabufCtx, Exports, mark_exported, dmabuf_release, ExportAnswers, ioctl_export_dmabuf,
  close_found, close_dmabuf,
}
use dmaplane_master.Export.Frame.{ioctl_create-Framed, ioctl_destroy-Framed}
use dmaplane_master.Export.Backed.{
  Behind-moved, Backed, AliveAt, on_store-Backed, same-Backed, ioctl_export-Backed,
}

-- The dma-bufs other than the one that goes
module _ (s : Exports) (w : Backed s) (k : ℕ) (x : DmabufCtx) (h : AliveAt s k x) where
  abbrev closed : Exports
  closed = record s { store = mark_exported x.slot false none s.store; live = set s.live k none }

  other_alive : (j : ℕ) (y : DmabufCtx) → AliveAt closed j y → (k ≢ j) × AliveAt s j y
  other_alive j y g = elim (get_elem?-set_cases s.live k j none (some y) g) [
    | inl (e, f) ↦ cc
    | inr (n, f) ↦ (n, f)
  ]

  closed-Backed : Backed closed
  closed-Backed = record {
    behind = λ j y g.
        let (n, f) = other_alive j y g in
        let (b, z) = w.behind j y f in
        (
          b,
          Behind-moved s.store closed.store y b z (
              get_elem?-set_ne s.store.buffers x.slot y.slot _ (λ e. n (w.one_each k j x y h f e))
              ∙ z.stands),
        );
    one_each = λ i j y z f g. w.one_each i j y z (other_alive i y f).1 (other_alive j z g).1;
  }

close_found-Backed :
    (k : ℕ) (o : Option (Option DmabufCtx)) (s : Exports)
    → get_elem? s.live k ≡ o
    → Backed s
    → Backed (close_found k o s)
unfolding close_found dmabuf_release
close_found-Backed k none s e w = w
close_found-Backed k (some none) s e w = w
close_found-Backed k (some (some x)) s e w =
    same-Backed (closed s w k x e) _ refl refl (closed-Backed s w k x e)

-- The calls on the buffers and on their dma-bufs. `close` is the end of a dma-buf's last reference.
pub data Step : Type 0 where
  create : Machine → Answers → Option Params → (copied : Bool) → Step
  destroy : Option ℕ → Step
  export_one : ExportAnswers → Option ℕ → (copied : Bool) → Step
  close : ℕ → Step

unfoldable pub step : Step → Exports → Exports
step (create m a p copied) s = record s { store = (ioctl_create_buffer m a p copied s.store).1 }
step (destroy i) s = record s { store = (ioctl_destroy_buffer i s.store).1 }
step (export_one a i copied) s = (ioctl_export_dmabuf a i copied s).1
step (close k) s = close_dmabuf k s

unfoldable pub steps : List Step → Exports → Exports
steps [] s = s
steps (o ∷ os) s = steps os (step o s)

step-Backed : (o : Step) (s : Exports) → Backed s → Backed (step o s)
unfolding step close_dmabuf
step-Backed (create m a p copied) s w =
    on_store-Backed s _ (ioctl_create-Framed m a p copied s.store) w
step-Backed (destroy i) s w = on_store-Backed s _ (ioctl_destroy-Framed i s.store) w
step-Backed (export_one a i copied) s w = ioctl_export-Backed a i copied s w
step-Backed (close k) s w = close_found-Backed k (get_elem? s.live k) s refl w

steps-Backed : (os : List Step) (s : Exports) → Backed s → Backed (steps os s)
unfolding steps
steps-Backed [] s w = w
steps-Backed (o ∷ os) s w = steps-Backed os (step o s) (step-Backed o s w)

abbrev pub no_exports : Store → Exports
no_exports t = record {
  store = t;
  live = [];
  dangling = [];
  exported = 0;
  released = 0;
  attachments = 0;
  detachments = 0;
  maps = 0;
  unmaps = 0;
  log = [];
}

-- After any sequence of CREATE_BUFFER, DESTROY_BUFFER, EXPORT_DMABUF and ends of dma-bufs, failures
-- included, from a table without dma-bufs, as long as `dma_buf_fd` has not failed in an export and so no
-- dma-buf dangles: behind every dma-buf that is alive stands a
-- buffer that is still in use and marked as exported to that dma-buf, with the pages, the number of
-- pages, the size and the address that the dma-buf hands out; and no two share a buffer.
pub dmabuf_buffers :
    (os : List Step) (t : Store)
    → (steps os (no_exports t)).dangling ≡ []
    → Backed (steps os (no_exports t))
dmabuf_buffers os t none_dangle =
    steps-Backed os (no_exports t) (record { behind = λ k x h. cc; one_each = λ k j x y h. cc })
