-- ===== src/Tests/Exports.antt =====
-- A buffer that is exported, while a call tries to destroy it.
use dmaplane_master.Base.{find_index, ◌≡◌, refl, true, some, [], ◌∷◌, replicate, List}
use dmaplane_master.Buffer.{Buffer, Store, type_pages, numa_any, zero_buffer}
use dmaplane_master.Rdma.{got}
use dmaplane_master.Buffer.Destroy.{destroy_buffer, ioctl_destroy_buffer}
use dmaplane_master.Export.{
  close_dmabuf, close_found, dmabuf_release, export_end, export_fd, export_dmabuf, export_ctx,
  export_found, export, ioctl_export_dmabuf, ExportAnswers,
}
use dmaplane_master.Export.Backed.{Backed}
use dmaplane_master.Export.Lifetime.{
  step, Step, destroy, export_one, close, steps, no_exports, dmabuf_buffers,
}

abbrev pub pages_buffer : Buffer
pages_buffer = record zero_buffer {
  id = 1;
  alloc_type = type_pages;
  size = 8192;
  in_use = true;
  vaddr = some 300;
  pages = some (100, 200 ∷ 201 ∷ []);
  nr_pages = 2;
  numa_node = numa_any;
}

abbrev pub one_buffer : Store
one_buffer = record {
  buffers = pages_buffer ∷ replicate 63 zero_buffer;
  next_buf_id = 2;
  created = 1;
  destroyed = 0;
  local_allocs = 0;
  remote_allocs = 0;
  anon_allocs = 1;
}

abbrev exporting : ExportAnswers
exporting = record { ctx_at = some 900; exported = got 901; fd = got 3 }

abbrev history : List Step
history =
    export_one exporting (some 1) true
    ∷ destroy (some 1)
    ∷ export_one exporting (some 1) true
    ∷ close 0
    ∷ export_one exporting (some 1) true
    ∷ []

none_dangle : (steps history (no_exports one_buffer)).dangling ≡ []
unfolding steps step ioctl_export_dmabuf export export_found export_ctx export_dmabuf export_fd
    export_end ioctl_destroy_buffer destroy_buffer close_dmabuf close_found dmabuf_release
    find_index
none_dangle = refl

dmabuf_buffers_example : Backed (steps history (no_exports one_buffer))
dmabuf_buffers_example = dmabuf_buffers history one_buffer none_dangle
