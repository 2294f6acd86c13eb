-- ===== src/Export/Frame.antt =====
-- What creating and destroying buffers, driver/dmabuf_rdma.c, does to a buffer that is exported.
use dmaplane_master.Base.{
  ℕ, ◌≡◌, ◌≢◌, refl, ◌∙◌, sym, ap, subst, inl, inr, Bool, true, false, Bool-cases, Option-cases,
  ◌||◌, ◌&&◌, Option, none, some, get_elem?, set, get_elem?-set_ne, find_index-some, Status, ok,
  err, arith,
}
use mathlib.Core.Bool.{false≢true}
use dmaplane_master.Kernel.{Machine}
use dmaplane_master.Buffer.{Buffer, Store, is_free, find_buffer}
use dmaplane_master.Buffer.Create.{Params, Answers, Outcome, create_buffer}
use dmaplane_master.Buffer.Destroy.{
  is_positive, destroy_buffer, create_end, ioctl_create_buffer, ioctl_destroy_buffer,
}
use dmaplane_master.Buffer.Outcomes.{create_buffer_cases}
use dmaplane_master.Buffer.Lifetime.{find_buffer-some, destroy_unknown, destroy_found, removed}

-- Every exported buffer is as it was, in its slot.
abbrev pub Framed : Store → Store → Type 0
Framed s t =
    (slot : ℕ) (b : Buffer)
    → get_elem? s.buffers slot ≡ some b
    → b.in_use ≡ true
    → b.dmabuf_exported ≡ true
    → get_elem? t.buffers slot ≡ some b

-- A write to the slot of a buffer that is free, or not exported
pub Framed-set :
    (s t : Store) (k : ℕ) (a b : Buffer)
    → get_elem? s.buffers k ≡ some a
    → (a.in_use && a.dmabuf_exported) ≡ false
    → t.buffers ≡ set s.buffers k b
    → Framed s t
Framed-set s t k a b at idle w slot c g u x =
    ap (λ bs. get_elem? bs slot) w ∙ get_elem?-set_ne s.buffers k slot b apart ∙ g
  where
    apart : k ≢ slot
    apart e =
        let same : c ≡ a = (let h = subst (λ n. get_elem? s.buffers n ≡ some a) e at in cc) in
        false≢true
          (sym idle ∙ subst (λ z. (z.in_use && z.dmabuf_exported) ≡ true) same (simp (u, x)))

unused : (b : Buffer) → is_free b ≡ true → (b.in_use && b.dmabuf_exported) ≡ false
unused b h = ground (arith, h)

create-Framed :
    (m : Machine) (a : Answers) (p : Params) (s : Store) → Framed s (create_buffer m a p s).store
create-Framed m a p s = elim (create_buffer_cases m a p s) [
  | inl (bad, e) ↦ λ slot b g u x. ap (λ o. get_elem? o.store.buffers slot) e ∙ g
  | inr (inl (good, full, e)) ↦ λ slot b g u x. ap (λ o. get_elem? o.store.buffers slot) e ∙ g
  | inr (inr (good, (slot, f, (b, made)))) ↦
      let (old, at, free) = find_index-some is_free s.buffers slot f in
      Framed-set s (create_buffer m a p s).store slot old b at (unused old free) made.written
]

pub Framed-refl : (s : Store) → Framed s s
Framed-refl s slot b g u x = g

Framed-trans : (r s t : Store) → Framed r s → Framed s t → Framed r t
Framed-trans r s t h k slot b g u x = k slot b (h slot b g u x) u x

destroy-Framed : (s : Store) (i : ℕ) → Framed s (destroy_buffer s i).1
destroy-Framed s i = elim (Option-cases (find_buffer s i)) [
  | inl e ↦ subst (λ r. Framed s r.1) (sym (destroy_unknown s i e)) (Framed-refl s)
  | inr (slot, f) ↦
      let (b, at, used, named) = find_buffer-some s i slot f in
      subst (λ r. Framed s r.1) (sym (destroy_found s i slot b f at))
        (elim (Bool-cases (is_positive b.mmap_count || b.dmabuf_exported)) [
          | inl busy ↦ rw busy (Framed-refl s)
          | inr idle ↦ rw idle (
              Framed-set s (removed s i slot b f at) slot b (record b { in_use = false }) at
                (unexported b idle) refl)
        ])
]
  where
    unexported :
        (b : Buffer)
        → (is_positive b.mmap_count || b.dmabuf_exported) ≡ false
        → (b.in_use && b.dmabuf_exported) ≡ false
    unexported b h = ground (arith, h)

create_end-Framed :
    (s : Store) (copied : Bool) (st : Status) (o : Outcome)
    → Framed s o.store
    → Framed s (create_end st copied o).1
unfolding create_end
create_end-Framed s copied (err e) o h = h
create_end-Framed s true ok o h = h
create_end-Framed s false ok o h =
    Framed-trans s o.store (destroy_buffer o.store o.params.buf_id).1 h
      (destroy-Framed o.store o.params.buf_id)

pub ioctl_create-Framed :
    (m : Machine) (a : Answers) (p : Option Params) (copied : Bool) (s : Store)
    → Framed s (ioctl_create_buffer m a p copied s).1
unfolding ioctl_create_buffer
ioctl_create-Framed m a none copied s = Framed-refl s
ioctl_create-Framed m a (some p) copied s =
    create_end-Framed s copied (create_buffer m a p s).status (create_buffer m a p s)
      (create-Framed m a p s)

pub ioctl_destroy-Framed : (i : Option ℕ) (s : Store) → Framed s (ioctl_destroy_buffer i s).1
unfolding ioctl_destroy_buffer
ioctl_destroy-Framed none s = Framed-refl s
ioctl_destroy-Framed (some i) s = destroy-Framed s i
