-- ===== src/Export/Backed.antt =====
-- The dma-bufs of driver/dmabuf_export.c and the buffers behind them, over any sequence of calls.
use dmaplane_master.Base.{
  zero, suc, add64, ℕ, ◌≡◌, ◌≢◌, ◌⊎◌, refl, ◌∙◌, sym, ap, subst, inl, inr, Bool, true, false,
  Option-cases, not, ◌==◌, List, [], ◌∷◌, ◌++◌, Option, none, some, if◌then◌else◌, get_elem?,
  get_or_of_get, get_elem?-set_ne, get_elem?-set_self, lt-length_of_get, length, Status, ok, err,
}
use mathlib.Core.Bool.{false≢true}
use dmaplane_master.Buffer.{Buffer, Store, zero_buffer, type_pages, find_buffer}
use dmaplane_master.Buffer.Lifetime.{find_buffer-some}
use dmaplane_master.Rdma.{Got, got, failed}
use dmaplane_master.Export.{
  DmabufCtx, Exports, mark_exported, ExportAnswers, new_ctx, export_fd, export_dmabuf, export_ctx,
  export_found, export, export_end, ioctl_export_dmabuf,
}
use dmaplane_master.Export.Frame.{Framed}

-- The buffer behind a dma-buf: it is in use, marked as exported, and has the pages that the dma-buf
-- hands out.
pub record Behind (s : Store) (x : DmabufCtx) (b : Buffer) : Type 0 where
  pub stands : get_elem? s.buffers x.slot ≡ some b
  pub used : b.in_use ≡ true
  pub flagged : b.dmabuf_exported ≡ true
  pub pointed : b.dmabuf ≡ some x.dmabuf
  pub same_pages : b.pages ≡ x.pages
  pub same_count : b.nr_pages ≡ x.nr_pages
  pub same_size : b.size ≡ x.size
  pub same_address : b.vaddr ≡ x.vaddr

-- The k-th dma-buf is alive.
abbrev pub AliveAt : Exports → ℕ → DmabufCtx → Type 0
AliveAt s k x = get_elem? s.live k ≡ some (some x)

pub record Backed (s : Exports) : Type 0 where
  pub behind : (k : ℕ) (x : DmabufCtx) → AliveAt s k x → (b : Buffer) × Behind s.store x b
  pub one_each :
      (k j : ℕ) (x y : DmabufCtx) → AliveAt s k x → AliveAt s j y → x.slot ≡ y.slot → k ≡ j

pub Behind-moved :
    (s t : Store) (x : DmabufCtx) (b : Buffer)
    → Behind s x b
    → get_elem? t.buffers x.slot ≡ some b
    → Behind t x b
Behind-moved s t x b h g = record {
  stands = g;
  used = h.used;
  flagged = h.flagged;
  pointed = h.pointed;
  same_pages = h.same_pages;
  same_count = h.same_count;
  same_size = h.same_size;
  same_address = h.same_address;
}

-- A call on the buffers
pub on_store-Backed :
    (s : Exports) (t : Store) → Framed s.store t → Backed s → Backed (record s { store = t })
on_store-Backed s t f w = record {
  behind = λ k x a.
      let (b, h) = w.behind k x a in
      (b, Behind-moved s.store t x b h (f x.slot b h.stands h.used h.flagged));
  one_each = w.one_each;
}

snoc_cases :
    {A : Type 0} (xs : List A) (v : A) (j : ℕ) (y : A)
    → get_elem? (xs ++ (v ∷ [])) j ≡ some y
    → (get_elem? xs j ≡ some y) ⊎ ((j ≡ length xs) × (v ≡ y))
snoc_cases [] v zero y h = inr (refl, let e = h in cc)
snoc_cases [] v (suc j) y h = cc
snoc_cases (x ∷ xs) v zero y h = inl h
snoc_cases (x ∷ xs) v (suc j) y h = elim (snoc_cases xs v j y h) [
  | inl e ↦ inl e
  | inr (e, f) ↦ inr (ap suc e, f)
]

-- A call that leaves the buffers and the dma-bufs as they were
pub same-Backed : (s t : Exports) → t.store ≡ s.store → t.live ≡ s.live → Backed s → Backed t
same-Backed s t e f w = record {
  behind = λ k x a.
      subst (λ u. (b : Buffer) × Behind u x b) (sym e)
        (w.behind k x (subst (λ l. get_elem? l k ≡ some (some x)) f a));
  one_each = λ k j x y a b.
      w.one_each k j x y (subst (λ l. get_elem? l k ≡ some (some x)) f a)
        (subst (λ l. get_elem? l j ≡ some (some y)) f b);
}

module _ (a : ExportAnswers) (s : Exports) (w : Backed s) (slot : ℕ) (b : Buffer)
    (at : get_elem? s.store.buffers slot ≡ some b) (used : b.in_use ≡ true)
    (idle : b.dmabuf_exported ≡ false) where
  -- No dma-buf stands on this buffer.
  elsewhere : (k : ℕ) (x : DmabufCtx) → AliveAt s k x → slot ≢ x.slot
  elsewhere k x h e =
      let (c, z) = w.behind k x h in
      let same : b ≡ c =
        (let g = subst (λ n. get_elem? s.store.buffers n ≡ some b) e at in
          let g' = z.stands in cc) in
      false≢true (sym idle ∙ ap (λ y. y.dmabuf_exported) same ∙ z.flagged)

  -- The buffer is written, and keeps its place.
  written :
      (flag : Bool) (d : Option ℕ)
      → get_elem? (mark_exported slot flag d s.store).buffers slot
        ≡ some (record b { dmabuf_exported = flag; dmabuf = d })
  written flag d =
      rw (get_or_of_get s.store.buffers slot b zero_buffer at)
        (get_elem?-set_self s.store.buffers slot _ (lt-length_of_get s.store.buffers slot at))

  -- The state after an export that succeeds
  abbrev exported_as : (c d : ℕ) → Exports
  exported_as c d = record s {
    store = mark_exported slot true (some d) s.store;
    live = s.live ++ (some (new_ctx c d slot b) ∷ []);
    exported = add64 s.exported 1;
  }

  other_live :
      (c d k : ℕ) (x : DmabufCtx)
      → AliveAt s k x
      → (e : Buffer) × Behind (exported_as c d).store x e
  other_live c d k x h =
      let (e, z) = w.behind k x h in
      (
        e,
        Behind-moved s.store (exported_as c d).store x e z
            (get_elem?-set_ne s.store.buffers slot x.slot _ (elsewhere k x h) ∙ z.stands),
      )

  new_live : (c d : ℕ) → (e : Buffer) × Behind (exported_as c d).store (new_ctx c d slot b) e
  new_live c d = (
    record b { dmabuf_exported = true; dmabuf = some d },
    record {
      stands = written true (some d);
      used = used;
      flagged = refl;
      pointed = refl;
      same_pages = refl;
      same_count = refl;
      same_size = refl;
      same_address = refl;
    },
  )

  alive_cases :
      (c d k : ℕ) (x : DmabufCtx)
      → AliveAt (exported_as c d) k x
      → AliveAt s k x ⊎ ((k ≡ length s.live) × (new_ctx c d slot b ≡ x))
  alive_cases c d k x h = elim (snoc_cases s.live (some (new_ctx c d slot b)) k (some x) h) [
    | inl e ↦ inl e
    | inr (e, f) ↦ inr (e, let g = f in cc)
  ]

  exported-Backed : (c d : ℕ) → Backed (exported_as c d)
  exported-Backed c d = record {
    behind = λ k x h. elim (alive_cases c d k x h) [
      | inl e ↦ other_live c d k x e
      | inr (e, f) ↦ subst (λ y. (e : Buffer) × Behind (exported_as c d).store y e) f (new_live c d)
    ];
    one_each = λ k j x y h g q. elim (alive_cases c d k x h) [
      | inl e ↦ elim (alive_cases c d j y g) [
        | inl f ↦ w.one_each k j x y e f q
        | inr (f, n) ↦ absurd (elsewhere k x e (ap (λ z. z.slot) n ∙ sym q))
      ]
      | inr (e, m) ↦ elim (alive_cases c d j y g) [
        | inl f ↦ absurd (elsewhere j y f (ap (λ z. z.slot) m ∙ q))
        | inr (f, n) ↦ e ∙ sym f
      ]
    ];
  }

  export_fd-Backed :
      (c d : ℕ) (f : Got) (t : Exports)
      → t.store ≡ s.store
      → t.live ≡ s.live
      → Backed (export_fd (new_ctx c d slot b) f t).1
  unfolding export_fd
  export_fd-Backed c d (failed e) t h l = same-Backed s _ h l w
  export_fd-Backed c d (got n) t h l =
      same-Backed (exported_as c d) _ (ap (mark_exported slot true (some d)) h)
        (ap (λ z. z ++ (some (new_ctx c d slot b) ∷ [])) l) (exported-Backed c d)

  export_dmabuf-Backed :
      (c : ℕ) (g : Got) (t : Exports)
      → t.store ≡ s.store
      → t.live ≡ s.live
      → Backed (export_dmabuf a c slot b g t).1
  unfolding export_dmabuf
  export_dmabuf-Backed c (failed e) t h l = same-Backed s _ h l w
  export_dmabuf-Backed c (got d) t h l = export_fd-Backed c d a.fd _ h l

  export_ctx-Backed : (o : Option ℕ) → Backed (export_ctx a slot b o s).1
  unfolding export_ctx
  export_ctx-Backed none = w
  export_ctx-Backed (some c) = export_dmabuf-Backed c a.exported _ refl refl

on_if :
    {A : Type 0} (P : A → Type 0) (c : Bool) (x y : A)
    → (c ≡ true → P x)
    → (c ≡ false → P y)
    → P (if c then x else y)
on_if P true x y h k = h refl
on_if P false x y h k = k refl

export-Backed : (a : ExportAnswers) (i : ℕ) (s : Exports) → Backed s → Backed (export a i s).1
unfolding export export_found
export-Backed a i s w = elim (Option-cases (find_buffer s.store i)) [
  | inl e ↦ rw e w
  | inr (slot, f) ↦
      let (b, at, used, named) = find_buffer-some s.store i slot f in
      rw (f, get_or_of_get s.store.buffers slot b zero_buffer at)
        (on_if (λ (r : Status × Exports). Backed r.1) (not (b.alloc_type == type_pages)) _ _
          (λ n. w)
          (λ n.
            on_if (λ (r : Status × Exports). Backed r.1) b.dmabuf_exported _ _ (λ e. w)
              (λ e. export_ctx-Backed a s w slot b at used e a.ctx_at)))
]

export_end-Backed :
    (copied : Bool) (r : Status × Exports) → Backed r.1 → Backed (export_end copied r).1
unfolding export_end
export_end-Backed copied (err e, s) w = w
export_end-Backed true (ok, s) w = w
export_end-Backed false (ok, s) w = w

pub ioctl_export-Backed :
    (a : ExportAnswers) (i : Option ℕ) (copied : Bool) (s : Exports)
    → Backed s
    → Backed (ioctl_export_dmabuf a i copied s).1
unfolding ioctl_export_dmabuf
ioctl_export-Backed a none copied s w = w
ioctl_export-Backed a (some i) copied s w =
    export_end-Backed copied (export a i s) (export-Backed a i s w)
