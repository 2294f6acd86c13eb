-- ===== src/Buffer/Handles.antt =====
-- The table's invariant, and lookups by handle after CREATE_BUFFER, driver/dmabuf_rdma.c.
use mathlib.Core.Bool.{false≢true}
use native.Mathlib.Decide.{ℕ_discrete}
use dmaplane_master.Base.{
  enomem, subst, Errno, ap, ℕ, ◌+◌, ◌≡◌, ◌≢◌, ◌≤◌, ◌<◌, ◌⊎◌, inl, inr, ◌∙◌, sym, true, false, refl,
  List, none, some, length, get_elem?, set, arith, Bool-cases, ok, err, find_index-some,
  find_index_of_none, find_index-set_new, ==_iff, ==-ne, u32_mod, get_elem?-set_self,
  get_elem?-set_ne, length-set, lt-length_of_get,
}
use dmaplane_master.Kernel.{Machine}
use dmaplane_master.Buffer.{
  type_coherent, type_pages, Buffer, Store, find_slot, find_buffer, is_free, is_live, max_buffers,
}
use dmaplane_master.Buffer.Create.{Outcome, params_valid, Params, Answers, create_buffer, next_id}
use dmaplane_master.Buffer.Outcomes.{PagesCounted, Fresh, Made, create_buffer_cases}

pub record IsLive (s : Store) (b : Buffer) : Type 0 where
  pub named : 0 < b.id
  pub below : b.id < s.next_buf_id
  pub counted : PagesCounted b
  pub typed : (b.alloc_type ≡ type_pages) ⊎ (b.alloc_type ≡ type_coherent)

pub record WellFormed (s : Store) : Type 0 where
  pub slots : length s.buffers ≡ max_buffers
  pub next_pos : 0 < s.next_buf_id
  pub next_word : s.next_buf_id < u32_mod
  pub live : (i : ℕ) (b : Buffer) → get_elem? s.buffers i ≡ some b → b.in_use ≡ true → IsLive s b
  pub unique :
      (i j : ℕ) (a b : Buffer)
      → get_elem? s.buffers i ≡ some a
      → get_elem? s.buffers j ≡ some b
      → a.in_use ≡ true
      → b.in_use ≡ true
      → a.id ≡ b.id
      → i ≡ j

-- An entry of a table in which slot `i` has been written
pub get-set_cases :
    (xs : List Buffer) (i j : ℕ) (b c : Buffer)
    → i < length xs
    → get_elem? (set xs i b) j ≡ some c
    → ((i ≡ j) × (b ≡ c)) ⊎ ((i ≢ j) × (get_elem? xs j ≡ some c))
get-set_cases xs i j b c h g = elim (ℕ_discrete i j) [
  | yes e ↦ inl (e, cc (get_elem?-set_self xs i b h, e, g))
  | no n ↦ inr (n, sym (get_elem?-set_ne xs i j b n) ∙ g)
]

-- A write of one slot keeps the invariant if its buffer is live under a name of its own.
pub write-WellFormed :
    (s t : Store) (i : ℕ) (b : Buffer)
    → WellFormed s
    → i < length s.buffers
    → t.buffers ≡ set s.buffers i b
    → s.next_buf_id ≤ t.next_buf_id
    → t.next_buf_id < u32_mod
    → (b.in_use ≡ true → IsLive t b)
    → (b.in_use ≡ true
        → (j : ℕ) (c : Buffer) → get_elem? s.buffers j ≡ some c
        → c.in_use ≡ true
        → c.id ≡ b.id
        → j ≡ i)
    → WellFormed t
write-WellFormed s t i b w h e up word new distinct = record {
  slots = ap length e ∙ length-set s.buffers i b ∙ w.slots;
  next_pos = omega (arith, w.next_pos);
  next_word = word;
  live = λ j c g u.
      elim (get-set_cases s.buffers i j b c h (ap (λ xs. get_elem? xs j) (sym e) ∙ g)) [
        | inl (_, q) ↦ subst (λ y. IsLive t y) q (new (rw q u))
        | inr (_, q) ↦
            let l = w.live j c q u in
            record {
              named = l.named;
              below = omega (arith, l.below);
              counted = l.counted;
              typed = l.typed;
            }
      ];
  unique = λ j k c d gj gk uj uk same.
      elim (get-set_cases s.buffers i j b c h (ap (λ xs. get_elem? xs j) (sym e) ∙ gj)) [
        | inl (ij, bc) ↦
            elim (get-set_cases s.buffers i k b d h (ap (λ xs. get_elem? xs k) (sym e) ∙ gk)) [
              | inl (ik, bd) ↦ sym ij ∙ ik
              | inr (nk, q) ↦
                  absurd
                    (nk (sym (distinct (rw bc uj) k d q uk (sym same ∙ ap (λ y. y.id) (sym bc)))))
            ]
        | inr (nj, q) ↦
            elim (get-set_cases s.buffers i k b d h (ap (λ xs. get_elem? xs k) (sym e) ∙ gk)) [
              | inl (ik, bd) ↦
                  absurd (nj (sym (distinct (rw bd uk) j c q uj (same ∙ ap (λ y. y.id) (sym bd)))))
              | inr (nk, r) ↦ w.unique j k c d q r uj uk same
            ]
      ];
}

-- A handle that the counter has not reached names nothing.
fresh_unknown : (s : Store) → WellFormed s → find_buffer s s.next_buf_id ≡ none
fresh_unknown s w = find_index_of_none (is_live s.next_buf_id) s.buffers (λ i b g. dead i b g)
  where
    dead : (i : ℕ) (b : Buffer) → get_elem? s.buffers i ≡ some b → is_live s.next_buf_id b ≡ false
    dead i b g = elim (Bool-cases b.in_use) [
      | inl u ↦ rw (u, ==-ne b.id s.next_buf_id (omega (arith, (w.live i b g u).below)))
      | inr f ↦ rw f
    ]

-- The counter where it does not wrap
pub next_id_lem : (n : ℕ) → n + 1 < u32_mod → next_id n ≡ n + 1
next_id_lem n h = ground arith

type_of_used :
    (o : Outcome) (p : Params) (b : Buffer)
    → ((o.status ≡ ok) × (o.params.buf_id ≡ b.id) × Fresh p b)
      ⊎ ((o.status ≡ err enomem) × (b.in_use ≡ false))
    → b.in_use ≡ true
    → b.alloc_type ≡ p.alloc_type
type_of_used o p b (inl (_, _, fr)) u = fr.typed
type_of_used o p b (inr (_, f)) u = absurd (false≢true (sym f ∙ u))

typed_of_answered :
    (m : Machine) (p : Params) (b : Buffer)
    → params_valid m p ≡ true
    → b.alloc_type ≡ p.alloc_type
    → (b.alloc_type ≡ type_pages) ⊎ (b.alloc_type ≡ type_coherent)
unfolding params_valid
typed_of_answered m p b good e = ground arith

ok_ne_err : {e : Errno} → ok ≢ err e
ok_ne_err h = cc

module _ (m : Machine) (a : Answers) (p : Params) (s : Store) (w : WellFormed s)
    (room : s.next_buf_id + 1 < u32_mod) where
  written-WellFormed :
      (slot : ℕ) (b : Buffer)
      → params_valid m p ≡ true
      → find_slot s ≡ some slot
      → Made s p (create_buffer m a p s) slot b
      → WellFormed (create_buffer m a p s).store
  written-WellFormed slot b good f d =
      let (old, at, free) = find_index-some is_free s.buffers slot f in
      write-WellFormed s (create_buffer m a p s).store slot b w (lt-length_of_get s.buffers slot at)
        d.written (omega (arith, d.bumped, next_id_lem s.next_buf_id room))
        (omega (arith, d.bumped, next_id_lem s.next_buf_id room))
        (λ u. record {
          named = omega (arith, d.named, w.next_pos);
          below = omega (arith, d.named, d.bumped, next_id_lem s.next_buf_id room);
          counted = d.counted;
          typed =
              typed_of_answered m p b good (type_of_used (create_buffer m a p s) p b d.answered u);
        })
        (λ u j c g v same. absurd (omega (arith, (w.live j c g v).below, same, d.named)))

  slot_handle :
      (slot : ℕ) (b : Buffer)
      → find_slot s ≡ some slot
      → Made s p (create_buffer m a p s) slot b
      → (create_buffer m a p s).params.buf_id ≡ b.id
      → Fresh p b
      → let o = create_buffer m a p s in
        (o.params.buf_id ≢ 0)
        × (find_buffer s o.params.buf_id ≡ none)
        × ((slot : ℕ) × (b : Buffer) × (find_buffer o.store o.params.buf_id ≡ some slot)
            × (get_elem? o.store.buffers slot ≡ some b)
            × Fresh p b)
  slot_handle slot b f d id fr =
      let (old, at, free) = find_index-some is_free s.buffers slot f in
      let inside = lt-length_of_get s.buffers slot at in
      let k = id ∙ d.named in
      (
        omega (arith, k, w.next_pos),
        rw k (fresh_unknown s w),
        (
          slot,
          b,
          rw (k, d.written)
              (find_index-set_new (is_live s.next_buf_id) s.buffers slot b (fresh_unknown s w)
                inside (rw (fr.used, d.named) ((==_iff s.next_buf_id s.next_buf_id).1 refl))),
          rw d.written (get_elem?-set_self s.buffers slot b inside),
          fr,
        ),
      )

  -- While the handle counter has not reached its last value, every call of CREATE_BUFFER keeps the
  -- table's invariant, whatever it returns.
  pub create-WellFormed : WellFormed (create_buffer m a p s).store
  create-WellFormed = elim (create_buffer_cases m a p s) [
    | inl (_, e) ↦ rw e w
    | inr (inl (_, _, e)) ↦ rw e w
    | inr (inr (good, (slot, f, (b, d)))) ↦ written-WellFormed slot b good f d
  ]

  -- While the handle counter has not reached its last value, a call of CREATE_BUFFER that succeeds
  -- returns a handle that is not 0 and named no buffer before, and that then names a buffer of the
  -- requested size and type, with no mapping and no export.
  pub create_handle :
      (create_buffer m a p s).status ≡ ok
      → let o = create_buffer m a p s in
        (o.params.buf_id ≢ 0)
        × (find_buffer s o.params.buf_id ≡ none)
        × ((slot : ℕ) × (b : Buffer) × (find_buffer o.store o.params.buf_id ≡ some slot)
            × (get_elem? o.store.buffers slot ≡ some b)
            × Fresh p b)
  create_handle h = elim (create_buffer_cases m a p s) [
    | inl (_, e) ↦ absurd (ok_ne_err (sym h ∙ ap (λ o. o.status) e))
    | inr (inl (_, _, e)) ↦ absurd (ok_ne_err (sym h ∙ ap (λ o. o.status) e))
    | inr (inr (_, (slot, f, (b, d)))) ↦ elim d.answered [
      | inr (bad, _) ↦ absurd (ok_ne_err (sym h ∙ bad))
      | inl (_, id, fr) ↦ slot_handle slot b f d id fr
    ]
  ]
