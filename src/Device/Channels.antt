-- ===== src/Device/Channels.antt =====
-- The slots of driver/main.c and the files, under each change that a call makes to them.
use mathlib.Core.Bool.{false≢true}
use dmaplane_master.Base.{
  ℕ, ◌+◌, ◌≡◌, ◌≢◌, arith, refl, ap, sym, ◌∙◌, subst, true, false, List, [], ◌∷◌, ◌++◌, length-set,
  none, some, inl, inr, set, get_elem?, get_elem?-set_self, get_elem?-set_ne, lt-length_of_get,
  total, total-set, pos, inc, dec, get_elem?-set_cases, get_elem?-append_cases, total-snoc,
  dec_parts, eq_pos_of_parts,
}
use dmaplane_master.Channel.{Channel}
use dmaplane_master.Device.{File, closed, opened, device_open, put_channel}
use dmaplane_master.Device.Ownership.{World, is_active, is_owner, Owned}

-- A file that owns a channel after another is closed owned it before.
pub still :
    (fs : List File) (k a j : ℕ)
    → get_elem? (set fs k closed) a ≡ some (opened (some j))
    → get_elem? fs a ≡ some (opened (some j))
still fs k a j e = elim (get_elem?-set_cases fs k a closed (opened (some j)) e) [
  | inl (ka, y) ↦ cc
  | inr (n, y) ↦ y
]

old_file :
    (fs : List File) (k i : ℕ)
    → get_elem? (fs ++ (opened none ∷ [])) k ≡ some (opened (some i))
    → get_elem? fs k ≡ some (opened (some i))
old_file fs k i e = elim (get_elem?-append_cases fs k (opened none) (opened (some i)) e) [
  | inl f ↦ f
  | inr f ↦ cc
]

-- A slot whose channel is active is none whose channel is not.
different :
    (cs : List Channel) (i j : ℕ) (c x : Channel)
    → get_elem? cs i ≡ some c
    → c.active ≡ false
    → get_elem? cs j ≡ some x
    → x.active ≡ true
    → i ≢ j
different cs i j c x at off atj act e =
    let both : some c ≡ some x = sym at ∙ ap (get_elem? cs) e ∙ atj in
    let same : c ≡ x = cc in false≢true (sym off ∙ ap Channel.active same ∙ act)

weight_on : (c : Channel) → c.active ≡ true → is_active c ≡ 1
unfolding is_active
weight_on c h = rw h refl

weight_off : (c : Channel) → c.active ≡ false → is_active c ≡ 0
unfolding is_active
weight_off c h = rw h refl

dec_pos : (n m : ℕ) → n ≡ m + 1 → dec (pos n) ≡ pos m
dec_pos n m e = eq_pos_of_parts (dec (pos n)) m (omega (arith, dec_parts (pos n)))

Distinct : List File → Type 0
Distinct fs =
    (k l i : ℕ)
    → get_elem? fs k ≡ some (opened (some i))
    → get_elem? fs l ≡ some (opened (some i))
    → k ≡ l

-- A file becomes the owner of a slot that no file owned.
one_owner :
    (fs : List File) (k i : ℕ)
    → Distinct fs
    → ((l : ℕ) → get_elem? fs l ≢ some (opened (some i)))
    → Distinct (set fs k (opened (some i)))
unfolding Distinct
one_owner fs k i d free a b j e f =
    elim (get_elem?-set_cases fs k a (opened (some i)) (opened (some j)) e) [
      | inl (ka, y) ↦ elim (get_elem?-set_cases fs k b (opened (some i)) (opened (some j)) f) [
        | inl (kb, z) ↦ omega arith
        | inr (nb, z) ↦
            let ij : some (opened (some j)) ≡ some (opened (some i)) = ap some (sym y) in
            absurd (free b (z ∙ ij))
      ]
      | inr (na, y) ↦ elim (get_elem?-set_cases fs k b (opened (some i)) (opened (some j)) f) [
        | inl (kb, z) ↦
            let ij : some (opened (some j)) ≡ some (opened (some i)) = ap some (sym z) in
            absurd (free a (y ∙ ij))
        | inr (nb, z) ↦ d a b j y z
      ]
    ]

module _ (w : World) (o : Owned w) where
  pub open-Owned : Owned (record w {
    device = (device_open true true w.device).1;
    files = w.files ++ (opened none ∷ []);
  })
  unfolding device_open is_owner
  open-Owned = record {
    slots = o.slots;
    owners = λ k i e. o.owners k i (old_file w.files k i e);
    distinct = λ k l i e f. o.distinct k l i (old_file w.files k i e) (old_file w.files l i f);
    counted = omega (arith, o.counted, total-snoc is_owner w.files (opened none));
    active = o.active;
  }

  module _ (i : ℕ) (c g : Channel) (at : get_elem? w.device.channels i ≡ some c) where
    -- A slot that no file owns is written, with a channel that is not active.
    pub vacant-Owned :
        c.active ≡ false → g.active ≡ false → Owned (record w { device = put_channel w.device i g })
    vacant-Owned off off' =
        let same : total is_active (set w.device.channels i g) ≡ total is_active w.device.channels =
          omega (
            arith,
            total-set is_active w.device.channels i c g at,
            weight_off c off,
            weight_off g off',
          ) in
        record {
          slots = length-set w.device.channels i g ∙ o.slots;
          owners = λ k j e.
              let (x, atj, act, two) = o.owners k j e in
              (
                x,
                get_elem?-set_ne w.device.channels i j g
                      (different w.device.channels i j c x at off atj act)
                    ∙ atj,
                act,
                two,
              );
          distinct = o.distinct;
          counted = same ∙ o.counted;
          active = o.active ∙ ap pos (sym same);
        }

    -- File k, which had no channel, becomes the owner of a slot that was free.
    pub acquired-Owned :
        (k n : ℕ)
        → get_elem? w.files k ≡ some (opened none)
        → c.active ≡ false
        → g.active ≡ true
        → g.refcount ≡ 2
        → Owned (record {
          device = record (put_channel w.device i g) {
            active_channels = inc w.device.active_channels;
            total_channels_created = n;
          };
          files = set w.files k (opened (some i));
        })
    unfolding inc is_owner Distinct
    acquired-Owned k n fk off on two =
        let free : (l : ℕ) → get_elem? w.files l ≢ some (opened (some i)) = λ l e.
          let (x, atx, act, two') = o.owners l i e in
          different w.device.channels i i c x at off atx act refl in
        let more : total is_active (set w.device.channels i g)
            ≡ total is_active w.device.channels + 1 =
          omega (
            arith,
            total-set is_active w.device.channels i c g at,
            weight_off c off,
            weight_on g on,
          ) in
        record {
          slots = length-set w.device.channels i g ∙ o.slots;
          owners = λ l j e.
              elim (get_elem?-set_cases w.files k l (opened (some i)) (opened (some j)) e) [
                | inl (kl, y) ↦
                    let ij : i ≡ j = cc in
                    (
                      g,
                      subst (λ x. get_elem? (set w.device.channels i g) x ≡ some g) ij
                          (get_elem?-set_self w.device.channels i g
                            (lt-length_of_get w.device.channels i at)),
                      on,
                      two,
                    )
                | inr (nkl, y) ↦
                    let (x, atj, act, two') = o.owners l j y in
                    (
                      x,
                      get_elem?-set_ne w.device.channels i j g
                            (different w.device.channels i j c x at off atj act)
                          ∙ atj,
                      act,
                      two',
                    )
              ];
          distinct = one_owner w.files k i o.distinct free;
          counted = omega (
            arith,
            more,
            o.counted,
            total-set is_owner w.files k (opened none) (opened (some i)) fk,
          );
          active = ap inc o.active ∙ ap pos (omega (arith, more));
        }

    -- File k is closed, and the slot of its channel is free again.
    pub dropped-Owned :
        (k n m : ℕ)
        → get_elem? w.files k ≡ some (opened (some i))
        → c.active ≡ true
        → g.active ≡ false
        → Owned (record {
          device = record (put_channel w.device i g) {
            active_channels = dec w.device.active_channels;
            total_channels_destroyed = n;
            total_closes = m;
          };
          files = set w.files k closed;
        })
    unfolding is_owner
    dropped-Owned k n m fk on off =
        let fewer : total is_active w.device.channels
            ≡ total is_active (set w.device.channels i g) + 1 =
          omega (
            arith,
            total-set is_active w.device.channels i c g at,
            weight_on c on,
            weight_off g off,
          ) in
        record {
          slots = length-set w.device.channels i g ∙ o.slots;
          owners = λ l j e. elim (get_elem?-set_cases w.files k l closed (opened (some j)) e) [
            | inl (kl, y) ↦ cc
            | inr (nkl, y) ↦
                let (x, atj, act, two) = o.owners l j y in
                (
                  x,
                  get_elem?-set_ne w.device.channels i j g
                        (λ ij. nkl (o.distinct k l j (fk ∙ ap (λ z. some (opened (some z))) ij) y))
                      ∙ atj,
                  act,
                  two,
                )
          ];
          distinct = λ a b j e f. o.distinct a b j (still w.files k a j e) (still w.files k b j f);
          counted =
              omega
                (arith, fewer, o.counted, total-set is_owner w.files k (opened (some i)) closed fk);
          active = ap dec o.active ∙ dec_pos _ _ fewer;
        }
