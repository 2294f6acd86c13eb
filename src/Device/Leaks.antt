-- ===== src/Device/Leaks.antt =====
-- The calls on the files of driver/main.c, against the account of who owns which channel.
use dmaplane_master.Base.{
  ◌==◌, ==_iff, ◌++◌, List, ◌∷◌, zero, suc, true, ◌≢◌, get_elem?-set_ne, Bool-cases, ℕ, ◌≡◌, arith,
  refl, ap, sym, ◌∙◌, subst, Bool, false, [], Option, none, some, Option-cases, inl, inr,
  if◌then◌else◌, set, get_elem?, find_index, find_index-some, total-set, total-replicate, pos, inc,
  ok, err, Errno, add64, set_same, efault, enospc,
}
use mathlib.Core.Bool.{false≢true}
use dmaplane_master.Channel.{channel_init}
use dmaplane_master.Device.{
  File, Device, closed, opened, is_vacant, no_channel, started, not_started, ioctl_create_channel,
  device_release, empty_device, put_channel,
}
use dmaplane_master.Device.Ownership.{
  World, Threads, created, Step, open_file, test_channel, create_channel, close_file, Reach, begin,
  next, is_active, is_owner, Owned, destroyed, stopped,
}
use dmaplane_master.Device.Channels.{still, open-Owned, vacant-Owned, acquired-Owned, dropped-Owned}

module _ (d : Device) (copied : Bool) where
  slots_full :
      (worker : Option Errno)
      → find_index is_vacant d.channels ≡ none
      → ioctl_create_channel none worker copied d ≡ (err enospc, none, d)
  unfolding ioctl_create_channel
  slots_full worker e = rw (e, ioctl_create_channel) refl

  slot_found :
      (i : ℕ)
      → find_index is_vacant d.channels ≡ some i
      → (ioctl_create_channel none none copied d ≡ (
        if copied then ok else err efault,
        some i,
        record (put_channel d i (started i)) {
          active_channels = inc d.active_channels;
          total_channels_created = add64 d.total_channels_created 1;
        },
      ))
        × ((x : Errno)
            → ioctl_create_channel none (some x) copied d
              ≡ (err x, none, put_channel d i (not_started i)))
  unfolding ioctl_create_channel
  slot_found i e = (rw (e, ioctl_create_channel) refl, λ x. rw (e, ioctl_create_channel) refl)

create-Owned :
    (w : World) (k : ℕ) (chan : Option ℕ) (worker : Option Errno) (copied : Bool)
    → Owned w
    → get_elem? w.files k ≡ some (opened chan)
    → Owned (created w k (ioctl_create_channel chan worker copied w.device))
unfolding ioctl_create_channel started not_started channel_init
create-Owned w k (some i) worker copied o fk =
    subst (λ fs. Owned (record w { files = fs })) (sym (set_same w.files k (opened (some i)) fk)) o
create-Owned w k none worker copied o fk =
    elim (Option-cases (find_index is_vacant w.device.channels)) [
      | inl full ↦
          subst (λ r. Owned (created w k r)) (sym (slots_full w.device copied worker full))
            (subst (λ fs. Owned (record w { files = fs }))
              (sym (set_same w.files k (opened none) fk)) o)
      | inr (i, e) ↦
          let (c, at, vac) = find_index-some is_vacant w.device.channels i e in
          let off : c.active ≡ false = ground arith in
          elim worker as (λ x. Owned (created w k (ioctl_create_channel none x copied w.device))) [
            | none ↦
                subst (λ r. Owned (created w k r)) (sym (slot_found w.device copied i e).0)
                  (acquired-Owned w o i c (started i) at k _ fk off refl refl)
            | some x ↦
                subst (λ r. Owned (created w k r)) (sym ((slot_found w.device copied i e).1 x))
                  (subst
                    (λ fs.
                      Owned
                        (record { device = put_channel w.device i (not_started i); files = fs }))
                    (sym (set_same w.files k (opened none) fk))
                    (vacant-Owned w o i c (not_started i) at off refl))
          ]
    ]

close-Owned :
    (w : World) (k : ℕ) (chan : Option ℕ)
    → Owned w
    → get_elem? w.files k ≡ some (opened chan)
    → Owned (record { device = device_release chan w.device; files = set w.files k closed })
unfolding device_release is_owner
close-Owned w k none o fk = record {
  slots = o.slots;
  owners = λ l j e. o.owners l j (still w.files k l j e);
  distinct = λ a b j e f. o.distinct a b j (still w.files k a j e) (still w.files k b j f);
  counted = omega (arith, o.counted, total-set is_owner w.files k (opened none) closed fk);
  active = o.active;
}
close-Owned w k (some i) o fk =
    let (c, at, on, two) = o.owners k i fk in
    subst
      (λ d. Owned (record {
        device = record d { total_closes = add64 d.total_closes 1 };
        files = set w.files k closed;
      }))
      (sym (destroyed w.device i c at on two))
      (dropped-Owned w o i c (record (stopped c) { refcount = 0; active = false }) at k _ _ fk on
        refl)

-- A file whose CREATE_CHANNEL stands before the mutex has no channel.
abbrev Tested : Threads → Type 0
Tested v = (j : ℕ) → v.testing j ≡ true → get_elem? v.world.files j ≡ some (opened none)

get-append :
    (xs : List File) (x y : File) (j : ℕ)
    → get_elem? xs j ≡ some y
    → get_elem? (xs ++ (x ∷ [])) j ≡ some y
get-append [] x y j h = cc
get-append (z ∷ xs) x y zero h = h
get-append (z ∷ xs) x y (suc j) h = get-append xs x y j h

-- A write to the file of another call
elsewhere :
    (v : Threads) (k j : ℕ) (f : File)
    → Tested v
    → k ≢ j
    → v.testing j ≡ true
    → get_elem? (set v.world.files k f) j ≡ some (opened none)
elsewhere v k j f t n h = get_elem?-set_ne v.world.files k j f n ∙ t j h

apart : (v : Threads) (k j : ℕ) → v.testing k ≡ false → v.testing j ≡ true → k ≢ j
apart v k j f h e = false≢true (sym f ∙ subst (λ x. v.testing x ≡ true) (sym e) h)

Step-Tested : {v t : Threads} → Tested v → Step v t → Tested t
Step-Tested {v} t open_file = λ j h. get-append v.world.files (opened none) _ j (t j h)
Step-Tested {v} t (test_channel k fk idle) = λ j h. elim (Bool-cases (j == k)) [
  | inl e ↦ subst (λ x. get_elem? v.world.files x ≡ some (opened none)) (sym ((==_iff j k).0 e)) fk
  | inr e ↦ t j (ground (arith, h, e))
]
Step-Tested {v} t (create_channel k worker copied on) = λ j h.
    elsewhere v k j _ t (λ e. apart_of_test j k (ground (arith, h)) (sym e)) (ground (arith, h))
  where
    apart_of_test : (j k : ℕ) → (j == k) ≡ false → j ≢ k
    apart_of_test j k h e = false≢true (sym h ∙ (==_iff j k).1 e)
Step-Tested {v} t (close_file k fk idle) = λ j h. elsewhere v k j closed t (apart v k j idle h) h

Step-Owned : {v t : Threads} → Tested v → Owned v.world → Step v t → Owned t.world
Step-Owned {v} t o open_file = open-Owned v.world o
Step-Owned {v} t o (test_channel k fk idle) = o
Step-Owned {v} t o (create_channel k worker copied on) =
    create-Owned v.world k none worker copied o (t k on)
Step-Owned {v} t o (close_file k fk idle) = close-Owned v.world k _ o fk

empty-Owned : Owned (record { device = empty_device; files = [] })
unfolding empty_device channel_init is_active is_owner
empty-Owned = record {
  slots = refl;
  owners = λ k i e. cc;
  distinct = λ k l i e f. cc;
  counted =
      total-replicate is_active 4 no_channel refl ∙ sym (total-replicate is_owner 0 closed refl);
  active = ap pos (sym (total-replicate is_active 4 no_channel refl));
}

Reach-Tested : {v : Threads} → Reach v → Tested v
Reach-Tested begin = λ j h. cc
Reach-Tested (next r s) = Step-Tested (Reach-Tested r) s

-- After any sequence of opens, CREATE_CHANNELs, failures included, and closes, in which the test of a
-- file's CREATE_CHANNEL and the rest of it are steps of their own, between which calls on other files may
-- run and none on the same file: a file's channel is in a slot that is active with two references and
-- that no other file has, the active slots are as many as the open files with a channel,
-- `active_channels` is their number, and there are 4 slots.
pub Reach-Owned : {v : Threads} → Reach v → Owned v.world
Reach-Owned begin = empty-Owned
Reach-Owned (next r s) = Step-Owned (Reach-Tested r) (Reach-Owned r) s
