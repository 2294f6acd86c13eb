-- ===== src/Device/Ownership.antt =====
-- Which file owns which channel, over any sequence of calls on any number of files.
use dmaplane_master.Base.{
  ◌==◌, ◌&&◌, ◌||◌, not, Status, ℕ, zero, suc, ◌≡◌, refl, ap, ◌∙◌, Bool, true, false, List, [], ◌∷◌,
  ◌++◌, length, Option, none, some, if◌then◌else◌, set, get_or, get_elem?, get_or_of_get,
  get_elem?-set_self, lt-length_of_get, total, pos, dec, Errno, add64,
}
use dmaplane_master.Channel.{Channel}
use dmaplane_master.Device.{
  Device, File, closed, opened, max_channels, no_channel, ioctl_create_channel, channel_destroy,
  channel_release, kref_put, device_open, device_release, empty_device, put_channel,
}

-- The device with the files that have been opened on it, by number
pub record World : Type 0 where
  pub device : Device
  pub files : List File

-- The same with the threads that are in CREATE_CHANNEL: `testing` says of which files such a call has
-- found no channel and has not yet taken `dev_mutex`.
pub record Threads : Type 0 where
  pub world : World
  pub testing : ℕ → Bool

-- The world after CREATE_CHANNEL of file k
abbrev pub created : World → ℕ → Status × Option ℕ × Device → World
created w k r = record { device = r.2; files = set w.files k (opened r.1) }

-- The steps: a call of `open`; the test of CREATE_CHANNEL, which reads the file's channel without a lock;
-- the rest of CREATE_CHANNEL, under `dev_mutex`, which acts on the answer of the test; a call of `release`.
-- Between the test of a file's CREATE_CHANNEL and its rest, calls on other files run, and none on the
-- same file. A refusal with -EBUSY changes nothing, and is no step.
pub data Step (v : Threads) : Threads → Type 0 where
  open_file : Step v (record v {
    world = record (v.world) {
      device = (device_open true true v.world.device).1;
      files = v.world.files ++ (opened none ∷ []);
    };
  })
  test_channel :
      (k : ℕ)
      → get_elem? v.world.files k ≡ some (opened none)
      → v.testing k ≡ false
      → Step v (record v { testing = λ j. j == k || v.testing j })
  create_channel :
      (k : ℕ) (worker : Option Errno) (copied : Bool)
      → v.testing k ≡ true
      → Step v (record {
        world = created v.world k (ioctl_create_channel none worker copied v.world.device);
        testing = λ j. not (j == k) && v.testing j;
      })
  close_file :
      (k : ℕ) {chan : Option ℕ}
      → get_elem? v.world.files k ≡ some (opened chan)
      → v.testing k ≡ false
      → Step v (record v {
        world = record {
          device = device_release chan v.world.device;
          files = set v.world.files k closed;
        };
      })

pub data Reach : Threads → Type 0 where
  begin :
      Reach (record { world = record { device = empty_device; files = [] }; testing = λ j. false })
  next : {v t : Threads} → Reach v → Step v t → Reach t

unfoldable pub is_active : Channel → ℕ
is_active c = if c.active then 1 else 0

unfoldable pub is_owner : File → ℕ
is_owner closed = 0
is_owner (opened none) = 0
is_owner (opened (some i)) = 1

pub record Owned (w : World) : Type 0 where
  pub slots : length w.device.channels ≡ max_channels
  pub owners :
      (k i : ℕ)
      → get_elem? w.files k ≡ some (opened (some i))
      → (c : Channel) × (get_elem? w.device.channels i ≡ some c)
        × (c.active ≡ true)
        × (c.refcount ≡ 2)
  pub distinct :
      (k l i : ℕ)
      → get_elem? w.files k ≡ some (opened (some i))
      → get_elem? w.files l ≡ some (opened (some i))
      → k ≡ l
  pub counted : total is_active w.device.channels ≡ total is_owner w.files
  pub active : w.device.active_channels ≡ pos (total is_active w.device.channels)

set-set : {A : Type 0} (xs : List A) (i : ℕ) (a b : A) → set (set xs i a) i b ≡ set xs i b
set-set [] i a b = refl
set-set (x ∷ xs) zero a b = refl
set-set (x ∷ xs) (suc i) a b = ap (λ ys. x ∷ ys) (set-set xs i a b)

module _ (d : Device) (i : ℕ) (c : Channel) (at : get_elem? d.channels i ≡ some c) where
  here : get_or d.channels i no_channel ≡ c
  here = get_or_of_get d.channels i c no_channel at

  rewritten : (a : Channel) → get_elem? (put_channel d i a).channels i ≡ some a
  rewritten a = get_elem?-set_self d.channels i a (lt-length_of_get d.channels i at)

  overwritten : (a b : Channel) → put_channel (put_channel d i a) i b ≡ put_channel d i b
  overwritten a b = ap (λ xs. record d { channels = xs }) (set-set d.channels i a b)

  kref_put-first : c.refcount ≡ 2 → kref_put i d ≡ put_channel d i (record c { refcount = 1 })
  unfolding kref_put
  kref_put-first two = rw (here, two) refl

abbrev pub gone : Device → ℕ → Channel → Device
gone d i c = record d {
  channels = set d.channels i (record c { refcount = 0; active = false });
  active_channels = dec d.active_channels;
  total_channels_destroyed = add64 d.total_channels_destroyed 1;
}

kref_put-last :
    (d : Device) (i : ℕ) (c : Channel)
    → get_elem? d.channels i ≡ some c
    → c.refcount ≡ 1
    → kref_put i d ≡ gone d i c
unfolding kref_put channel_release
kref_put-last d i c at one =
    rw
      (
        here d i c at,
        one,
        here (put_channel d i (record c { refcount = 0 })) i _
            (rewritten d i c at (record c { refcount = 0 })),
      )
      (ap
        (λ xs. record d {
          channels = xs;
          active_channels = dec d.active_channels;
          total_channels_destroyed = add64 d.total_channels_destroyed 1;
        })
        (set-set d.channels i _ _))

-- The slot once its channel has been destroyed
abbrev pub stopped : Channel → Channel
stopped c = record c { shutdown = true; worker = false; refcount = 0; active = false }

-- What `channel_destroy` does to a slot that is active with two references
pub destroyed :
    (d : Device) (i : ℕ) (c : Channel)
    → get_elem? d.channels i ≡ some c
    → c.active ≡ true
    → c.refcount ≡ 2
    → channel_destroy i d ≡ gone d i (stopped c)
unfolding channel_destroy
destroyed d i c at act two =
    let c₁ = record c { shutdown = true; worker = false } in
    let c₂ = record c₁ { refcount = 1 } in
    let stop : Channel → Channel = λ x. record x { shutdown = true; worker = false } in
    ap (λ x. if x.active then kref_put i (kref_put i (put_channel d i (stop x))) else d)
      (here d i c at)
    ∙ ap (λ b. if b then kref_put i (kref_put i (put_channel d i c₁)) else d) act
    ∙ (ap (kref_put i) (
          kref_put-first (put_channel d i c₁) i c₁ (rewritten d i c at c₁) two
          ∙ overwritten d i c at c₁ c₂)
        ∙ kref_put-last (put_channel d i c₂) i c₂ (rewritten d i c at c₂) refl
        ∙ ap
            (λ xs. record d {
              channels = xs;
              active_channels = dec d.active_channels;
              total_channels_destroyed = add64 d.total_channels_destroyed 1;
            })
            (set-set d.channels i _ _))
