-- ===== src/Device.antt =====
-- The device of driver/main.c: its channel slots, and the files that own them.
pub mod Ownership
pub mod Channels
pub mod Leaks
use dmaplane_master.Base.{
  ℕ, suc, ◌+◌, ◌-◌, Bool, true, false, ◌==◌, List, [], ◌∷◌, ◌++◌, Option, none, some, if◌then◌else◌,
  replicate, set, get_or, get_elem?, find_index, add64, ℤ, pos, inc, dec, Status, ok, err, Errno,
  eperm, enomem, ebusy, enospc, efault, not,
}
use dmaplane_master.Channel
use dmaplane_master.Channel.{Channel, channel_init}

-- DMAPLANE_MAX_CHANNELS
abbrev pub max_channels : ℕ
max_channels = 4

-- The part of `struct dmaplane_dev` that channels use
pub record Device : Type 0 where
  pub channels : List Channel
  pub active_channels : ℤ
  pub total_opens : ℕ
  pub total_closes : ℕ
  pub total_channels_created : ℕ
  pub total_channels_destroyed : ℕ

-- `struct dmaplane_file_ctx`: a file that is open has the slot of its channel, if it created one.
pub data File : Type 0 where
  closed : File
  opened : Option ℕ → File

abbrev pub is_vacant : Channel → Bool
is_vacant c = not c.active

abbrev pub no_channel : Channel
no_channel = channel_init 0

abbrev pub put_channel : Device → ℕ → Channel → Device
put_channel d i c = record d { channels = set d.channels i c }

-- The channel in slot i once CREATE_CHANNEL has started its worker: one reference is the file's, one
-- the worker's.
unfoldable pub started : ℕ → Channel
started i = record (channel_init i) { active = true; refcount = 2; worker = true }

-- The slot as it is left where `kthread_create` fails
unfoldable pub not_started : ℕ → Channel
not_started i = record (channel_init i) { refcount = 2 }

-- CREATE_CHANNEL on a file whose channel is `chan`; `worker` is the error of `kthread_create`, if
-- any, and `copied` says whether the result reaches user memory. The file's channel afterwards is
-- the second result.
unfoldable pub ioctl_create_channel :
    Option ℕ → Option Errno → Bool → Device → Status × Option ℕ × Device
ioctl_create_channel (some i) worker copied d = (err ebusy, some i, d)
ioctl_create_channel none worker copied d = elim (find_index is_vacant d.channels) [
  | none ↦ (err enospc, none, d)
  | some i ↦ elim worker [
    | some e ↦ (err e, none, put_channel d i (not_started i))
    | none ↦ (
      if copied then ok else err efault,
      some i,
      record (put_channel d i (started i)) {
        active_channels = inc d.active_channels;
        total_channels_created = add64 d.total_channels_created 1;
      },
    )
  ]
]

-- `dmaplane_channel_release`
unfoldable pub channel_release : ℕ → Device → Device
channel_release i d =
    record (put_channel d i (record (get_or d.channels i no_channel) { active = false })) {
      active_channels = dec d.active_channels;
      total_channels_destroyed = add64 d.total_channels_destroyed 1;
    }

-- `kref_put(&chan->refcount, dmaplane_channel_release)`
unfoldable pub kref_put : ℕ → Device → Device
kref_put i d =
    let c = get_or d.channels i no_channel in
    let d' = put_channel d i (record c { refcount = c.refcount - 1 }) in
    if c.refcount == 1 then channel_release i d' else d'

-- `dmaplane_channel_destroy`: the worker is told to stop and has exited when `kthread_stop` returns.
unfoldable pub channel_destroy : ℕ → Device → Device
channel_destroy i d =
    let c = get_or d.channels i no_channel in
    if c.active
    then kref_put i (kref_put i (put_channel d i (record c { shutdown = true; worker = false })))
    else d

-- `dmaplane_open`: `capable` is CAP_SYS_ADMIN, `allocated` whether `kzalloc` succeeds.
unfoldable pub device_open : Bool → Bool → Device → Status × Device
device_open capable allocated d =
    if not capable
    then (err eperm, d)
    else if not allocated
    then (err enomem, d)
    else (ok, record d { total_opens = add64 d.total_opens 1 })

-- `dmaplane_release`
unfoldable pub device_release : Option ℕ → Device → Device
device_release chan d =
    let d' : Device = elim chan [ none ↦ d | some i ↦ channel_destroy i d ] in
    record d' { total_closes = add64 d'.total_closes 1 }

-- The device after `dmaplane_init`
unfoldable pub empty_device : Device
empty_device = record {
  channels = replicate max_channels no_channel;
  active_channels = pos 0;
  total_opens = 0;
  total_closes = 0;
  total_channels_created = 0;
  total_channels_destroyed = 0;
}
