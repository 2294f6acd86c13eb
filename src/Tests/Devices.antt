-- ===== src/Tests/Devices.antt =====
-- One file that opens the device and creates a channel.
use dmaplane_master.Base.{◌==◌, ◌||◌, ◌&&◌, not, false, none, [], ◌∷◌, true, refl}
use dmaplane_master.Device.{empty_device, device_open, ioctl_create_channel, opened}
use dmaplane_master.Device.Ownership.{
  World, Threads, Reach, created, test_channel, begin, next, open_file, create_channel, Owned,
}
use dmaplane_master.Device.Leaks.{Reach-Owned}

abbrev one_file : World
one_file = record { device = (device_open true true empty_device).1; files = opened none ∷ [] }

abbrev waiting_file : Threads
waiting_file = record { world = one_file; testing = λ j. j == 0 || false }

abbrev one_channel : Threads
one_channel = record {
  world = created one_file 0 (ioctl_create_channel none none true one_file.device);
  testing = λ j. not (j == 0) && (j == 0 || false);
}

waiting-Reach : Reach waiting_file
waiting-Reach = next (next begin open_file) (test_channel 0 refl refl)

Reach-Owned_example : Owned one_channel.world
Reach-Owned_example = Reach-Owned (next waiting-Reach (create_channel 0 none true refl))
