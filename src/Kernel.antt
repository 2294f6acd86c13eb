-- ===== src/Kernel.antt =====
-- The kernel services that the driver calls: what they answer is given to each operation, and what
-- the driver obtains from them and gives back is recorded as a list of events.
pub mod Balance
use dmaplane_master.Base.{
  ◌&&◌, ℕ, ◌+◌, Bool, true, false, ◌==◌, List, [], ◌∷◌, Option, if◌then◌else◌, map, Errno,
}

-- Facts about the machine, fixed for a run
pub record Machine : Type 0 where
  pub max_numnodes : ℕ
  pub node_online : ℕ → Bool
  pub page_to_nid : ℕ → ℕ
  -- `page_to_nid(virt_to_page(v))`
  pub virt_to_nid : ℕ → ℕ

-- PAGE_SIZE and PAGE_SHIFT of x86-64
abbrev pub page_size : ℕ
page_size = 4096

-- The objects of the kernel's subsystems, by the service that gives them
pub data Kind : Type 0 where
  ib_device domain completion_queue queue_pair memory_region scatter_table dma_mapping dma_buf
        io_mapping gpu_pages platform_device platform_bus device_numbers char_device device_class
        device_node :
      Kind

abbrev pub kind_code : Kind → ℕ
kind_code ib_device = 0
kind_code domain = 1
kind_code completion_queue = 2
kind_code queue_pair = 3
kind_code memory_region = 4
kind_code scatter_table = 5
kind_code dma_mapping = 6
kind_code dma_buf = 7
kind_code io_mapping = 8
kind_code gpu_pages = 9
kind_code platform_device = 10
kind_code platform_bus = 11
kind_code device_numbers = 12
kind_code char_device = 13
kind_code device_class = 14
kind_code device_node = 15

-- What the driver can own: a page frame, an array or object of the heap, a coherent allocation, a
-- kernel mapping, each by its address; an object of another subsystem.
pub data Resource : Type 0 where
  page heap coherent mapping : ℕ → Resource
  object : Kind → ℕ → Resource

abbrev pub same : Resource → Resource → Bool
same (page a) (page b) = a == b
same (heap a) (heap b) = a == b
same (coherent a) (coherent b) = a == b
same (mapping a) (mapping b) = a == b
same (object k a) (object l b) = kind_code k == kind_code l && a == b
same _ _ = false

pub data Event : Type 0 where
  get put : Resource → Event

-- How often a resource stands in a list
unfoldable pub count : Resource → List Resource → ℕ
count x [] = 0
count x (y ∷ ys) = (if same x y then 1 else 0) + count x ys

-- How often it is obtained, and given back
unfoldable pub gets : Resource → List Event → ℕ
gets x [] = 0
gets x (get y ∷ es) = (if same x y then 1 else 0) + gets x es
gets x (put y ∷ es) = gets x es

unfoldable pub puts : Resource → List Event → ℕ
puts x [] = 0
puts x (get y ∷ es) = puts x es
puts x (put y ∷ es) = (if same x y then 1 else 0) + puts x es
