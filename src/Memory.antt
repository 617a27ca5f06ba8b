-- ===== src/Memory.antt =====
-- sys/memory.h and the frame, kernel-space and word operations of sys/memory.c. The page tables and
-- the MMU are in Memory.PageTable. `pm` is never NULL where the program calls these functions, so
-- it is a value here and the NULL guards on it have no counterpart; messages are not modelled.
pub mod PageTable
pub mod Frames
pub mod Words
use the_loc_os.Base.{
  ℕ, zero, suc, ◌+◌, ◌-◌, ◌*◌, ◌/◌, ◌%◌, ◌^◌, ◌≤◌, ◌<◌, ◌≡◌, Bool, true, false, ◌||◌, Option, none,
  some, ltb, leb, ◌==◌, if◌then◌else◌, update, for_range,
}

abbrev pub address_bus_bits : ℕ
address_bus_bits = 24

abbrev pub word_size : ℕ
word_size = 4

abbrev pub physical_memory_size : ℕ
physical_memory_size = 2 ^ 24

-- 4,194,304 words
abbrev pub total_words : ℕ
total_words = 4194304

abbrev pub kernel_space_size : ℕ
kernel_space_size = 1048576

abbrev pub kernel_space_words : ℕ
kernel_space_words = 262144

abbrev pub page_size : ℕ
page_size = 4096

abbrev pub page_offset_bits : ℕ
page_offset_bits = 12

abbrev pub total_frames : ℕ
total_frames = 4096

abbrev pub kernel_frames : ℕ
kernel_frames = 256

-- `PhysicalMemory`. The two arrays are functions of the index: `total_words` words and
-- `total_frames` bytes.
pub record PhysicalMemory : Type 0 where
  pub memory : ℕ → ℕ
  pub frame_bitmap : ℕ → ℕ
  pub kernel_space_end : ℕ
  pub user_space_start : ℕ
  pub next_kernel_frame : ℕ
  pub total_allocated_frames : ℕ

-- the loop of `create_physical_memory` that marks the kernel's frames, over the zeroed bitmap
abbrev pub kernel_bitmap : ℕ → ℕ → ℕ
kernel_bitmap n = for_range n 0 (λ i bitmap. update bitmap i 1) (λ i. 0)

abbrev pub boot_memory : (ℕ → ℕ) → PhysicalMemory
boot_memory bitmap = record {
  memory = λ a. 0;
  frame_bitmap = bitmap;
  kernel_space_end = kernel_space_words;
  user_space_start = kernel_space_words;
  next_kernel_frame = 0;
  total_allocated_frames = kernel_frames;
}

-- `create_physical_memory`: the arguments say which of its three allocations succeed.
unfoldable pub create_physical_memory : Bool → Bool → Bool → Option PhysicalMemory
create_physical_memory false memory_ok bitmap_ok = none
create_physical_memory true false bitmap_ok = none
create_physical_memory true true false = none
create_physical_memory true true true = some (boot_memory (kernel_bitmap kernel_frames))

-- The search of `allocate_frame` from frame `i` with `n` frames left to look at; 0 means that no
-- frame is free.
pub allocate_from : ℕ → ℕ → PhysicalMemory → ℕ × PhysicalMemory
allocate_from zero i pm = (0, pm)
allocate_from (suc n) i pm =
    let rest = allocate_from n (i + 1) pm in
    if pm.frame_bitmap i == 0
    then (
      i,
      record pm {
        frame_bitmap = update pm.frame_bitmap i 1;
        total_allocated_frames = (pm.total_allocated_frames + 1) % 2 ^ 32;
      },
    )
    else rest

pub allocate_frame : PhysicalMemory → ℕ × PhysicalMemory
allocate_frame pm = allocate_from (total_frames - kernel_frames) kernel_frames pm

pub free_frame : PhysicalMemory → ℕ → PhysicalMemory
free_frame pm frame_number =
    if leb total_frames frame_number || ltb frame_number kernel_frames
    then pm
    else if pm.frame_bitmap frame_number == 1
    then record pm {
      frame_bitmap = update pm.frame_bitmap frame_number 0;
      total_allocated_frames = (pm.total_allocated_frames + 2 ^ 32 - 1) % 2 ^ 32;
    }
    else pm

pub is_frame_allocated : PhysicalMemory → ℕ → ℕ
is_frame_allocated pm frame_number =
    if leb total_frames frame_number then 0 else pm.frame_bitmap frame_number

-- `allocate_kernel_space`: `none` is NULL, `some a` the address of word `a` of the memory.
pub allocate_kernel_space : PhysicalMemory → ℕ → Option ℕ × PhysicalMemory
allocate_kernel_space pm size_in_words =
    if ltb kernel_space_words ((pm.next_kernel_frame + size_in_words) % 2 ^ 32)
    then (none, pm)
    else (
      some pm.next_kernel_frame,
      record pm { next_kernel_frame = (pm.next_kernel_frame + size_in_words) % 2 ^ 32 },
    )

pub read_word : PhysicalMemory → ℕ → ℕ
read_word pm address = if leb total_words address then 0 else pm.memory address

-- A store to the array itself, with no check.
abbrev pub store : PhysicalMemory → ℕ → ℕ → PhysicalMemory
store pm a v = record pm { memory = update pm.memory a v }

pub write_word : PhysicalMemory → ℕ → ℕ → PhysicalMemory
write_word pm address value = if leb total_words address then pm else store pm address value
