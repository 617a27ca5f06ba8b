-- ===== src/Memory/PageTable.antt =====
-- Page tables and address translation of sys/memory.c. A table stands in the words of the physical
-- memory: a `PageTableEntry*` is the index of its first word, or `none` for NULL, and an entry is
-- read and written through its word, the bit fields from the lowest bit up in the order of
-- sys/memory.h (the layout of the System V ABI on x86-64).
pub mod Entry
pub mod Mmu
pub mod Isolation
pub mod Create
pub mod Space
pub mod Tests
use the_loc_os.Base.{ℕ, ◌+◌, ◌*◌, ◌/◌, ◌%◌, ◌^◌, Option, none, some, ◌==◌, if◌then◌else◌, for_range}
use the_loc_os.Memory.{
  PhysicalMemory, store, read_word, write_word, free_frame, allocate_kernel_space, word_size,
}

pub record PageTableEntry : Type 0 where
  pub frame_number : ℕ
  pub present : ℕ
  pub rw_bit : ℕ
  pub user : ℕ
  pub accessed : ℕ
  pub dirty : ℕ
  pub reserved : ℕ

pub decode : ℕ → PageTableEntry
decode w = record {
  frame_number = w % 4096;
  present = w / 4096 % 2;
  rw_bit = w / 8192 % 2;
  user = w / 16384 % 2;
  accessed = w / 32768 % 2;
  dirty = w / 65536 % 2;
  reserved = w / 131072 % 32768;
}

-- A value stored in a bit field keeps the bits that fit.
pub encode : PageTableEntry → ℕ
encode e =
    e.frame_number % 4096
    + e.present % 2 * 4096
    + e.rw_bit % 2 * 8192
    + e.user % 2 * 16384
    + e.accessed % 2 * 32768
    + e.dirty % 2 * 65536
    + e.reserved % 32768 * 131072

-- `page_table[i]`, read and assigned to
pub get_entry : PhysicalMemory → ℕ → ℕ → PageTableEntry
get_entry pm page_table i = decode (pm.memory (page_table + i))

pub set_entry : PhysicalMemory → ℕ → ℕ → PageTableEntry → PhysicalMemory
set_entry pm page_table i e = store pm (page_table + i) (encode e)

-- what `create_page_table` puts into every entry
abbrev pub initial_entry : PageTableEntry
initial_entry = record {
  frame_number = 0;
  present = 0;
  rw_bit = 1;
  user = 1;
  accessed = 0;
  dirty = 0;
  reserved = 0;
}

-- `sizeof(PageTableEntry)` is 4; the products are of type `size_t` and cannot overflow.
pub size_needed : ℕ → ℕ
size_needed num_pages =
    let words = num_pages * 4 / word_size % 2 ^ 32 in
    if num_pages * 4 % word_size == 0 then words else (words + 1) % 2 ^ 32

abbrev pub init_entries : ℕ → ℕ → PhysicalMemory → PhysicalMemory
init_entries page_table num_pages pm =
    for_range num_pages 0 (λ i m. set_entry m page_table i initial_entry) pm

-- the second half of `create_page_table`, on what `allocate_kernel_space` returned
abbrev pub fill_table : ℕ → Option ℕ × PhysicalMemory → Option ℕ × PhysicalMemory
fill_table num_pages (none, pm) = (none, pm)
fill_table num_pages (some page_table, pm) = (some page_table, init_entries page_table num_pages pm)

pub create_page_table : PhysicalMemory → ℕ → Option ℕ × PhysicalMemory
create_page_table pm num_pages =
    fill_table num_pages (allocate_kernel_space pm (size_needed num_pages))

abbrev pub destroy_entry : ℕ → ℕ → PhysicalMemory → PhysicalMemory
destroy_entry page_table i pm =
    if (get_entry pm page_table i).present == 0
    then pm
    else free_frame pm (get_entry pm page_table i).frame_number

pub destroy_page_table : PhysicalMemory → Option ℕ → ℕ → PhysicalMemory
destroy_page_table pm none num_pages = pm
destroy_page_table pm (some page_table) num_pages =
    for_range num_pages 0 (destroy_entry page_table) pm

abbrev pub page_of : ℕ → ℕ
page_of virtual_address = virtual_address / 2 ^ 12

abbrev pub offset_of : ℕ → ℕ
offset_of virtual_address = virtual_address % 2 ^ 12

-- The word address, or 0 on a page fault. The offset is below 2 ^ 12, so `|` adds it, and the frame
-- number below 2 ^ 12, so that the shift stays within 32 bits.
pub translate_virtual_to_physical : PhysicalMemory → Option ℕ → ℕ → ℕ
unfolding get_entry
translate_virtual_to_physical pm none virtual_address = 0
translate_virtual_to_physical pm (some page_table) virtual_address =
    if (get_entry pm page_table (page_of virtual_address)).present == 0
    then 0
    else ((get_entry pm page_table (page_of virtual_address)).frame_number * 2 ^ 12
        + offset_of virtual_address)
      / word_size

pub mmu_read_word : PhysicalMemory → Option ℕ → ℕ → ℕ
mmu_read_word pm none virtual_address = 0
mmu_read_word pm (some page_table) virtual_address =
    read_word pm (translate_virtual_to_physical pm (some page_table) virtual_address)

-- `page_table[virtual_page].dirty = 1; page_table[virtual_page].accessed = 1;`
pub mark_written : PhysicalMemory → ℕ → ℕ → PhysicalMemory
mark_written pm page_table i =
    let e = get_entry pm page_table i in
    set_entry pm page_table i (record e { dirty = 1; accessed = 1 })

pub mmu_write_word : PhysicalMemory → Option ℕ → ℕ → ℕ → PhysicalMemory
mmu_write_word pm none virtual_address value = pm
mmu_write_word pm (some page_table) virtual_address value =
    write_word (mark_written pm page_table (page_of virtual_address))
      (translate_virtual_to_physical pm (some page_table) virtual_address) value
