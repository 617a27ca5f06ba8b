-- ===== src/Memory/PageTable/Tests.antt =====
-- The theorems on page tables, on two processes of one page each: their tables are the words 0 and 1
-- of the memory, their pages the frames 300 and 301.
use the_loc_os.Base.{
  for_range, ℕ, ◌+◌, ◌*◌, ◌/◌, ◌<◌, ◌≡◌, ◌≢◌, refl, arith, ◌==◌, if◌then◌else◌, some,
}
use the_loc_os.Memory.{is_frame_allocated, free_frame, PhysicalMemory, boot_memory, read_word}
use the_loc_os.Memory.PageTable.{
  destroy_page_table, PageTableEntry, decode, get_entry, page_of, translate_virtual_to_physical,
  mmu_read_word, mmu_write_word,
}
use the_loc_os.Memory.PageTable.Entry.{Fits}
use the_loc_os.Memory.PageTable.Mmu.{Maps, target, mmu_read-mmu_write}
use the_loc_os.Memory.PageTable.Isolation.{mmu_write_isolated, mmu_write-fault}
use the_loc_os.Memory.PageTable.Space.{
  Space, virtual_word, Space-Maps, Space-mmu_write, virtual_word-mmu_write,
}

abbrev page_entry : ℕ → PageTableEntry
page_entry f = record {
  frame_number = f;
  present = 1;
  rw_bit = 1;
  user = 1;
  accessed = 0;
  dirty = 0;
  reserved = 0;
}

page_entry-Fits : Fits (page_entry 300)
page_entry-Fits = omega arith

-- a memory whose words 0 and 1 are the two tables, whose frame 300 starts with three given words
abbrev pub two_tables : ℕ → ℕ → ℕ → PhysicalMemory
two_tables i j k = record (boot_memory (λ n. 0)) {
  memory = λ a.
      if a == 0
      then 28972
      else if a == 1
      then 28973
      else if a == 307200
      then i
      else if a == 307201
      then j
      else if a == 307202
      then k
      else 0;
  next_kernel_frame = 2;
}

entry_0 : get_entry (two_tables 0 0 0) 0 0 ≡ page_entry 300
unfolding get_entry decode
entry_0 = refl

pub two_tables-Space : (i j k : ℕ) → Space (two_tables i j k) 0 1
unfolding get_entry decode
two_tables-Space i j k = record {
  in_kernel = omega arith;
  present = λ n h. let e : n ≡ 0 = omega arith in rw e refl;
  in_user = λ n h. let e : n ≡ 0 = omega arith in rw e (omega arith);
  distinct = λ n m h h' e. omega arith;
}

pub two_tables-target : (i j k n : ℕ) → n < 1024 → target (two_tables i j k) 0 (4 * n) ≡ 307200 + n
unfolding get_entry decode
two_tables-target i j k n h = ground arith

abbrev pm : PhysicalMemory
pm = two_tables 10 11 12

pm-Space : Space pm 0 1
pm-Space = two_tables-Space 10 11 12

first-Maps : Maps pm 0 8
first-Maps = Space-Maps pm-Space 8 (omega arith)

second-Maps : Maps pm 1 8
unfolding get_entry decode
second-Maps = record { in_kernel = omega arith; present = refl; in_user = omega arith }

apart : (get_entry pm 0 (page_of 8)).frame_number ≢ (get_entry pm 1 (page_of 8)).frame_number
unfolding get_entry decode
apart = omega arith

reads_third_word : mmu_read_word pm (some 0) 8 ≡ 12
unfolding mmu_read_word read_word translate_virtual_to_physical get_entry decode
reads_third_word = refl

mmu_read-mmu_write_example :
    mmu_read_word (mmu_write_word pm (some 0) 8 99) (some 1) 8
    ≡ (if target pm 0 8 == target pm 1 8 then 99 else mmu_read_word pm (some 1) 8)
mmu_read-mmu_write_example = mmu_read-mmu_write 99 first-Maps second-Maps

mmu_write_isolated_example :
    mmu_read_word (mmu_write_word pm (some 0) 8 99) (some 1) 8 ≡ mmu_read_word pm (some 1) 8
mmu_write_isolated_example = mmu_write_isolated 99 first-Maps second-Maps apart

-- page 3 of the first table is not present
absent : (get_entry pm 0 (page_of 12288)).present ≡ 0
unfolding get_entry decode
absent = refl

mmu_write-fault_example : get_entry (mmu_write_word pm (some 0) 12288 0) 0 0 ≡ decode 0
mmu_write-fault_example = mmu_write-fault pm 0 12288 0 absent

virtual_word-mmu_write_example :
    virtual_word (mmu_write_word pm (some 0) 8 99) 0 2
    ≡ (if 2 == (8 / 4) then 99 else virtual_word pm 0 2)
virtual_word-mmu_write_example = virtual_word-mmu_write pm-Space 8 99 2 (omega arith) (omega arith)

Space-mmu_write_example : Space (mmu_write_word pm (some 0) 8 99) 0 1
Space-mmu_write_example = Space-mmu_write pm-Space 8 99 (omega arith)

-- the frame of the one page is given back, in a memory whose frames are all in use
frame_freed :
    is_frame_allocated (destroy_page_table (record pm { frame_bitmap = λ n. 1 }) (some 0) 1) 300 ≡ 0
unfolding is_frame_allocated destroy_page_table free_frame get_entry decode for_range
frame_freed = refl
