-- ===== src/Memory/PageTable/Isolation.antt =====
-- What separates processes: tables whose entries name different frames. And what breaks it: a store
-- to an address that is not mapped.
use the_loc_os.Base.{ℕ, ◌+◌, ◌^◌, ◌<◌, ◌≤◌, ◌≡◌, ◌≢◌, arith, some, ◌∙◌, ==_self}
use the_loc_os.Memory.{PhysicalMemory, write_word, total_words}
use the_loc_os.Memory.PageTable.{
  decode, get_entry, page_of, translate_virtual_to_physical, mmu_read_word, mmu_write_word,
}
use the_loc_os.Memory.PageTable.Mmu.{Maps, target, mmu_read-mmu_write}

-- A store by one process changes no word that another reads, where both addresses are mapped and
-- their pages have different frames.
pub mmu_write_isolated :
    {pm : PhysicalMemory} {t va t' va' : ℕ} (v : ℕ)
    → Maps pm t va
    → Maps pm t' va'
    → (get_entry pm t (page_of va)).frame_number ≢ (get_entry pm t' (page_of va')).frame_number
    → mmu_read_word (mmu_write_word pm (some t) va v) (some t') va' ≡ mmu_read_word pm (some t') va'
mmu_write_isolated {pm} {t} {va} {t'} {va'} v m m' apart =
    let away : target pm t va ≢ target pm t' va' = omega arith in
    mmu_read-mmu_write v m m' ∙ ground arith

-- The word that an instruction stores is the one that it loads back from the same address.
pub mmu_read-mmu_write_self :
    {pm : PhysicalMemory} {t va : ℕ} (v : ℕ)
    → Maps pm t va
    → mmu_read_word (mmu_write_word pm (some t) va v) (some t) va ≡ v
mmu_read-mmu_write_self {pm} {t} {va} v m = mmu_read-mmu_write v m m ∙ rw (==_self (target pm t va))

-- Every access to a page table, for any 32-bit address and any table in kernel space, stays inside
-- the array of words, though it may pass the end of the table.
pub table_in_bounds : (t va : ℕ) → t ≤ 262144 → va < 2 ^ 32 → t + page_of va < total_words
table_in_bounds t va h k = omega arith

-- A store to an address whose page is not present is not refused: its value overwrites word 0 of
-- the memory, where entry 0 of the first page table stands.
pub mmu_write-fault :
    (pm : PhysicalMemory) (t va v : ℕ)
    → (get_entry pm t (page_of va)).present ≡ 0
    → get_entry (mmu_write_word pm (some t) va v) 0 0 ≡ decode v
unfolding mmu_write_word write_word translate_virtual_to_physical get_entry
mmu_write-fault pm t va v absent = ground arith
