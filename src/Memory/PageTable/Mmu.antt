-- ===== src/Memory/PageTable/Mmu.antt =====
-- Reads and writes through a page table.
use the_loc_os.Base.{ℕ, ◌+◌, ◌*◌, ◌/◌, ◌<◌, ◌≤◌, ◌≡◌, arith, ◌==◌, if◌then◌else◌, some, ap, ◌∙◌}
use the_loc_os.Memory.{PhysicalMemory, store, read_word, write_word}
use the_loc_os.Memory.PageTable.{
  get_entry, set_entry, mark_written, page_of, offset_of, translate_virtual_to_physical,
  mmu_read_word, mmu_write_word,
}
use the_loc_os.Memory.PageTable.Entry.{get_entry-mark_written, decode-Fits}

-- `va` is mapped by the table at word `t` to a frame of user space.
pub record Maps (pm : PhysicalMemory) (t va : ℕ) : Type 0 where
  pub in_kernel : t + page_of va < 262144
  pub present : (get_entry pm t (page_of va)).present ≡ 1
  pub in_user : 256 ≤ (get_entry pm t (page_of va)).frame_number

-- the word that a mapped address stands for
abbrev pub target : PhysicalMemory → ℕ → ℕ → ℕ
target pm t va = (get_entry pm t (page_of va)).frame_number * 1024 + offset_of va / 4

-- A mapped address is translated to the word of its frame at its offset, in user space and inside
-- the memory.
pub translate-Maps :
    {pm : PhysicalMemory} {t va : ℕ}
    → Maps pm t va
    → (translate_virtual_to_physical pm (some t) va ≡ target pm t va)
      × (262144 ≤ target pm t va)
      × (target pm t va < 4194304)
unfolding translate_virtual_to_physical get_entry
translate-Maps {pm} {t} {va} m =
    ground (arith, m.present, m.in_user, decode-Fits (pm.memory (t + page_of va)))

pub mmu_read-Maps :
    {pm : PhysicalMemory} {t va : ℕ}
    → Maps pm t va
    → mmu_read_word pm (some t) va ≡ pm.memory (target pm t va)
unfolding mmu_read_word read_word
mmu_read-Maps {pm} {t} {va} m = let (e, lo, hi) = translate-Maps m in rw e (ground arith)

pub mmu_write-Maps :
    {pm : PhysicalMemory} {t va : ℕ} (v : ℕ)
    → Maps pm t va
    → mmu_write_word pm (some t) va v ≡ store (mark_written pm t (page_of va)) (target pm t va) v
unfolding mmu_write_word write_word
mmu_write-Maps {pm} {t} {va} v m = let (e, lo, hi) = translate-Maps m in rw e (ground arith)

mark_written-memory :
    (pm : PhysicalMemory) (t i a : ℕ) → t + i < a → (mark_written pm t i).memory a ≡ pm.memory a
unfolding mark_written set_entry
mark_written-memory pm t i a h = ground arith

get_entry-store :
    (pm : PhysicalMemory) (a v t i : ℕ)
    → t + i < a
    → get_entry (store pm a v) t i ≡ get_entry pm t i
unfolding get_entry
get_entry-store pm a v t i h = ground arith

-- A store through one table keeps the entries of every table in kernel space, up to their
-- accessed and dirty bits.
pub get_entry-mmu_write :
    {pm : PhysicalMemory} {t va : ℕ} (v t' i' : ℕ)
    → Maps pm t va
    → t' + i' < 262144
    → let e = get_entry (mmu_write_word pm (some t) va v) t' i' in
      (e.frame_number ≡ (get_entry pm t' i').frame_number)
      × (e.present ≡ (get_entry pm t' i').present)
get_entry-mmu_write {pm} {t} {va} v t' i' m h =
    let far : t' + i' < target pm t va = omega (arith, (translate-Maps m).1) in
    rw (mmu_write-Maps v m, get_entry-store (mark_written pm t (page_of va)) _ v t' i' far)
      (get_entry-mark_written pm t (page_of va) t' i')

module _ {pm : PhysicalMemory} {t va t' va' : ℕ} (v : ℕ) (m : Maps pm t va)
    (m' : Maps pm t' va') where
  -- A store through the MMU to a mapped address keeps every mapping.
  pub Maps-mmu_write : Maps (mmu_write_word pm (some t) va v) t' va'
  Maps-mmu_write =
      let (f, p) = get_entry-mmu_write v t' (page_of va') m m'.in_kernel in
      record { in_kernel = m'.in_kernel; present = p ∙ m'.present; in_user = rw f m'.in_user }

  pub target-mmu_write : target (mmu_write_word pm (some t) va v) t' va' ≡ target pm t' va'
  target-mmu_write =
      let (f, p) = get_entry-mmu_write v t' (page_of va') m m'.in_kernel in
      ap (λ (n : ℕ). n * 1024 + offset_of va' / 4) f

  -- A word read through the MMU after a store through the MMU, at mapped addresses of any two
  -- tables, is the stored value where both addresses stand for the same word, and otherwise what
  -- was read there before.
  pub mmu_read-mmu_write :
      mmu_read_word (mmu_write_word pm (some t) va v) (some t') va'
      ≡ (if target pm t va == target pm t' va' then v else mmu_read_word pm (some t') va')
  mmu_read-mmu_write =
      rw (mmu_read-Maps Maps-mmu_write, target-mmu_write, mmu_write-Maps v m, mmu_read-Maps m')
        (ground (
          arith,
          (translate-Maps m').1,
          m.in_kernel,
          mark_written-memory pm t (page_of va) (target pm t' va'),
        ))
