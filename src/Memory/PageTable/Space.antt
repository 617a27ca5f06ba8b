-- ===== src/Memory/PageTable/Space.antt =====
-- The address space of a process: `n` pages with frames of their own, seen as an array of words.
use the_loc_os.Base.{
  ℕ, ◌+◌, ◌*◌, ◌/◌, ◌<◌, ◌≤◌, ◌≡◌, sym, ap, ◌∙◌, arith, ◌==◌, if◌then◌else◌, some,
}
use mathlib.Core.Path.{ap₂}
use native.Mathlib.Decide.{ℕ_discrete}
use the_loc_os.Memory.{PhysicalMemory}
use the_loc_os.Memory.PageTable.{get_entry, page_of, offset_of, mmu_read_word, mmu_write_word}
use the_loc_os.Memory.PageTable.Mmu.{
  Maps, target, mmu_read-Maps, mmu_read-mmu_write, Maps-mmu_write, get_entry-mmu_write,
}

-- The table at word `t` maps the pages 0 to n - 1 to frames of user space, no two to the same.
pub record Space (pm : PhysicalMemory) (t n : ℕ) : Type 0 where
  pub in_kernel : t + n ≤ 262144
  pub present : (i : ℕ) → i < n → (get_entry pm t i).present ≡ 1
  pub in_user : (i : ℕ) → i < n → 256 ≤ (get_entry pm t i).frame_number
  pub distinct :
      (i j : ℕ)
      → i < n
      → j < n
      → (get_entry pm t i).frame_number ≡ (get_entry pm t j).frame_number
      → i ≡ j

-- word `k` of the space
abbrev pub virtual_word : PhysicalMemory → ℕ → ℕ → ℕ
virtual_word pm t k = pm.memory (target pm t (4 * k))

module _ {pm : PhysicalMemory} {t n : ℕ} (s : Space pm t n) where
  pub Space-Maps : (va : ℕ) → page_of va < n → Maps pm t va
  Space-Maps va h = record {
    in_kernel = omega (arith, s.in_kernel);
    present = s.present (page_of va) h;
    in_user = s.in_user (page_of va) h;
  }

  -- a byte address reads the word that it lies in
  target_word : (va : ℕ) → target pm t va ≡ target pm t (4 * (va / 4))
  target_word va =
      let e : page_of va ≡ page_of (4 * (va / 4)) = omega arith in
      ap (λ p. (get_entry pm t p).frame_number * 1024 + offset_of va / 4) e
      ∙ ap (λ o. (get_entry pm t (page_of (4 * (va / 4)))).frame_number * 1024 + o) (omega arith)

  pub mmu_read-word :
      (va : ℕ) → page_of va < n → mmu_read_word pm (some t) va ≡ virtual_word pm t (va / 4)
  mmu_read-word va h = mmu_read-Maps (Space-Maps va h) ∙ ap pm.memory (target_word va)

  -- two addresses of the space stand for one word of the memory only if they are in one word
  target_injective :
      (va va' : ℕ)
      → page_of va < n
      → page_of va' < n
      → target pm t va ≡ target pm t va'
      → va / 4 ≡ va' / 4
  target_injective va va' h h' e =
      let same : (get_entry pm t (page_of va)).frame_number
          ≡ (get_entry pm t (page_of va')).frame_number =
        omega arith in
      let page : page_of va ≡ page_of va' = s.distinct _ _ h h' same in omega arith

  -- A store by a process leaves its address space in order: the table still maps all its pages to
  -- frames of user space, no two to the same.
  pub Space-mmu_write : (va v : ℕ) → page_of va < n → Space (mmu_write_word pm (some t) va v) t n
  Space-mmu_write va v h =
      let kept = λ (i : ℕ) (l : i < n).
        get_entry-mmu_write v t i (Space-Maps va h) (omega (arith, s.in_kernel)) in
      record {
        in_kernel = s.in_kernel;
        present = λ i l. (kept i l).1 ∙ s.present i l;
        in_user = λ i l. rw (kept i l).0 (s.in_user i l);
        distinct = λ i j l l' e. s.distinct i j l l' (sym (kept i l).0 ∙ e ∙ (kept j l').0);
      }

  same_word :
      (va k : ℕ)
      → page_of va < n
      → k < n * 1024
      → (target pm t va == target pm t (4 * k)) ≡ (k == va / 4)
  same_word va k h hk = elim (ℕ_discrete k (va / 4)) [
    | yes e ↦ rw (target_word va, e) (ground arith)
    | no ne ↦ ground (arith, target_injective va (4 * k) h (omega arith))
  ]

  -- A store through the MMU changes its word of the address space of a process, whose pages have
  -- frames of their own, and no other word of it.
  pub virtual_word-mmu_write :
      (va v k : ℕ)
      → page_of va < n
      → k < n * 1024
      → virtual_word (mmu_write_word pm (some t) va v) t k
        ≡ (if k == va / 4 then v else virtual_word pm t k)
  virtual_word-mmu_write va v k h hk =
      let m = Space-Maps va h in
      let m' = Space-Maps (4 * k) (omega arith) in
      sym (mmu_read-Maps (Maps-mmu_write v m m'))
      ∙ mmu_read-mmu_write v m m'
      ∙ ap₂ (λ b w. if b then v else w) (same_word va k h hk) (mmu_read-Maps m')
