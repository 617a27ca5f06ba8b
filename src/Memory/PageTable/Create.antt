-- ===== src/Memory/PageTable/Create.antt =====
-- `allocate_kernel_space` and `create_page_table`: what they reserve and what they write.
use the_loc_os.Base.{
  ℕ, ◌+◌, ◌^◌, ◌<◌, ◌≤◌, ◌≡◌, refl, arith, leb, ltb, ◌&&◌, if◌then◌else◌, some, none, ◌∙◌,
  for_range_inv, Option, ap, update,
}
use the_loc_os.Memory.{PhysicalMemory, allocate_kernel_space}
use the_loc_os.Memory.PageTable.{
  encode, set_entry, initial_entry, init_entries, size_needed, create_page_table, fill_table,
}

-- `pm'` is `pm` with the words `t` to `t + n - 1` holding initial entries.
pub record Cleared (pm : PhysicalMemory) (t n : ℕ) (pm' : PhysicalMemory) : Type 0 where
  pub words :
      (a : ℕ)
      → pm'.memory a ≡ (if leb t a && ltb a (t + n) then encode initial_entry else pm.memory a)
  pub rest : pm' ≡ record pm { memory = pm'.memory }

init_entries-Cleared : (t n : ℕ) (pm : PhysicalMemory) → Cleared pm t n (init_entries t n pm)
unfolding set_entry
init_entries-Cleared t n pm =
    for_range_inv (λ i m. Cleared pm t i m) (λ i m. set_entry m t i initial_entry)
      (λ i m c. record {
        words = λ a. ground (arith, c.words a);
        rest =
            ap
              (λ (q : PhysicalMemory). record q {
                memory = update m.memory (t + i) (encode initial_entry);
              })
              c.rest;
      })
      n 0 n pm (omega arith) (record { words = λ a. ground arith; rest = refl })

size_needed_lem : (n : ℕ) → n < 2 ^ 32 → size_needed n ≡ n
unfolding size_needed
size_needed_lem n h = ground arith

-- the memory with `n` more words of kernel space in use
abbrev pub reserve : PhysicalMemory → ℕ → PhysicalMemory
reserve pm n = record pm { next_kernel_frame = pm.next_kernel_frame + n }

module _ (pm : PhysicalMemory) (n : ℕ) where
  allocate_kernel_space-fits :
      pm.next_kernel_frame + n ≤ 262144
      → allocate_kernel_space pm n ≡ (some pm.next_kernel_frame, reserve pm n)
  unfolding allocate_kernel_space
  allocate_kernel_space-fits h = ground arith

  allocate_kernel_space-full :
      262144 < pm.next_kernel_frame + n
      → pm.next_kernel_frame + n < 2 ^ 32
      → allocate_kernel_space pm n ≡ (none, pm)
  unfolding allocate_kernel_space
  allocate_kernel_space-full h k = ground arith

  create_page_table-eq :
      {r : Option ℕ × PhysicalMemory}
      → n < 2 ^ 32
      → allocate_kernel_space pm n ≡ r
      → create_page_table pm n ≡ fill_table n r
  unfolding create_page_table
  create_page_table-eq h e =
      ap (λ k. fill_table n (allocate_kernel_space pm k)) (size_needed_lem n h)
      ∙ ap (fill_table n) e

  -- Where enough words of kernel space are left, create_page_table returns a table at the first of
  -- them, every entry of which is the initial one; the next table will start behind it, and no
  -- other word and no other field changes.
  pub create_page_table-fits :
      pm.next_kernel_frame + n ≤ 262144
      → let (table, pm') = create_page_table pm n in
        (table ≡ some pm.next_kernel_frame) × Cleared (reserve pm n) pm.next_kernel_frame n pm'
  create_page_table-fits h =
      rw (create_page_table-eq (omega arith) (allocate_kernel_space-fits h))
        (refl, init_entries-Cleared pm.next_kernel_frame n (reserve pm n))

  -- Where fewer words of kernel space are left than the table needs, and the sum does not pass 32
  -- bits, create_page_table returns NULL and changes nothing.
  pub create_page_table-full :
      262144 < pm.next_kernel_frame + n
      → pm.next_kernel_frame + n < 2 ^ 32
      → create_page_table pm n ≡ (none, pm)
  create_page_table-full h k = create_page_table-eq (omega arith) (allocate_kernel_space-full h k)
