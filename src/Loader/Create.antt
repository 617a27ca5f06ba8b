-- ===== src/Loader/Create.antt =====
-- `create_process_from_program`: the process that it makes, and the address spaces of the others.
use the_loc_os.Base.{
  ==_self, Bool-cases, ap, arith, false, for_range_inv, inl, inr, ltb, pos, refl, some, true,
  update, ℕ, ◌*◌, ◌+ℤ◌, ◌+◌, ◌/◌, ◌<◌, ◌==◌, ◌^◌, ◌≡◌, ◌≢◌, ◌≤◌, ◌⊎◌,
}
use the_loc_os.Queue.{Ptr}
use the_loc_os.Process.{
  Heap, Pcb, create_pcb, new_pcb, modify, set_pcb_ttl, set_pcb_priority, destroy_pcb, waiting,
}
use the_loc_os.Memory.{PhysicalMemory}
use the_loc_os.Memory.Frames.{IsValid}
use the_loc_os.Memory.PageTable.{create_page_table}
use the_loc_os.Memory.PageTable.Create.{create_page_table-fits, create_page_table-full}
use the_loc_os.Memory.PageTable.Space.{virtual_word}
use the_loc_os.Loader.{
  Loader, to_int, fill_pages, set_memory, Program, ProgramHeader, Loading, calculate_pages_needed,
  total_pages, span_words, code_end_word, data_end_word, load_pages, create_process_from_program,
}
use the_loc_os.Loader.Page.{image}
use the_loc_os.Loader.Pages.{frame_of}
use the_loc_os.Loader.Keep.{
  Owned, Keeps, start-Loaded, Loaded-Owned, Loaded-virtual_word, Loaded-Keeps, Loaded-free,
}
use the_loc_os.Loader.Fill.{load_pages-Loaded, load_pages-fails}

-- The segments of the header end below word 2 ^ 29, so that nothing passes 32 bits when it is added
-- up in bytes.
pub record Small (header : ProgramHeader) : Type 0 where
  pub code : header.text_address / 4 + header.code_size < 2 ^ 29
  pub data_ends : header.data_address / 4 + header.data_size < 2 ^ 29

-- The pages of a process hold all words of its code and its data, and no whole page is left over,
-- where the segments of the header end below word 2 ^ 29.
pub total_pages-bounds :
    (header : ProgramHeader)
    → Small header
    → (header.text_address / 4 + header.code_size ≤ total_pages header * 1024)
      × (header.data_address / 4 + header.data_size ≤ total_pages header * 1024)
      × (total_pages header * 1024 < span_words header + 1024)
unfolding total_pages calculate_pages_needed
total_pages-bounds header s = ground (arith, s.code, s.data_ends)

-- `pages` pages hold all words of the code and of the data, and no whole page is left over.
pub record Sized (header : ProgramHeader) (pages : ℕ) : Type 0 where
  pub code : header.text_address / 4 + header.code_size ≤ pages * 1024
  pub data_ends : header.data_address / 4 + header.data_size ≤ pages * 1024
  pub tight :
      (pages * 1024 < header.text_address / 4 + header.code_size + 1024)
      ⊎ (pages * 1024 < header.data_address / 4 + header.data_size + 1024)

total_pages-Sized : (header : ProgramHeader) → Small header → Sized header (total_pages header)
total_pages-Sized header small =
    let (code, data_ends, few) = total_pages-bounds header small in
    record {
      code = code;
      data_ends = data_ends;
      tight = elim (Bool-cases (ltb (code_end_word header) (data_end_word header))) [
        | inl e ↦ inr (ground (arith, few, small.code, small.data_ends))
        | inr e ↦ inl (ground (arith, few, small.code, small.data_ends))
      ];
    }

pub record Boots (program : Program) (pm : PhysicalMemory) (pages : ℕ) (pm' : PhysicalMemory)
    : Type 0 where
  pub valid : IsValid pm'
  pub owned : Owned pm' pm.next_kernel_frame pages
  pub words : (k : ℕ) → k < pages * 1024 → virtual_word pm' pm.next_kernel_frame k ≡ image program k
  pub free : (i : ℕ) → i < pages → pm.frame_bitmap (frame_of pm' pm.next_kernel_frame i) ≡ 0
  pub keeps : Keeps pm.next_kernel_frame pages pm pm'
  pub total : pm'.total_allocated_frames ≡ pm.total_allocated_frames + pages

-- The table and the loop together, where there is room.
load_pages-Boots :
    (program : Program) (pm : PhysicalMemory) (pages : ℕ)
    → Small program.header
    → IsValid pm
    → pm.next_kernel_frame + pages ≤ 262144
    → pm.total_allocated_frames + pages ≤ 4096
    → let (done, pm') =
        load_pages program pm.next_kernel_frame pages 0 (create_page_table pm pages).1 in
      (done ≡ true) × Boots program pm pages pm'
load_pages-Boots program pm pages small v hk ht =
    let c = (create_page_table-fits pm pages hk).1 in
    let total : (create_page_table pm pages).1.total_allocated_frames ≡ pm.total_allocated_frames =
      ap (λ (q : PhysicalMemory). q.total_allocated_frames) c.rest in
    let kernel : (create_page_table pm pages).1.next_kernel_frame ≡ pm.next_kernel_frame + pages =
      ap (λ (q : PhysicalMemory). q.next_kernel_frame) c.rest in
    let (done, ld) =
      load_pages-Loaded program pm.next_kernel_frame (omega (arith, small.code))
        (omega (arith, small.data_ends)) pages 0 pages _ (omega arith) (start-Loaded pages v c) hk
        (omega arith) in
    (
      done,
      record {
        valid = ld.valid;
        owned = Loaded-Owned ld (omega arith) (omega arith);
        words = Loaded-virtual_word ld;
        free = Loaded-free c ld;
        keeps = Loaded-Keeps hk c (omega arith) ld;
        total = omega (arith, ld.total);
      },
    )

load_pages-short :
    (program : Program) (pm : PhysicalMemory) (pages : ℕ)
    → Small program.header
    → IsValid pm
    → pm.next_kernel_frame + pages ≤ 262144
    → 4096 < pm.total_allocated_frames + pages
    → let (done, pm') =
        load_pages program pm.next_kernel_frame pages 0 (create_page_table pm pages).1 in
      (done ≡ false)
      × (pm'.total_allocated_frames ≡ 4096)
      × IsValid pm'
      × Keeps pm.next_kernel_frame pages pm pm'
load_pages-short program pm pages small v hk ht =
    let c = (create_page_table-fits pm pages hk).1 in
    let total : (create_page_table pm pages).1.total_allocated_frames ≡ pm.total_allocated_frames =
      ap (λ (q : PhysicalMemory). q.total_allocated_frames) c.rest in
    let (done, full, part) =
      load_pages-fails program pm.next_kernel_frame (omega (arith, small.code))
        (omega (arith, small.data_ends)) pages 0 pages _ (omega arith) (start-Loaded pages v c) hk
        (omega arith) in
    let (loaded, few, ld) = part in (done, full, ld.valid, Loaded-Keeps hk c few ld)

-- the PCB that the loader fills in
pub record Fresh (loader : Loader) (program : Program) (table : ℕ) (p : Pcb) : Type 0 where
  pub pid : p.pid ≡ loader.next_pid
  pub state : p.state ≡ waiting
  pub priority : p.priority ≡ to_int program.header.priority
  pub ttl : p.ttl ≡ to_int program.header.ttl
  pub initial_ttl : p.initial_ttl ≡ to_int program.header.ttl
  pub pgb : p.mm.pgb ≡ some table
  pub pc : p.context.pc ≡ 0
  pub instruction : p.context.instruction ≡ 0
  pub registers : (r : ℕ) → r < 16 → p.context.registers r ≡ 0

-- A process of its own for the program, and the rest of the system as it was.
pub record Created (s : Loading) (program : Program) (pages : ℕ) (pcb : Ptr) (s' : Loading)
    : Type 0 where
  pub sized : Sized program.header pages
  pub fresh : Fresh s.loader program s.pm.next_kernel_frame (s'.heap.cell pcb)
  pub live : s'.heap.live pcb ≡ true
  pub others : (p : Ptr) → p ≢ pcb → s'.heap.cell p ≡ s.heap.cell p
  pub others_live : (p : Ptr) → p ≢ pcb → s'.heap.live p ≡ s.heap.live p
  pub next_pid : s'.loader.next_pid ≡ s.loader.next_pid +ℤ pos 1
  pub total_loaded : s'.loader.total_loaded ≡ s.loader.total_loaded +ℤ pos 1
  pub boots : Boots program s.pm pages s'.pm

-- the heap with the new PCB, before its memory is set
abbrev prepared : (Heap → Ptr) → Loading → Program → Heap
prepared malloc s program =
    let p = malloc s.heap in
    modify p
      (λ c. record c { ttl = to_int program.header.ttl; initial_ttl = to_int program.header.ttl })
      (modify p (λ c. record c { priority = to_int program.header.priority })
        (record {
          cell = update s.heap.cell p (new_pcb s.loader.next_pid (s.heap.cell p).context.registers);
          live = update s.heap.live p true;
        }))

new_registers :
    (r : ℕ) (garbage : ℕ → ℕ) → r < 16 → (new_pcb (pos 0) garbage).context.registers r ≡ 0
new_registers r garbage =
    for_range_inv (λ i regs. r < i → regs r ≡ 0) (λ i regs. update regs i 0)
      (λ i regs h l. ground (arith, h)) 16 0 16 garbage (omega arith) (λ l. absurd (omega arith))

prepared-Fresh :
    (malloc : Heap → Ptr) (s : Loading) (program : Program) (t : ℕ)
    → Fresh s.loader program t (
        (set_memory program.header t (malloc s.heap) (prepared malloc s program)).cell
          (malloc s.heap))
prepared-Fresh malloc s program t = rw (==_self (malloc s.heap)) (record {
  pid = refl;
  state = refl;
  priority = refl;
  ttl = refl;
  initial_ttl = refl;
  pgb = refl;
  pc = refl;
  instruction = refl;
  registers = λ r. new_registers r (s.heap.cell (malloc s.heap)).context.registers;
})

module _ (malloc : Heap → Ptr) (s : Loading) (program : Program) (ok : malloc s.heap ≢ 0) where
  -- Where the PCB is allocated, the rest is up to the table and the loop.
  create_process-prepared : create_process_from_program malloc s program ≡ (
      let (table, pm) = create_page_table s.pm (total_pages program.header) in
      fill_pages program (malloc s.heap) table (record {
        loader = record (s.loader) { next_pid = s.loader.next_pid +ℤ pos 1 };
        heap = prepared malloc s program;
        pm = pm;
      }))
  unfolding create_process_from_program create_pcb set_pcb_ttl set_pcb_priority
  create_process-prepared =
      let alive : (malloc s.heap == 0) ≡ false = ground arith in rw (alive, alive) refl

  module _ (small : Small program.header) (v : IsValid s.pm)
      (hk : s.pm.next_kernel_frame + total_pages program.header ≤ 262144) where
    -- Where the PCB is allocated, frames and kernel space are enough, the bitmap is consistent and
    -- the segments of the header end below word 2 ^ 29, create_process_from_program returns a
    -- fresh PCB with the next pid and the priority and the time to live of the header. Its page
    -- table maps as many pages as hold the code and the data, with no whole page left over, each
    -- to a frame of its own that was free; the words of its address space are those of the
    -- program, and zero elsewhere. Other PCBs and the words in use stay what they were.
    pub create_process-Created :
        s.pm.total_allocated_frames + total_pages program.header ≤ 4096
        → let (pcb, s') = create_process_from_program malloc s program in
          (pcb ≡ malloc s.heap) × Created s program (total_pages program.header) pcb s'
    create_process-Created ht =
        let (done, boots) = load_pages-Boots program s.pm _ small v hk ht in
        let table = (create_page_table-fits s.pm _ hk).0 in
        rw (create_process-prepared, table, done)
          (
            refl,
            record {
              sized = total_pages-Sized program.header small;
              fresh = prepared-Fresh malloc s program s.pm.next_kernel_frame;
              live = ground arith;
              others = λ p ne. ground arith;
              others_live = λ p ne. ground arith;
              next_pid = refl;
              total_loaded = refl;
              boots = boots;
            },
          )

    -- Where kernel space is enough but fewer frames are left than the program has pages,
    -- create_process_from_program returns NULL and frees the PCB, and total_loaded stays; but
    -- every frame of the memory is in use afterwards. The segments of the header must end below
    -- word 2 ^ 29, the PCB be allocated and the bitmap consistent.
    pub create_process-fails :
        4096 < s.pm.total_allocated_frames + total_pages program.header
        → let (pcb, s') = create_process_from_program malloc s program in
          (pcb ≡ 0)
          × (IsValid s'.pm × (s'.pm.total_allocated_frames ≡ 4096))
          × (s'.heap.live (malloc s.heap) ≡ false)
          × (s'.loader.total_loaded ≡ s.loader.total_loaded)
          × Keeps s.pm.next_kernel_frame (total_pages program.header) s.pm s'.pm
          × ((p : Ptr) → p ≢ malloc s.heap → s'.heap.cell p ≡ s.heap.cell p)
          × ((p : Ptr) → p ≢ malloc s.heap → s'.heap.live p ≡ s.heap.live p)
    unfolding destroy_pcb
    create_process-fails ht =
        let (done, full, valid, keeps) = load_pages-short program s.pm _ small v hk ht in
        let table = (create_page_table-fits s.pm _ hk).0 in
        let alive : (malloc s.heap == 0) ≡ false = ground arith in
        rw (create_process-prepared, table, done, alive)
          (
            refl,
            (valid, full),
            ground arith,
            refl,
            keeps,
            λ p ne. ground arith,
            λ p ne. ground arith,
          )

  -- where kernel space is short
  pub create_process-no_table :
      s.pm.next_kernel_frame ≤ 262144
      → 262144 < s.pm.next_kernel_frame + total_pages program.header
      → total_pages program.header < 2 ^ 30
      → let (pcb, s') = create_process_from_program malloc s program in
        (pcb ≡ 0)
        × (s'.pm ≡ s.pm)
        × ((p : Ptr) → p ≢ malloc s.heap → s'.heap.cell p ≡ s.heap.cell p)
        × ((p : Ptr) → p ≢ malloc s.heap → s'.heap.live p ≡ s.heap.live p)
  unfolding destroy_pcb
  create_process-no_table low high few =
      let alive : (malloc s.heap == 0) ≡ false = ground arith in
      rw (create_process-prepared, create_page_table-full s.pm _ high (omega arith), alive)
        (refl, refl, λ p ne. ground arith, λ p ne. ground arith)
