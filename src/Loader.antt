-- ===== src/Loader.antt =====
-- The loader of sys/loader.h and sys/loader.c: from a program in memory to a process with an address
-- space. Reading a program from a file is in Loader.Elf. The loader's references to the queue, the
-- machine and the scheduler are not used by its functions; the memory that it shares with the clock
-- and the PCBs are part of the state here. Messages are not modelled.
pub mod Page
pub mod Scan
pub mod Elf
pub mod Pages
pub mod Fill
pub mod Keep
pub mod Create
pub mod Outcome
pub mod Run
pub mod Tests
use the_loc_os.Base.{
  ℕ, zero, suc, ◌+◌, ◌-◌, ◌*◌, ◌/◌, ◌%◌, ◌^◌, Bool, true, false, ◌&&◌, Option, none, some, List,
  ltb, ◌==◌, if◌then◌else◌, for_range, ℤ, pos, negsuc, ◌+ℤ◌,
}
use the_loc_os.Queue.{Ptr, null}
use the_loc_os.Process.{Heap, modify, create_pcb, set_pcb_priority, set_pcb_ttl, destroy_pcb}
use the_loc_os.Memory.{PhysicalMemory, allocate_frame, write_word, word_size, page_size}
use the_loc_os.Memory.PageTable.{get_entry, set_entry, create_page_table}

abbrev pub max_program_name : ℕ
max_program_name = 256

-- `ProgramHeader`; `priority` and `ttl` are words.
pub record ProgramHeader : Type 0 where
  pub program_name : List ℕ
  pub code_size : ℕ
  pub data_size : ℕ
  pub text_address : ℕ
  pub data_address : ℕ
  pub entry_point : ℕ
  pub priority : ℕ
  pub ttl : ℕ

-- The segments are functions of the index; `data_segment` is not read where its size is 0.
pub record Program : Type 0 where
  pub header : ProgramHeader
  pub code_segment : ℕ → ℕ
  pub data_segment : ℕ → ℕ

pub record Loader : Type 0 where
  pub next_pid : ℤ
  pub total_loaded : ℤ

-- `create_loader`, where its allocation succeeds or not
unfoldable pub create_loader : Bool → Option Loader
create_loader true = some (record { next_pid = pos 1; total_loaded = pos 0 })
create_loader false = none

-- what the loader's functions read and change
pub record Loading : Type 0 where
  pub loader : Loader
  pub heap : Heap
  pub pm : PhysicalMemory

unfoldable pub calculate_pages_needed : ℕ → ℕ
calculate_pages_needed size_in_bytes =
    if size_in_bytes == 0 then 0 else (size_in_bytes + page_size - 1) % 2 ^ 32 / page_size

-- a word as an `int`
abbrev pub to_int : ℕ → ℤ
to_int w = if ltb w (2 ^ 31) then pos w else negsuc (2 ^ 32 - 1 - w)

abbrev pub code_start_word : ProgramHeader → ℕ
code_start_word header = header.text_address / word_size

abbrev pub code_end_word : ProgramHeader → ℕ
code_end_word header = (code_start_word header + header.code_size) % 2 ^ 32

abbrev pub data_start_word : ProgramHeader → ℕ
data_start_word header = header.data_address / word_size

abbrev pub data_end_word : ProgramHeader → ℕ
data_end_word header = (data_start_word header + header.data_size) % 2 ^ 32

-- the larger of the two ends
abbrev pub span_words : ProgramHeader → ℕ
span_words header =
    if ltb (code_end_word header) (data_end_word header)
    then data_end_word header
    else code_end_word header

unfoldable pub total_pages : ProgramHeader → ℕ
total_pages header = calculate_pages_needed (span_words header * word_size % 2 ^ 32)

abbrev pub words_per_page : ℕ
words_per_page = 1024

-- "Initialize this page (fill with zeros first)"
pub clear_frame : ℕ → PhysicalMemory → PhysicalMemory
clear_frame frame_address pm =
    for_range words_per_page 0 (λ j m. write_word m (frame_address + j) 0) pm

-- "Copy code if it overlaps this page", and the same for data: the words from `start` to before
-- `stop` of `segment`, into the page that starts at word `page_start` and has its frame at
-- `frame_address`.
pub copy_segment : (ℕ → ℕ) → ℕ → ℕ → ℕ → ℕ → PhysicalMemory → PhysicalMemory
copy_segment segment start stop page_start frame_address pm =
    let page_end = page_start + words_per_page in
    let copy_start = if ltb page_start start then start else page_start in
    let copy_end = if ltb stop page_end then stop else page_end in
    if ltb start page_end && ltb page_start stop
    then for_range (copy_end - copy_start) copy_start
        (λ word m. write_word m (frame_address + (word - page_start)) (segment (word - start))) pm
    else pm

-- the entry of a page that has its frame
abbrev pub map_page : ℕ → ℕ → ℕ → PhysicalMemory → PhysicalMemory
map_page page_table page frame pm =
    set_entry pm page_table page (record (get_entry pm page_table page) {
      frame_number = frame;
      present = 1;
      rw_bit = 1;
      user = 1;
    })

-- the body of the loop over the pages, once it has a frame
pub load_page : Program → ℕ → ℕ → ℕ → PhysicalMemory → PhysicalMemory
load_page program page_table page frame pm =
    let header = program.header in
    let frame_address = frame * words_per_page in
    let page_start = page * words_per_page in
    copy_segment program.data_segment (data_start_word header) (data_end_word header) page_start
      frame_address
      (copy_segment program.code_segment (code_start_word header) (code_end_word header) page_start
        frame_address (clear_frame frame_address (map_page page_table page frame pm)))

-- The loop, with `n` pages left from `page` on; `false` where no frame is left.
pub load_pages : Program → ℕ → ℕ → ℕ → PhysicalMemory → Bool × PhysicalMemory
load_pages program page_table zero page pm = (true, pm)
load_pages program page_table (suc n) page pm =
    let (frame, pm') = allocate_frame pm in
    let rest =
      load_pages program page_table n (page + 1) (load_page program page_table page frame pm') in
    if frame == 0 then (false, pm') else rest

abbrev pub set_memory : ProgramHeader → ℕ → Ptr → Heap → Heap
set_memory header page_table pcb h =
    modify pcb
      (λ p. record p {
        mm = record {
          code = code_start_word header * word_size % 2 ^ 32;
          data_start = data_start_word header * word_size % 2 ^ 32;
          pgb = some page_table;
        };
      })
      h

-- the rest of the function, on the answer of `create_page_table`
abbrev pub fill_pages : Program → Ptr → Option ℕ → Loading → Ptr × Loading
fill_pages program pcb none s = (null, record s { heap = destroy_pcb pcb s.heap })
fill_pages program pcb (some page_table) s =
    let h = set_memory program.header page_table pcb s.heap in
    let (done, pm) = load_pages program page_table (total_pages program.header) 0 s.pm in
    if done
    then (
      pcb,
      record {
        loader = record (s.loader) { total_loaded = s.loader.total_loaded +ℤ pos 1 };
        heap = h;
        pm = pm;
      },
    )
    else (null, record s { heap = destroy_pcb pcb h; pm = pm })

unfoldable pub create_process_from_program : (Heap → Ptr) → Loading → Program → Ptr × Loading
create_process_from_program malloc s program =
    let (pcb, h) = create_pcb malloc s.loader.next_pid s.heap in
    let loader = record (s.loader) { next_pid = s.loader.next_pid +ℤ pos 1 } in
    if pcb == null
    then (null, record s { loader = loader; heap = h })
    else let h' =
        set_pcb_ttl pcb (to_int program.header.ttl)
          (set_pcb_priority pcb (to_int program.header.priority) h) in
      let (page_table, pm) = create_page_table s.pm (total_pages program.header) in
      fill_pages program pcb page_table (record { loader = loader; heap = h'; pm = pm })
