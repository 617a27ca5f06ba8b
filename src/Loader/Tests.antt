-- ===== src/Loader/Tests.antt =====
-- The theorems on the loader, on a small program in a fresh memory.
use the_loc_os.Base.{
  ◌≢◌, ℕ, ◌+◌, ◌*◌, ◌<◌, ◌≡◌, refl, sym, arith, ◌^◌, pos, some, true, false, [], if◌then◌else◌,
  ◌==◌,
}
use the_loc_os.Queue.{Ptr}
use the_loc_os.Process.{Heap, new_pcb}
use the_loc_os.Memory.Frames.{IsValid}
use the_loc_os.Memory.Frames.Room.{count_used-ones}
use the_loc_os.Memory.Frames.Tests.{fresh-IsValid, fresh_memory}
use the_loc_os.Machine.Tests.{thread_of}
use the_loc_os.Loader.Page.{image}
use the_loc_os.Machine.Cycle.Isa.{Isa, isa_step, Simulates}
use the_loc_os.Machine.Cycle.Abstract.{cycles, isa_run, StaysInSpace}
use the_loc_os.Loader.{
  Loader, Loading, Program, create_loader, total_pages, create_process_from_program,
  calculate_pages_needed,
}
use the_loc_os.Loader.Keep.{Keeps}
use the_loc_os.Loader.Create.{Small, Created, create_process-Created, create_process-fails}
use the_loc_os.Loader.Run.{program-runs, spaces-create_process, Beside, load_and_start, boot_loaded}

-- two words of code, the second at 4 is EXIT, and two words of data from byte 8 on
abbrev two_words : Program
two_words = record {
  header = record {
    program_name = [];
    code_size = 2;
    data_size = 2;
    text_address = 0;
    data_address = 8;
    entry_point = 0;
    priority = 0;
    ttl = 10;
  };
  code_segment = λ i. if i == 0 then 8 else 15 * 2 ^ 28;
  data_segment = λ i. 40 + i;
}

abbrev first_loader : Loader
first_loader = record { next_pid = pos 1; total_loaded = pos 0 }

loader_created : create_loader true ≡ some first_loader
unfolding create_loader
loader_created = refl

abbrev empty_heap : Heap
empty_heap = record { cell = λ p. new_pcb (pos 0) (λ r. 0); live = λ p. false }

abbrev pub state : Loading
state = record { loader = first_loader; heap = empty_heap; pm = fresh_memory }

one_page : total_pages two_words.header ≡ 1
unfolding total_pages calculate_pages_needed
one_page = refl

two_words-Small : Small two_words.header
two_words-Small = record { code = omega arith; data_ends = omega arith }

state-IsValid : IsValid state.pm
state-IsValid = fresh-IsValid

abbrev first : Ptr × Loading
first = create_process_from_program (λ h. 5) state two_words

pub first_created :
    (first.0 ≡ 5) × Created state two_words (total_pages two_words.header) first.0 first.1
first_created =
    create_process-Created (λ h. 5) state two_words (omega arith) two_words-Small state-IsValid
      (omega (arith, one_page)) (omega (arith, one_page))

create_process-Created_example :
    (first.0 ≡ 5) × Created state two_words (total_pages two_words.header) first.0 first.1
create_process-Created_example =
    create_process-Created (λ h. 5) state two_words (omega arith) two_words-Small state-IsValid
      (omega (arith, one_page)) (omega (arith, one_page))

-- all frames in use
abbrev full_state : Loading
full_state = record state {
  pm = record (state.pm) { frame_bitmap = λ i. 1; total_allocated_frames = 4096 };
}

full_state-IsValid : IsValid full_state.pm
full_state-IsValid = record {
  bits = λ i. omega arith;
  reserved = λ i h. refl;
  counted = sym (count_used-ones 4096 (λ i. 1) (λ i h. refl));
}

create_process-fails_example :
    let (pcb, s) = create_process_from_program (λ h. 5) full_state two_words in
    (pcb ≡ 0)
    × (IsValid s.pm × (s.pm.total_allocated_frames ≡ 4096))
    × (s.heap.live 5 ≡ false)
    × (s.loader.total_loaded ≡ pos 0)
    × Keeps 0 (total_pages two_words.header) full_state.pm s.pm
    × ((p : Ptr) → p ≢ 5 → s.heap.cell p ≡ empty_heap.cell p)
    × ((p : Ptr) → p ≢ 5 → s.heap.live p ≡ empty_heap.live p)
create_process-fails_example =
    create_process-fails (λ h. 5) full_state two_words (omega arith) two_words-Small
      full_state-IsValid (omega (arith, one_page)) (omega (arith, one_page))

abbrev machine : Isa
machine = boot_loaded (λ h. 5) state two_words (thread_of 0)

machine-StaysInSpace : StaysInSpace (total_pages two_words.header) 2 machine
unfolding isa_step image
machine-StaysInSpace = (
  record { fetch = omega (arith, one_page); operand = λ h. omega (arith, one_page) },
  (record { fetch = omega (arith, one_page); operand = λ h. omega (arith, one_page) }, tt),
)

program-runs_example :
    ((r : ℕ) → r < 16 → machine.regs r ≡ 0)
    × Simulates 0
        (total_pages two_words.header)
        (cycles 2 (load_and_start (λ h. 5) state two_words (thread_of 0)))
        (isa_run 2 machine)
program-runs_example =
    program-runs (λ h. 5) state two_words (omega arith) two_words-Small state-IsValid
      (omega (arith, one_page)) (omega (arith, one_page)) (thread_of 0) 2 machine-StaysInSpace

second_state : Created state two_words (total_pages two_words.header) first.0 first.1
second_state = first_created.1

spaces-create_process_example :
    Beside first.1.pm.next_kernel_frame
      (total_pages two_words.header)
      0
      (total_pages two_words.header)
      first.1.pm
      (create_process_from_program (λ h. 6) first.1 two_words).1.pm
spaces-create_process_example =
    spaces-create_process (λ h. 6) first.1 two_words (omega arith) two_words-Small
      second_state.boots.valid (omega (arith, one_page, second_state.boots.keeps.kernel_free))
      (omega (arith, one_page, second_state.boots.total)) 0 (total_pages two_words.header)
      second_state.boots.owned
