-- ===== src/Kernel/Residents.antt =====
-- The processes that wait in the ready queue while the programs are loaded: each has an address
-- space of its own.
use the_loc_os.Base.{
  ℕ, ◌+◌, ◌<◌, ◌≤◌, ◌≡◌, ◌≢◌, inl, inr, refl, sym, ap, ◌∙◌, arith, true, false, some, List, [], ◌∷◌,
  ltb, ◌==◌, ==_self, ◌*◌, ◌⊎◌, if◌then◌else◌, Bool-cases,
}
use mathlib.Core.Path.{subst}
use the_loc_os.Queue.{Ptr, ProcessQueue}
use the_loc_os.Queue.Ring
use the_loc_os.Queue.Ring.{entry, put, enqueue_process-put, put-IsValid, enqueue_process-full}
use the_loc_os.Process.{Heap, destroy_pcb}
use the_loc_os.Memory.Frames.{IsValid}
use the_loc_os.Loader.{Loading, Program, total_pages, create_process_from_program}
use the_loc_os.Loader.Page.{image}
use the_loc_os.Memory.PageTable.Space.{virtual_word}
use the_loc_os.Loader.Pages.{frame_of}
use the_loc_os.Loader.Keep.{Owned, apart}
use the_loc_os.Loader.Create.{Small, Sized, Created}
use the_loc_os.Loader.Outcome.{Leaves, create_process_cases}
use the_loc_os.Loader.Elf.{load_program_from_elf}
use the_loc_os.Kernel.{Boot, Entry, file_path, enqueue_loaded, load_program}

-- The processes of the queue, by their place from the front: process `i` has its page table at word
-- `table i`, with `pages i` pages, which are those that `program i` needs and hold its words, and no
-- two share a frame.
pub record Resident (s : Boot) (table pages : ℕ → ℕ) (program : ℕ → Program) : Type 0 where
  pub memory : IsValid s.loading.pm
  pub kernel : s.loading.pm.next_kernel_frame ≤ 262144
  pub queue : Ring.IsValid s.ready_queue
  pub exists : (i : ℕ) → i < s.ready_queue.current_size → entry s.ready_queue i ≢ 0
  pub allocated :
      (i : ℕ) → i < s.ready_queue.current_size → s.loading.heap.live (entry s.ready_queue i) ≡ true
  pub uses :
      (i : ℕ)
      → i < s.ready_queue.current_size
      → (s.loading.heap.cell (entry s.ready_queue i)).mm.pgb ≡ some (table i)
  pub owned : (i : ℕ) → i < s.ready_queue.current_size → Owned s.loading.pm (table i) (pages i)
  pub sized : (i : ℕ) → i < s.ready_queue.current_size → Sized (program i).header (pages i)
  pub words :
      (i : ℕ)
      → i < s.ready_queue.current_size
      → (k : ℕ) → k < pages i * 1024
      → virtual_word s.loading.pm (table i) k ≡ image (program i) k
  pub apart :
      (i j k l : ℕ)
      → i < s.ready_queue.current_size
      → j < i
      → k < pages i
      → l < pages j
      → frame_of s.loading.pm (table i) k ≢ frame_of s.loading.pm (table j) l

-- `malloc` returns NULL or memory that is not in use.
abbrev pub IsMalloc : (Heap → Ptr) → Type 0
IsMalloc malloc = (h : Heap) → malloc h ≢ 0 → h.live (malloc h) ≡ false

-- The segments of what an entry is read as end below word 2 ^ 29.
abbrev pub IsSmall : Entry → Type 0
IsSmall e =
    (program : Program)
    → load_program_from_elf e.file (file_path e.name) e.random e.allocated ≡ some program
    → Small program.header

module _ {s : Boot} {table pages : ℕ → ℕ} {program : ℕ → Program}
    (r : Resident s table pages program) where
  -- The queue is as it was, and the memory has only lost room.
  Resident-Leaves :
      (fresh : Ptr) (loading : Loading)
      → Leaves fresh s.loading loading
      → ((i : ℕ) → i < s.ready_queue.current_size → entry s.ready_queue i ≢ fresh)
      → Resident (record s { loading = loading }) table pages program
  Resident-Leaves fresh loading l ne = record {
    memory = l.valid;
    kernel = l.kernel;
    queue = r.queue;
    exists = r.exists;
    allocated = λ i h. l.lives _ (ne i h) ∙ r.allocated i h;
    uses = λ i h. ap (λ c. c.mm.pgb) (l.cells _ (ne i h)) ∙ r.uses i h;
    owned = λ i h. (l.spaces _ _ (r.owned i h)).owned;
    sized = r.sized;
    words = λ i h k m. (l.spaces _ _ (r.owned i h)).words k m ∙ r.words i h k m;
    apart = λ i j k m h hj hk hm e. r.apart i j k m h hj hk hm (
        sym ((l.spaces _ _ (r.owned i h)).frames k hk)
        ∙ e
        ∙ (l.spaces _ _ (r.owned j (omega arith))).frames m hm);
  }

  not_fresh :
      (malloc : Heap → Ptr)
      → IsMalloc malloc
      → (i : ℕ) → i < s.ready_queue.current_size
      → entry s.ready_queue i ≢ malloc s.loading.heap
  not_fresh malloc m i h e =
      let ok : malloc s.loading.heap ≢ 0 = λ z. r.exists i h (e ∙ z) in
      let live = sym (ap s.loading.heap.live e) ∙ r.allocated i h in
      absurd (ground (arith, live, m s.loading.heap ok))

entry-put :
    (pq : ProcessQueue) (pcb : Ptr) (i : ℕ)
    → Ring.IsValid pq
    → pq.current_size < pq.max_capacity
    → i ≤ pq.current_size
    → entry (put pq pcb) i ≡ (if i == pq.current_size then pcb else entry pq i)
entry-put pq pcb i v room h = ground arith

-- a list with one more at the end
abbrev pub extend {ℓ} : {A : Type ℓ} → ℕ → A → (ℕ → A) → ℕ → A
extend size x f i = if i == size then x else f i

extend-at {ℓ} :
    {A : Type ℓ} (size : ℕ) (x : A) (f : ℕ → A) (i : ℕ) → i < size → extend size x f i ≡ f i
extend-at size x f i h = let other : (i == size) ≡ false = ground arith in rw other refl

extend-last {ℓ} : {A : Type ℓ} (size : ℕ) (x : A) (f : ℕ → A) → extend size x f size ≡ x
extend-last size x f = rw (==_self size) refl

module _ {s : Boot} {table pages : ℕ → ℕ} {program : ℕ → Program}
    (r : Resident s table pages program) (pcb : Ptr) (loading : Loading) (t n : ℕ)
    (l : Leaves pcb s.loading loading)
    (ne : (i : ℕ) → i < s.ready_queue.current_size → entry s.ready_queue i ≢ pcb) (ok : pcb ≢ 0)
    (live : loading.heap.live pcb ≡ true) (uses : (loading.heap.cell pcb).mm.pgb ≡ some t)
    (own : Owned loading.pm t n) (new : Program) (size_of : Sized new.header n)
    (words : (k : ℕ) → k < n * 1024 → virtual_word loading.pm t k ≡ image new k)
    (free : (i : ℕ) (t' n' : ℕ)
      → Owned s.loading.pm t' n'
      → (j : ℕ) → i < n
      → j < n'
      → frame_of loading.pm t i ≢ frame_of s.loading.pm t' j)
    (room : s.ready_queue.current_size < s.ready_queue.max_capacity) where
  -- the boot with one process more
  abbrev queued : ℕ → Boot
  queued m = record { loading = loading; ready_queue = put s.ready_queue pcb; programs_loaded = m }

  abbrev size : ℕ
  size = s.ready_queue.current_size

  old_entry : (i : ℕ) → i < size → entry (put s.ready_queue pcb) i ≡ entry s.ready_queue i
  old_entry i h = entry-put s.ready_queue pcb i r.queue room (omega arith) ∙ ground arith

  new_entry : entry (put s.ready_queue pcb) size ≡ pcb
  new_entry = entry-put s.ready_queue pcb size r.queue room (omega arith) ∙ ground arith

  -- what holds of the old processes and of the new one holds of all
  each :
      (P : ℕ → Ptr → ℕ → ℕ → Program → Type 0)
      → ((i : ℕ) → i < size → P i (entry s.ready_queue i) (table i) (pages i) (program i))
      → P size pcb t n new
      → (i : ℕ) → i < size + 1
      → P i
          (entry (put s.ready_queue pcb) i)
          (extend size t table i)
          (extend size n pages i)
          (extend size new program i)
  each P h p i k = elim (Bool-cases (i == size)) [
    | inl e ↦ let q : i ≡ size = ground arith in rw (e, q, new_entry) p
    | inr e ↦ rw (e, old_entry i (ground arith)) (h i (ground arith))
  ]

  old : Resident (record s { loading = loading }) table pages program
  old = Resident-Leaves r pcb loading l ne

  all_apart :
      (i : ℕ)
      → i < size + 1
      → (j k m : ℕ) → j < i
      → k < extend size n pages i
      → m < extend size n pages j
      → frame_of loading.pm (extend size t table i) k
        ≢ frame_of loading.pm (extend size t table j) m
  all_apart i h j k m hj hk hm =
      let small : j < size = omega arith in
      let hm' = subst (λ x. m < x) (extend-at size n pages j small) hm in
      subst (λ x. frame_of loading.pm (extend size t table i) k ≢ frame_of loading.pm x m)
        (sym (extend-at size t table j small))
        (each
          (λ i p t n q. j < i → k < n → frame_of loading.pm t k ≢ frame_of loading.pm (table j) m)
          (λ i l hj hk. old.apart i j k m l hj hk hm')
          (λ hj hk e.
            free k (table j) (pages j) (r.owned j small) m hk hm'
              (e ∙ (l.spaces _ _ (r.owned j small)).frames m hm'))
          i h hj hk)

  Resident-put :
      (m : ℕ)
      → Resident (queued m) (extend size t table) (extend size n pages) (extend size new program)
  Resident-put m = record {
    memory = l.valid;
    kernel = l.kernel;
    queue = put-IsValid r.queue pcb room;
    exists = each (λ i p t n q. p ≢ 0) r.exists ok;
    allocated = each (λ i p t n q. loading.heap.live p ≡ true) old.allocated live;
    uses = each (λ i p t n q. (loading.heap.cell p).mm.pgb ≡ some t) old.uses uses;
    owned = each (λ i p t n q. Owned loading.pm t n) old.owned own;
    sized = each (λ i p t n q. Sized q.header n) old.sized size_of;
    words =
        each (λ i p t n q. (k : ℕ) → k < n * 1024 → virtual_word loading.pm t k ≡ image q k)
          old.words words;
    apart = λ i j k m h hj hk hm. all_apart i h j k m hj hk hm;
  }

-- The system is in order for some tables, page counts and programs of the processes in the queue.
pub record InOrder (s : Boot) : Type 0 where
  pub table : ℕ → ℕ
  pub pages : ℕ → ℕ
  pub program : ℕ → Program
  pub resident : Resident s table pages program

abbrev no_program : Program
no_program = record {
  header = record {
    program_name = [];
    code_size = 0;
    data_size = 0;
    text_address = 0;
    data_address = 0;
    entry_point = 0;
    priority = 0;
    ttl = 0;
  };
  code_segment = λ i. 0;
  data_segment = λ i. 0;
}

-- An empty queue is in order.
pub empty-InOrder :
    (s : Boot)
    → IsValid s.loading.pm
    → s.loading.pm.next_kernel_frame ≤ 262144
    → Ring.IsValid s.ready_queue
    → s.ready_queue.current_size ≡ 0
    → InOrder s
empty-InOrder s v kernel q empty = record {
  table = λ i. 0;
  pages = λ i. 0;
  program = λ i. no_program;
  resident = record {
    memory = v;
    kernel = kernel;
    queue = q;
    exists = λ i h. absurd (omega arith);
    allocated = λ i h. absurd (omega arith);
    uses = λ i h. absurd (omega arith);
    owned = λ i h. absurd (omega arith);
    sized = λ i h. absurd (omega arith);
    words = λ i h. absurd (omega arith);
    apart = λ i j k l h. absurd (omega arith);
  };
}

-- In order again, with the processes that were there and perhaps one more at the end, whose program
-- has the property.
pub record Extends (s : Boot) (program : ℕ → Program) (Q : Program → Type 0) (s' : Boot)
    : Type 0 where
  pub order : InOrder s'
  pub kept : (i : ℕ) → i < s.ready_queue.current_size → order.program i ≡ program i
  pub grown :
      (s'.ready_queue.current_size ≡ s.ready_queue.current_size)
      ⊎ ((s'.ready_queue.current_size ≡ s.ready_queue.current_size + 1)
          × Q (order.program s.ready_queue.current_size))

enqueue_loaded-null :
    (s : Boot) (pcb : Ptr) (loading : Loading)
    → pcb ≡ 0
    → enqueue_loaded s pcb loading ≡ record s { loading = loading }
unfolding enqueue_loaded
enqueue_loaded-null s pcb loading e = ground arith

enqueue_loaded-put :
    (s : Boot) (pcb : Ptr) (loading : Loading)
    → pcb ≢ 0
    → Ring.IsValid s.ready_queue
    → s.ready_queue.current_size < s.ready_queue.max_capacity
    → enqueue_loaded s pcb loading ≡ record {
      loading = loading;
      ready_queue = put s.ready_queue pcb;
      programs_loaded = s.programs_loaded + 1;
    }
unfolding enqueue_loaded
enqueue_loaded-put s pcb loading ok v room =
    let some_pcb : (pcb == 0) ≡ false = ground arith in
    rw (enqueue_process-put v pcb room, some_pcb) refl

-- a queue that is full: the new process is destroyed
enqueue_loaded-full :
    (s : Boot) (pcb : Ptr) (loading : Loading)
    → pcb ≢ 0
    → s.ready_queue.max_capacity ≤ s.ready_queue.current_size
    → enqueue_loaded s pcb loading
      ≡ record s { loading = record loading { heap = destroy_pcb pcb loading.heap } }
unfolding enqueue_loaded
enqueue_loaded-full s pcb loading ok full =
    let some_pcb : (pcb == 0) ≡ false = ground arith in
    rw (enqueue_process-full s.ready_queue pcb full, some_pcb) refl

Leaves-destroy :
    {pcb : Ptr} {before after : Loading}
    → Leaves pcb before after
    → Leaves pcb before (record after { heap = destroy_pcb pcb after.heap })
unfolding destroy_pcb
Leaves-destroy l = record {
  valid = l.valid;
  kernel = l.kernel;
  spaces = l.spaces;
  cells = λ p ne. ground (arith, l.cells p ne);
  lives = λ p ne. ground (arith, l.lives p ne);
}

module _ {s : Boot} {table pages : ℕ → ℕ} {program : ℕ → Program}
    (r : Resident s table pages program) (Q : Program → Type 0) where
  -- the processes that were there
  pub Resident-Extends :
      {s' : Boot}
      → s'.ready_queue ≡ s.ready_queue
      → Resident s' table pages program
      → Extends s program Q s'
  Resident-Extends e r' = record {
    order = record { table = table; pages = pages; program = program; resident = r' };
    kept = λ i h. refl;
    grown = inl (ap (λ q. q.current_size) e);
  }

module _ {s : Boot} {table pages : ℕ → ℕ} {programs : ℕ → Program}
    (r : Resident s table pages programs) (malloc : Heap → Ptr) (m : IsMalloc malloc)
    (program : Program) (small : Small program.header) (Q : Program → Type 0)
    (holds : Q program) where
  abbrev made : Ptr × Loading
  made = create_process_from_program malloc s.loading program

  created-Extends :
      Leaves (malloc s.loading.heap) s.loading made.1
      → made.0 ≡ malloc s.loading.heap
      → malloc s.loading.heap ≢ 0
      → Created s.loading program (total_pages program.header) made.0 made.1
      → Extends s programs Q (enqueue_loaded s made.0 made.1)
  created-Extends l e ok c =
      let new : made.0 ≢ 0 = λ z. ok (sym e ∙ z) in
      let l' = subst (λ p. Leaves p s.loading made.1) (sym e) l in
      let ne = λ (i : ℕ) (h : i < s.ready_queue.current_size) (q : entry s.ready_queue i ≡ made.0).
        not_fresh r malloc m i h (q ∙ e) in
      let size = s.ready_queue.current_size in
      elim (Bool-cases (ltb size s.ready_queue.max_capacity)) [
        | inl b ↦
            let room : size < s.ready_queue.max_capacity = ground arith in
            rw (enqueue_loaded-put s made.0 made.1 new r.queue room) (record {
              order = record {
                table = _;
                pages = _;
                program = extend size program programs;
                resident =
                    Resident-put r made.0 made.1 s.loading.pm.next_kernel_frame
                      (total_pages program.header) l' ne new c.live c.fresh.pgb c.boots.owned
                      program c.sized c.boots.words
                      (λ i t' n' o j.
                        apart r.memory c.boots.valid c.boots.keeps refl o c.boots.free i j)
                      room (s.programs_loaded + 1);
              };
              kept = λ i h. extend-at size program programs i h;
              grown = inr (refl, subst Q (sym (extend-last size program programs)) holds);
            })
        | inr b ↦
            rw (enqueue_loaded-full s made.0 made.1 new (ground arith))
              (Resident-Extends r Q refl (Resident-Leaves r made.0 _ (Leaves-destroy l') ne))
      ]

  pub program-Extends : Extends s programs Q (load_program malloc s (some program))
  program-Extends =
      let (l, outcome) = create_process_cases malloc s.loading program small r.memory r.kernel in
      elim outcome [
        | inl (e, ok, c) ↦ created-Extends l e ok c
        | inr z ↦
            rw (enqueue_loaded-null s made.0 made.1 z)
              (Resident-Extends r Q refl (Resident-Leaves r _ made.1 l (not_fresh r malloc m)))
      ]

abbrev pub AllSmall : List Entry → Type 0
AllSmall [] = Unit
AllSmall (e ∷ es) = IsSmall e × AllSmall es
