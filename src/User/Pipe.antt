-- ===== src/User/Pipe.antt =====
-- lib/pipe.c: a pipe shared by one reader and one writer, which run between each other's steps: a
-- byte is stored before the write position moves, and taken before the read position does. Waiting
-- with `sys_yield` changes nothing here, and is a pause between steps.
pub mod Fifo
mod Tests
use oscourse.Base.{ℕ, ◌+◌, ◌%◌, ◌^◌, ◌≡◌, Bool, true, false, leb, ◌==◌, if◌then◌else◌, update}

-- `PIPEBUFSIZ`
abbrev pub pipebufsiz : ℕ
pipebufsiz = 32

-- `struct Pipe`; the positions are 32-bit words
pub record Pipe : Type 0 where
  pub p_rpos : ℕ
  pub p_wpos : ℕ
  pub p_buf : ℕ → ℕ

-- the test of the inner loop of `devpipe_read`
abbrev pub is_empty : Pipe → Bool
is_empty p = p.p_rpos == p.p_wpos

-- the test of the inner loop of `devpipe_write`
abbrev pub is_full : Pipe → Bool
is_full p = leb ((p.p_rpos + pipebufsiz) % 2 ^ 32) p.p_wpos

-- `p->p_buf[p->p_rpos % PIPEBUFSIZ]`
abbrev pub next_byte : Pipe → ℕ
next_byte p = p.p_buf (p.p_rpos % pipebufsiz)

-- `p->p_rpos++`
abbrev pub advance_read : Pipe → Pipe
advance_read p = record p { p_rpos = (p.p_rpos + 1) % 2 ^ 32 }

-- `p->p_buf[p->p_wpos % PIPEBUFSIZ] = b`
unfoldable pub store_byte : ℕ → Pipe → Pipe
store_byte b p = record p { p_buf = update p.p_buf (p.p_wpos % pipebufsiz) b }

-- `p->p_wpos++`
abbrev pub advance_write : Pipe → Pipe
advance_write p = record p { p_wpos = (p.p_wpos + 1) % 2 ^ 32 }

-- The pipe, how many bytes were written and read, whether the writer is between storing a byte and
-- moving its position, whether the reader is between taking one and moving its own, and the bytes
-- that the reader got.
pub record State : Type 0 where
  pub pipe : Pipe
  pub sent : ℕ
  pub got : ℕ
  pub storing : Bool
  pub taking : Bool
  pub received : ℕ → ℕ

-- the states after the two steps of each side
abbrev pub stored : (input : ℕ → ℕ) → State → State
stored input s = record s { pipe = store_byte (input s.sent) s.pipe; storing = true }

abbrev pub wrote : State → State
wrote s = record s { pipe = advance_write s.pipe; sent = s.sent + 1; storing = false }

abbrev pub taken : State → State
taken s = record s { received = update s.received s.got (next_byte s.pipe); taking = true }

abbrev pub released : State → State
released s = record s { pipe = advance_read s.pipe; got = s.got + 1; taking = false }

-- One step of the writer, which sends `input`, or of the reader.
pub data Step (input : ℕ → ℕ) : State → State → Type 0 where
  store : {s : State} → s.storing ≡ false → is_full s.pipe ≡ false → Step input s (stored input s)
  write : {s : State} → s.storing ≡ true → Step input s (wrote s)
  take : {s : State} → s.taking ≡ false → is_empty s.pipe ≡ false → Step input s (taken s)
  release : {s : State} → s.taking ≡ true → Step input s (released s)

-- an empty pipe, before any step
abbrev pub start : State
start = record {
  pipe = record { p_rpos = 0; p_wpos = 0; p_buf = λ _. 0 };
  sent = 0;
  got = 0;
  storing = false;
  taking = false;
  received = λ _. 0;
}

-- the states that steps lead to, in any order of the two sides
pub data Reach (input : ℕ → ℕ) : State → Type 0 where
  begin : Reach input start
  after : {s t : State} → Reach input s → Step input s t → Reach input t
