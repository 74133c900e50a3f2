-- ===== src/Fs/Serve/Tests.antt =====
-- The table of open files as serve_init leaves it, where a client shares the first entry's page.
use oscourse.Base.{ℕ, ◌<◌, ◌⊎◌, true, Option, none, ◌≡◌, ◌==◌, if◌then◌else◌}
use oscourse.Fs.File.{Error, max_open, err}
use oscourse.Fs.Serve.{Server, blank_fd, maxopen, serve_init, openfile_alloc}
use oscourse.Fs.Serve.Open.{all_shared, Taken, openfile_alloc-Outcome, serve_init-IsEntry}

abbrev blank : Server
blank = record {
  opentab = λ i. record { o_fileid = 0; o_file = none; o_mode = 0; o_fd = 0 };
  refs = λ v. if v == 0xd0000 then 2 else 0;
  fds = λ v. blank_fd;
}

abbrev refuses : ℕ → Option Error
refuses v = none

openfile_alloc-Outcome_example :
    ((d : ℕ) × (d < maxopen)
      × (all_shared d 0 (serve_init blank) ≡ true)
      × Taken
          (serve_init blank)
          d
          (refuses ((serve_init blank).opentab d).o_fd)
          (openfile_alloc refuses (serve_init blank)))
    ⊎ ((all_shared maxopen 0 (serve_init blank) ≡ true)
        × (openfile_alloc refuses (serve_init blank) ≡ (err max_open, serve_init blank)))
openfile_alloc-Outcome_example =
    openfile_alloc-Outcome refuses (serve_init blank) (serve_init-IsEntry blank)
