-- ===== src/User/Format/Print.antt =====
-- lib/printfmt.c: `vsnprintf`, which puts what `vprintfmt` prints into a buffer.
use oscourse.Base.{
  ℕ, ◌+◌, ◌-◌, ◌%◌, ◌^◌, Option, none, some, List, [], ◌∷◌, ltb, if◌then◌else◌, update,
}
use oscourse.User.Memory.{Memory}
use oscourse.User.Format.{Arg, vprintfmt}

-- `struct sprintbuf`, with the memory that it points into
pub record SprintBuf : Type 0 where
  pub buf : ℕ
  pub ebuf : ℕ
  pub cnt : ℕ
  pub mem : Memory

-- `sprintputch`
abbrev pub sprintputch : ℕ → SprintBuf → SprintBuf
sprintputch ch b =
    if ltb b.buf b.ebuf
    then record b { cnt = b.cnt + 1; mem = update b.mem b.buf (ch % 2 ^ 8); buf = b.buf + 1 }
    else record b { cnt = b.cnt + 1 }

unfoldable pub put_all : List ℕ → SprintBuf → SprintBuf
put_all [] b = b
put_all (c ∷ cs) b = put_all cs (sprintputch c b)

-- the end of `vsnprintf`
unfoldable pub terminated : SprintBuf → ℕ × Memory
terminated b = (b.cnt, update b.mem b.buf 0)

unfoldable pub filled : (buf n : ℕ) → Memory → Option (List ℕ) → Option (Option (ℕ × Memory))
unfolding put_all terminated
filled buf n mem none = none
filled buf n mem (some out) =
    some (
      some
        (terminated (put_all out (record { buf = buf; ebuf = buf + n - 1; cnt = 0; mem = mem }))))

-- `vsnprintf` for a buffer that is not NULL; the inner `none` is -E_INVAL
unfoldable pub vsnprintf :
    (buf n : ℕ) → (fmt : List ℕ) → List Arg → Memory → Option (Option (ℕ × Memory))
unfolding filled
vsnprintf buf n fmt args mem = if ltb n 1 then some none else filled buf n mem (vprintfmt fmt args)
