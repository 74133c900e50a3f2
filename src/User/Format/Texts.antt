-- ===== src/User/Format/Texts.antt =====
-- lib/printfmt.c, inc/error.h: the texts of the errors.
use Prim.Native.Char.{code}
use Prim.Native.String.{String}
use oscourse.Base.{ℕ, List, [], ◌∷◌, Option, none, some, ◌==◌, if◌then◌else◌}

-- the bytes of a text
abbrev pub codes : String → List ℕ
codes String.[] = []
codes (String.◌∷◌ c s) = code c ∷ codes s

-- `error_string`
unfoldable pub error_string : ℕ → Option String
error_string err =
    if err == 1
    then some "unspecified error"
    else if err == 2
    then some "bad environment"
    else if err == 3
    then some "invalid parameter"
    else if err == 4
    then some "out of memory"
    else if err == 5
    then some "out of environments"
    else if err == 6
    then some "segmentation fault"
    else if err == 7
    then some "env is not recving"
    else if err == 8
    then some "unexpected end of file"
    else if err == 9
    then some "no free space on disk"
    else if err == 10
    then some "too many files are open"
    else if err == 11
    then some "file or block not found"
    else if err == 12
    then some "invalid path"
    else if err == 13
    then some "file already exists"
    else if err == 14
    then some "file is not a valid executable"
    else if err == 15
    then some "operation not supported"
    else none
