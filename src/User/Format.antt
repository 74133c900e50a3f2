-- ===== src/User/Format.antt =====
-- lib/printfmt.c: `vprintfmt` as the list of what it puts; `vsnprintf` is in the child Print. `none`
-- stands for behaviour that C leaves undefined, an argument that the format does not fit among it.
pub mod Texts
pub mod Print
pub mod Buffer
pub mod Decimal
pub mod Escapes
mod Tests
use oscourse.Base.{
  ℕ, zero, suc, ◌+◌, ◌-◌, ◌*◌, ◌%◌, ◌^◌, Bool, true, false, not, ◌&&◌, ◌||◌, Option, none, some,
  List, [], ◌∷◌, ◌++◌, map, ltb, leb, ◌==◌, if◌then◌else◌, update, length, take,
}
use oscourse.User.Memory.{Memory}
use oscourse.User.Number.{pad, printnum}
use oscourse.User.Format.Texts.{codes, error_string}

-- an argument: 32 bits, 64 bits, a string or NULL
pub data Arg : Type 0 where
  word : ℕ → Arg
  wide : ℕ → Arg
  text : List ℕ → Arg
  null : Arg

-- The variables that the flags of an escape set. `none` is an `int` below 0.
pub record Spec : Type 0 where
  pub padc : ℕ
  pub width : Option ℕ
  pub precision : Option ℕ
  pub lflag : ℕ
  pub altflag : Bool

abbrev pub no_flags : Spec
no_flags = record { padc = b' '; width = none; precision = none; lflag = 0; altflag = false }

abbrev pub or_zero : Option ℕ → ℕ
or_zero none = 0
or_zero (some n) = n

-- `process_precision`
pub process_precision : Option ℕ → Spec → Spec
process_precision p s = set s.width
  where
    set : Option ℕ → Spec
    set none = record s { width = p; precision = none }
    set (some w) = record s { precision = p }

-- a 32-bit argument as an `int`, if that is not below 0
abbrev pub as_int : ℕ → Option ℕ
as_int w = if ltb w (2 ^ 31) then some w else none

-- What a character behind '%' does: go on with the digits of a number so far, go on with the next
-- character, or end the flags.
pub data Flag : Type 0 where
  number : ℕ → Flag
  flag : Spec → List Arg → Flag
  conversion : Flag

star : Spec → List Arg → Option Flag
unfolding process_precision
star s (word w ∷ args) = some (flag (process_precision (as_int w) s) args)
star s args = none

pub flag_of : (ch : ℕ) → Spec → List Arg → Option Flag
unfolding star
flag_of ch s args =
    if ch == b'-'
    then some (flag (record s { padc = b'-' }) args)
    else if ch == b'0'
    then some (flag (record s { padc = b'0' }) args)
    else if leb b'1' ch && leb ch b'9'
    then some (number (ch - b'0'))
    else if ch == b'*'
    then star s args
    else if ch == b'.'
    then some (flag (record s { width = some (or_zero s.width) }) args)
    else if ch == b'#'
    then some (flag (record s { altflag = true }) args)
    else if ch == b'l'
    then some (flag (record s { lflag = s.lflag + 1 }) args)
    else some conversion

-- the flags of an escape, the character behind them (0 at the end) and what follows it
pub record Escape : Type 0 where
  pub spec : Spec
  pub ch : ℕ
  pub after : List ℕ
  pub args : List Arg

abbrev pub with_number : Option ℕ → Spec → Spec
with_number none s = s
with_number (some n) s = process_precision (some n) s

-- what the character `c` does, where `reading` are the digits before it
pub flag_or_digit : (reading : Option ℕ) → (c : ℕ) → Spec → List Arg → Option Flag
unfolding flag_of
flag_or_digit none c s args = flag_of c s args
flag_or_digit (some n) c s args =
    if leb b'0' c && leb c b'9'
    then some (number (n * 10 + c - b'0'))
    else flag_of c (with_number (some n) s) args

-- go on with `scan`, or end with `e`
pub go_on :
    Option Flag
    → Spec
    → (scan : Option ℕ → Spec → List Arg → Option Escape) → Escape
    → Option Escape
go_on none s scan e = none
go_on (some (number n)) s scan e = if ltb n (2 ^ 31) then scan (some n) s e.args else none
go_on (some (flag t rest)) s scan e = scan none t rest
go_on (some conversion) s scan e = some e

-- The loop from `reswitch` on. With `some n` the digits of a number go on.
pub escape : (reading : Option ℕ) → Spec → List Arg → List ℕ → Option Escape
unfolding flag_or_digit go_on
escape reading s args [] = some (record { spec = s; ch = 0; after = []; args = args })
escape reading s args (c ∷ fmt) =
    go_on (flag_or_digit reading c s args) s (λ r t rest. escape r t rest fmt)
      (record { spec = with_number reading s; ch = c; after = fmt; args = args })

-- What a conversion puts, with the arguments that are left; or nothing, where the character is not
-- known and the escape is to be printed as it stands.
pub data Put : Type 0 where
  puts : List ℕ → List Arg → Put
  unknown : Put

abbrev pub shown : Bool → ℕ → ℕ
shown altflag ch = if altflag && (ltb ch b' ' || ltb b'~' ch) then b'?' else ch

abbrev pub limited : Option ℕ → List ℕ → List ℕ
limited none p = p
limited (some n) p = take n p

-- the case 's' for a string that is not NULL
pub put_string : Spec → List ℕ → List ℕ
put_string s p =
    let t = limited s.precision p in
    let spaces = or_zero s.width - length t in
    (if s.padc == b'-' then [] else pad spaces s.padc)
    ++ map (shown s.altflag) t
    ++ (if s.padc == b'-' then pad spaces b' ' else [])

-- the label `number`; 64 rounds are enough for 64 bits
pub put_number : (num base : ℕ) → Spec → List ℕ
unfolding printnum
put_number num base s = printnum 64 num base (or_zero s.width) s.padc

-- a signed number of `bits` bits
pub put_signed : (bits num : ℕ) → Spec → List ℕ
unfolding put_number
put_signed bits num s =
    if ltb num (2 ^ (bits - 1))
    then put_number num 10 s
    else b'-' ∷ put_number (2 ^ bits - num) 10 s

-- `getint` and the case 'd', `getuint` and the cases of a base
get_signed : Spec → List Arg → Option Put
unfolding put_signed
get_signed s (word w ∷ args) = if leb 2 s.lflag then none else some (puts (put_signed 32 w s) args)
get_signed s (wide w ∷ args) = if leb 2 s.lflag then some (puts (put_signed 64 w s) args) else none
get_signed s args = none

get_unsigned : (base : ℕ) → Spec → List Arg → Option Put
unfolding put_number
get_unsigned base s (word w ∷ args) =
    if leb 2 s.lflag then none else some (puts (put_number w base s) args)
get_unsigned base s (wide w ∷ args) =
    if leb 2 s.lflag then some (puts (put_number w base s) args) else none
get_unsigned base s args = none

get_pointer : Spec → List Arg → Option Put
unfolding put_number
get_pointer s (word w ∷ args) = some (puts (b'0' ∷ b'x' ∷ put_number w 16 s) args)
get_pointer s (null ∷ args) = some (puts (b'0' ∷ b'x' ∷ put_number 0 16 s) args)
get_pointer s args = none

get_char : List Arg → Option Put
get_char (word w ∷ args) = some (puts (w % 2 ^ 8 ∷ []) args)
get_char args = none

get_string : Spec → List Arg → Option Put
unfolding put_string
get_string s (text p ∷ args) = some (puts (put_string s p) args)
get_string s (null ∷ args) = some (puts (put_string s (codes "(null)")) args)
get_string s args = none

-- the calls of `printfmt` for the error `err`
error_text : ℕ → Option (List ℕ)
unfolding put_signed put_string error_string
error_text err = known (error_string err)
  where
    known : Option Prim.Native.String.String → Option (List ℕ)
    known none = some (codes "error " ++ put_signed 32 err no_flags)
    known (some p) = some (put_string no_flags (codes p))

-- the case 'i'; the negation of the least `int` is undefined
get_error : List Arg → Option Put
unfolding error_text
get_error (word w ∷ args) =
    if w == 2 ^ 31 then none else put (error_text (if ltb w (2 ^ 31) then w else 2 ^ 32 - w))
  where
    put : Option (List ℕ) → Option Put
    put none = none
    put (some p) = some (puts p args)
get_error args = none

-- the switch for the character behind the flags
pub converted : Escape → Option Put
unfolding get_signed get_unsigned get_pointer get_char get_string get_error
converted e =
    if e.ch == b'c'
    then get_char e.args
    else if e.ch == b'i'
    then get_error e.args
    else if e.ch == b's'
    then get_string e.spec e.args
    else if e.ch == b'd'
    then get_signed e.spec e.args
    else if e.ch == b'u'
    then get_unsigned 10 e.spec e.args
    else if e.ch == b'o'
    then get_unsigned 8 e.spec e.args
    else if e.ch == b'p'
    then get_pointer e.spec e.args
    else if e.ch == b'x'
    then get_unsigned 16 e.spec e.args
    else if e.ch == b'%'
    then some (puts (b'%' ∷ []) e.args)
    else some unknown

abbrev pub behind : List ℕ → Option (List ℕ) → Option (List ℕ)
behind out none = none
behind out (some p) = some (out ++ p)

-- what an escape puts, in front of what `rest` makes of the text that follows; `fmt` is the text
-- behind '%'
pub put_with :
    Option Put
    → (rest : List ℕ → List Arg → Option (List ℕ)) → Escape
    → (fmt : List ℕ) → Option (List ℕ)
put_with none rest e fmt = none
put_with (some (puts out args)) rest e fmt = behind out (rest e.after args)
put_with (some unknown) rest e fmt = behind (b'%' ∷ []) (rest fmt e.args)

pub escape_with :
    Option Escape → (rest : List ℕ → List Arg → Option (List ℕ)) → (fmt : List ℕ) → Option (List ℕ)
unfolding put_with converted
escape_with none rest fmt = none
escape_with (some e) rest fmt = put_with (converted e) rest e fmt

-- `vprintfmt` on fuel
unfoldable pub format : (fuel : ℕ) → (fmt : List ℕ) → List Arg → Option (List ℕ)
unfolding escape escape_with
format zero fmt args = none
format (suc fuel) [] args = some []
format (suc fuel) (c ∷ fmt) args =
    if c == b'%'
    then escape_with (escape none no_flags args fmt) (λ p rest. format fuel p rest) fmt
    else behind (c ∷ []) (format fuel fmt args)

unfoldable pub vprintfmt : (fmt : List ℕ) → List Arg → Option (List ℕ)
unfolding format
vprintfmt fmt args = format (length fmt + 1) fmt args
