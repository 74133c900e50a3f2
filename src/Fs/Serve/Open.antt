-- ===== src/Fs/Serve/Open.antt =====
-- What the table of open files hands out, and which identifiers it accepts.
use oscourse.Base.{
  ℕ, zero, suc, ◌+◌, ◌%◌, ◌^◌, ◌≤◌, ◌<◌, ◌⊎◌, inl, inr, Bool, true, false, not, ◌&&◌, Option, none,
  some, ltb, ◌==◌, if◌then◌else◌, update, update_self, update_ne, ◌≡◌, refl, sym, ap, subst, ◌∙◌,
  arith, Bool-cases, ltb→lt, ==_refl,
}
use oscourse.User.Fd.{Fd}
use oscourse.Fs.File.{Error, inval, max_open, negative, ok, err}
use oscourse.Fs.Serve.{
  OpenFile, Server, maxopen, file_page, init_from, serve_init, new_fileid, fileid_result,
  take_entry, Opening, try_entry, open_rounds, openfile_alloc, openfile_lookup,
}

-- Entry `i` has an identifier that names it, and its own page.
pub record IsEntry (t : ℕ → OpenFile) (i : ℕ) : Type 0 where
  pub fileid : (t i).o_fileid % maxopen ≡ i
  pub fits : (t i).o_fileid < 2 ^ 32
  pub page : (t i).o_fd ≡ file_page + i

-- the pages of the entries `i`, `i + 1`, ..., `n` of them, are all shared with a client
pub all_shared : (n i : ℕ) → Server → Bool
all_shared zero i s = true
all_shared (suc n) i s = ltb 1 (s.refs (s.opentab i).o_fd) && all_shared n (i + 1) s

-- the server when a client has mapped the page of entry `i`
abbrev pub share : ℕ → Server → Server
share i s = record s { refs = update s.refs (s.opentab i).o_fd 2 }

-- Entry `i`, which no client shared, is opened: it gets a new identifier, which resolves once a
-- client has mapped the page, when its former identifier does not. The identifier is returned, with
-- the entry, if it is not negative as an `int`; otherwise the caller is told of an error.
pub record Opened (s : Server) (i : ℕ) (r : Opening) : Type 0 where
  pub unshared : s.refs (s.opentab i).o_fd ≤ 1
  pub returned : r.0 ≡ (
      if ltb (new_fileid i s) (2 ^ 31)
      then ok (new_fileid i s, i)
      else err (negative (new_fileid i s)))
  pub resolves : openfile_lookup (new_fileid i s) (share i r.1) ≡ ok i
  pub stale : openfile_lookup (s.opentab i).o_fileid (share i r.1) ≡ err inval

-- Entry `i` has no page, and the kernel refuses one: the error is returned and nothing changes.
pub record Refused (s : Server) (i : ℕ) (refused : Option Error) (r : Opening) : Type 0 where
  pub error : Error
  pub no_page : s.refs (s.opentab i).o_fd ≡ 0
  pub refusal : refused ≡ some error
  pub reported : r ≡ (err error, s)

abbrev pub Taken : Server → (i : ℕ) → Option Error → Opening → Type 0
Taken s i refused r = Opened s i r ⊎ Refused s i refused r

openfile_lookup-shared :
    (t : Server) (i id now : ℕ)
    → id % maxopen ≡ i
    → t.refs (t.opentab i).o_fd ≡ 2
    → (t.opentab i).o_fileid ≡ now
    → openfile_lookup id t ≡ (if now == id then ok i else err inval)
unfolding openfile_lookup
openfile_lookup-shared t i id now e two same = rw (e, two, same) (chosen (now == id))
  where
    chosen : (b : Bool) → (if not b then err inval else ok i) ≡ (if b then ok i else err inval)
    chosen true = refl
    chosen false = refl

-- a server in which entry `i` has got its new identifier
module _ (s : Server) (i : ℕ) (refs : ℕ → ℕ) (fds : ℕ → Fd) where
  abbrev renamed : Server
  renamed = record {
    opentab = update s.opentab i (record (s.opentab i) { o_fileid = new_fileid i s });
    refs = refs;
    fds = fds;
  }

  renamed_lookup :
      (id : ℕ)
      → id % maxopen ≡ i
      → openfile_lookup id (share i renamed) ≡ (if new_fileid i s == id then ok i else err inval)
  renamed_lookup id e =
      openfile_lookup-shared (share i renamed) i id (new_fileid i s) e
        (update_self refs (renamed.opentab i).o_fd 2)
        (ap (λ f. f.o_fileid)
          (update_self s.opentab i (record (s.opentab i) { o_fileid = new_fileid i s })))

  renamed-Opened :
      IsEntry s.opentab i
      → s.refs (s.opentab i).o_fd ≤ 1
      → Opened s i (fileid_result (new_fileid i s) i, renamed)
  renamed-Opened e low =
      let next : new_fileid i s % maxopen ≡ i = omega (arith, e.fileid) in
      let differ : (new_fileid i s == (s.opentab i).o_fileid) ≡ false = ground (arith, e.fits) in
      record {
        unshared = low;
        returned = refl;
        resolves = renamed_lookup (new_fileid i s) next ∙ rw (==_refl (new_fileid i s)) refl;
        stale = renamed_lookup (s.opentab i).o_fileid e.fileid ∙ rw differ refl;
      }

try_entry-Taken :
    (s : Server) (i n : ℕ) (refused : Option Error) (rest : Opening)
    → IsEntry s.opentab i
    → s.refs (s.opentab i).o_fd ≡ n
    → n ≤ 1
    → Taken s i refused (try_entry refused i n rest s)
unfolding try_entry take_entry
try_entry-Taken s i zero none rest e same low = inl (renamed-Opened s i _ _ e (omega arith))
try_entry-Taken s i zero (some error) rest e same low =
    inr (record { error = error; no_page = same; refusal = refl; reported = refl })
try_entry-Taken s i (suc zero) refused rest e same low =
    inl (renamed-Opened s i _ _ e (omega arith))
try_entry-Taken s i (suc (suc n)) refused rest e same low = absurd (omega arith)

try_entry-shared :
    (refused : Option Error) (i n : ℕ) (rest : Opening) (s : Server)
    → 1 < n
    → try_entry refused i n rest s ≡ rest
unfolding try_entry
try_entry-shared refused i zero rest s h = absurd (omega arith)
try_entry-shared refused i (suc zero) rest s h = absurd (omega arith)
try_entry-shared refused i (suc (suc n)) rest s h = refl

-- What the rounds from `i` on come to: the entry `d` after `i`, the first that no client shares, is
-- opened or refused a page, or there is none.
abbrev pub Outcome : (ℕ → Option Error) → (n i : ℕ) → Server → Opening → Type 0
Outcome refuses n i s r =
    ((d : ℕ) × (d < n)
      × (all_shared d i s ≡ true)
      × Taken s (i + d) (refuses (s.opentab (i + d)).o_fd) r)
    ⊎ ((all_shared n i s ≡ true) × (r ≡ (err max_open, s)))

module _ (refuses : ℕ → Option Error) (s : Server)
    (entries : (i : ℕ) → IsEntry s.opentab (i % maxopen)) where
  abbrev TakenAt : (n i k : ℕ) → Type 0
  TakenAt n i k = Taken s k (refuses (s.opentab k).o_fd) (open_rounds refuses n i s)

  open_rounds-Outcome :
      (n i : ℕ) → i + n ≤ maxopen → Outcome refuses n i s (open_rounds refuses n i s)
  unfolding open_rounds all_shared
  open_rounds-Outcome zero i fits = inr (refl, refl)
  open_rounds-Outcome (suc n) i fits = elim (Bool-cases (ltb 1 (s.refs (s.opentab i).o_fd))) [
    | inr e ↦
        let z : i + 0 ≡ i = omega arith in
        let m : i % maxopen ≡ i = omega arith in
        inl (
          0,
          omega arith,
          refl,
          subst (TakenAt (suc n) i) (sym z) (
              try_entry-Taken s i (s.refs (s.opentab i).o_fd) (refuses (s.opentab i).o_fd)
                (open_rounds refuses n (i + 1) s) (subst (IsEntry s.opentab) m (entries i)) refl
                (ground arith)),
        )
    | inl e ↦
        let next =
          try_entry-shared (refuses (s.opentab i).o_fd) i (s.refs (s.opentab i).o_fd)
            (open_rounds refuses n (i + 1) s) s (ltb→lt 1 _ e) in
        elim (open_rounds-Outcome n (i + 1) (omega arith)) [
          | inl (d, lt, used, o) ↦
              let z : i + 1 + d ≡ i + suc d = omega arith in
              inl (
                suc d,
                omega arith,
                rw (e, used) refl,
                subst (TakenAt (suc n) i) z (
                    subst (Taken s (i + 1 + d) (refuses (s.opentab (i + 1 + d)).o_fd)) (sym next)
                      o),
              )
          | inr (used, o) ↦ inr (rw (e, used) refl, next ∙ o)
        ]
  ]

  -- If every entry has an identifier that names it and its own page, `openfile_alloc` takes the first
  -- entry that no client shares. If that entry has no page and the kernel refuses it one, the error is
  -- returned and nothing changes. Otherwise the entry gets a new identifier, which resolves once a
  -- client has mapped the page, when its former one does not; the new identifier is returned if it is
  -- below 2^31, and otherwise, as an `int`, it is a result below 0. If clients share all MAXOPEN
  -- entries, -E_MAX_OPEN is returned and nothing changes.
  pub openfile_alloc-Outcome :
      ((d : ℕ) × (d < maxopen)
        × (all_shared d 0 s ≡ true)
        × Taken s d (refuses (s.opentab d).o_fd) (openfile_alloc refuses s))
      ⊎ ((all_shared maxopen 0 s ≡ true) × (openfile_alloc refuses s ≡ (err max_open, s)))
  unfolding openfile_alloc
  openfile_alloc-Outcome = elim (open_rounds-Outcome maxopen 0 (omega arith)) [
    | inl (d, lt, used, o) ↦
        let z : 0 + d ≡ d = omega arith in inl (d, lt, used, subst (TakenAt maxopen 0) z o)
    | inr r ↦ inr r
  ]

init_from-before : (n i k : ℕ) (t : ℕ → OpenFile) → k < i → init_from n i t k ≡ t k
unfolding init_from
init_from-before zero i k t h = refl
init_from-before (suc n) i k t h =
    init_from-before n (i + 1) k (update t i (record (t i) { o_fileid = i; o_fd = file_page + i }))
      (omega arith)
    ∙ update_ne t i k (record (t i) { o_fileid = i; o_fd = file_page + i }) (λ e. omega arith)

IsEntry-initial :
    (t : ℕ → OpenFile) (i : ℕ) (f : OpenFile)
    → i < maxopen
    → t i ≡ record f { o_fileid = i; o_fd = file_page + i }
    → IsEntry t i
IsEntry-initial t i f h e =
    let id : (t i).o_fileid ≡ i = ap (λ g. g.o_fileid) e in
    record { fileid = omega arith; fits = omega arith; page = ap (λ g. g.o_fd) e }

init_from-IsEntry :
    (n i k : ℕ) (t : ℕ → OpenFile) → i ≤ k → k < i + n → k < maxopen → IsEntry (init_from n i t) k
unfolding init_from
init_from-IsEntry zero i k t from below inside = absurd (omega arith)
init_from-IsEntry (suc n) i k t from below inside = elim (Bool-cases (k == i)) [
  | inl e ↦
      let at : i ≡ k = ground arith in
      subst (IsEntry (init_from (suc n) i t)) at (
        IsEntry-initial (init_from (suc n) i t) i (t i) (omega arith) (
          init_from-before n (i + 1) i
            (update t i (record (t i) { o_fileid = i; o_fd = file_page + i })) (omega arith)
          ∙ update_self t i (record (t i) { o_fileid = i; o_fd = file_page + i })))
  | inr e ↦
      let next : i + 1 ≤ k = ground arith in
      init_from-IsEntry n (i + 1) k
        (update t i (record (t i) { o_fileid = i; o_fd = file_page + i })) next (omega arith) inside
]

-- After `serve_init` every entry has its index as identifier, and its own page.
pub serve_init-IsEntry : (s : Server) (i : ℕ) → IsEntry (serve_init s).opentab (i % maxopen)
unfolding serve_init
serve_init-IsEntry s i =
    init_from-IsEntry maxopen 0 (i % maxopen) s.opentab (omega arith) (omega arith) (omega arith)
