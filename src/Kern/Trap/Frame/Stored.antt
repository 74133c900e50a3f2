-- ===== src/Kern/Trap/Frame/Stored.antt =====
-- What the words of a `struct UTrapframe` change in memory, where they fit one page.
use oscourse.Base.{
  ℕ, suc, ◌+◌, ◌-◌, ◌*◌, ◌/◌, ◌%◌, ◌^◌, ◌≤◌, ◌≡◌, ◌≢◌, refl, sym, ap, ◌∙◌, inl, inr, true, ◌&&◌,
  some, List, [], ◌∷◌, length, get_or, leb, ltb, ◌==◌, ==_iff, if◌then◌else◌, arith, Bool-cases,
  update,
}
use oscourse.Kern.Pmap.{Phys, set_word}
use oscourse.Kern.Paging.{pdx, ptx, pgnum, pgoff}
use oscourse.Kern.Trap.Frame.{lets_write, write_frame, then_store, store_at, word_in, store_words}

-- The page of the address `a` is writable, and in frame `f`, which is neither the directory nor the
-- table of that address.
pub record IsWritable (m : Phys) (pd a f : ℕ) : Type 0 where
  pub table : ℕ
  pub frame : pgnum (m.words pd (pdx a)) ≡ table
  pub directory_lets : lets_write (m.words pd (pdx a)) ≡ true
  pub table_lets : lets_write (m.words table (ptx a)) ≡ true
  pub page : pgnum (m.words table (ptx a)) ≡ f
  pub no_directory : pd ≢ f
  pub no_table : table ≢ f

-- the words of frame `f` from index `i` on are set
abbrev pub stored : (f i : ℕ) → List ℕ → Phys → Phys
stored f i [] m = m
stored f i (v ∷ vs) m = stored f (i + 1) vs (set_word m f i v)

write_frame-IsWritable :
    (m : Phys) (pd a va f : ℕ)
    → IsWritable m pd a f
    → va / 2 ^ 12 ≡ a / 2 ^ 12
    → write_frame pd va m ≡ some f
unfolding write_frame
write_frame-IsWritable m pd a va f w same =
    let d : pdx va ≡ pdx a = omega arith in
    let t : ptx va ≡ ptx a = omega arith in
    rw (d, t, w.frame, w.directory_lets, w.table_lets) (ap some w.page)

-- A store to the page leaves the entries as they are.
set_word-IsWritable :
    (m : Phys) (pd a f i v : ℕ) → IsWritable m pd a f → IsWritable (set_word m f i v) pd a f
unfolding update
set_word-IsWritable m pd a f i v w =
    let d : (set_word m f i v).words pd (pdx a) ≡ m.words pd (pdx a) =
      ground (arith, w.no_directory) in
    let t : (set_word m f i v).words w.table (ptx a) ≡ m.words w.table (ptx a) =
      ground (arith, w.no_table) in
    record {
      table = w.table;
      frame = ap pgnum d ∙ w.frame;
      directory_lets = ap lets_write d ∙ w.directory_lets;
      table_lets = ap lets_write t ∙ w.table_lets;
      page = ap pgnum t ∙ w.page;
      no_directory = w.no_directory;
      no_table = w.no_table;
    }

store_at-IsWritable :
    (m : Phys) (pd a va f v : ℕ)
    → IsWritable m pd a f
    → va / 2 ^ 12 ≡ a / 2 ^ 12
    → va % 4 ≡ 0
    → store_at pd va v m ≡ some (set_word m f (pgoff va / 4) v)
unfolding store_at word_in
store_at-IsWritable m pd a va f v w same aligned =
    rw aligned (ap (λ o. word_in o va v m) (write_frame-IsWritable m pd a va f w same))

pub store_words-stored :
    (vs : List ℕ) (m : Phys) (pd a va f : ℕ)
    → IsWritable m pd a f
    → a / 2 ^ 12 * 2 ^ 12 ≤ va
    → va + 4 * length vs ≤ a / 2 ^ 12 * 2 ^ 12 + 2 ^ 12
    → va % 4 ≡ 0
    → store_words pd va vs m ≡ some (stored f (pgoff va / 4) vs m)
unfolding store_words
store_words-stored [] m pd a va f w low high aligned = refl
store_words-stored (v ∷ vs) m pd a va f w low high aligned =
    let same : va / 2 ^ 12 ≡ a / 2 ^ 12 = omega arith in
    let m' = set_word m f (pgoff va / 4) v in
    ap (λ o. then_store o (store_words pd (va + 4) vs))
      (store_at-IsWritable m pd a va f v w same aligned)
    ∙ store_words-stored vs m' pd a (va + 4) f (set_word-IsWritable m pd a f (pgoff va / 4) v w)
        (omega arith) (omega arith) (omega arith)
    ∙ next_index vs va f m' low high aligned
  where
    next_index :
        (vs : List ℕ) (va f : ℕ) (m : Phys)
        → a / 2 ^ 12 * 2 ^ 12 ≤ va
        → va + 4 * suc (length vs) ≤ a / 2 ^ 12 * 2 ^ 12 + 2 ^ 12
        → va % 4 ≡ 0
        → some (stored f (pgoff (va + 4) / 4) vs m) ≡ some (stored f (pgoff va / 4 + 1) vs m)
    next_index [] va f m low high aligned = refl
    next_index (v ∷ vs) va f m low high aligned =
        let e : pgoff (va + 4) / 4 ≡ pgoff va / 4 + 1 = omega arith in
        ap (λ i. some (stored f i (v ∷ vs) m)) e

get_or-suc :
    (v : ℕ) (vs : List ℕ) (i k : ℕ)
    → i + 1 ≤ k
    → get_or vs (k - (i + 1)) 0 ≡ get_or (v ∷ vs) (k - i) 0
get_or-suc v vs i k h =
    let e : k - i ≡ suc (k - (i + 1)) = omega arith in sym (ap (λ n. get_or (v ∷ vs) n 0) e)

one_more :
    (v : ℕ) (vs : List ℕ) (m : Phys) (f i g k : ℕ)
    → (if (g == f) && (leb (i + 1) k && ltb k (i + 1 + length vs))
        then get_or vs (k - (i + 1)) 0
        else (set_word m f i v).words g k)
      ≡ (if (g == f) && (leb i k && ltb k (i + suc (length vs)))
          then get_or (v ∷ vs) (k - i) 0
          else m.words g k)
unfolding update
one_more v vs m f i g k = elim (Bool-cases (g == f)) [
  | inr other ↦ ground (arith, other)
  | inl this ↦ elim (Bool-cases (leb (i + 1) k)) [
    | inl behind ↦
        let later : i + 1 ≤ k = ground (arith, behind) in
        ground (arith, this, behind, get_or-suc v vs i k later)
    | inr before ↦ elim (Bool-cases (k == i)) [
      | inl here ↦
          let e : k ≡ i = (==_iff k i).0 here in
          let z : k - i ≡ 0 = omega arith in
          let got : get_or (v ∷ vs) (k - i) 0 ≡ v = ap (λ n. get_or (v ∷ vs) n 0) z in
          ground (arith, this, before, here, got)
      | inr other ↦ ground (arith, this, before, other)
    ]
  ]
]

-- The words at the indices from `i` on of frame `f` are those stored, and no other word changes.
pub stored-words :
    (vs : List ℕ) (m : Phys) (f i g k : ℕ)
    → (stored f i vs m).words g k ≡ (
        if (g == f) && (leb i k && ltb k (i + length vs)) then get_or vs (k - i) 0 else m.words g k)
stored-words [] m f i g k = ground arith
stored-words (v ∷ vs) m f i g k =
    stored-words vs (set_word m f i v) f (i + 1) g k ∙ one_more v vs m f i g k

pub stored-pages : (vs : List ℕ) (m : Phys) (f i : ℕ) → (stored f i vs m).pages ≡ m.pages
stored-pages [] m f i = refl
stored-pages (v ∷ vs) m f i = stored-pages vs (set_word m f i v) f (i + 1)

pub stored-page_free_list :
    (vs : List ℕ) (m : Phys) (f i : ℕ) → (stored f i vs m).page_free_list ≡ m.page_free_list
stored-page_free_list [] m f i = refl
stored-page_free_list (v ∷ vs) m f i = stored-page_free_list vs (set_word m f i v) f (i + 1)
