-- ===== src/User/Fork/Tests.antt =====
-- Copy-on-write where the parent may write its page 5, which is frame 7, and frame 9 is free.
use oscourse.Base.{◌≡◌, refl, true, false, none, some, [], ◌∷◌, arith, ◌==◌, if◌then◌else◌, update}
use oscourse.User.Fork.{parent, child, Pte, Machine, dup_entry, store, seen}
use oscourse.User.Fork.Isolation.{dup_entry-isolates}

abbrev page : Pte
page = record { frame = 7; writable = true; cow = false; shared = false }

abbrev machine : Machine
machine = record {
  of_parent = λ pn. if pn == 5 then some page else none;
  of_child = λ pn. none;
  memory = λ f i. f;
  free_pages = 9 ∷ [];
}

dup_entry-isolates_example :
    (m' m'' : Machine) × (dup_entry false 5 page machine ≡ some m')
    × (store child 5 3 100 m' ≡ some m'')
    × (seen child 5 m'' ≡ some (update (λ i. 7) 3 100))
    × (seen parent 5 m'' ≡ some (λ i. 7))
dup_entry-isolates_example =
    dup_entry-isolates child 5 3 100 9 [] page machine refl refl refl (λ e. omega arith)
