-- ===== src/Fs/Path/Tests.antt =====
-- The theorems on directories and paths at a root directory of one block, whose second entry is a
-- file named "ab".
use oscourse.Base.{ℕ, ◌≡◌, refl, none, some, List, [], ◌∷◌, ◌&&◌, ◌==◌, if◌then◌else◌}
use oscourse.User.Strings.{strcmp}
use oscourse.Fs.Bitmap.{Disk}
use oscourse.Fs.Bytes.{byte_at}
use oscourse.Fs.File.{ok, file_get_block, file_block_walk}
use oscourse.Fs.Dir.{Place, root, entry, Fs, dir_lookup, string_at, load}
use oscourse.Fs.Path.{walk_path}
use oscourse.Fs.Path.Components.{components, walk_names, walk_path-components}

abbrev disk : Disk
disk = record {
  s_nblocks = 40;
  blocks = λ b i. if (b == 6) && (i == 64) then 25185 else 0;
  stored = λ b i. 0;
}

abbrev fs : Fs
fs = record {
  disk = disk;
  s_root = record {
    f_size = 4096;
    f_type = 1;
    f_direct = λ i. if i == 0 then 6 else 0;
    f_indirect = 0;
  };
}

abbrev ab : List ℕ
ab = 97 ∷ 98 ∷ []

lookup_ab : dir_lookup root ab fs ≡ some (ok (entry 6 1), fs)
unfolding dir_lookup string_at byte_at file_get_block file_block_walk load strcmp
    oscourse.Fs.Dir.save
lookup_ab = refl

-- the path "//ab/"
abbrev path : List ℕ
path = 47 ∷ 47 ∷ 97 ∷ 98 ∷ 47 ∷ []

walk_path-components_example : walk_path path fs ≡ walk_names none root (ab ∷ []) fs
unfolding components
walk_path-components_example = walk_path-components path fs
