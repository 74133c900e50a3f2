-- ===== src/User/Memory/Tests.antt =====
-- Moving bytes and words of memory over themselves.
use oscourse.Base.{◌+◌, ◌≡◌, refl, update}
use oscourse.User.Memory.{Memory, memmove, move_word}
use oscourse.User.Memory.Move.{moved, memmove-moved}

abbrev bytes : Memory
bytes j = j + 100

-- two words by one word upwards, and three bytes by one
memmove-moved_example : memmove 12 8 8 bytes 17 ≡ moved 8 8 12 bytes 17
memmove-moved_example = memmove-moved 12 8 8 bytes 17

moved_words_test : memmove 12 8 8 bytes 17 ≡ 113
unfolding memmove move_word update
moved_words_test = refl

moved_bytes_test : memmove 11 10 3 bytes 12 ≡ 111
unfolding memmove update
moved_bytes_test = refl
