-- ===== src/FileSize/Tests.antt =====
-- Sizes at the borders of the units.
use photo_blog.Base.{◌<◌, ◌≤◌, ◌≡◌, ◌⊎◌, refl, ◌∷◌, some, arith}
use photo_blog.FileSize.{in_bytes, scaled, larger_units, human_file_size}
use photo_blog.FileSize.Rounds.{loop, all_units, loop-human_file_size}
use photo_blog.FileSize.Rounded.{Fits, human_file_size-Fits}

kibibyte : human_file_size 1024 ≡ scaled 10 "KiB"
unfolding human_file_size
kibibyte = refl

-- 1023.95 KiB is 1.0 MiB, a byte less is 1023.9 KiB.
border :
    (human_file_size 1048525 ≡ scaled 10 "MiB") × (human_file_size 1048524 ≡ scaled 10239 "KiB")
unfolding human_file_size
border = (refl, refl)

human_file_size-Fits_example :
    ((3500000 < 1024) × (human_file_size 3500000 ≡ in_bytes 3500000))
    ⊎ ((1024 ≤ 3500000) × Fits 3500000 1 ("KiB" ∷ larger_units) (human_file_size 3500000))
human_file_size-Fits_example = human_file_size-Fits 3500000

loop-human_file_size_example : loop all_units 9 3500000 1 0 ≡ some (human_file_size 3500000)
loop-human_file_size_example = loop-human_file_size 3500000 9 (omega arith) (omega arith)
