-- ===== src/FileSize.antt =====
-- Sizes for the reader: `humanFileSize` of resources/static/app.js with its default arguments,
-- units of 1024 and one decimal place.
pub mod Rounded
pub mod Rounds
mod Tests
use Prim.Native.String.{String}
use photo_blog.Base.{ℕ, ◌+◌, ◌*◌, ◌/◌, Bool, List, [], ◌∷◌, ltb, leb, if◌then◌else◌}

-- `bytes + ' B'`, or `bytes.toFixed(1) + ' ' + unit` with a number of tenths. The quotients by
-- powers of two are exact, and so is ten times a quotient of a size below 2 ^ 49.
pub data Size : Type 0 where
  in_bytes : ℕ → Size
  scaled : (tenths : ℕ) (unit : String) → Size

-- `Math.round(10 * n / d)`, which `toFixed` prints, too.
abbrev pub tenths : (n d : ℕ) → ℕ
tenths n d = (20 * n + d) / (2 * d)

-- The loop: `n / d` is the number of bytes before another division, `unit` the next unit.
unfoldable pub divide : (n d : ℕ) (unit : String) (more : List String) → Size
divide n d unit [] = scaled (tenths n (d * 1024)) unit
divide n d unit (next ∷ more) =
    let rest = divide n (d * 1024) next more in
    if leb 10240 (tenths n (d * 1024)) then rest else scaled (tenths n (d * 1024)) unit

abbrev pub larger_units : List String
larger_units = "MiB" ∷ "GiB" ∷ "TiB" ∷ "PiB" ∷ "EiB" ∷ "ZiB" ∷ "YiB" ∷ []

unfoldable pub human_file_size : ℕ → Size
unfolding divide
human_file_size bytes = if ltb bytes 1024 then in_bytes bytes else divide bytes 1 "KiB" larger_units
