-- ===== src/Album/Screen.antt =====
-- The styles for narrow screens that resources/static/album.js adds to a page when it is read.
use Prim.Native.String.{String}
use photo_blog.Base.{ℕ, ◌==◌, ltb, ◌||◌, Option, none, some, if◌then◌else◌}
use photo_blog.Results.{◌+s◌}

-- The text of the style element, if one is added; `decimal` is the text of a number.
unfoldable narrow_styles : (decimal : ℕ → String) (screen_width : ℕ) → Option String
narrow_styles decimal screen_width =
    if ltb 576 screen_width || screen_width == 0
    then none
    else some (
        "\n@media screen and (orientation:portrait) {\n    .main {\n        margin-left: 0;\n        margin-right: 0;\n    }\n    .thumb, a.image, .chrono-text {\n        width: "
        +s decimal screen_width
        +s "px;\n        height: fit-content;\n    }\n}\n")
