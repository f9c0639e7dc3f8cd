-- ===== src/Base/Paths.antt =====
-- Go's path/filepath on Unix: Clean, IsAbs, Dir, Base and Join, on the parts between slashes.
use firework.Base.Tests.{if◌then◌else◌}
use Prim.Native.String.{String, ◌++◌ as str_append}
use mathlib.Core.Path.{◌≡◌, refl}
use mathlib.Core.Bool.{Bool, ◌&&◌, ◌||◌, not}
use mathlib.Core.List.{List, [], ◌∷◌}
use text.Mathlib.Text.{◌==◌, starts_with}
use firework.Base.Text.{split_on}

-- The parts that Clean keeps, the last first.
abbrev pub clean_part : Bool → String → List String → List String
clean_part rooted part [] =
    if (part == "") || (part == ".") || ((part == "..") && rooted) then [] else part ∷ []
clean_part rooted part (top ∷ kept) =
    if (part == "") || (part == ".")
    then top ∷ kept
    else if (part == "..") && not (top == "..")
    then kept
    else part ∷ top ∷ kept

unfoldable pub clean_parts : Bool → List String → List String → List String
clean_parts rooted [] kept = kept
clean_parts rooted (part ∷ parts) kept = clean_parts rooted parts (clean_part rooted part kept)

-- The parts, the last first, joined by slashes before a text.
unfoldable pub join_parts : List String → String → String
join_parts [] s = s
join_parts (part ∷ []) s = str_append part s
join_parts (part ∷ next ∷ parts) s = join_parts (next ∷ parts) (str_append "/" (str_append part s))

abbrev pub is_abs : String → Bool
is_abs path = starts_with path "/"

-- filepath.Clean
unfoldable pub clean_path : String → String
unfolding clean_parts join_parts split_on
clean_path path =
    let rooted = is_abs path in
    let joined = join_parts (clean_parts rooted (split_on 47 path) []) "" in
    if rooted then str_append "/" joined else if joined == "" then "." else joined

-- What stands before the last slash, with it.
unfoldable pub before_last : List String → String
before_last [] = ""
before_last (part ∷ []) = ""
before_last (part ∷ next ∷ parts) = str_append part (str_append "/" (before_last (next ∷ parts)))

-- filepath.Dir
unfoldable pub dir_path : String → String
unfolding clean_path before_last
dir_path path = clean_path (before_last (split_on 47 path))

unfoldable pub last_part : List String → String → String
last_part [] found = found
last_part (part ∷ parts) found = last_part parts (if part == "" then found else part)

-- filepath.Base
unfoldable pub base_path : String → String
unfolding last_part split_on
base_path path = if path == "" then "." else last_part (split_on 47 path) "/"

-- filepath.Join of two parts
unfoldable pub join_path : String → String → String
unfolding clean_path
join_path dir name =
    if dir == ""
    then (if name == "" then "" else clean_path name)
    else if name == ""
    then clean_path dir
    else clean_path (str_append dir (str_append "/" name))

directory : dir_path "/var/lib/images/kibana.ext4" ≡ "/var/lib/images"
unfolding dir_path
directory = refl

base : base_path "/var/lib/images/kibana.ext4" ≡ "kibana.ext4"
unfolding base_path
base = refl

cleaned : clean_path "/var//lib/./x/../y/" ≡ "/var/lib/y"
unfolding clean_path
cleaned = refl

cleaned_root : clean_path "/../.." ≡ "/"
unfolding clean_path
cleaned_root = refl

cleaned_relative : clean_path "a/../../b" ≡ "../b"
unfolding clean_path
cleaned_relative = refl

cleaned_empty : clean_path "" ≡ "."
unfolding clean_path
cleaned_empty = refl
