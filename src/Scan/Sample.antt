-- ===== src/Scan/Sample.antt =====
-- A file system for tests: a directory with a picture, a text, and a link to itself.
use Prim.Native.String.{String}
use tgup.Prelude.{Bool, true, false, Option, none, some, List, [], ◌∷◌, ◌++◌, if◌then◌else◌, ◌||◌}
use tgup.Prelude.Int.{pos}
use tgup.Prelude.Text.{Text, codes, text_eq, has_prefix}
use tgup.Scan.Discover.{FileInfo, FileSystem}

abbrev pub info : Bool → Bool → FileInfo
info link directory = record {
  is_symlink = link;
  is_dir = directory;
  is_regular = if link then false else if directory then false else true;
  size = 5;
  mtime_ns = pos 7;
}

abbrev pub is_one : Text → String → Bool
is_one path name = text_eq path (codes name)

-- The extension of the paths that occur here.
abbrev pub extension : Text → Text
extension path =
    if is_one path "/m/a.jpg"
    then codes ".jpg"
    else if is_one path "/m/n.txt"
    then codes ".txt"
    else []

abbrev pub names : Text → Option (List Text)
names path =
    if is_one path "/m" || is_one path "/m/up"
    then some (codes "up" ∷ codes "n.txt" ∷ codes "a.jpg" ∷ [])
    else none

abbrev pub disk : FileSystem
disk = record {
  abs = λ path. if has_prefix path (codes "/") then some path else none;
  lstat = λ path. some (info (is_one path "/m/up") (is_one path "/m"));
  stat = λ path. some (info false (is_one path "/m" || is_one path "/m/up"));
  eval_symlinks = λ path. some (if is_one path "/m/up" then codes "/m" else path);
  read_dir = names;
  join = λ dir name. dir ++ codes "/" ++ name;
  clean = λ path. path;
  dir = λ path. codes "/m";
  base = λ path. codes "m";
  ext = extension;
  rel = λ base target. if text_eq base target then some (codes ".") else none;
  to_slash = λ path. path;
}
