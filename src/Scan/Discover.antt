-- ===== src/Scan/Discover.antt =====
-- The walk over the sources (internal/scan/scan.go). The file system and package path/filepath are
-- parameters; a walk recurses on fuel for the depth of the directories.
use tgup.Prelude.{ℕ, zero, suc, Bool, not, Option, none, some, List, [], ◌∷◌, ◌++◌, if◌then◌else◌}
use tgup.Prelude.Int.{ℤ}
use tgup.Prelude.Text.{Text, codes, text_eq, text_ltb, to_lower, trim_space, has_prefix}
use tgup.Scan.Model.{Kind, Item}
use tgup.Scan.Filter.{text_in, is_empty, build_ext_set, ext_allowed, detect_kind}
use tgup.Plan.Sort.{Sorter, Less}

-- `Options`.
pub record Options : Type 0 where
  pub src : List Text
  pub recursive : Bool
  pub follow_symlinks : Bool
  pub include_ext : List Text
  pub exclude_ext : List Text

-- What the program reads of `fs.FileInfo`.
pub record FileInfo : Type 0 where
  pub is_symlink : Bool
  pub is_dir : Bool
  pub is_regular : Bool
  pub size : ℕ
  pub mtime_ns : ℤ

-- Packages os and path/filepath; a call that fails gives nothing. `rel base target`.
pub record FileSystem : Type 0 where
  pub abs : Text → Option Text
  pub lstat : Text → Option FileInfo
  pub stat : Text → Option FileInfo
  pub eval_symlinks : Text → Option Text
  pub read_dir : Text → Option (List Text)
  pub join : Text → Text → Text
  pub clean : Text → Text
  pub dir : Text → Text
  pub base : Text → Text
  pub ext : Text → Text
  pub rel : Text → Text → Option Text
  pub to_slash : Text → Text

-- Which call failed, and on what.
pub data ScanError : Type 0 where
  resolve_source lstat stat_symlink read_dir resolve_path : Text → ScanError

-- What `seenDirs`, `seenFiles` and `items` hold.
pub record Walk : Type 0 where
  pub seen_dirs : List Text
  pub seen_files : List Text
  pub items : List Item

pub data Walked : Type 0 where
  ok : Walk → Walked
  failed : ScanError → Walked
  out_of_fuel : Walked

unfoldable pub or_else : Option Text → Text → Text
or_else none d = d
or_else (some t) d = t

-- The rest of a scan goes on where the walk so far succeeded.
unfoldable pub and_then : Walked → (Walk → Walked) → Walked
and_then (ok w) k = k w
and_then (failed e) k = failed e
and_then out_of_fuel k = out_of_fuel

-- The root of a source, or why it has none.
pub data Rooted : Type 0 where
  rooted_at : Text → Rooted
  no_root : ScanError → Rooted

module _ (fs : FileSystem) where
  unfoldable pub relative_dir : Text → Option Text → Text
  relative_dir path none = fs.to_slash (fs.base (fs.dir path))
  relative_dir path (some relative) =
      if has_prefix relative (codes "..")
      then fs.to_slash (fs.base (fs.dir path))
      else if text_eq relative (codes ".")
      then []
      else fs.to_slash relative

  -- `parentDir`.
  unfoldable pub parent_dir : Text → Text → Text
  unfolding relative_dir
  parent_dir path root = relative_dir path (fs.rel root (fs.dir path))

  -- The key by which files are told apart.
  unfoldable pub key_from : Text → Option Text → Text
  key_from path none = path
  key_from path (some real) = fs.clean real

  unfoldable pub dedup_key : Text → Text
  unfolding key_from
  dedup_key path = key_from path (fs.eval_symlinks path)

  -- The key by which directories are told apart.
  unfoldable pub dir_key : Options → Text → Text
  unfolding or_else
  dir_key opts path = if opts.follow_symlinks then or_else (fs.eval_symlinks path) path else path

  module _ (opts : Options) (src_root : Text) (include exclude : List Text) where
    unfoldable pub item_at : Text → Kind → FileInfo → Item
    unfolding dedup_key parent_dir
    item_at abs_path kind info = record {
      path = if opts.follow_symlinks then dedup_key abs_path else abs_path;
      src_root = src_root;
      parent_dir = parent_dir (dedup_key abs_path) src_root;
      size = info.size;
      mtime_ns = info.mtime_ns;
      kind = kind;
    }

    unfoldable pub append_at : Kind → FileInfo → Text → Walk → Walk
    unfolding item_at
    append_at kind info abs_path w =
        if text_in (dedup_key abs_path) w.seen_files then w else record w {
          seen_files = dedup_key abs_path ∷ w.seen_files;
          items = w.items ++ item_at abs_path kind info ∷ [];
        }

    unfoldable pub append_resolved : Text → Kind → FileInfo → Option Text → Walk → Walked
    unfolding append_at
    append_resolved path kind info none w = failed (resolve_path path)
    append_resolved path kind info (some abs_path) w = ok (append_at kind info abs_path w)

    unfoldable pub append_kind : Text → FileInfo → Option Kind → Walk → Walked
    unfolding append_resolved
    append_kind path info none w = ok w
    append_kind path info (some kind) w = append_resolved path kind info (fs.abs path) w

    -- `maybeAppendItem`.
    unfoldable pub maybe_append_item : Text → FileInfo → Walk → Walked
    unfolding append_kind
    maybe_append_item path info w =
        let ext = to_lower (fs.ext path) in
        if not info.is_regular
        then ok w
        else if not (ext_allowed ext include exclude)
        then ok w
        else append_kind path info (detect_kind ext) w

    module _ (recurse : Text → Walk → Walked) where
      unfoldable pub visit_info : Text → FileInfo → Walk → Walked
      unfolding maybe_append_item
      visit_info child info w =
          if info.is_dir
          then if opts.recursive then recurse child w else ok w
          else maybe_append_item child info w

      -- The target of a link; a broken one is left out.
      unfoldable pub visit_target : Text → Option FileInfo → Walk → Walked
      unfolding visit_info
      visit_target child none w = ok w
      visit_target child (some info) w = visit_info child info w

      -- The body of the loop over the entries, on what `Lstat` gives.
      unfoldable pub visit : Text → Option FileInfo → Walk → Walked
      unfolding visit_target
      visit child none w = failed (lstat child)
      visit child (some info) w =
          if info.is_symlink
          then if opts.follow_symlinks then visit_target child (fs.stat child) w else ok w
          else visit_info child info w

      unfoldable pub visit_all : Text → List Text → Walk → Walked
      unfolding visit and_then
      visit_all path [] w = ok w
      visit_all path (name ∷ names) w =
          let child = fs.join path name in
          and_then (visit child (fs.lstat child) w) (λ w'. visit_all path names w')

      unfoldable pub visit_entries : Text → Option (List Text) → Walk → Walked
      unfolding visit_all
      visit_entries path none w = failed (read_dir path)
      visit_entries path (some names) w = visit_all path names w

    -- `scanDir`.
    unfoldable pub scan_dir : ℕ → Text → Walk → Walked
    unfolding visit_entries dir_key
    scan_dir zero path w = out_of_fuel
    scan_dir (suc fuel) path w =
        if text_in (dir_key opts path) w.seen_dirs
        then ok w
        else visit_entries (scan_dir fuel) path (fs.read_dir path)
            (record w { seen_dirs = dir_key opts path ∷ w.seen_dirs })

    unfoldable pub scan_info : ℕ → Text → FileInfo → Walk → Walked
    unfolding scan_dir maybe_append_item
    scan_info fuel path info w =
        if info.is_dir then scan_dir fuel path w else maybe_append_item path info w

    unfoldable pub scan_target : ℕ → Text → Option FileInfo → Walk → Walked
    unfolding scan_info
    scan_target fuel path none w = failed (stat_symlink path)
    scan_target fuel path (some info) w = scan_info fuel path info w

    unfoldable pub scan_found : ℕ → Text → Option FileInfo → Walk → Walked
    unfolding scan_target
    scan_found fuel path none w = failed (lstat path)
    scan_found fuel path (some info) w =
        if info.is_symlink
        then if opts.follow_symlinks then scan_target fuel path (fs.stat path) w else ok w
        else scan_info fuel path info w

    -- `scanPath`.
    unfoldable pub scan_path : ℕ → Text → Walk → Walked
    unfolding scan_found
    scan_path fuel path w = scan_found fuel path (fs.lstat path) w

  -- `sourceRoot`, from the kind of the file on.
  unfoldable pub root_of : Bool → Text → FileInfo → Text
  unfolding or_else
  root_of follow source info =
      let root = fs.clean (if info.is_dir then source else fs.dir source) in
      if follow then or_else (fs.eval_symlinks root) root else root

  -- A link stands for its target; a broken one is an error where links are followed.
  unfoldable pub linked_root : Bool → Text → FileInfo → Option FileInfo → Rooted
  unfolding root_of
  linked_root follow source info none =
      if follow then no_root (stat_symlink source) else rooted_at (root_of follow source info)
  linked_root follow source info (some target) = rooted_at (root_of follow source target)

  unfoldable pub found_root : Bool → Text → Option FileInfo → Rooted
  unfolding linked_root
  found_root follow source none = no_root (lstat source)
  found_root follow source (some info) =
      if info.is_symlink
      then linked_root follow source info (fs.stat source)
      else rooted_at (root_of follow source info)

  -- `sourceRoot`.
  unfoldable pub source_root : Text → Bool → Rooted
  unfolding found_root
  source_root source follow = found_root follow source (fs.lstat source)

  module _ (opts : Options) (fuel : ℕ) where
    unfoldable pub scan_rooted : Text → Rooted → Walk → Walked
    unfolding scan_path build_ext_set
    scan_rooted abs_source (no_root e) w = failed e
    scan_rooted abs_source (rooted_at r) w =
        scan_path opts r (build_ext_set opts.include_ext) (build_ext_set opts.exclude_ext) fuel
          abs_source w

    unfoldable pub scan_source : Text → Option Text → Walk → Walked
    unfolding scan_rooted source_root
    scan_source source none w = failed (resolve_source source)
    scan_source source (some abs_source) w =
        scan_rooted abs_source (source_root abs_source opts.follow_symlinks) w

    -- The loop over the sources.
    unfoldable pub scan_sources : List Text → Walk → Walked
    unfolding scan_source is_empty and_then
    scan_sources [] w = ok w
    scan_sources (src ∷ srcs) w =
        let source = trim_space src in
        if is_empty source
        then scan_sources srcs w
        else and_then (scan_source source (fs.abs source) w) (λ w'. scan_sources srcs w')

-- What `Discover` returns.
pub data Discovered : Type 0 where
  found : List Item → Discovered
  scan_failed : ScanError → Discovered
  endless : Discovered

abbrev pub less_path : Less
less_path a b = text_ltb a.path b.path

unfoldable pub sorted_items : Sorter → Walked → Discovered
sorted_items sorter (ok w) = found (sorter.sort less_path w.items)
sorted_items sorter (failed e) = scan_failed e
sorted_items sorter out_of_fuel = endless

abbrev pub empty_walk : Walk
empty_walk = record { seen_dirs = []; seen_files = []; items = [] }

-- `Discover`. Without sources it returns no items, as the loop over none does.
unfoldable pub discover : FileSystem → Sorter → ℕ → Options → Discovered
unfolding scan_sources sorted_items is_empty
discover fs sorter fuel opts =
    if is_empty opts.src
    then found []
    else sorted_items sorter (scan_sources fs opts fuel opts.src empty_walk)
